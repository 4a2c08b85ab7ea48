-- ===== src/App/Riffle.antt =====
-- ui/dist/Main.js, `_dippynark$elm$Cast_Helpers$…`: the odd and even elements against positions,
-- and against the riffle of two lists.
use kubecast.Common.{ℕ, zero, suc, ◌+◌, ◌*◌, ◌%◌, List, [], ◌∷◌, ◌≡◌, refl, arith, get_elem?}
use kubecast.App.Helpers.{odd_elements_, odd_elements, even_elements_, even_elements}

two_suc : (i : ℕ) → 2 * suc i ≡ suc (suc (2 * i))
two_suc i = omega arith

module _ {ℓ} {A : Type ℓ} where
  -- At an odd index the next element is kept by one and dropped by the other, and so on in turn.
  pub odd_step :
      (x : A) (xs : List A) (index : ℕ)
      → index % 2 ≡ 1
      → odd_elements_ (x ∷ xs) index ≡ x ∷ odd_elements_ xs (index + 1)
  unfolding odd_elements_
  odd_step x xs index h = ground arith

  pub odd_skip :
      (x : A) (xs : List A) (index : ℕ)
      → index % 2 ≡ 0
      → odd_elements_ (x ∷ xs) index ≡ odd_elements_ xs (index + 1)
  unfolding odd_elements_
  odd_skip x xs index h = ground arith

  pub even_step :
      (x : A) (xs : List A) (index : ℕ)
      → index % 2 ≡ 0
      → even_elements_ (x ∷ xs) index ≡ x ∷ even_elements_ xs (index + 1)
  unfolding even_elements_
  even_step x xs index h = ground arith

  pub even_skip :
      (x : A) (xs : List A) (index : ℕ)
      → index % 2 ≡ 1
      → even_elements_ (x ∷ xs) index ≡ even_elements_ xs (index + 1)
  unfolding even_elements_
  even_skip x xs index h = ground arith

  abbrev pub riffle : List A → List A → List A
  riffle [] ys = ys
  riffle (x ∷ xs) [] = x ∷ xs
  riffle (x ∷ xs) (y ∷ ys) = x ∷ y ∷ riffle xs ys

  riffle-at :
      (xs : List A) (index : ℕ)
      → index % 2 ≡ 1
      → riffle (odd_elements_ xs index) (even_elements_ xs index) ≡ xs
  unfolding odd_elements_ even_elements_
  riffle-at [] index h = refl
  riffle-at (x ∷ []) index h = rw (odd_step x [] index h, even_skip x [] index h) refl
  riffle-at (x ∷ y ∷ xs) index h =
      rw
        (
          odd_step x (y ∷ xs) index h,
          even_skip x (y ∷ xs) index h,
          odd_skip y xs (index + 1) (omega arith),
          even_step y xs (index + 1) (omega arith),
          riffle-at xs (index + 1 + 1) (omega arith),
        )
        refl

  -- The odd and the even elements of a list, taken in turn, are the list.
  pub riffle-odd_elements : (xs : List A) → riffle (odd_elements xs) (even_elements xs) ≡ xs
  unfolding odd_elements even_elements
  riffle-odd_elements xs = riffle-at xs 1 refl

  -- Position `i` of the odd elements is position `2 * i` of the list.
  get_elem-odd_at :
      (i : ℕ) (xs : List A) (index : ℕ)
      → index % 2 ≡ 1
      → get_elem? i (odd_elements_ xs index) ≡ get_elem? (2 * i) xs
  unfolding odd_elements_
  get_elem-odd_at i [] index h = refl
  get_elem-odd_at zero (x ∷ xs) index h = rw (odd_step x xs index h) refl
  get_elem-odd_at (suc i) (x ∷ []) index h = rw (odd_step x [] index h, two_suc i) refl
  get_elem-odd_at (suc i) (x ∷ y ∷ xs) index h =
      rw (odd_step x (y ∷ xs) index h, odd_skip y xs (index + 1) (omega arith), two_suc i)
        (get_elem-odd_at i xs (index + 1 + 1) (omega arith))

  get_elem-even_at :
      (i : ℕ) (xs : List A) (index : ℕ)
      → index % 2 ≡ 1
      → get_elem? i (even_elements_ xs index) ≡ get_elem? (suc (2 * i)) xs
  unfolding even_elements_
  get_elem-even_at i [] index h = refl
  get_elem-even_at i (x ∷ []) index h = rw (even_skip x [] index h) refl
  get_elem-even_at zero (x ∷ y ∷ xs) index h =
      rw (even_skip x (y ∷ xs) index h, even_step y xs (index + 1) (omega arith)) refl
  get_elem-even_at (suc i) (x ∷ y ∷ xs) index h =
      rw (even_skip x (y ∷ xs) index h, even_step y xs (index + 1) (omega arith), two_suc i)
        (get_elem-even_at i xs (index + 1 + 1) (omega arith))

  -- The odd elements of a list are those at positions 0, 2, 4, … and the even elements those at
  -- positions 1, 3, 5, …: reading either at `i` reads the list at `2 * i` or `2 * i + 1`.
  pub get_elem-elements :
      (i : ℕ) (xs : List A)
      → (get_elem? i (odd_elements xs) ≡ get_elem? (2 * i) xs)
        × (get_elem? i (even_elements xs) ≡ get_elem? (suc (2 * i)) xs)
  unfolding odd_elements even_elements
  get_elem-elements i xs = (get_elem-odd_at i xs 1 refl, get_elem-even_at i xs 1 refl)
