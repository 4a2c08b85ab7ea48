-- ===== src/Array/Reading.antt =====
-- ui/dist/Main.js, `_elm_lang$core$Native_Array`: `unsafeGet` at a well-formed tree.
use kubecast.Common.{
  ℕ, zero, suc, ◌+◌, ◌-◌, ◌*◌, ◌^◌, ◌≤◌, ◌<◌, ◌≡◌, refl, sym, ◌∙◌, ap, some, List, [], ◌∷◌, ◌++◌,
  map, length, All, get_elem?, arith, inl, inr,
}
use kubecast.Array.{Tree, unsafe_get, tree_length}
use kubecast.Array.Sums.{
  total, place, lt-or-le, place_here, place_later, get_slot-place, index_in-place,
}
use kubecast.Array.Wellformed.{concat, length-concat, elements, count, Wf}
use native.Mathlib.Omega.{pow_step}
use native.Mathlib.Nat.{mul-le-mul_right}

capacity_step : (h : ℕ) → 2 ^ (suc (suc h) * 5) ≡ 32 * 2 ^ (suc h * 5)
capacity_step h =
    let k = suc h * 5 in
    let exponent : suc (suc h) * 5 ≡ suc (suc (suc (suc (suc k)))) = omega arith in
    ap (λ e. 2 ^ e) exponent
    ∙ omega (
      arith,
      pow_step 2 k,
      pow_step 2 (suc k),
      pow_step 2 (suc (suc k)),
      pow_step 2 (suc (suc (suc k))),
      pow_step 2 (suc (suc (suc (suc k)))),
    )

pub length-map {ℓ κ} :
    {A : Type ℓ} {B : Type κ} (f : A → B) (xs : List A) → length (map f xs) ≡ length xs
length-map f [] = refl
length-map f (x ∷ xs) = omega (arith, length-map f xs)

total_bound : (cap : ℕ) (ns : List ℕ) → All (λ n. n ≤ cap) ns → total ns ≤ length ns * cap
total_bound cap [] h = omega arith
total_bound cap (n ∷ ns) h =
    let step : suc (length ns) * cap ≡ cap + length ns * cap = omega arith in
    omega (arith, total_bound cap ns h.1, h.0, step)

module _ {ℓ} {A : Type ℓ} where
  get_elem-append_left :
      (i : ℕ) (xs ys : List A) → i < length xs → get_elem? i (xs ++ ys) ≡ get_elem? i xs
  get_elem-append_left i [] ys h = absurd (omega (arith, h))
  get_elem-append_left zero (x ∷ xs) ys h = refl
  get_elem-append_left (suc i) (x ∷ xs) ys h = get_elem-append_left i xs ys (omega (arith, h))

  get_elem-append_right :
      (i : ℕ) (xs ys : List A)
      → length xs ≤ i
      → get_elem? i (xs ++ ys) ≡ get_elem? (i - length xs) ys
  get_elem-append_right i [] ys h = ap (λ j. get_elem? j ys) (omega arith)
  get_elem-append_right zero (x ∷ xs) ys h = absurd (omega (arith, h))
  get_elem-append_right (suc i) (x ∷ xs) ys h =
      get_elem-append_right i xs ys (omega (arith, h)) ∙ ap (λ j. get_elem? j ys) (omega arith)

  -- The block of a position, and the element there.
  locate {κ μ} :
      {T : Type κ} (f : T → List A) (P : T → Type μ) (table : List T) (i : ℕ)
      → All P table
      → i < total (map (λ t. length (f t)) table)
      → (c : T) × (get_elem? (place i (map (λ t. length (f t)) table)).0 table ≡ some c)
        × P c
        × ((place i (map (λ t. length (f t)) table)).1 < length (f c))
        × (get_elem? i (concat (map f table))
            ≡ get_elem? (place i (map (λ t. length (f t)) table)).1 (f c))
  locate f P [] i h b = absurd (omega (arith, b))
  locate f P (t ∷ table) i h b = elim (lt-or-le i (length (f t))) [
    | inl c ↦
        rw (place_here i (length (f t)) (map (λ t. length (f t)) table) c)
          (t, refl, h.0, c, get_elem-append_left i (f t) (concat (map f table)) c)
    | inr c ↦
        let (d, e, p, l, g) = locate f P table (i - length (f t)) h.1 (omega (arith, b, c)) in
        rw (place_later i (length (f t)) (map (λ t. length (f t)) table) c)
          (d, e, p, l, get_elem-append_right i (f t) (concat (map f table)) c ∙ g)
  ]

module _ {ℓ} (A : Type ℓ) where
  pub counts_bound :
      (h : ℕ) (cs : List (Tree A h))
      → ((c : Tree A h) → Wf A h c → count A h c ≤ 2 ^ (suc h * 5))
      → All (λ c. Wf A h c × (tree_length A h c ≡ some (count A h c))) cs
      → All (λ n. n ≤ 2 ^ (suc h * 5)) (map (count A h) cs)
  counts_bound h [] bound ok = tt
  counts_bound h (c ∷ cs) bound ok = (bound c ok.0.0, counts_bound h cs bound ok.1)

  pub count-capacity : (h : ℕ) (t : Tree A h) → Wf A h t → count A h t ≤ 2 ^ (suc h * 5)
  count-capacity zero t w = omega (arith, w.small)
  count-capacity (suc h) (table, lengths) w =
      let bounds = counts_bound h table (λ c. count-capacity h c) w.0 in
      let cap = 2 ^ (suc h * 5) in
      let all = total_bound cap (map (count A h) table) bounds in
      let size = length-map (count A h) table in
      let step : length table * cap ≤ 32 * cap = mul-le-mul_right cap w.2 in
      let scaled : length (map (count A h) table) * cap ≡ length table * cap =
        ap (λ n. n * cap) size in
      omega (arith, length-concat (elements A h) table, all, scaled, step, capacity_step h)

  pub unsafe_get-elements :
      (h : ℕ) (t : Tree A h) (i : ℕ)
      → Wf A h t
      → i < count A h t
      → unsafe_get A i h t ≡ get_elem? i (elements A h t)
  unfolding unsafe_get
  unsafe_get-elements zero t i w b = refl
  unsafe_get-elements (suc h) (table, lengths) i w b =
      let ns = map (count A h) table in
      let inside : i < total ns = omega (arith, b, length-concat (elements A h) table) in
      let bounds = counts_bound h table (λ c. count-capacity h c) w.0 in
      let (c, e, ok, l, g) =
        locate (elements A h) (λ c. Wf A h c × (tree_length A h c ≡ some (count A h c))) table i w.0
          inside in
      rw (w.1, get_slot-place i (suc h) ns bounds inside, index_in-place i ns inside, e)
        (unsafe_get-elements h c (place i ns).1 ok.0 l ∙ sym g)
