-- ===== src/Dict/Merge.antt =====
-- ui/dist/Main.js, `_elm_lang$core$Dict$merge`: the keys that it visits, on sorted lists.
use kubecast.Common.{
  lt, eq, gt, ◌≡◌, refl, sym, ◌∙◌, ap, Option, none, some, List, [], ◌∷◌, arith, inl, inr,
}
use kubecast.Ord.{Comparable, Ordering-cases}
use kubecast.Dict.{Dict, to_list}
use kubecast.Dict.Balance.{contents, to_list-contents}
use kubecast.Dict.Sorted.{IsSorted, Above, find, find-Above, Above-trans}
use kubecast.Dict.Derived.{foldl_list, step_state, merge}
use kubecast.Dict.Folds.{foldl-contents}

-- Where a key stands, with its values there.
pub data Side {ℓ κ} (A : Type ℓ) (B : Type κ) : Type (ℓ ⊔ κ) where
  only_left : A → Side A B
  both : A → B → Side A B
  only_right : B → Side A B

abbrev pub sides {ℓ κ} : {A : Type ℓ} {B : Type κ} → Option A → Option B → Option (Side A B)
sides none none = none
sides none (some b) = some (only_right b)
sides (some a) none = some (only_left a)
sides (some a) (some b) = some (both a b)

module _ {ℓ κ μ} {K : Type ℓ} {A : Type κ} {B : Type μ} ⦃o : Comparable K⦄ where
  -- The keys of two sorted lists in one.
  unfoldable pub visits : List (K × A) → List (K × B) → List (K × Side A B)
  visits [] [] = []
  visits [] ((rk, rv) ∷ ys) = (rk, only_right rv) ∷ visits [] ys
  visits ((lk, lv) ∷ xs) [] = (lk, only_left lv) ∷ visits xs []
  visits ((lk, lv) ∷ xs) ((rk, rv) ∷ ys) = elim (o.cmp lk rk) [
    | lt ↦ (lk, only_left lv) ∷ visits xs ((rk, rv) ∷ ys)
    | gt ↦ (rk, only_right rv) ∷ visits ((lk, lv) ∷ xs) ys
    | eq ↦ (lk, both lv rv) ∷ visits xs ys
  ]

  Above-visits :
      (j : K) (xs : List (K × A)) (ys : List (K × B))
      → Above j xs
      → Above j ys
      → Above j (visits xs ys)
  unfolding visits
  Above-visits j [] [] a b = tt
  Above-visits j [] (y ∷ ys) a b = (b.0, Above-visits j [] ys a b.1)
  Above-visits j (x ∷ xs) [] a b = (a.0, Above-visits j xs [] a.1 b)
  Above-visits j (x ∷ xs) (y ∷ ys) a b = ground (
    arith,
    Above-visits j xs (y ∷ ys) a.1 b,
    Above-visits j (x ∷ xs) ys a b.1,
    Above-visits j xs ys a.1 b.1,
  )

  -- The visits are sorted by key, each key once.
  pub visits-IsSorted :
      (xs : List (K × A)) (ys : List (K × B)) → IsSorted xs → IsSorted ys → IsSorted (visits xs ys)
  unfolding visits
  visits-IsSorted [] [] s t = tt
  visits-IsSorted [] ((k, b) ∷ ys) s t = (Above-visits k [] ys tt t.0, visits-IsSorted [] ys s t.1)
  visits-IsSorted ((j, a) ∷ xs) [] s t = (Above-visits j xs [] s.0 tt, visits-IsSorted xs [] s.1 t)
  visits-IsSorted ((j, a) ∷ xs) ((k, b) ∷ ys) s t = elim (Ordering-cases (o.cmp j k)) [
    | inl h ↦
        rw (h, visits)
          (
            Above-visits j xs ((k, b) ∷ ys) s.0 (h, Above-trans j k ys h t.0),
            visits-IsSorted xs ((k, b) ∷ ys) s.1 t,
          )
    | inr (inl h) ↦
        rw (h, visits)
          (Above-visits j xs ys s.0 (rw (o.eq_of_cmp j k h) t.0), visits-IsSorted xs ys s.1 t.1)
    | inr (inr h) ↦
        let g = o.lt_of_gt j k h in
        rw (h, visits)
          (
            Above-visits k ((j, a) ∷ xs) ys (g, Above-trans k j xs g s.0) t.0,
            visits-IsSorted ((j, a) ∷ xs) ys s t.1,
          )
  ]

  -- A key is visited exactly if one of the lists has it, and with its values there.
  pub find-visits :
      (i : K) (xs : List (K × A)) (ys : List (K × B))
      → IsSorted xs
      → IsSorted ys
      → find i (visits xs ys) ≡ sides (find i xs) (find i ys)
  unfolding visits find
  find-visits i [] [] s t = refl
  find-visits i [] ((k, b) ∷ ys) s t = ground (arith, find-visits i [] ys s t.1)
  find-visits i ((j, a) ∷ xs) [] s t = ground (arith, find-visits i xs [] s.1 t)
  find-visits i ((j, a) ∷ xs) ((k, b) ∷ ys) s t = elim (Ordering-cases (o.cmp j k)) [
    | inl h ↦ ground (
      arith,
      find-visits i xs ((k, b) ∷ ys) s.1 t,
      o.eq_of_cmp i j,
      find-Above i ys,
      Above-trans i k ys,
    )
    | inr (inl h) ↦ ground (arith, find-visits i xs ys s.1 t.1, o.eq_of_cmp j k)
    | inr (inr h) ↦ ground (
      arith,
      find-visits i ((j, a) ∷ xs) ys s t.1,
      o.eq_of_cmp i k,
      o.lt_of_gt j k,
      find-Above i xs,
      Above-trans i j xs,
    )
  ]

  visits-lt :
      (j k : K) (a : A) (b : B) (xs : List (K × A)) (ys : List (K × B))
      → o.cmp j k ≡ lt
      → visits ((j, a) ∷ xs) ((k, b) ∷ ys) ≡ (j, only_left a) ∷ visits xs ((k, b) ∷ ys)
  unfolding visits
  visits-lt j k a b xs ys h = rw (h, visits)

  visits-eq :
      (j k : K) (a : A) (b : B) (xs : List (K × A)) (ys : List (K × B))
      → o.cmp j k ≡ eq
      → visits ((j, a) ∷ xs) ((k, b) ∷ ys) ≡ (j, both a b) ∷ visits xs ys
  unfolding visits
  visits-eq j k a b xs ys h = rw (h, visits)

  visits-gt :
      (j k : K) (a : A) (b : B) (xs : List (K × A)) (ys : List (K × B))
      → o.cmp j k ≡ gt
      → visits ((j, a) ∷ xs) ((k, b) ∷ ys) ≡ (k, only_right b) ∷ visits ((j, a) ∷ xs) ys
  unfolding visits
  visits-gt j k a b xs ys h = rw (h, visits)

module _ {ℓ κ μ ν} {K : Type ℓ} {A : Type κ} {B : Type μ} {R : Type ν} ⦃o : Comparable K⦄
    (left_step : K → A → R → R) (both_step : K → A → B → R → R) (right_step : K → B → R → R) where
  abbrev pub visit : K × Side A B → R → R
  visit (k, only_left a) r = left_step k a r
  visit (k, both a b) r = both_step k a b r
  visit (k, only_right b) r = right_step k b r

  abbrev step : K × B → List (K × A) × R → List (K × A) × R
  step e q = step_state left_step both_step right_step e.0 e.1 q.0 q.1

  -- The entries of the right dictionary, then what is left of the left one.
  abbrev sweep : List (K × A) × R → List (K × B) → R
  sweep p ys = let q = foldl_list step p ys in foldl_list (λ e r. left_step e.0 e.1 r) q.1 q.0

  step-lt :
      (j k : K) (a : A) (b : B) (xs : List (K × A)) (r : R)
      → o.cmp j k ≡ lt
      → step (k, b) ((j, a) ∷ xs, r) ≡ step (k, b) (xs, left_step j a r)
  unfolding step_state
  step-lt j k a b xs r h = rw (h, step_state)

  step-eq :
      (j k : K) (a : A) (b : B) (xs : List (K × A)) (r : R)
      → o.cmp j k ≡ eq
      → step (k, b) ((j, a) ∷ xs, r) ≡ (xs, both_step j a b r)
  unfolding step_state
  step-eq j k a b xs r h = rw (h, step_state)

  step-gt :
      (j k : K) (a : A) (b : B) (xs : List (K × A)) (r : R)
      → o.cmp j k ≡ gt
      → step (k, b) ((j, a) ∷ xs, r) ≡ ((j, a) ∷ xs, right_step k b r)
  unfolding step_state
  step-gt j k a b xs r h = rw (h, step_state)

  sweep-visits :
      (xs : List (K × A)) (ys : List (K × B)) (r : R)
      → sweep (xs, r) ys ≡ foldl_list visit r (visits xs ys)
  unfolding foldl_list visits step_state
  sweep-visits [] [] r = refl
  sweep-visits [] ((k, b) ∷ ys) r = sweep-visits [] ys (right_step k b r)
  sweep-visits ((j, a) ∷ xs) [] r = sweep-visits xs [] (left_step j a r)
  sweep-visits ((j, a) ∷ xs) ((k, b) ∷ ys) r = elim (Ordering-cases (o.cmp j k)) [
    | inl h ↦
        ap (λ q. sweep q ys) (step-lt j k a b xs r h)
        ∙ sweep-visits xs ((k, b) ∷ ys) (left_step j a r)
        ∙ ap (foldl_list visit r) (sym (visits-lt j k a b xs ys h))
    | inr (inl h) ↦
        ap (λ q. sweep q ys) (step-eq j k a b xs r h)
        ∙ sweep-visits xs ys (both_step j a b r)
        ∙ ap (foldl_list visit r) (sym (visits-eq j k a b xs ys h))
    | inr (inr h) ↦
        ap (λ q. sweep q ys) (step-gt j k a b xs r h)
        ∙ sweep-visits ((j, a) ∷ xs) ys (right_step k b r)
        ∙ ap (foldl_list visit r) (sym (visits-gt j k a b xs ys h))
  ]

  -- `merge` runs its steps over the visits.
  pub merge-visits :
      (ld : Dict K A) (rd : Dict K B) (initial : R)
      → merge left_step both_step right_step ld rd initial
        ≡ foldl_list visit initial (visits (contents ld) (contents rd))
  unfolding merge
  merge-visits ld rd initial =
      ap (λ q. foldl_list (λ e r. left_step e.0 e.1 r) q.1 q.0)
        (foldl-contents (λ k v. step (k, v)) (to_list ld, initial) rd)
      ∙ ap (λ xs. sweep (xs, initial) (contents rd)) (to_list-contents ld)
      ∙ sweep-visits (contents ld) (contents rd) initial
