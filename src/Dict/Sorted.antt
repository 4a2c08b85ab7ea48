-- ===== src/Dict/Sorted.antt =====
-- The abstract view of a dictionary (ui/dist/Main.js, `_elm_lang$core$Dict$…`): an association
-- list, sorted by key, with no key twice; `alter` and `find` are the specifications of `update`
-- and `get`.
use kubecast.Common.{
  lt, eq, gt, ◌≡◌, refl, ap, Option, none, some, List, [], ◌∷◌, ◌++◌, arith, All, All-append,
  All-split, append_assoc,
}
use kubecast.Ord.{Comparable}

cmp_trans_gt {ℓ} :
    {K : Type ℓ} ⦃o : Comparable K⦄ (k j i : K) → o.cmp k j ≡ gt → o.cmp i j ≡ lt → o.cmp k i ≡ gt
cmp_trans_gt ⦃o⦄ k j i h b = o.gt_of_lt i k (o.lt_trans i j k b (o.lt_of_gt k j h))

module _ {ℓ κ} {K : Type ℓ} {V : Type κ} ⦃o : Comparable K⦄ where
  -- Every key of the list lies above `j`, or below it.
  abbrev pub Above : K → List (K × V) → Type 0
  Above j = All (λ p. o.cmp j p.0 ≡ lt)

  abbrev pub Below : K → List (K × V) → Type 0
  Below j = All (λ p. o.cmp p.0 j ≡ lt)

  abbrev pub IsSorted : List (K × V) → Type 0
  IsSorted [] = Unit
  IsSorted ((j, v) ∷ xs) = Above j xs × IsSorted xs

  unfoldable pub find : K → List (K × V) → Option V
  find k [] = none
  find k ((j, v) ∷ xs) = elim (o.cmp k j) [ eq ↦ some v | _ ↦ find k xs ]

  abbrev pub entry : K → Option V → List (K × V)
  entry k none = []
  entry k (some v) = (k, v) ∷ []

  unfoldable pub alter : K → (Option V → Option V) → List (K × V) → List (K × V)
  alter k f [] = entry k (f none)
  alter k f ((j, v) ∷ xs) = elim (o.cmp k j) [
    | lt ↦ entry k (f none) ++ (j, v) ∷ xs
    | eq ↦ entry k (f (some v)) ++ xs
    | gt ↦ (j, v) ∷ alter k f xs
  ]

  pub Above-trans : (i j : K) (xs : List (K × V)) → o.cmp i j ≡ lt → Above j xs → Above i xs
  Above-trans i j [] h a = tt
  Above-trans i j ((k, v) ∷ xs) h a = (o.lt_trans i j k h a.0, Above-trans i j xs h a.1)

  pub find-Above : (k : K) (xs : List (K × V)) → Above k xs → find k xs ≡ none
  unfolding find
  find-Above k [] a = refl
  find-Above k ((j, v) ∷ xs) a = rw (a.0, find) (find-Above k xs a.1)

  Above-entry : (j k : K) (v : Option V) → o.cmp j k ≡ lt → Above j (entry k v)
  Above-entry j k none h = tt
  Above-entry j k (some v) h = (h, tt)

  Above-alter :
      (j k : K) (f : Option V → Option V) (xs : List (K × V))
      → o.cmp j k ≡ lt
      → Above j xs
      → Above j (alter k f xs)
  unfolding alter
  Above-alter j k f [] h a = Above-entry j k (f none) h
  Above-alter j k f ((i, v) ∷ xs) h a = ground (
    arith,
    Above-alter j k f xs,
    Above-entry j k (f none),
    Above-entry j k (f (some v)),
    All-append (λ (p : K × V). o.cmp j p.0 ≡ lt) (entry k (f none)) ((i, v) ∷ xs),
    All-append (λ (p : K × V). o.cmp j p.0 ≡ lt) (entry k (f (some v))) xs,
  )

  -- `alter` keeps the list sorted.
  pub alter-IsSorted :
      (k : K) (f : Option V → Option V) (xs : List (K × V)) → IsSorted xs → IsSorted (alter k f xs)
  unfolding alter
  alter-IsSorted k f [] s = ground arith
  alter-IsSorted k f ((j, v) ∷ xs) s = ground (
    arith,
    alter-IsSorted k f xs,
    o.eq_of_cmp k j,
    o.lt_of_gt k j,
    Above-alter j k f xs,
    Above-trans k j xs,
  )

  -- After `alter`, the key reads as `f` of what it read before, and every other key as before.
  pub find-alter :
      (i k : K) (f : Option V → Option V) (xs : List (K × V))
      → IsSorted xs
      → find i (alter k f xs) ≡ elim (o.cmp i k) [ eq ↦ f (find k xs) | _ ↦ find i xs ]
  unfolding find alter
  find-alter i k f [] s = ground (arith, o.eq_of_cmp i k)
  find-alter i k f ((j, v) ∷ xs) s = ground (
    arith,
    find-alter i k f xs s.1,
    o.eq_of_cmp i k,
    o.eq_of_cmp k j,
    o.eq_of_cmp i j,
    o.cmp_refl i,
    o.cmp_refl k,
    find-Above k xs,
    Above-trans k j xs,
  )

  pub IsSorted-split :
      (j : K) (v : V) (xs ys : List (K × V))
      → IsSorted (xs ++ (j, v) ∷ ys)
      → Below j xs × IsSorted xs × Above j ys × IsSorted ys
  IsSorted-split j v [] ys s = (tt, tt, s.0, s.1)
  IsSorted-split j v ((k, w) ∷ xs) ys s =
      let (b, sx, a, sy) = IsSorted-split j v xs ys s.1 in
      let h = All-split (λ (p : K × V). o.cmp k p.0 ≡ lt) xs ((j, v) ∷ ys) s.0 in
      ((h.1.0, b), (h.0, sx), a, sy)

  -- A key left of `j` is altered left of `j`.
  pub alter-append_lt :
      (k j : K) (f : Option V → Option V) (v : V) (xs ys : List (K × V))
      → o.cmp k j ≡ lt
      → alter k f (xs ++ (j, v) ∷ ys) ≡ alter k f xs ++ (j, v) ∷ ys
  unfolding alter
  alter-append_lt k j f v [] ys h = rw (h, alter)
  alter-append_lt k j f v ((i, w) ∷ xs) ys h = ground (
    arith,
    alter-append_lt k j f v xs ys h,
    append_assoc (entry k (f none)) ((i, w) ∷ xs) ((j, v) ∷ ys),
    append_assoc (entry k (f (some w))) xs ((j, v) ∷ ys),
  )

  pub alter-append_gt :
      (k j : K) (f : Option V → Option V) (v : V) (xs ys : List (K × V))
      → o.cmp k j ≡ gt
      → Below j xs
      → alter k f (xs ++ (j, v) ∷ ys) ≡ xs ++ (j, v) ∷ alter k f ys
  unfolding alter
  alter-append_gt k j f v [] ys h b = rw (h, alter)
  alter-append_gt k j f v ((i, w) ∷ xs) ys h b =
      rw (cmp_trans_gt k j i h b.0, alter) (ap (◌∷◌ (i, w)) (alter-append_gt k j f v xs ys h b.1))

  pub alter-append_eq :
      (k j : K) (f : Option V → Option V) (v : V) (xs ys : List (K × V))
      → o.cmp k j ≡ eq
      → Below j xs
      → alter k f (xs ++ (j, v) ∷ ys) ≡ xs ++ (entry j (f (some v)) ++ ys)
  unfolding alter
  alter-append_eq k j f v [] ys h b = rw (h, alter, o.eq_of_cmp k j h)
  alter-append_eq k j f v ((i, w) ∷ xs) ys h b =
      let e : o.cmp k i ≡ gt = rw (o.eq_of_cmp k j h) (o.gt_of_lt i j b.0) in
      rw (e, alter) (ap (◌∷◌ (i, w)) (alter-append_eq k j f v xs ys h b.1))

  pub find-append_lt :
      (k j : K) (v : V) (xs ys : List (K × V))
      → o.cmp k j ≡ lt
      → Above j ys
      → find k (xs ++ (j, v) ∷ ys) ≡ find k xs
  unfolding find
  find-append_lt k j v [] ys h a = rw (h, find) (find-Above k ys (Above-trans k j ys h a))
  find-append_lt k j v ((i, w) ∷ xs) ys h a = ground (arith, find-append_lt k j v xs ys h a)

  pub find-append_gt :
      (k j : K) (v : V) (xs ys : List (K × V))
      → o.cmp k j ≡ gt
      → Below j xs
      → find k (xs ++ (j, v) ∷ ys) ≡ find k ys
  unfolding find
  find-append_gt k j v [] ys h b = rw (h, find)
  find-append_gt k j v ((i, w) ∷ xs) ys h b =
      rw (cmp_trans_gt k j i h b.0, find) (find-append_gt k j v xs ys h b.1)

  pub find-append_eq :
      (k j : K) (v : V) (xs ys : List (K × V))
      → o.cmp k j ≡ eq
      → Below j xs
      → find k (xs ++ (j, v) ∷ ys) ≡ some v
  unfolding find
  find-append_eq k j v [] ys h b = rw (h, find)
  find-append_eq k j v ((i, w) ∷ xs) ys h b =
      let e : o.cmp k i ≡ gt = rw (o.eq_of_cmp k j h) (o.gt_of_lt i j b.0) in
      rw (e, find) (find-append_eq k j v xs ys h b.1)
