-- ===== src/Array/Set/Written.antt =====
-- ui/dist/Main.js, `_elm_lang$core$Native_Array`: what `set` does to the elements.
use kubecast.Common.{
  ℕ, zero, suc, ◌-◌, ◌≤◌, ◌<◌, ◌≡◌, refl, sym, ap, ◌∙◌, arith, inl, inr, some, List, [], ◌∷◌, ◌++◌,
  length, map, All, get_elem?,
}
use kubecast.Array.{Tree, Array, tree_length}
use kubecast.Array.Sums.{
  sums, total, place, lt-or-le, place_here, place_later, ltb-true, ltb-false, get_slot-place,
  index_in-place,
}
use kubecast.Array.Wellformed.{concat, length-concat, elements, count, IsArray}
use kubecast.Array.Reading.{counts_bound, count-capacity}
use kubecast.Array.Push.Pushed.{Known}
use kubecast.Array.Set.{put_elem, unsafe_set, set}

module _ {ℓ} {A : Type ℓ} where
  -- A list with the element at a position replaced; a position past the end changes nothing.
  abbrev pub put_at : ℕ → A → List A → List A
  put_at i item [] = []
  put_at zero item (x ∷ xs) = item ∷ xs
  put_at (suc i) item (x ∷ xs) = x ∷ put_at i item xs

  put_elem-put_at :
      (i : ℕ) (item : A) (xs : List A)
      → i < length xs
      → put_elem i item xs ≡ some (put_at i item xs)
  put_elem-put_at i item [] h = absurd (omega (arith, h))
  put_elem-put_at zero item (x ∷ xs) h = refl
  put_elem-put_at (suc i) item (x ∷ xs) h = rw (put_elem-put_at i item xs (omega (arith, h))) refl

  length-put_at : (i : ℕ) (item : A) (xs : List A) → length (put_at i item xs) ≡ length xs
  length-put_at i item [] = refl
  length-put_at zero item (x ∷ xs) = refl
  length-put_at (suc i) item (x ∷ xs) = omega (arith, length-put_at i item xs)

  put_at-past : (i : ℕ) (item : A) (xs : List A) → length xs ≤ i → put_at i item xs ≡ xs
  put_at-past i item [] h = refl
  put_at-past zero item (x ∷ xs) h = absurd (omega (arith, h))
  put_at-past (suc i) item (x ∷ xs) h = ap (λ ys. x ∷ ys) (put_at-past i item xs (omega (arith, h)))

  put_at-append_left :
      (i : ℕ) (item : A) (xs ys : List A)
      → i < length xs
      → put_at i item (xs ++ ys) ≡ put_at i item xs ++ ys
  put_at-append_left i item [] ys h = absurd (omega (arith, h))
  put_at-append_left zero item (x ∷ xs) ys h = refl
  put_at-append_left (suc i) item (x ∷ xs) ys h =
      ap (λ zs. x ∷ zs) (put_at-append_left i item xs ys (omega (arith, h)))

  put_at-append_right :
      (i : ℕ) (item : A) (xs ys : List A)
      → length xs ≤ i
      → put_at i item (xs ++ ys) ≡ xs ++ put_at (i - length xs) item ys
  put_at-append_right i item [] ys h = ap (λ j. put_at j item ys) (omega arith)
  put_at-append_right zero item (x ∷ xs) ys h = absurd (omega (arith, h))
  put_at-append_right (suc i) item (x ∷ xs) ys h =
      ap (λ zs. x ∷ zs)
        (put_at-append_right i item xs ys (omega (arith, h))
          ∙ ap (λ j. xs ++ put_at j item ys) (omega arith))

-- A table in which a block is replaced by one with an element replaced.
record Replaced {ℓ κ μ} {A : Type ℓ} {T : Type κ} (f : T → List A) (P : T → Type μ) (slot i : ℕ)
    (item : A) (c : T) (table : List T) : Type (ℓ ⊔ κ ⊔ μ) where
  pub after : List T
  pub put : put_elem slot c table ≡ some after
  pub kept : All P after
  pub counts : map (λ t. length (f t)) after ≡ map (λ t. length (f t)) table
  pub size : length after ≡ length table
  pub whole : concat (map f after) ≡ put_at i item (concat (map f table))

-- The block of a position, and the table when the element there is replaced in it.
replace {ℓ κ μ} :
    {A : Type ℓ} {T : Type κ} (f : T → List A) (P : T → Type μ) (item : A) (table : List T) (i : ℕ)
    → All P table
    → i < total (map (λ t. length (f t)) table)
    → (c : T) × (get_elem? (place i (map (λ t. length (f t)) table)).0 table ≡ some c)
      × P c
      × ((place i (map (λ t. length (f t)) table)).1 < length (f c))
      × ((c' : T)
          → P c'
          → f c' ≡ put_at (place i (map (λ t. length (f t)) table)).1 item (f c)
          → Replaced f P (place i (map (λ t. length (f t)) table)).0 i item c' table)
replace f P item [] i h b = absurd (omega (arith, b))
replace f P item (t ∷ table) i h b = elim (lt-or-le i (length (f t))) [
  | inl inside ↦ rw (place_here i (length (f t)) (map (λ t. length (f t)) table) inside) (
    t,
    refl,
    h.0,
    inside,
    λ c' p e. record {
      after = c' ∷ table;
      put = refl;
      kept = (p, h.1);
      counts =
          ap (λ n. n ∷ map (λ t. length (f t)) table) (ap length e ∙ length-put_at i item (f t));
      size = refl;
      whole =
          ap (λ xs. xs ++ concat (map f table)) e
          ∙ sym (put_at-append_left i item (f t) (concat (map f table)) inside);
    },
  )
  | inr later ↦
      let (c, e, p, l, k) =
        replace f P item table (i - length (f t)) h.1 (omega (arith, b, later)) in
      rw (place_later i (length (f t)) (map (λ t. length (f t)) table) later) (
        c,
        e,
        p,
        l,
        λ c' p' e'.
            let r = k c' p' e' in
            record {
              after = t ∷ r.after;
              put = rw r.put refl;
              kept = (h.0, r.kept);
              counts = ap (λ ns. length (f t) ∷ ns) r.counts;
              size = omega (arith, r.size);
              whole =
                  ap (λ xs. f t ++ xs) r.whole
                  ∙ sym (put_at-append_right i item (f t) (concat (map f table)) later);
            },
      )
]

module _ {ℓ} (A : Type ℓ) where
  -- `unsafeSet` inside a tree: the tree that it returns has one element replaced.
  unsafe_set-Known :
      (i : ℕ) (item : A) (h : ℕ) (t : Tree A h)
      → Known A h t
      → i < count A h t
      → (t' : Tree A h) × (unsafe_set i item h t ≡ some t')
        × Known A h t'
        × (elements A h t' ≡ put_at i item (elements A h t))
  unfolding unsafe_set tree_length
  unsafe_set-Known i item zero table k b = (
    put_at i item table,
    put_elem-put_at i item table b,
    (record { small = omega (arith, length-put_at i item table, k.0.small) }, refl),
    refl,
  )
  unsafe_set-Known i item (suc h) (table, lengths) k b =
      let ns = map (count A h) table in
      let inside : i < total ns = omega (arith, b, length-concat (elements A h) table) in
      let bounds = counts_bound A h table (λ c. count-capacity A h c) k.0.0 in
      let (c, e, known, l, replaced) =
        replace (elements A h) (Known A h) item table i k.0.0 inside in
      let (c', e', known', g) = unsafe_set-Known (place i ns).1 item h c known l in
      let r = replaced c' known' g in
      let counts : count A (suc h) (r.after, lengths) ≡ count A (suc h) (table, lengths) =
        ap length r.whole ∙ length-put_at i item (concat (map (elements A h) table)) in
      (
        (r.after, lengths),
        rw
            (
              k.0.1,
              get_slot-place i (suc h) ns bounds inside,
              index_in-place i ns inside,
              e,
              e',
              r.put,
            )
            refl,
        (
          (r.kept, k.0.1 ∙ ap (sums 0) (sym r.counts), omega (arith, r.size, k.0.2)),
          k.1 ∙ ap some (sym counts),
        ),
        r.whole,
      )

  -- `set` at an array does not throw, and returns an array with the element at the index replaced,
  -- or the same elements for an index past the end.
  pub set-elements :
      (i : ℕ) (item : A) (a : Array A)
      → IsArray A a
      → (a' : Array A) × (set i item a ≡ some a')
        × IsArray A a'
        × (elements A a'.height a'.tree ≡ put_at i item (elements A a.height a.tree))
  unfolding set
  set-elements i item a k = elim (lt-or-le i (count A a.height a.tree)) [
    | inl b ↦
        let (t', e, known, g) = unsafe_set-Known i item a.height a.tree (k.wf, k.counted) b in
        (
          record { height = a.height; tree = t' },
          rw (k.counted, ltb-true i _ b, e) refl,
          record { wf = known.0; counted = known.1 },
          g,
        )
    | inr b ↦ (
      a,
      rw (k.counted, ltb-false i _ b) refl,
      k,
      sym (put_at-past i item (elements A a.height a.tree) b),
    )
  ]
