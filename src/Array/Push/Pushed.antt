-- ===== src/Array/Push/Pushed.antt =====
-- ui/dist/Main.js, `_elm_lang$core$Native_Array`: what `push` does to the elements.
use kubecast.Common.{
  ℕ, zero, suc, ◌+◌, ◌≤◌, ◌≡◌, ◌⊎◌, inl, inr, refl, sym, ap, ap₂, ◌∙◌, subst, arith, true, none,
  some, List, [], ◌∷◌, ◌++◌, ltb, length, length-append, append_assoc, append-nil, map, map-append,
  All, All-append, All-split, Bool-cases,
}
use kubecast.Array.{Tree, Array, table_size, last, tree_length}
use kubecast.Array.Sums.{sums, total, sums-snoc}
use kubecast.Array.Wellformed.{concat, concat-snoc, length-concat, elements, count, Wf, IsArray}
use kubecast.Array.Push.{set_last, create, push_, siblise, push}

module _ {ℓ} {A : Type ℓ} where
  last-snoc : (xs : List A) (x : A) → last (xs ++ x ∷ []) ≡ some x
  last-snoc [] x = refl
  last-snoc (y ∷ []) x = refl
  last-snoc (y ∷ z ∷ xs) x = last-snoc (z ∷ xs) x

  set_last-snoc : (xs : List A) (x y : A) → set_last y (xs ++ x ∷ []) ≡ xs ++ y ∷ []
  set_last-snoc [] x y = refl
  set_last-snoc (z ∷ []) x y = refl
  set_last-snoc (z ∷ w ∷ xs) x y = ap (λ l. z ∷ l) (set_last-snoc (w ∷ xs) x y)

  -- What stands before the last element.
  front_last : (x : A) (xs : List A) → (ys : List A) × (y : A) × (x ∷ xs ≡ ys ++ y ∷ [])
  front_last x [] = ([], x, refl)
  front_last x (x' ∷ xs) = let (ys, y, e) = front_last x' xs in (x ∷ ys, y, ap (λ l. x ∷ l) e)

total-snoc : (ns : List ℕ) (n : ℕ) → total (ns ++ n ∷ []) ≡ total ns + n
total-snoc [] n = omega arith
total-snoc (m ∷ ns) n = omega (arith, total-snoc ns n)

module _ {ℓ} (A : Type ℓ) where
  -- A tree whose length is right.
  abbrev pub Known : (h : ℕ) → Tree A h → Type ℓ
  Known h t = Wf A h t × (tree_length A h t ≡ some (count A h t))

  create-Known :
      (item : A) (h : ℕ) → Known h (create item h) × (elements A h (create item h) ≡ item ∷ [])
  unfolding create tree_length
  create-Known item zero = ((record { small = omega arith }, refl), refl)
  create-Known item (suc h) =
      let (k, e) = create-Known item h in
      let one : count A h (create item h) ≡ 1 = ap length e in
      let whole : concat (elements A h (create item h) ∷ []) ≡ item ∷ [] = append-nil _ ∙ e in
      (
        (
          ((k, tt), ap (λ n. n ∷ []) (omega (arith, one)), omega arith),
          ap some (sym (ap length whole)),
        ),
        whole,
      )

  -- A tree with a child at its end, where the counts before it are accumulated.
  abbrev ending : (h : ℕ) → List (Tree A h) → Tree A h → Tree A (suc h)
  ending h front t = (
    front ++ t ∷ [],
    sums 0 (map (count A h) front) ++ (total (map (count A h) front) + count A h t) ∷ [],
  )

  ending-Known :
      (h : ℕ) (front : List (Tree A h)) (t : Tree A h)
      → All (Known h) front
      → Known h t
      → length (front ++ t ∷ []) ≤ table_size
      → Known (suc h) (ending h front t)
  unfolding tree_length
  ending-Known h front t ks k b =
      let ns = map (count A h) front in
      let counts : sums 0 (map (count A h) (front ++ t ∷ []))
          ≡ sums 0 ns ++ (total ns + count A h t) ∷ [] =
        ap (sums 0) (map-append (count A h) front (t ∷ []))
        ∙ sums-snoc 0 ns (count A h t)
        ∙ ap (λ n. sums 0 ns ++ n ∷ []) (omega arith) in
      let size : count A (suc h) (ending h front t) ≡ total ns + count A h t =
        ap length (
          ap concat (map-append (elements A h) front (t ∷ []))
          ∙ concat-snoc (map (elements A h) front) (elements A h t))
        ∙ omega (
          arith,
          length-append (concat (map (elements A h) front)) (elements A h t),
          length-concat (elements A h) front,
        ) in
      (
        (All-append (Known h) front (t ∷ []) ks (k, tt), sym counts, b),
        last-snoc (sums 0 ns) _ ∙ ap some (sym size),
      )

  ending-elements :
      (h : ℕ) (front : List (Tree A h)) (t : Tree A h)
      → elements A (suc h) (ending h front t) ≡ concat (map (elements A h) front) ++ elements A h t
  ending-elements h front t =
      ap concat (map-append (elements A h) front (t ∷ []))
      ∙ concat-snoc (map (elements A h) front) (elements A h t)

  -- What `push_` makes of a tree: nothing if there is no space, or else a tree with one more element.
  abbrev pub Pushed : A → (h : ℕ) → Tree A h → Type ℓ
  Pushed item h t =
      (push_ item h t ≡ some none)
      ⊎ ((t' : Tree A h) × (push_ item h t ≡ some (some t'))
          × Known h t'
          × (elements A h t' ≡ elements A h t ++ item ∷ []))

  ending-Pushed :
      (item : A) (h : ℕ) (front : List (Tree A h)) (t : Tree A h)
      → All (Known h) front
      → Known h t
      → length (front ++ t ∷ []) ≤ table_size
      → Pushed item h t
      → Pushed item (suc h) (ending h front t)
  unfolding push_
  ending-Pushed item h front t ks k b (inr (t', e, k', g)) =
      let ns = map (count A h) front in
      let one_more : suc (total ns + count A h t) ≡ total ns + count A h t' =
        omega (arith, ap length g, length-append (elements A h t) (item ∷ [])) in
      inr (
        ending h front t',
        rw (last-snoc front t, e, last-snoc (sums 0 ns) (total ns + count A h t))
            (ap₂ (λ table lengths. some (some (table, lengths))) (set_last-snoc front t t')
              (set_last-snoc (sums 0 ns) _ _ ∙ ap (λ n. sums 0 ns ++ n ∷ []) one_more)),
        ending-Known h front t' ks k'
            (omega (arith, length-append front (t ∷ []), length-append front (t' ∷ []), b)),
        ending-elements h front t'
            ∙ ap (λ l. concat (map (elements A h) front) ++ l) g
            ∙ sym (append_assoc (concat (map (elements A h) front)) (elements A h t) (item ∷ []))
            ∙ ap (λ l. l ++ item ∷ []) (sym (ending-elements h front t)),
      )
  ending-Pushed item h front t ks k b (inl e) =
      let ns = map (count A h) front in
      let (new, shown) = create-Known item h in
      let before = ending-Known h front t ks k b in
      elim (Bool-cases (ltb (length (front ++ t ∷ [])) table_size)) [
        | inl space ↦ inr (
          ending h (front ++ t ∷ []) (create item h),
          rw (last-snoc front t, e, space, last-snoc (sums 0 ns) (total ns + count A h t), new.1)
              (ap₂
                (λ lengths n. some (
                  some (
                    (front ++ t ∷ []) ++ create item h ∷ [],
                    lengths ++ (n + count A h (create item h)) ∷ [],
                  )))
                before.0.1
                (sym (
                  ap total (map-append (count A h) front (t ∷ [])) ∙ total-snoc ns (count A h t)))),
          ending-Known h (front ++ t ∷ []) (create item h)
              (All-append (Known h) front (t ∷ []) ks (k, tt)) new (room space),
          ending-elements h (front ++ t ∷ []) (create item h)
              ∙ ap (λ l. concat (map (elements A h) (front ++ t ∷ [])) ++ l) shown,
        )
        | inr full ↦ inl (rw (last-snoc front t, e, full) refl)
      ]
    where
      room :
          ltb (length (front ++ t ∷ [])) table_size ≡ true
          → length ((front ++ t ∷ []) ++ create item h ∷ []) ≤ table_size
      room space = ground (arith, space, length-append (front ++ t ∷ []) (create item h ∷ []))

  push_-Pushed : (item : A) (h : ℕ) (t : Tree A h) → Known h t → Pushed item h t
  unfolding push_ tree_length
  push_-Pushed item zero table k = elim (Bool-cases (ltb (length table) table_size)) [
    | inl space ↦
        inr (table ++ item ∷ [], rw space refl, (record { small = room table space }, refl), refl)
    | inr full ↦ inl (rw full refl)
  ]
    where
      room :
          (table : List A)
          → ltb (length table) table_size ≡ true
          → length (table ++ item ∷ []) ≤ table_size
      room table space = ground (arith, space, length-append table (item ∷ []))
  push_-Pushed item (suc h) ([], lengths) k = absurd (none_some (sym (ap last k.0.1) ∙ k.1))
    where
      none_some : {n : ℕ} → none ≡ some n → ⊥
      none_some e = cc
  push_-Pushed item (suc h) (c ∷ cs, lengths) k =
      let (front, t, e) = front_last c cs in
      let (known, last_known) =
        All-split (Known h) front (t ∷ []) (subst (All (Known h)) e k.0.0) in
      let small = subst (λ table. length table ≤ table_size) e k.0.2 in
      let whole : (c ∷ cs, lengths) ≡ ending h front t =
        ap₂ (λ table lengths. (table, lengths)) e
          (k.0.1
            ∙ ap (λ table. sums 0 (map (count A h) table)) e
            ∙ sym (ending-Known h front t known last_known.0 small).0.1) in
      subst (Pushed item (suc h)) (sym whole)
        (ending-Pushed item h front t known last_known.0 small (push_-Pushed item h t last_known.0))

  -- `push` at an array does not throw, and returns an array with the item after the others.
  pub push-elements :
      (item : A) (a : Array A)
      → IsArray A a
      → (a' : Array A) × (push item a ≡ some a')
        × IsArray A a'
        × (elements A a'.height a'.tree ≡ elements A a.height a.tree ++ item ∷ [])
  unfolding push siblise
  push-elements item a i = elim (push_-Pushed item a.height a.tree (i.wf, i.counted)) [
    | inl e ↦
        let n = count A a.height a.tree in
        let (new, shown) = create-Known item a.height in
        let k =
          ending-Known a.height (a.tree ∷ []) (create item a.height) ((i.wf, i.counted), tt) new
            (omega arith) in
        (
          record {
            height = suc a.height;
            tree = ending a.height (a.tree ∷ []) (create item a.height);
          },
          rw (e, i.counted, new.1)
              (ap
                (λ lengths. some (record {
                  height = suc a.height;
                  tree = (a.tree ∷ create item a.height ∷ [], lengths);
                }))
                (ap₂ (λ m l. m ∷ l ∷ []) (omega arith) (omega arith))),
          record { wf = k.0; counted = k.1 },
          ending-elements a.height (a.tree ∷ []) (create item a.height)
              ∙ ap₂ (λ l m. l ++ m) (append-nil (elements A a.height a.tree)) shown,
        )
    | inr (t', e, k, g) ↦
        (record { height = a.height; tree = t' }, rw e refl, record { wf = k.0; counted = k.1 }, g)
  ]
