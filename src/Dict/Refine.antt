-- ===== src/Dict/Refine.antt =====
-- ui/dist/Main.js, `_elm_lang$core$Dict$get` and `update`, against the sorted list of the
-- entries.
use kubecast.Common.{
  ◌≡◌, refl, sym, ◌∙◌, ap, Option, none, some, ◌∷◌, ◌++◌, bind-eq-some, ◌>>=◌, Option-cases, inl,
  inr,
}
use kubecast.Ord.{Comparable, Ordering-cases}
use kubecast.Dict.{
  Dict, rb_empty, rb_node, NColor, red, Flag, same, insert, remove, blacken, ensure_black_root,
}
use kubecast.Dict.Ops.{rem, rebuild, finish, up_here, get, up, update}
use kubecast.Dict.Balance.{contents}
use kubecast.Dict.Contents.{contents-rem, contents-rebuild}
use kubecast.Dict.Sorted.{
  IsSorted, IsSorted-split, find, alter, entry, find-append_lt, find-append_eq, find-append_gt,
  alter-append_lt, alter-append_eq, alter-append_gt,
}

module _ {ℓ κ} {K : Type ℓ} {V : Type κ} where
  pair_eq : {p q : Flag × Dict K V} → some p ≡ some q → p ≡ q
  pair_eq e = cc

  some_eq : {a b : Dict K V} → some a ≡ some b → a ≡ b
  some_eq e = cc

  contents-finish : (f : Flag) (d : Dict K V) → contents (finish f d) ≡ contents d
  unfolding finish ensure_black_root blacken
  contents-finish same d = refl
  contents-finish insert (rb_node red k v l r) = refl
  contents-finish insert (rb_node _ k v l r) = refl
  contents-finish insert (rb_empty c) = refl
  contents-finish remove (rb_node c k v l r) = refl
  contents-finish remove (rb_empty c) = refl

module _ {ℓ κ} {K : Type ℓ} {V : Type κ} ⦃o : Comparable K⦄ where
  -- `get` reads the list of entries.
  pub get-find : (k : K) (d : Dict K V) → IsSorted (contents d) → get k d ≡ find k (contents d)
  unfolding get
  get-find k (rb_empty c) s = unfold find in refl
  get-find k (rb_node c j v l r) s =
      let (b, sl, a, sr) = IsSorted-split j v (contents l) (contents r) s in
      elim (Ordering-cases (o.cmp k j)) [
        | inl h ↦ rw (h, get) (get-find k l sl ∙ sym (find-append_lt k j v _ _ h a))
        | inr (inl h) ↦ rw (h, get) (sym (find-append_eq k j v _ _ h b))
        | inr (inr h) ↦ rw (h, get) (get-find k r sr ∙ sym (find-append_gt k j v _ _ h b))
      ]

  contents-up_here :
      (f : Option V → Option V) (c : NColor) (k : K) (v : V) (l r : Dict K V) (p : Flag × Dict K V)
      → up_here f c k v l r ≡ some p
      → contents p.1 ≡ contents l ++ (entry k (f (some v)) ++ contents r)
  unfolding up_here
  contents-up_here f c k v l r p e = elim (Option-cases (f (some v))) [
    | inl n ↦
        let (t, g, h) = bind-eq-some (rem c l r) _ (rw (n, up_here) at e) in
        rw n (ap (λ q. contents q.1) (sym (pair_eq h)) ∙ contents-rem c l r t g)
    | inr (w, n) ↦ rw n (ap (λ q. contents q.1) (sym (pair_eq (rw (n, up_here) at e))))
  ]

  contents-rebuilt :
      (f : Flag) (c : NColor) (j : K) (v : V) (l r : Dict K V) (p : Flag × Dict K V)
      → (rebuild f c j v l r >>= λ t. some (f, t)) ≡ some p
      → contents p.1 ≡ contents l ++ (j, v) ∷ contents r
  contents-rebuilt f c j v l r p e =
      let (t, et, g) = bind-eq-some (rebuild f c j v l r) (λ t. some (f, t)) e in
      ap (λ (q : Flag × Dict K V). contents q.1) (sym (pair_eq g))
      ∙ contents-rebuild f c j v l r t et

  contents-up :
      (k : K) (f : Option V → Option V) (d : Dict K V) (p : Flag × Dict K V)
      → IsSorted (contents d)
      → up k f d ≡ some p
      → contents p.1 ≡ alter k f (contents d)
  unfolding up alter
  contents-up k f (rb_empty c) p s e = elim (Option-cases (f none)) [
    | inl n ↦ rw n (ap (λ q. contents q.1) (sym (pair_eq (rw (n, up) at e))))
    | inr (v, n) ↦ rw n (ap (λ q. contents q.1) (sym (pair_eq (rw (n, up) at e))))
  ]
  contents-up k f (rb_node c j v l r) p s e =
      let (b, sl, a, sr) = IsSorted-split j v (contents l) (contents r) s in
      elim (Ordering-cases (o.cmp k j)) [
        | inl h ↦
            let (q, eu, g) = bind-eq-some (up k f l) _ (rw (h, up) at e) in
            contents-rebuilt q.0 c j v q.1 r p g
            ∙ ap (λ xs. xs ++ (j, v) ∷ contents r) (contents-up k f l q sl eu)
            ∙ sym (alter-append_lt k j f v _ _ h)
        | inr (inl h) ↦
            contents-up_here f c j v l r p (rw (h, up) at e) ∙ sym (alter-append_eq k j f v _ _ h b)
        | inr (inr h) ↦
            let (q, eu, g) = bind-eq-some (up k f r) _ (rw (h, up) at e) in
            contents-rebuilt q.0 c j v l q.1 p g
            ∙ ap (λ xs. contents l ++ (j, v) ∷ xs) (contents-up k f r q sr eu)
            ∙ sym (alter-append_gt k j f v _ _ h b)
      ]

  -- A call of `update` that does not crash alters the sorted list of entries.
  pub contents-update :
      (k : K) (f : Option V → Option V) (d t : Dict K V)
      → IsSorted (contents d)
      → update k f d ≡ some t
      → contents t ≡ alter k f (contents d)
  unfolding update
  contents-update k f d t s e =
      let (p, ep, g) = bind-eq-some (up k f d) _ e in
      ap contents (sym (some_eq g)) ∙ contents-finish p.0 p.1 ∙ contents-up k f d p s ep
