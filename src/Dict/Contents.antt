-- ===== src/Dict/Contents.antt =====
-- ui/dist/Main.js, `_elm_lang$core$Dict$bubble`, `removeMax` and `rem`: the entries that a call
-- leaves.
use kubecast.Common.{
  ◌≡◌, sym, ◌∙◌, ap, ◌||◌, some, [], ◌∷◌, ◌++◌, append_assoc, append-nil, arith, Bool-cases, inl,
  inr, bind-eq-some,
}
use kubecast.Dict.{
  Dict, rb_empty, rb_node, NColor, red, black, lblack, Flag, same, insert, remove, more_black,
  less_black, less_black_tree, is_bblack, max_with_default,
}
use kubecast.Dict.Ops.{balance, bubble, rem_edge, remove_max, rem, rebuild}
use kubecast.Dict.Balance.{contents, balance-Keeps}

module _ {ℓ κ} {K : Type ℓ} {V : Type κ} where
  some_eq : {a b : Dict K V} → some a ≡ some b → a ≡ b
  some_eq e = cc

  pub contents-balance :
      (c : NColor) (k : K) (v : V) (l r t : Dict K V)
      → balance c k v l r ≡ some t
      → contents t ≡ contents l ++ (k, v) ∷ contents r
  contents-balance c k v l r t e =
      let (t', e', h) = balance-Keeps c k v l r in ap contents (some_eq (sym e ∙ e')) ∙ h

  contents-less_black_tree : (d t : Dict K V) → less_black_tree d ≡ some t → contents t ≡ contents d
  unfolding less_black_tree
  contents-less_black_tree (rb_empty c) t e = ground arith
  contents-less_black_tree (rb_node c k v l r) t e =
      let (c', _, f) = bind-eq-some (less_black c) _ e in ap contents (sym (some_eq f))

  pub contents-bubble :
      (c : NColor) (k : K) (v : V) (l r t : Dict K V)
      → bubble c k v l r ≡ some t
      → contents t ≡ contents l ++ (k, v) ∷ contents r
  unfolding bubble
  contents-bubble c k v l r t e = elim (Bool-cases (is_bblack l || is_bblack r)) [
    | inr plain ↦ ap contents (sym (some_eq (rw plain at e)))
    | inl heavy ↦
        let (c', _, e1) = bind-eq-some (more_black c) _ (rw heavy at e) in
        let (l', el, e2) = bind-eq-some (less_black_tree l) _ e1 in
        let (r', er, e3) = bind-eq-some (less_black_tree r) _ e2 in
        contents-balance c' k v l' r' t e3
        ∙ rw (contents-less_black_tree l l' el, contents-less_black_tree r r' er)
  ]

  contents-rem_edge :
      (c : NColor) (l r t : Dict K V)
      → rem_edge c l r ≡ some t
      → contents t ≡ contents l ++ contents r
  unfolding rem_edge
  contents-rem_edge red (rb_empty lc) (rb_empty rc) t e = ground arith
  contents-rem_edge black (rb_empty lc) (rb_empty rc) t e = ground arith
  contents-rem_edge black (rb_empty lblack) (rb_node red k v l r) t e = ground arith
  contents-rem_edge black (rb_node red k v l r) (rb_empty lblack) t e =
      ap contents (sym (some_eq e)) ∙ sym (append-nil (contents l ++ (k, v) ∷ contents r))
  contents-rem_edge _ _ _ t e = cc

  -- `removeMax` takes the last entry off.
  contents-remove_max :
      (c : NColor) (k : K) (v : V) (l r t : Dict K V)
      → remove_max c k v l r ≡ some t
      → contents t ++ max_with_default k v r ∷ [] ≡ contents l ++ (k, v) ∷ contents r
  unfolding remove_max max_with_default
  contents-remove_max c k v l (rb_empty rc) t e =
      ap (λ xs. xs ++ (k, v) ∷ [])
        (contents-rem_edge c l (rb_empty rc) t e ∙ append-nil (contents l))
  contents-remove_max c k v l (rb_node rc rk rv rl rr) t e =
      let (r', f, g) = bind-eq-some (remove_max rc rk rv rl rr) _ e in
      simp (contents-bubble c k v l r' t g, append_assoc, contents-remove_max rc rk rv rl rr r' f)

  -- `rem` joins the two trees of a removed node.
  pub contents-rem :
      (c : NColor) (l r t : Dict K V) → rem c l r ≡ some t → contents t ≡ contents l ++ contents r
  unfolding rem
  contents-rem c (rb_node lc lk lv ll lr) (rb_node rc rk rv rl rr) t e =
      let (l', f, g) = bind-eq-some (remove_max lc lk lv ll lr) _ e in
      let m = max_with_default lk lv lr in
      let rest = contents (rb_node rc rk rv rl rr) in
      contents-bubble c m.0 m.1 l' (rb_node rc rk rv rl rr) t g
      ∙ sym (append_assoc (contents l') (m ∷ []) rest)
      ∙ ap (λ xs. xs ++ rest) (contents-remove_max lc lk lv ll lr l' f)
  contents-rem c (rb_node lc lk lv ll lr) (rb_empty rc) t e = contents-rem_edge c _ _ t e
  contents-rem c (rb_empty lc) r t e = contents-rem_edge c _ _ t e

  -- Above a step, the new subtree's entries stand in the old one's place.
  pub contents-rebuild :
      (f : Flag) (c : NColor) (k : K) (v : V) (l r t : Dict K V)
      → rebuild f c k v l r ≡ some t
      → contents t ≡ contents l ++ (k, v) ∷ contents r
  unfolding rebuild
  contents-rebuild same c k v l r t e = ap contents (sym (some_eq e))
  contents-rebuild insert c k v l r t e = contents-balance c k v l r t e
  contents-rebuild remove c k v l r t e = contents-bubble c k v l r t e
