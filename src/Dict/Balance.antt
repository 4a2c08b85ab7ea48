-- ===== src/Dict/Balance.antt =====
-- ui/dist/Main.js, `_elm_lang$core$Dict$balance` and `balanceHelp`: the entries of a tree, what
-- `balance` makes of them, and its recursive equation.
use kubecast.Common.{
  ◌≡◌, refl, ◌∙◌, Option, none, some, List, [], ◌∷◌, ◌++◌, append_assoc, append-nil, arith,
  Option-cases, inl, inr, ◌>>=◌,
}
use kubecast.Dict.{
  Dict, rb_empty, rb_node, NColor, red, black, bblack, nblack, foldr, to_list, blackish,
  balanced_tree, redden,
}
use kubecast.Dict.Ops.{
  Spine, Wedge, red_red, nblack_blacks, Balancer, balance_nblack, balance_help_with, balance_with,
  balance,
}

-- The colours at which `balance` rebalances.
abbrev pub IsDark : NColor → Type 0
IsDark black = Unit
IsDark bblack = Unit
IsDark red = ⊥
IsDark nblack = ⊥

module _ {ℓ κ} {K : Type ℓ} {V : Type κ} where
  -- The entries from left to right.
  abbrev pub contents : Dict K V → List (K × V)
  contents (rb_empty c) = []
  contents (rb_node c k v l r) = contents l ++ (k, v) ∷ contents r

  foldr-contents :
      (d : Dict K V) (acc : List (K × V)) → foldr (λ k v l. (k, v) ∷ l) acc d ≡ contents d ++ acc
  unfolding foldr
  foldr-contents (rb_empty c) acc = refl
  foldr-contents (rb_node c k v l r) acc = simp (foldr-contents l, foldr-contents r, append_assoc)

  -- `toList` lists the entries from left to right.
  pub to_list-contents : (d : Dict K V) → to_list d ≡ contents d
  unfolding to_list
  to_list-contents d = foldr-contents d [] ∙ append-nil (contents d)

  -- What a call that did not crash returned: a tree with these entries.
  abbrev pub Yields : Option (Dict K V) → List (K × V) → Type (ℓ ⊔ κ)
  Yields o xs = (t : Dict K V) × (o ≡ some t) × (contents t ≡ xs)

  contents-red_red :
      (t : Dict K V) (s : Spine K V)
      → red_red t ≡ some s
      → contents t ≡ contents s.a ++ (s.xk, s.xv) ∷ (contents s.b ++ (s.yk, s.yv) ∷ contents s.c)
  unfolding red_red
  contents-red_red (rb_node red k v (rb_node red lk lv a b) c) s e =
      ground (arith, append_assoc (contents a) ((lk, lv) ∷ contents b) ((k, v) ∷ contents c))
  contents-red_red (rb_node red k v a (rb_node red rk rv b c)) s e = ground arith
  contents-red_red _ s e = ground arith

  contents-nblack_blacks :
      (t : Dict K V) (w : Wedge K V)
      → nblack_blacks t ≡ some w
      → contents t
        ≡ (contents w.a ++ (w.xk, w.xv) ∷ contents w.b)
          ++ (w.yk, w.yv) ∷ (contents w.c ++ (w.zk, w.zv) ∷ contents w.d)
  unfolding nblack_blacks
  contents-nblack_blacks (rb_node nblack k v (rb_node black lk lv a b) (rb_node black rk rv c d)) w
        e =
      ground arith
  contents-nblack_blacks _ w e = ground arith

  balanced_tree-Yields :
      (col : NColor) (xk : K) (xv : V) (yk : K) (yv : V) (zk : K) (zv : V) (a b c d : Dict K V)
      → IsDark col
      → Yields (balanced_tree col xk xv yk yv zk zv a b c d) (
          (contents a ++ (xk, xv) ∷ contents b) ++ (yk, yv) ∷ (contents c ++ (zk, zv) ∷ contents d))
  unfolding balanced_tree
  balanced_tree-Yields black xk xv yk yv zk zv a b c d h = (_, refl, refl)
  balanced_tree-Yields bblack xk xv yk yv zk zv a b c d h = (_, refl, refl)
  balanced_tree-Yields red xk xv yk yv zk zv a b c d h = absurd h
  balanced_tree-Yields nblack xk xv yk yv zk zv a b c d h = absurd h

  abbrev Keeps : Balancer K V → NColor → Type (ℓ ⊔ κ)
  Keeps f c =
      (k : K) (v : V) (l r : Dict K V) → Yields (f c k v l r) (contents l ++ (k, v) ∷ contents r)

  Yields-eq : {o : Option (Dict K V)} {xs ys : List (K × V)} → xs ≡ ys → Yields o xs → Yields o ys
  Yields-eq e y = (y.0, y.1, y.2 ∙ e)

  balance_nblack-Keeps :
      (nested : Balancer K V) → Keeps nested black → Keeps (balance_nblack nested) bblack
  unfolding balance_nblack redden
  balance_nblack-Keeps nested ih k v l r = elim (Option-cases (nblack_blacks r)) [
    | inr (w, e) ↦
        let (r', er, cr) = ih w.yk w.yv w.b (rb_node red w.zk w.zv w.c w.d) in
        (
          rb_node black w.xk w.xv (rb_node black k v l w.a) r',
          rw (e, balance_nblack, er),
          simp (cr, contents-nblack_blacks r w e, append_assoc),
        )
    | inl e ↦ elim (Option-cases (nblack_blacks l)) [
      | inr (w, f) ↦
          let (l', el, cl) = ih w.yk w.yv (rb_node red w.xk w.xv w.a w.b) w.c in
          (
            rb_node black w.zk w.zv l' (rb_node black k v w.d r),
            rw (e, f, balance_nblack, el),
            simp (cl, contents-nblack_blacks l w f, append_assoc),
          )
      | inl f ↦ (rb_node bblack k v l r, rw (e, f, balance_nblack), refl)
    ]
  ]

  balance_nblack-Keeps_dark :
      (nested : Balancer K V)
      → Keeps nested black
      → (c : NColor) → IsDark c
      → Keeps (balance_nblack nested) c
  unfolding balance_nblack
  balance_nblack-Keeps_dark nested ih black h = λ k v l r. (_, refl, refl)
  balance_nblack-Keeps_dark nested ih bblack h = balance_nblack-Keeps nested ih
  balance_nblack-Keeps_dark nested ih red h = absurd h
  balance_nblack-Keeps_dark nested ih nblack h = absurd h

  -- A middle case: `keep` is what is done where no red pair is found.
  balance_help_with-Keeps :
      (nested : Balancer K V) (c : NColor)
      → IsDark c
      → Keeps (balance_nblack nested) c
      → Keeps (balance_help_with nested) c
  unfolding balance_help_with
  balance_help_with-Keeps nested c h keep k v l r = elim (Option-cases (red_red l)) [
    | inr (s, e) ↦
        rw (e, balance_help_with)
          (Yields-eq (simp (contents-red_red l s e, append_assoc))
            (balanced_tree-Yields c s.xk s.xv s.yk s.yv k v s.a s.b s.c r h))
    | inl e ↦ elim (Option-cases (red_red r)) [
      | inr (s, f) ↦
          rw (e, f, balance_help_with)
            (Yields-eq (simp (contents-red_red r s f, append_assoc))
              (balanced_tree-Yields c k v s.xk s.xv s.yk s.yv l s.a s.b s.c h))
      | inl f ↦ rw (e, f, balance_help_with) (keep k v l r)
    ]
  ]

  balance_with-Keeps :
      (nested : Balancer K V)
      → ((c : NColor) → IsDark c → Keeps (balance_nblack nested) c)
      → (c : NColor) → Keeps (balance_with nested) c
  unfolding balance_with blackish
  balance_with-Keeps nested keep red k v l r = (_, refl, refl)
  balance_with-Keeps nested keep nblack k v l r = (_, refl, refl)
  balance_with-Keeps nested keep black k v l r =
      balance_help_with-Keeps nested black tt (keep black tt) k v l r
  balance_with-Keeps nested keep bblack k v l r =
      balance_help_with-Keeps nested bblack tt (keep bblack tt) k v l r

  balance_once-Keeps : (nested : Balancer K V) → Keeps (balance_with nested) black
  unfolding balance_with blackish balance_nblack
  balance_once-Keeps nested k v l r =
      balance_help_with-Keeps nested black tt (λ j u a b. (_, refl, refl)) k v l r

  -- `balance` never crashes, whatever the colours and the trees, and keeps the entries in order.
  pub balance-Keeps :
      (c : NColor) (k : K) (v : V) (l r : Dict K V)
      → (t : Dict K V) × (balance c k v l r ≡ some t)
        × (contents t ≡ contents l ++ (k, v) ∷ contents r)
  unfolding balance
  balance-Keeps =
      balance_with-Keeps _ (balance_nblack-Keeps_dark _ (balance_once-Keeps (λ c k v l r. none)))

  -- At a black root the nested call does not matter.
  balance_with_black :
      (f g : Balancer K V) (k : K) (v : V) (l r : Dict K V)
      → balance_with f black k v l r ≡ balance_with g black k v l r
  unfolding balance_with balance_help_with balance_nblack blackish
  balance_with_black f g k v l r = refl

  balance_nblack-eq :
      (f g : Balancer K V)
      → ((k : K) (v : V) (l r : Dict K V) → f black k v l r ≡ g black k v l r)
      → balance_nblack f bblack ≡ balance_nblack g bblack
  unfolding balance_nblack redden
  balance_nblack-eq f g h = λ i k v l r. elim (nblack_blacks r) [
    | some w ↦ h w.yk w.yv w.b (rb_node red w.zk w.zv w.c w.d) i >>= λ r'.
        some (rb_node black w.xk w.xv (rb_node black k v l w.a) r')
    | none ↦ elim (nblack_blacks l) [
      | some w ↦ h w.yk w.yv (rb_node red w.xk w.xv w.a w.b) w.c i >>= λ l'.
          some (rb_node black w.zk w.zv l' (rb_node black k v w.d r))
      | none ↦ some (rb_node bblack k v l r)
    ]
  ]

  -- The source's recursive equation: `balance` is its body, with itself as the nested call.
  pub balance_unfold :
      (c : NColor) (k : K) (v : V) (l r : Dict K V)
      → balance c k v l r ≡ balance_with balance c k v l r
  unfolding balance
  balance_unfold red k v l r = unfold balance_with blackish in refl
  balance_unfold nblack k v l r = unfold balance_with blackish in refl
  balance_unfold black k v l r = balance_with_black _ _ k v l r
  balance_unfold bblack k v l r =
      let e = balance_nblack-eq (balance_with (λ c k v l r. none)) balance (λ k v l r.
        balance_with_black (λ c k v l r. none) (balance_with (λ c k v l r. none)) k v l r) in
      unfold balance_with balance_help_with blackish in
      λ i. elim (red_red l) [
        | some s ↦ balanced_tree bblack s.xk s.xv s.yk s.yv k v s.a s.b s.c r
        | none ↦ elim (red_red r) [
          | some s ↦ balanced_tree bblack k v s.xk s.xv s.yk s.yv l s.a s.b s.c
          | none ↦ e i k v l r
        ]
      ]
