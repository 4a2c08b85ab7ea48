-- ===== src/Dict/Removal.antt =====
-- ui/dist/Main.js, `_elm_lang$core$Dict$rem` and `removeMax` at a valid node.
use kubecast.Common.{ℕ, suc, refl, Option, inl, inr, ◌>>=◌}
use kubecast.Dict.{Dict, rb_empty, rb_node, NColor, red, black, bblack, nblack, lblack}
use kubecast.Dict.Ops.{rem_edge, remove_max, rem}
use kubecast.Dict.RedBlack.{Valid, leaf, red_node, black_node, Is, heavy_leaf, Dark, Returns}
use kubecast.Dict.Bubble.{
  Stand, bubble_black_left, bubble_black_right, bubble_red_left, bubble_red_right,
}

module _ {ℓ κ} {K : Type ℓ} {V : Type κ} where
  -- What a removal leaves of a valid tree, by the colour of its root.
  abbrev pub Removed : NColor → ℕ → Dict K V → Type (ℓ ⊔ κ)
  Removed red n t = Is n t
  Removed black n t = Dark n t
  Removed bblack n t = Is n t
  Removed nblack n t = Is n t

  pub Removed-Stand :
      {c : NColor} {n : ℕ} (u t : Dict K V) → Valid c n u → Removed c n t → Stand n t
  Removed-Stand u t leaf (inl v) = inl (_, v)
  Removed-Stand u t leaf (inr h) = inr h
  Removed-Stand u t (red_node a b) r = inl r
  Removed-Stand u t (black_node a b) (inl v) = inl (_, v)
  Removed-Stand u t (black_node a b) (inr h) = inr h

  -- One more step on a call that did not crash.
  pub Returns-bind {μ ν} :
      (o : Option (Dict K V)) (f : Dict K V → Option (Dict K V)) (P : Dict K V → Type μ)
      (Q : Dict K V → Type ν)
      → Returns o P
      → ((t : Dict K V) → P t → Returns (f t) Q)
      → Returns (o >>= f) Q
  Returns-bind o f P Q (t, e, h) k = rw e (k t h)

  rem_edge_red :
      (n : ℕ) (l : Dict K V)
      → Valid black n l
      → Valid {K = K} {V = V} black n (rb_empty lblack)
      → Returns (rem_edge red l (rb_empty lblack)) (Is n)
  unfolding rem_edge
  rem_edge_red _ _ leaf leaf = (_, refl, (_, leaf))
  rem_edge_red _ _ (black_node a b) h = elim h [ ]

  rem_edge_black :
      {c : NColor} (n : ℕ) (l : Dict K V)
      → Valid c n l
      → Valid {K = K} {V = V} black n (rb_empty lblack)
      → Returns (rem_edge black l (rb_empty lblack)) (Dark (suc n))
  unfolding rem_edge
  rem_edge_black _ _ leaf leaf = (_, refl, inr heavy_leaf)
  rem_edge_black _ _ (red_node leaf leaf) leaf = (_, refl, inl (black_node leaf leaf))
  rem_edge_black _ _ (red_node (black_node a b) c) h = elim h [ ]
  rem_edge_black _ _ (black_node a b) h = elim h [ ]

  -- `removeMax` at the node `t`.
  MaxOk : NColor → ℕ → Dict K V → Type (ℓ ⊔ κ)
  MaxOk c n (rb_empty lc) = Unit
  MaxOk c n (rb_node d k v l r) = Returns (remove_max d k v l r) (Removed c n)

  max_red :
      (n : ℕ) (k : K) (v : V) (l r : Dict K V)
      → Valid black n l
      → Valid black n r
      → MaxOk black n r
      → Returns (remove_max red k v l r) (Is n)
  unfolding remove_max MaxOk
  max_red n k v l _ vl leaf h = rem_edge_red n l vl leaf
  max_red n k v l _ vl (black_node a b) h =
      Returns-bind _ _ _ _ h (λ r' d. bubble_red_right n k v l r' vl d)

  max_black :
      {c d : NColor} (n : ℕ) (k : K) (v : V) (l r : Dict K V)
      → Valid c n l
      → Valid d n r
      → MaxOk d n r
      → Returns (remove_max black k v l r) (Dark (suc n))
  unfolding remove_max MaxOk
  max_black n k v l _ vl leaf h = rem_edge_black n l vl leaf
  max_black n k v l _ vl (red_node a b) h =
      Returns-bind _ _ _ _ h (λ r' i. bubble_black_right n k v l r' (_, vl) (inl i))
  max_black n k v l r vl (black_node a b) h =
      Returns-bind _ _ _ _ h
        (λ r' d. bubble_black_right n k v l r' (_, vl) (Removed-Stand r r' (black_node a b) d))

  max-Removed : {c : NColor} {n : ℕ} {t : Dict K V} → Valid c n t → MaxOk c n t
  unfolding MaxOk
  max-Removed leaf = tt
  max-Removed (red_node {n} {k} {v} {l} {r} a b) = max_red n k v l r a b (max-Removed b)
  max-Removed (black_node {n = n} {k = k} {v = v} {l = l} {r = r} a b) =
      max_black n k v l r a b (max-Removed b)

  pub rem_red :
      (n : ℕ) (l r : Dict K V) → Valid black n l → Valid black n r → Returns (rem red l r) (Is n)
  unfolding rem rem_edge MaxOk
  rem_red _ _ _ leaf leaf = (_, refl, (_, leaf))
  rem_red n l r (black_node a b) (black_node x y) =
      Returns-bind _ _ _ _ (max-Removed (black_node a b))
        λ l' d. bubble_red_left n _ _ l' r d (black_node x y)

  rem_nodes :
      {c d lc rc : NColor} (n : ℕ) {lk rk : K} {lv rv : V} {ll lr rl rr : Dict K V}
      → Valid c n (rb_node lc lk lv ll lr)
      → Valid d n (rb_node rc rk rv rl rr)
      → Returns (rem black (rb_node lc lk lv ll lr) (rb_node rc rk rv rl rr)) (Dark (suc n))
  unfolding rem MaxOk
  rem_nodes n vl vr =
      Returns-bind _ _ _ _ (max-Removed vl)
        λ l' h. bubble_black_left n _ _ l' _ (Removed-Stand _ l' vl h) (_, vr)

  pub rem_black :
      {c d : NColor} (n : ℕ) (l r : Dict K V)
      → Valid c n l
      → Valid d n r
      → Returns (rem black l r) (Dark (suc n))
  unfolding rem rem_edge
  rem_black _ _ _ leaf leaf = (_, refl, inr heavy_leaf)
  rem_black _ _ _ leaf (red_node leaf leaf) = (_, refl, inl (black_node leaf leaf))
  rem_black _ _ _ (red_node leaf leaf) leaf = (_, refl, inl (black_node leaf leaf))
  rem_black n _ _ (red_node a b) (red_node x y) = rem_nodes n (red_node a b) (red_node x y)
  rem_black n _ _ (red_node a b) (black_node x y) = rem_nodes n (red_node a b) (black_node x y)
  rem_black n _ _ (black_node a b) (red_node x y) = rem_nodes n (black_node a b) (red_node x y)
  rem_black n _ _ (black_node a b) (black_node x y) = rem_nodes n (black_node a b) (black_node x y)
