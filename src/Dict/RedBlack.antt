-- ===== src/Dict/RedBlack.antt =====
-- ui/dist/Main.js, `_elm_lang$core$Dict$…`: the red-black invariant of a dictionary, the shapes
-- that appear inside `update`, and `balance` at a black root.
use kubecast.Common.{ℕ, zero, suc, ◌≡◌, refl, Option, none, some, ◌⊎◌, inl, inr}
use kubecast.Dict.{Dict, rb_empty, rb_node, NColor, red, black, bblack, nblack, lblack, lbblack}
use kubecast.Dict.Ops.{Spine, red_red}

module _ {ℓ κ} {K : Type ℓ} {V : Type κ} where
  -- `Valid c n t`: the root of `t` has the colour `c` (a leaf counts as black), no red node has a red
  -- child, and every path down to a leaf meets `n` black nodes.
  pub data Valid : NColor → ℕ → Dict K V → Type (ℓ ⊔ κ) where
    leaf : Valid black zero (rb_empty lblack)
    red_node :
        {n : ℕ} {k : K} {v : V} {l r : Dict K V}
        → Valid black n l
        → Valid black n r
        → Valid red n (rb_node red k v l r)
    black_node :
        {c d : NColor} {n : ℕ} {k : K} {v : V} {l r : Dict K V}
        → Valid c n l
        → Valid d n r
        → Valid black (suc n) (rb_node black k v l r)

  abbrev pub Is : ℕ → Dict K V → Type (ℓ ⊔ κ)
  Is n t = (c : NColor) × Valid c n t

  -- A red root that may have red children.
  pub data Infrared : ℕ → Dict K V → Type (ℓ ⊔ κ) where
    infra :
        {c d : NColor} {n : ℕ} {k : K} {v : V} {l r : Dict K V}
        → Valid c n l
        → Valid d n r
        → Infrared n (rb_node red k v l r)

  -- A root that counts as two black nodes.
  pub data Heavy : ℕ → Dict K V → Type (ℓ ⊔ κ) where
    heavy_leaf : Heavy (suc zero) (rb_empty lbblack)
    heavy_node :
        {c d : NColor} {n : ℕ} {k : K} {v : V} {l r : Dict K V}
        → Valid c n l
        → Valid d n r
        → Heavy (suc (suc n)) (rb_node bblack k v l r)

  -- A root that takes one black node off.
  pub data Light : ℕ → Dict K V → Type (ℓ ⊔ κ) where
    light :
        {n : ℕ} {k : K} {v : V} {l r : Dict K V}
        → Valid black (suc n) l
        → Valid black (suc n) r
        → Light n (rb_node nblack k v l r)

  abbrev pub Loose : ℕ → Dict K V → Type (ℓ ⊔ κ)
  Loose n t = Valid black n t ⊎ Infrared n t

  abbrev pub Dark : ℕ → Dict K V → Type (ℓ ⊔ κ)
  Dark n t = Valid black n t ⊎ Heavy n t

  -- A call that does not crash, and whose tree satisfies `P`.
  abbrev pub Returns {μ} : Option (Dict K V) → (Dict K V → Type μ) → Type (ℓ ⊔ κ ⊔ μ)
  Returns o P = (t : Dict K V) × (o ≡ some t) × P t

  pub Is-Loose : (n : ℕ) (t : Dict K V) → Is n t → Loose n t
  Is-Loose _ _ (_, leaf) = inl leaf
  Is-Loose _ _ (_, red_node a b) = inr (infra a b)
  Is-Loose _ _ (_, black_node a b) = inl (black_node a b)

  -- What `red_red` finds: three valid trees.
  abbrev pub Split : ℕ → Dict K V → Type (ℓ ⊔ κ)
  Split n t = (s : Spine K V) × (red_red t ≡ some s) × Is n s.a × Is n s.b × Is n s.c

  pub red_red-Valid : {c : NColor} {n : ℕ} {t : Dict K V} → Valid c n t → red_red t ≡ none
  unfolding red_red
  red_red-Valid leaf = refl
  red_red-Valid (black_node a b) = refl
  red_red-Valid (red_node leaf leaf) = refl
  red_red-Valid (red_node (black_node a b) (black_node c d)) = refl

  pub red_red-Infrared :
      {n : ℕ} {t : Dict K V} → Infrared n t → Split n t ⊎ ((red_red t ≡ none) × Valid red n t)
  unfolding red_red
  red_red-Infrared (infra (red_node a b) c) = inl (_, refl, (_, a), (_, b), (_, c))
  red_red-Infrared (infra leaf (red_node b c)) = inl (_, refl, (_, leaf), (_, b), (_, c))
  red_red-Infrared (infra (black_node x y) (red_node b c)) =
      inl (_, refl, (_, black_node x y), (_, b), (_, c))
  red_red-Infrared (infra leaf leaf) = inr (refl, red_node leaf leaf)
  red_red-Infrared (infra (black_node x y) (black_node z w)) =
      inr (refl, red_node (black_node x y) (black_node z w))

  pub red_red-Loose : {n : ℕ} {t : Dict K V} → Loose n t → Split n t ⊎ ((red_red t ≡ none) × Is n t)
  red_red-Loose (inl v) = inr (red_red-Valid v, (_, v))
  red_red-Loose (inr i) = elim (red_red-Infrared i) [ inl s ↦ inl s | inr (e, v) ↦ inr (e, (_, v)) ]
