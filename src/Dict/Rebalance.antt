-- ===== src/Dict/Rebalance.antt =====
-- ui/dist/Main.js, `_elm_lang$core$Dict$balance` and `bubble` at the shapes that `update` calls
-- them at, and the red-black invariant.
use kubecast.Common.{ℕ, suc, ◌≡◌, refl, none, ◌⊎◌, inl, inr}
use kubecast.Dict.{Dict, rb_node, NColor, red, black, bblack, balanced_tree, blackish, redden}
use kubecast.Dict.Ops.{
  red_red, nblack_blacks, Balancer, balance_nblack, balance_help_with, balance_with, balance,
}
use kubecast.Dict.RedBlack.{
  Valid, leaf, red_node, black_node, Is, Infrared, infra, heavy_node, Light, light, Loose, Dark,
  Returns, red_red-Valid, red_red-Infrared, red_red-Loose,
}

module _ {ℓ κ} {K : Type ℓ} {V : Type κ} where
  -- A black root with at most a red pair on one side.
  pub balance_with_left-Is :
      (f : Balancer K V) (n : ℕ) (k : K) (v : V) (l r : Dict K V)
      → Loose n l
      → Is n r
      → Returns (balance_with f black k v l r) (Is (suc n))
  unfolding balance_with balance_help_with balance_nblack balanced_tree blackish
  balance_with_left-Is f n k v l r hl vr = elim (red_red-Loose hl) [
    | inl (s, e, a, b, c) ↦
        rw (e, balance_help_with)
          (_, refl, (red, red_node (black_node a.1 b.1) (black_node c.1 vr.1)))
    | inr (e, vl) ↦
        rw (e, red_red-Valid vr.1, balance_help_with) (_, refl, (black, black_node vl.1 vr.1))
  ]

  pub balance_with_right-Is :
      (f : Balancer K V) (n : ℕ) (k : K) (v : V) (l r : Dict K V)
      → Is n l
      → Loose n r
      → Returns (balance_with f black k v l r) (Is (suc n))
  unfolding balance_with balance_help_with balance_nblack balanced_tree blackish
  balance_with_right-Is f n k v l r vl hr = elim (red_red-Loose hr) [
    | inl (s, e, a, b, c) ↦
        rw (red_red-Valid vl.1, e, balance_help_with)
          (_, refl, (red, red_node (black_node vl.1 a.1) (black_node b.1 c.1)))
    | inr (e, vr) ↦
        rw (red_red-Valid vl.1, e, balance_help_with) (_, refl, (black, black_node vl.1 vr.1))
  ]

  red_red-Light : {n : ℕ} {t : Dict K V} → Light n t → red_red t ≡ none
  unfolding red_red
  red_red-Light (light a b) = refl

  nblack_blacks-Valid : {c : NColor} {n : ℕ} {t : Dict K V} → Valid c n t → nblack_blacks t ≡ none
  unfolding nblack_blacks
  nblack_blacks-Valid leaf = refl
  nblack_blacks-Valid (red_node a b) = refl
  nblack_blacks-Valid (black_node a b) = refl

  balance_bblack-Light_right :
      (n : ℕ) (k : K) (v : V) (l r : Dict K V)
      → Valid black n l
      → Light n r
      → Returns (balance bblack k v l r) (Dark (suc (suc n)))
  unfolding balance balance_with balance_help_with balance_nblack blackish nblack_blacks redden
      red_red
  balance_bblack-Light_right n k v l _ vl
        (light {k = yk} {v = yv}
          (black_node {r = rb} a b)
          (black_node {k = zk} {v = zv} {l = zl} {r = zr} c d)) =
      let (t, e, h) =
        balance_with_right-Is (λ c k v l r. none) n yk yv rb (rb_node red zk zv zl zr) (_, b)
          (inr (infra c d)) in
      rw (red_red-Valid vl, balance_help_with, e) (_, refl, inl (black_node (black_node vl a) h.1))

  balance_bblack-Light_left :
      (n : ℕ) (k : K) (v : V) (l r : Dict K V)
      → Light n l
      → Valid black n r
      → Returns (balance bblack k v l r) (Dark (suc (suc n)))
  unfolding balance balance_with balance_help_with balance_nblack blackish nblack_blacks redden
      red_red
  balance_bblack-Light_left n k v _ r
        (light {k = yk} {v = yv}
          (black_node {k = xk} {v = xv} {l = xl} {r = xr} a b)
          (black_node {l = zl} c d))
        vr =
      let (t, e, h) =
        balance_with_left-Is (λ c k v l r. none) n yk yv (rb_node red xk xv xl xr) zl
          (inr (infra a b)) (_, c) in
      rw (red_red-Valid vr, balance_help_with, nblack_blacks-Valid vr, balance_nblack, e)
        (_, refl, inl (black_node h.1 (black_node d vr)))

  -- A double black root with a reddened or a negative black sibling on the right.
  pub balance_bblack_right :
      (n : ℕ) (k : K) (v : V) (l r : Dict K V)
      → Valid black n l
      → Infrared n r ⊎ Light n r
      → Returns (balance bblack k v l r) (Dark (suc (suc n)))
  unfolding balance balance_with balance_help_with balance_nblack balanced_tree blackish
  balance_bblack_right n k v l r vl (inl hr) = elim (red_red-Infrared hr) [
    | inl (s, e, a, b, c) ↦
        rw (red_red-Valid vl, e, balance_help_with)
          (_, refl, inl (black_node (black_node vl a.1) (black_node b.1 c.1)))
    | inr (e, vr) ↦
        rw
          (
            red_red-Valid vl,
            e,
            balance_help_with,
            nblack_blacks-Valid vr,
            nblack_blacks-Valid vl,
            balance_nblack,
          )
          (_, refl, inr (heavy_node vl vr))
  ]
  balance_bblack_right n k v l r vl (inr hr) = balance_bblack-Light_right n k v l r vl hr

  pub balance_bblack_left :
      (n : ℕ) (k : K) (v : V) (l r : Dict K V)
      → Infrared n l ⊎ Light n l
      → Valid black n r
      → Returns (balance bblack k v l r) (Dark (suc (suc n)))
  unfolding balance balance_with balance_help_with balance_nblack balanced_tree blackish
  balance_bblack_left n k v l r (inl hl) vr = elim (red_red-Infrared hl) [
    | inl (s, e, a, b, c) ↦
        rw (e, balance_help_with)
          (_, refl, inl (black_node (black_node a.1 b.1) (black_node c.1 vr)))
    | inr (e, vl) ↦
        rw
          (
            e,
            red_red-Valid vr,
            balance_help_with,
            nblack_blacks-Valid vr,
            nblack_blacks-Valid vl,
            balance_nblack,
          )
          (_, refl, inr (heavy_node vl vr))
  ]
  balance_bblack_left n k v l r (inr hl) vr = balance_bblack-Light_left n k v l r hl vr
