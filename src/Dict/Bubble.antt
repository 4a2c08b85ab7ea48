-- ===== src/Dict/Bubble.antt =====
-- ui/dist/Main.js, `_elm_lang$core$Dict$bubble` at the trees that a removal leaves.
use kubecast.Common.{ℕ, zero, suc, ◌≡◌, refl, ◌⊎◌, inl, inr, true, false}
use kubecast.Dict.{Dict, red, black, is_bblack, more_black, less_black_tree, NColor}
use kubecast.Dict.Ops.{balance, bubble}
use kubecast.Dict.RedBlack.{
  Valid, leaf, red_node, black_node, Is, Infrared, infra, Heavy, heavy_leaf, heavy_node, Light,
  light, Dark, Returns,
}
use kubecast.Dict.Rebalance.{
  balance_with_left-Is, balance_with_right-Is, balance_bblack_left, balance_bblack_right,
}

module _ {ℓ κ} {K : Type ℓ} {V : Type κ} where
  -- A tree of the right height, or one that counts as a level more than it has.
  abbrev pub Stand : ℕ → Dict K V → Type (ℓ ⊔ κ)
  Stand n t = Is n t ⊎ Heavy n t

  is_bblack-Valid : {c : NColor} {n : ℕ} {t : Dict K V} → Valid c n t → is_bblack t ≡ false
  unfolding is_bblack
  is_bblack-Valid leaf = refl
  is_bblack-Valid (red_node a b) = refl
  is_bblack-Valid (black_node a b) = refl

  is_bblack-Heavy : {n : ℕ} {t : Dict K V} → Heavy n t → is_bblack t ≡ true
  unfolding is_bblack
  is_bblack-Heavy heavy_leaf = refl
  is_bblack-Heavy (heavy_node a b) = refl

  Heavy-zero : {t : Dict K V} → ¬ Heavy zero t
  Heavy-zero h = elim h [ ]

  less_black_tree-Heavy :
      (n : ℕ) (t : Dict K V) → Heavy (suc n) t → Returns (less_black_tree t) (Valid black n)
  unfolding less_black_tree
  less_black_tree-Heavy _ _ heavy_leaf = (_, refl, leaf)
  less_black_tree-Heavy _ _ (heavy_node a b) = (_, refl, black_node a b)

  less_black_tree-black :
      (n : ℕ) (t : Dict K V) → Valid black (suc n) t → Returns (less_black_tree t) (Infrared n)
  unfolding less_black_tree
  less_black_tree-black _ _ (black_node a b) = (_, refl, infra a b)

  less_black_tree-Is :
      (n : ℕ) (t : Dict K V)
      → Is (suc n) t
      → Returns (less_black_tree t) (λ u. Infrared n u ⊎ Light n u)
  unfolding less_black_tree
  less_black_tree-Is _ _ (_, red_node a b) = (_, refl, inr (light a b))
  less_black_tree-Is _ _ (_, black_node a b) = (_, refl, inl (infra a b))

  pub bubble_black_left :
      (n : ℕ) (k : K) (v : V) (l r : Dict K V)
      → Stand n l
      → Is n r
      → Returns (bubble black k v l r) (Dark (suc n))
  unfolding bubble more_black
  bubble_black_left n k v l r (inl vl) vr =
      rw (is_bblack-Valid vl.1, is_bblack-Valid vr.1) (_, refl, inl (black_node vl.1 vr.1))
  bubble_black_left zero k v l r (inr hl) vr = absurd (Heavy-zero hl)
  bubble_black_left (suc n) k v l r (inr hl) vr =
      let (l', el, vl) = less_black_tree-Heavy n l hl in
      let (r', er, hr) = less_black_tree-Is n r vr in
      rw (is_bblack-Heavy hl, el, er) (balance_bblack_right n k v l' r' vl hr)

  pub bubble_black_right :
      (n : ℕ) (k : K) (v : V) (l r : Dict K V)
      → Is n l
      → Stand n r
      → Returns (bubble black k v l r) (Dark (suc n))
  unfolding bubble more_black
  bubble_black_right n k v l r vl (inl vr) =
      rw (is_bblack-Valid vl.1, is_bblack-Valid vr.1) (_, refl, inl (black_node vl.1 vr.1))
  bubble_black_right zero k v l r vl (inr hr) = absurd (Heavy-zero hr)
  bubble_black_right (suc n) k v l r vl (inr hr) =
      let (l', el, hl) = less_black_tree-Is n l vl in
      let (r', er, vr) = less_black_tree-Heavy n r hr in
      rw (is_bblack-Valid vl.1, is_bblack-Heavy hr, el, er) (balance_bblack_left n k v l' r' hl vr)

  pub bubble_red_left :
      (n : ℕ) (k : K) (v : V) (l r : Dict K V)
      → Dark n l
      → Valid black n r
      → Returns (bubble red k v l r) (Is n)
  unfolding bubble more_black balance
  bubble_red_left n k v l r (inl vl) vr =
      rw (is_bblack-Valid vl, is_bblack-Valid vr) (_, refl, (red, red_node vl vr))
  bubble_red_left zero k v l r (inr hl) vr = absurd (Heavy-zero hl)
  bubble_red_left (suc n) k v l r (inr hl) vr =
      let (l', el, vl) = less_black_tree-Heavy n l hl in
      let (r', er, hr) = less_black_tree-black n r vr in
      rw (is_bblack-Heavy hl, el, er) (balance_with_right-Is _ n k v l' r' (_, vl) (inr hr))

  pub bubble_red_right :
      (n : ℕ) (k : K) (v : V) (l r : Dict K V)
      → Valid black n l
      → Dark n r
      → Returns (bubble red k v l r) (Is n)
  unfolding bubble more_black balance
  bubble_red_right n k v l r vl (inl vr) =
      rw (is_bblack-Valid vl, is_bblack-Valid vr) (_, refl, (red, red_node vl vr))
  bubble_red_right zero k v l r vl (inr hr) = absurd (Heavy-zero hr)
  bubble_red_right (suc n) k v l r vl (inr hr) =
      let (l', el, hl) = less_black_tree-black n l vl in
      let (r', er, vr) = less_black_tree-Heavy n r hr in
      rw (is_bblack-Valid vl, is_bblack-Heavy hr, el, er)
        (balance_with_left-Is _ n k v l' r' (inr hl) (_, vr))
