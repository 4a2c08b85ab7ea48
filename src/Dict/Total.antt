-- ===== src/Dict/Total.antt =====
-- ui/dist/Main.js, `_elm_lang$core$Dict$update` at a valid tree.
use kubecast.Common.{ℕ, suc, ◌≡◌, refl, Option, none, some, inl, inr, ◌>>=◌, Option-cases}
use kubecast.Ord.{Comparable, Ordering-cases}
use kubecast.Dict.{
  Dict, rb_node, NColor, red, black, Flag, same, insert, remove, ensure_black_root, blacken,
  blackish, empty,
}
use kubecast.Dict.Ops.{balance, balance_with, rebuild, finish, up_here, up, update}
use kubecast.Dict.RedBlack.{
  Valid, leaf, red_node, black_node, Is, Infrared, infra, heavy_leaf, heavy_node, Loose, Returns,
  Is-Loose,
}
use kubecast.Dict.Rebalance.{balance_with_left-Is, balance_with_right-Is}
use kubecast.Dict.Bubble.{bubble_black_left, bubble_black_right, bubble_red_left, bubble_red_right}
use kubecast.Dict.Removal.{Removed, Removed-Stand, rem_red, rem_black}

module _ {ℓ κ} {K : Type ℓ} {V : Type κ} where
  -- What a step of `update` leaves of a valid tree, by its flag and the colour of the root.
  abbrev Stepped : Flag → NColor → ℕ → Dict K V → Type (ℓ ⊔ κ)
  Stepped same c n t = Valid c n t
  Stepped insert red n t = Infrared n t
  Stepped insert _ n t = Is n t
  Stepped remove c n t = Removed c n t

  abbrev Steps : Option (Flag × Dict K V) → NColor → ℕ → Type (ℓ ⊔ κ)
  Steps o c n = (p : Flag × Dict K V) × (o ≡ some p) × Stepped p.0 c n p.1

  Stepped-Loose :
      {c : NColor} {n : ℕ} (u t : Dict K V) → Valid c n u → Stepped insert c n t → Loose n t
  Stepped-Loose {n} u t leaf i = Is-Loose n t i
  Stepped-Loose {n} u t (black_node a b) i = Is-Loose n t i
  Stepped-Loose u t (red_node a b) i = inr i

  rebuild_red_left :
      (f : Flag) (n : ℕ) (k : K) (v : V) (l r : Dict K V)
      → Stepped f black n l
      → Valid black n r
      → Returns (rebuild f red k v l r) (Stepped f red n)
  unfolding rebuild balance balance_with blackish
  rebuild_red_left same n k v l r h vr = (_, refl, red_node h vr)
  rebuild_red_left insert n k v l r h vr = (_, refl, infra h.1 vr)
  rebuild_red_left remove n k v l r h vr = bubble_red_left n k v l r h vr

  rebuild_red_right :
      (f : Flag) (n : ℕ) (k : K) (v : V) (l r : Dict K V)
      → Valid black n l
      → Stepped f black n r
      → Returns (rebuild f red k v l r) (Stepped f red n)
  unfolding rebuild balance balance_with blackish
  rebuild_red_right same n k v l r vl h = (_, refl, red_node vl h)
  rebuild_red_right insert n k v l r vl h = (_, refl, infra vl h.1)
  rebuild_red_right remove n k v l r vl h = bubble_red_right n k v l r vl h

  -- `u` is the subtree before the step.
  rebuild_black_left :
      {c : NColor} (f : Flag) (n : ℕ) (k : K) (v : V) (u l r : Dict K V)
      → Valid c n u
      → Stepped f c n l
      → Is n r
      → Returns (rebuild f black k v l r) (Stepped f black (suc n))
  unfolding rebuild balance balance_with blackish
  rebuild_black_left same n k v u l r vu h vr = (_, refl, black_node h vr.1)
  rebuild_black_left insert n k v u l r vu h vr =
      balance_with_left-Is _ n k v l r (Stepped-Loose u l vu h) vr
  rebuild_black_left remove n k v u l r vu h vr =
      bubble_black_left n k v l r (Removed-Stand u l vu h) vr

  rebuild_black_right :
      {c : NColor} (f : Flag) (n : ℕ) (k : K) (v : V) (u l r : Dict K V)
      → Valid c n u
      → Is n l
      → Stepped f c n r
      → Returns (rebuild f black k v l r) (Stepped f black (suc n))
  unfolding rebuild balance balance_with blackish
  rebuild_black_right same n k v u l r vu vl h = (_, refl, black_node vl.1 h)
  rebuild_black_right insert n k v u l r vu vl h =
      balance_with_right-Is _ n k v l r vl (Stepped-Loose u r vu h)
  rebuild_black_right remove n k v u l r vu vl h =
      bubble_black_right n k v l r vl (Removed-Stand u r vu h)

  -- The step above a step.
  Steps-bind :
      {c d : NColor} {n m : ℕ} (o : Option (Flag × Dict K V))
      (g : Flag → Dict K V → Option (Dict K V))
      → Steps o c n
      → ((f : Flag) (t : Dict K V) → Stepped f c n t → Returns (g f t) (Stepped f d m))
      → Steps (o >>= λ p. g p.0 p.1 >>= λ t. some (p.0, t)) d m
  Steps-bind o g (p, e, h) k = let (t, e', h') = k p.0 p.1 h in rw (e, e') ((p.0, t), refl, h')

  up_here_red :
      (alter : Option V → Option V) (n : ℕ) (k : K) (v : V) (l r : Dict K V)
      → Valid black n l
      → Valid black n r
      → Steps (up_here alter red k v l r) red n
  unfolding up_here
  up_here_red alter n k v l r vl vr = elim (Option-cases (alter (some v))) [
    | inl e ↦ let (t, e', h) = rem_red n l r vl vr in rw (e, up_here, e') ((remove, t), refl, h)
    | inr (w, e) ↦ rw (e, up_here) ((same, rb_node red k w l r), refl, red_node vl vr)
  ]

  up_here_black :
      {c d : NColor} (alter : Option V → Option V) (n : ℕ) (k : K) (v : V) (l r : Dict K V)
      → Valid c n l
      → Valid d n r
      → Steps (up_here alter black k v l r) black (suc n)
  unfolding up_here
  up_here_black alter n k v l r vl vr = elim (Option-cases (alter (some v))) [
    | inl e ↦ let (t, e', h) = rem_black n l r vl vr in rw (e, up_here, e') ((remove, t), refl, h)
    | inr (w, e) ↦ rw (e, up_here) ((same, rb_node black k w l r), refl, black_node vl vr)
  ]

  finish-Valid :
      (f : Flag) (n : ℕ) (t : Dict K V) → Stepped f black n t → (m : ℕ) × Valid black m (finish f t)
  unfolding finish ensure_black_root blacken
  finish-Valid same n t h = (n, h)
  finish-Valid insert _ _ (_, leaf) = (_, leaf)
  finish-Valid insert _ _ (_, red_node a b) = (_, black_node a b)
  finish-Valid insert _ _ (_, black_node a b) = (_, black_node a b)
  finish-Valid remove _ _ (inl leaf) = (_, leaf)
  finish-Valid remove _ _ (inl (black_node a b)) = (_, black_node a b)
  finish-Valid remove _ _ (inr heavy_leaf) = (_, leaf)
  finish-Valid remove _ _ (inr (heavy_node a b)) = (_, black_node a b)

module _ {ℓ κ} {K : Type ℓ} {V : Type κ} ⦃o : Comparable K⦄ where
  up-Steps :
      {c : NColor} {n : ℕ} {d : Dict K V} (k : K) (alter : Option V → Option V)
      → Valid c n d
      → Steps (up k alter d) c n
  unfolding up
  up-Steps k alter leaf = elim (Option-cases (alter none)) [
    | inl e ↦ rw (e, up) ((same, empty), refl, leaf)
    | inr (v, e) ↦
        rw (e, up) ((insert, rb_node red k v empty empty), refl, (red, red_node leaf leaf))
  ]
  up-Steps k alter (red_node {n} {k = j} {v = v} {l = l} {r = r} a b) =
      elim (Ordering-cases (o.cmp k j)) [
        | inl h ↦
            rw (h, up)
              (Steps-bind (up k alter l) (λ f t. rebuild f red j v t r) (up-Steps k alter a)
                (λ f t s. rebuild_red_left f n j v t r s b))
        | inr (inl h) ↦ rw (h, up) (up_here_red alter n j v l r a b)
        | inr (inr h) ↦
            rw (h, up)
              (Steps-bind (up k alter r) (λ f t. rebuild f red j v l t) (up-Steps k alter b)
                (λ f t s. rebuild_red_right f n j v l t a s))
      ]
  up-Steps k alter (black_node {n = n} {k = j} {v = v} {l = l} {r = r} a b) =
      elim (Ordering-cases (o.cmp k j)) [
        | inl h ↦
            rw (h, up)
              (Steps-bind (up k alter l) (λ f t. rebuild f black j v t r) (up-Steps k alter a)
                (λ f t s. rebuild_black_left f n j v l t r a s (_, b)))
        | inr (inl h) ↦ rw (h, up) (up_here_black alter n j v l r a b)
        | inr (inr h) ↦
            rw (h, up)
              (Steps-bind (up k alter r) (λ f t. rebuild f black j v l t) (up-Steps k alter b)
                (λ f t s. rebuild_black_right f n j v r l t b (_, a) s))
      ]

  -- At a tree with a black root that satisfies the red-black invariant, sorted or not, `update`
  -- does not crash, and returns such a tree.
  pub update-Valid :
      (k : K) (alter : Option V → Option V) (n : ℕ) (d : Dict K V)
      → Valid black n d
      → (t : Dict K V) × (update k alter d ≡ some t) × ((m : ℕ) × Valid black m t)
  unfolding update
  update-Valid k alter n d vd =
      let (p, e, h) = up-Steps k alter vd in (finish p.0 p.1, rw e, finish-Valid p.0 n p.1 h)
