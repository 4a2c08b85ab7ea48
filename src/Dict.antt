-- ===== src/Dict.antt =====
-- ui/dist/Main.js, the `_elm_lang$core$Dict$…` functions: the red-black tree in which the
-- WebSocket effect manager keeps its queues, sockets and subscriptions.
-- `none` is the exception that `_elm_lang$core$Native_Debug.crash` throws.
pub mod Ops
pub mod Balance
pub mod Contents
pub mod Sorted
pub mod Refine
pub mod RedBlack
pub mod Rebalance
pub mod Bubble
pub mod Removal
pub mod Total
pub mod Laws
pub mod Derived
pub mod Folds
pub mod Build
pub mod Merge
pub mod Visits
pub mod Depth
use kubecast.Common.{ℕ, suc, Bool, true, false, Option, none, some, List, [], ◌∷◌, ◌>>=◌}

-- The colours of a node and of a leaf.
pub data NColor : Type 0 where
  red black bblack nblack : NColor

pub data LeafColor : Type 0 where
  lblack lbblack : LeafColor

pub data Dict {ℓ κ} (K : Type ℓ) (V : Type κ) : Type (ℓ ⊔ κ) where
  rb_empty : LeafColor → Dict K V
  rb_node : NColor → K → V → Dict K V → Dict K V → Dict K V

-- What `update` says of the step below it.
pub data Flag : Type 0 where
  same insert remove : Flag

unfoldable pub more_black : NColor → Option NColor
more_black black = some bblack
more_black red = some black
more_black nblack = some red
more_black bblack = none

unfoldable pub less_black : NColor → Option NColor
less_black bblack = some black
less_black black = some red
less_black red = some nblack
less_black nblack = none

module _ {ℓ κ} {K : Type ℓ} {V : Type κ} where
  unfoldable pub foldr {μ} : {B : Type μ} → (K → V → B → B) → B → Dict K V → B
  foldr f acc (rb_empty c) = acc
  foldr f acc (rb_node c k v l r) = foldr f (f k v (foldr f acc r)) l

  unfoldable pub foldl {μ} : {B : Type μ} → (K → V → B → B) → B → Dict K V → B
  foldl f acc (rb_empty c) = acc
  foldl f acc (rb_node c k v l r) = foldl f (f k v (foldl f acc l)) r

  unfoldable pub keys : Dict K V → List K
  unfolding foldr
  keys d = foldr (λ k v ks. k ∷ ks) [] d

  unfoldable pub values : Dict K V → List V
  unfolding foldr
  values d = foldr (λ k v vs. v ∷ vs) [] d

  unfoldable pub to_list : Dict K V → List (K × V)
  unfolding foldr
  to_list d = foldr (λ k v l. (k, v) ∷ l) [] d

  unfoldable pub size_help : ℕ → Dict K V → ℕ
  size_help n (rb_empty c) = n
  size_help n (rb_node c k v l r) = size_help (size_help (suc n) r) l

  unfoldable pub size : Dict K V → ℕ
  unfolding size_help
  size d = size_help 0 d

  abbrev pub empty : Dict K V
  empty = rb_empty lblack

  unfoldable pub is_bblack : Dict K V → Bool
  is_bblack (rb_node bblack k v l r) = true
  is_bblack (rb_node _ k v l r) = false
  is_bblack (rb_empty lbblack) = true
  is_bblack (rb_empty lblack) = false

  unfoldable pub max_with_default : K → V → Dict K V → K × V
  max_with_default k v (rb_empty c) = (k, v)
  max_with_default k v (rb_node c k' v' l r) = max_with_default k' v' r

  unfoldable pub blackish : Dict K V → Bool
  blackish (rb_node black k v l r) = true
  blackish (rb_node bblack k v l r) = true
  blackish (rb_node red k v l r) = false
  blackish (rb_node nblack k v l r) = false
  blackish (rb_empty c) = true

  unfoldable pub ensure_black_root : Dict K V → Dict K V
  ensure_black_root (rb_node red k v l r) = rb_node black k v l r
  ensure_black_root (rb_node c k v l r) = rb_node c k v l r
  ensure_black_root (rb_empty c) = rb_empty c

  unfoldable pub less_black_tree : Dict K V → Option (Dict K V)
  unfolding less_black
  less_black_tree (rb_node c k v l r) = less_black c >>= λ c'. some (rb_node c' k v l r)
  less_black_tree (rb_empty c) = some (rb_empty lblack)

  unfoldable pub balanced_tree :
      NColor → K → V → K → V → K → V → Dict K V → Dict K V → Dict K V → Dict K V → Option (Dict K V)
  unfolding less_black
  balanced_tree col xk xv yk yv zk zv a b c d = less_black col >>= λ col'.
      some (rb_node col' yk yv (rb_node black xk xv a b) (rb_node black zk zv c d))

  unfoldable pub blacken : Dict K V → Dict K V
  blacken (rb_empty c) = rb_empty lblack
  blacken (rb_node c k v l r) = rb_node black k v l r

  unfoldable pub redden : Dict K V → Option (Dict K V)
  redden (rb_empty c) = none
  redden (rb_node c k v l r) = some (rb_node red k v l r)
