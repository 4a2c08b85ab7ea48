-- ===== src/Dict/Derived.antt =====
-- ui/dist/Main.js, `_elm_lang$core$Dict$…`: the operations that are built on `update` and the
-- folds.
use kubecast.Common.{
  lt, eq, gt, Bool, true, false, Option, some, List, [], ◌∷◌, if◌then◌else◌, ◌>>=◌,
}
use kubecast.Ord.{Comparable}
use kubecast.Dict.{Dict, rb_empty, rb_node, lblack, lbblack, empty, foldl, to_list}
use kubecast.Dict.Ops.{put, discard, member}

module _ {ℓ κ} {K : Type ℓ} {V : Type κ} where
  -- `eq(dict, empty)` compares the constructors of the two leaves.
  unfoldable pub is_empty : Dict K V → Bool
  is_empty (rb_empty lblack) = true
  is_empty (rb_empty lbblack) = false
  is_empty (rb_node c k v l r) = false

  unfoldable pub map {μ} : {W : Type μ} → (K → V → W) → Dict K V → Dict K W
  map f (rb_empty c) = rb_empty lblack
  map f (rb_node c k v l r) = rb_node c k (f k v) (map f l) (map f r)

-- `List.foldl`, at a step that may crash or not.
unfoldable pub foldl_list {ℓ κ} : {A : Type ℓ} {B : Type κ} → (A → B → B) → B → List A → B
foldl_list f acc [] = acc
foldl_list f acc (x ∷ xs) = foldl_list f (f x acc) xs

module _ {ℓ κ} {K : Type ℓ} {V : Type κ} ⦃o : Comparable K⦄ where
  unfoldable pub singleton : K → V → Option (Dict K V)
  unfolding put
  singleton k v = put k v empty

  -- The entries of `t1` are put into `t2`.
  unfoldable pub union : Dict K V → Dict K V → Option (Dict K V)
  unfolding foldl
  union t1 t2 = foldl (λ k v acc. acc >>= put k v) (some t2) t1

  unfoldable pub filter : (K → V → Bool) → Dict K V → Option (Dict K V)
  unfolding foldl
  filter p d = foldl (λ k v acc. acc >>= λ t. if p k v then put k v t else some t) (some empty) d

  unfoldable pub intersect : Dict K V → Dict K V → Option (Dict K V)
  unfolding filter
  intersect t1 t2 = filter (λ k v. member k t2) t1

  unfoldable pub partition : (K → V → Bool) → Dict K V → Option (Dict K V × Dict K V)
  unfolding foldl
  partition p d =
      foldl
        (λ k v acc. acc >>= λ ts.
          if p k v
          then (put k v ts.0 >>= λ t. some (t, ts.1))
          else put k v ts.1 >>= λ t. some (ts.0, t))
        (some (empty, empty)) d

  unfoldable pub from_list : List (K × V) → Option (Dict K V)
  unfolding foldl_list
  from_list assocs = foldl_list (λ p acc. acc >>= put p.0 p.1) (some empty) assocs

  -- The keys of `t2` are removed from `t1`.
  unfoldable pub diff {μ} : {W : Type μ} → Dict K V → Dict K W → Option (Dict K V)
  unfolding foldl
  diff t1 t2 = foldl (λ k v acc. acc >>= discard k) (some t1) t2

-- `merge`: the steps visit the keys of both dictionaries in ascending order.
module _ {ℓ κ μ ν} {K : Type ℓ} {A : Type κ} {B : Type μ} {R : Type ν} ⦃o : Comparable K⦄
    (left_step : K → A → R → R) (both_step : K → A → B → R → R) (right_step : K → B → R → R) where
  -- The entries of the left dictionary that are not yet visited, and the result so far.
  unfoldable pub step_state : K → B → List (K × A) → R → List (K × A) × R
  step_state rk rv [] result = ([], right_step rk rv result)
  step_state rk rv ((lk, lv) ∷ list) result = elim (o.cmp lk rk) [
    | lt ↦ step_state rk rv list (left_step lk lv result)
    | gt ↦ ((lk, lv) ∷ list, right_step rk rv result)
    | eq ↦ (list, both_step lk lv rv result)
  ]

  unfoldable pub merge : Dict K A → Dict K B → R → R
  unfolding foldl foldl_list
  merge left_dict right_dict initial =
      let (leftovers, result) =
        foldl (λ rk rv p. step_state rk rv p.0 p.1) (to_list left_dict, initial) right_dict in
      foldl_list (λ p r. left_step p.0 p.1 r) result leftovers
