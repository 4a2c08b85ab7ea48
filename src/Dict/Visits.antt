-- ===== src/Dict/Visits.antt =====
-- ui/dist/Main.js, `_elm_lang$core$Dict$merge` at two dictionaries.
use kubecast.Common.{◌≡◌, ap₂, ◌∙◌, sym, List}
use kubecast.Ord.{Comparable}
use kubecast.Dict.{Dict}
use kubecast.Dict.Ops.{get}
use kubecast.Dict.Balance.{contents}
use kubecast.Dict.Sorted.{IsSorted, find}
use kubecast.Dict.Refine.{get-find}
use kubecast.Dict.Derived.{foldl_list, merge}
use kubecast.Dict.Laws.{IsDict}
use kubecast.Dict.Merge.{Side, sides, visits, visits-IsSorted, find-visits, visit, merge-visits}

module _ {ℓ κ μ ν} {K : Type ℓ} {A : Type κ} {B : Type μ} {R : Type ν} ⦃o : Comparable K⦄ where
  -- `merge` at two dictionaries applies its steps along a list of visits, in ascending order of the
  -- keys: every key of either dictionary is visited once, with the step for where it stands and
  -- with its values there, and no other key is.
  pub merge-sides :
      (left_step : K → A → R → R) (both_step : K → A → B → R → R) (right_step : K → B → R → R)
      (ld : Dict K A) (rd : Dict K B) (initial : R)
      → IsDict ld
      → IsDict rd
      → (vs : List (K × Side A B)) × (merge left_step both_step right_step ld rd initial
          ≡ foldl_list (visit left_step both_step right_step) initial vs)
        × IsSorted vs
        × ((i : K) → find i vs ≡ sides (get i ld) (get i rd))
  merge-sides left_step both_step right_step ld rd initial hl hr = (
    visits (contents ld) (contents rd),
    merge-visits left_step both_step right_step ld rd initial,
    visits-IsSorted (contents ld) (contents rd) hl.sorted hr.sorted,
    λ i.
        find-visits i (contents ld) (contents rd) hl.sorted hr.sorted
        ∙ ap₂ sides (sym (get-find i ld hl.sorted)) (sym (get-find i rd hr.sorted)),
  )
