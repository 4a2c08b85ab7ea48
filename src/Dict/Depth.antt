-- ===== src/Dict/Depth.antt =====
-- ui/dist/Main.js, `_elm_lang$core$Dict$get`: with how many keys it compares.
use kubecast.Common.{ℕ, lt, eq, gt, ◌∷◌, List, []}
use kubecast.Ord.{Comparable}
use kubecast.Dict.{NColor, Dict, rb_empty, rb_node, red}

abbrev red_extra : NColor → ℕ
red_extra red = 1
red_extra _ = 0

module _ {ℓ κ} {K : Type ℓ} {V : Type κ} ⦃o : Comparable K⦄ where
  -- The keys of the entries on the way to a key.
  abbrev pub way : K → Dict K V → List K
  way k (rb_empty c) = []
  way k (rb_node c j v l r) = j ∷ elim (o.cmp k j) [ lt ↦ way k l | eq ↦ [] | gt ↦ way k r ]
