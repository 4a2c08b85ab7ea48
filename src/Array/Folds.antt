-- ===== src/Array/Folds.antt =====
-- ui/dist/Main.js, `_elm_lang$core$Native_Array`: `toList`, `foldl` and `foldr`.
use kubecast.Common.{ℕ, zero, suc, List, [], ◌∷◌}
use kubecast.Array.{Tree, Array}

-- The loops over a table, from its start and from its end.
abbrev pub forward {ℓ κ} : {A : Type ℓ} {B : Type κ} → (A → B → B) → B → List A → B
forward f b [] = b
forward f b (x ∷ xs) = forward f (f x b) xs

abbrev pub backward {ℓ κ} : {A : Type ℓ} {B : Type κ} → (A → B → B) → B → List A → B
backward f b [] = b
backward f b (x ∷ xs) = f x (backward f b xs)

module _ {ℓ} (A : Type ℓ) where
  unfoldable pub to_list_ : (h : ℕ) → List A → Tree A h → List A
  to_list_ zero list table = backward (λ x rest. x ∷ rest) list table
  to_list_ (suc h) list (table, lengths) = backward (λ t rest. to_list_ h rest t) list table

  unfoldable pub foldl_tree {κ} : {B : Type κ} → (A → B → B) → B → (h : ℕ) → Tree A h → B
  foldl_tree f b zero table = forward f b table
  foldl_tree f b (suc h) (table, lengths) = forward (λ t acc. foldl_tree f acc h t) b table

  unfoldable pub foldr_tree {κ} : {B : Type κ} → (A → B → B) → B → (h : ℕ) → Tree A h → B
  foldr_tree f b zero table = backward f b table
  foldr_tree f b (suc h) (table, lengths) = backward (λ t acc. foldr_tree f acc h t) b table

module _ {ℓ} {A : Type ℓ} where
  unfoldable pub to_list : Array A → List A
  unfolding to_list_
  to_list a = to_list_ A a.height [] a.tree

  unfoldable pub foldl {κ} : {B : Type κ} → (A → B → B) → B → Array A → B
  unfolding foldl_tree
  foldl f b a = foldl_tree A f b a.height a.tree

  unfoldable pub foldr {κ} : {B : Type κ} → (A → B → B) → B → Array A → B
  unfolding foldr_tree
  foldr f b a = foldr_tree A f b a.height a.tree
