-- ===== src/Array/Traversal.antt =====
-- ui/dist/Main.js, `_elm_lang$core$Native_Array`: `toList`, `foldl` and `foldr` at an array that is
-- made from a list.
use kubecast.Common.{ℕ, zero, suc, ◌≡◌, refl, sym, ◌∙◌, ap, some, List, [], ◌∷◌, ◌++◌, map}
use kubecast.Array.{Tree, Array, from_list}
use kubecast.Array.Wellformed.{concat, elements}
use kubecast.Array.Folds.{
  forward, backward, to_list_, foldl_tree, foldr_tree, to_list, foldl, foldr,
}
use kubecast.Array.Laws.{from_list-IsArray}

module _ {ℓ κ} {A : Type ℓ} {B : Type κ} (f : A → B → B) where
  forward-append : (b : B) (xs ys : List A) → forward f b (xs ++ ys) ≡ forward f (forward f b xs) ys
  forward-append b [] ys = refl
  forward-append b (x ∷ xs) ys = forward-append (f x b) xs ys

  backward-append :
      (b : B) (xs ys : List A) → backward f b (xs ++ ys) ≡ backward f (backward f b ys) xs
  backward-append b [] ys = refl
  backward-append b (x ∷ xs) ys = ap (f x) (backward-append b xs ys)

  forward-concat {μ} :
      {T : Type μ} (g : T → List A) (step : T → B → B)
      → ((t : T) (b : B) → step t b ≡ forward f b (g t))
      → (b : B) (table : List T) → forward step b table ≡ forward f b (concat (map g table))
  forward-concat g step h b [] = refl
  forward-concat g step h b (t ∷ table) =
      ap (λ c. forward step c table) (h t b)
      ∙ forward-concat g step h (forward f b (g t)) table
      ∙ sym (forward-append b (g t) (concat (map g table)))

  backward-concat {μ} :
      {T : Type μ} (g : T → List A) (step : T → B → B)
      → ((t : T) (b : B) → step t b ≡ backward f b (g t))
      → (b : B) (table : List T) → backward step b table ≡ backward f b (concat (map g table))
  backward-concat g step h b [] = refl
  backward-concat g step h b (t ∷ table) =
      ap (step t) (backward-concat g step h b table)
      ∙ h t (backward f b (concat (map g table)))
      ∙ sym (backward-append b (g t) (concat (map g table)))

  foldl_tree-elements :
      (h : ℕ) (t : Tree A h) (b : B) → foldl_tree A f b h t ≡ forward f b (elements A h t)
  unfolding foldl_tree
  foldl_tree-elements zero t b = refl
  foldl_tree-elements (suc h) (table, lengths) b =
      forward-concat (elements A h) (λ t acc. foldl_tree A f acc h t)
        (λ t c. foldl_tree-elements h t c) b table

  foldr_tree-elements :
      (h : ℕ) (t : Tree A h) (b : B) → foldr_tree A f b h t ≡ backward f b (elements A h t)
  unfolding foldr_tree
  foldr_tree-elements zero t b = refl
  foldr_tree-elements (suc h) (table, lengths) b =
      backward-concat (elements A h) (λ t acc. foldr_tree A f acc h t)
        (λ t c. foldr_tree-elements h t c) b table

module _ {ℓ} {A : Type ℓ} where
  to_list_-elements :
      (h : ℕ) (t : Tree A h) (rest : List A)
      → to_list_ A h rest t ≡ backward (λ x xs. x ∷ xs) rest (elements A h t)
  unfolding to_list_
  to_list_-elements zero t rest = refl
  to_list_-elements (suc h) (table, lengths) rest =
      backward-concat (λ x xs. x ∷ xs) (elements A h) (λ t acc. to_list_ A h acc t)
        (λ t c. to_list_-elements h t c) rest table

  backward-cons : (xs : List A) → backward (λ x rest. x ∷ rest) [] xs ≡ xs
  backward-cons [] = refl
  backward-cons (x ∷ xs) = ap (λ ys. x ∷ ys) (backward-cons xs)

  pub to_list-elements : (a : Array A) → to_list a ≡ elements A a.height a.tree
  unfolding to_list
  to_list-elements a =
      to_list_-elements a.height a.tree [] ∙ backward-cons (elements A a.height a.tree)

  pub foldl-elements {κ} :
      {B : Type κ} (f : A → B → B) (b : B) (a : Array A)
      → foldl f b a ≡ forward f b (elements A a.height a.tree)
  unfolding foldl
  foldl-elements f b a = foldl_tree-elements f a.height a.tree b

  -- The array made from a list lists it again: `toList` returns the list, and `foldl` and `foldr`
  -- take its elements from the start and from the end.
  pub folds-from_list {κ} :
      {B : Type κ} (f : A → B → B) (b : B) (xs : List A)
      → (array : Array A) × (from_list xs ≡ some array)
        × (to_list array ≡ xs)
        × (foldl f b array ≡ forward f b xs)
        × (foldr f b array ≡ backward f b xs)
  unfolding foldr
  folds-from_list f b xs =
      let (array, e, a, g) = from_list-IsArray A xs in
      (
        array,
        e,
        to_list-elements array ∙ g,
        foldl-elements f b array ∙ ap (forward f b) g,
        foldr_tree-elements f array.height array.tree b ∙ ap (backward f b) g,
      )
