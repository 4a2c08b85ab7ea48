-- ===== src/Array/Map.antt =====
-- ui/dist/Main.js, `_elm_lang$core$Native_Array`: `map`.
use kubecast.Common.{
  ℕ, zero, suc, ◌≡◌, refl, sym, ap, ap₂, ◌∙◌, arith, some, List, [], ◌∷◌, ◌++◌, length, map,
  map-append, All,
}
use kubecast.Array.{Tree, Array, tree_length}
use kubecast.Array.Sums.{sums}
use kubecast.Array.Wellformed.{concat, elements, count, IsArray}
use kubecast.Array.Reading.{length-map}
use kubecast.Array.Push.Pushed.{Known}

module _ {ℓ κ} {A : Type ℓ} {B : Type κ} where
  unfoldable pub map_tree : (A → B) → (h : ℕ) → Tree A h → Tree B h
  map_tree f zero table = map f table
  map_tree f (suc h) (table, lengths) = (map (map_tree f h) table, lengths)

  unfoldable pub map_array : (A → B) → Array A → Array B
  unfolding map_tree
  map_array f a = record { height = a.height; tree = map_tree f a.height a.tree }

  concat-map :
      (f : A → B) (h : ℕ) (table : List (Tree A h))
      → ((t : Tree A h) → elements B h (map_tree f h t) ≡ map f (elements A h t))
      → concat (map (elements B h) (map (map_tree f h) table))
        ≡ map f (concat (map (elements A h) table))
  concat-map f h [] e = refl
  concat-map f h (t ∷ table) e =
      ap₂ (λ xs ys. xs ++ ys) (e t) (concat-map f h table e)
      ∙ sym (map-append f (elements A h t) (concat (map (elements A h) table)))

  map_tree-elements :
      (f : A → B) (h : ℕ) (t : Tree A h) → elements B h (map_tree f h t) ≡ map f (elements A h t)
  unfolding map_tree
  map_tree-elements f zero t = refl
  map_tree-elements f (suc h) (table, lengths) = concat-map f h table (map_tree-elements f h)

  map_tree-count : (f : A → B) (h : ℕ) (t : Tree A h) → count B h (map_tree f h t) ≡ count A h t
  map_tree-count f h t = ap length (map_tree-elements f h t) ∙ length-map f (elements A h t)

  map-counts :
      (f : A → B) (h : ℕ) (table : List (Tree A h))
      → map (count B h) (map (map_tree f h) table) ≡ map (count A h) table
  map-counts f h [] = refl
  map-counts f h (t ∷ table) = ap₂ (λ n ns. n ∷ ns) (map_tree-count f h t) (map-counts f h table)

  All-map :
      (f : A → B) (h : ℕ) (table : List (Tree A h))
      → ((t : Tree A h) → Known A h t → Known B h (map_tree f h t))
      → All (Known A h) table
      → All (Known B h) (map (map_tree f h) table)
  All-map f h [] k ks = tt
  All-map f h (t ∷ table) k ks = (k t ks.0, All-map f h table k ks.1)

  map_tree-Known : (f : A → B) (h : ℕ) (t : Tree A h) → Known A h t → Known B h (map_tree f h t)
  unfolding map_tree tree_length
  map_tree-Known f zero t k = (record { small = omega (arith, length-map f t, k.0.small) }, refl)
  map_tree-Known f (suc h) (table, lengths) k = (
    (
      All-map f h table (map_tree-Known f h) k.0.0,
      k.0.1 ∙ ap (sums 0) (sym (map-counts f h table)),
      omega (arith, length-map (map_tree f h) table, k.0.2),
    ),
    k.1 ∙ ap some (sym (map_tree-count f (suc h) (table, lengths))),
  )

  -- `map` at an array returns an array of the same elements with the function applied, in order.
  pub map_array-elements :
      (f : A → B) (a : Array A)
      → IsArray A a
      → IsArray B (map_array f a)
        × (elements B (map_array f a).height (map_array f a).tree
            ≡ map f (elements A a.height a.tree))
  unfolding map_array
  map_array-elements f a i =
      let k = map_tree-Known f a.height a.tree (i.wf, i.counted) in
      (record { wf = k.0; counted = k.1 }, map_tree-elements f a.height a.tree)
