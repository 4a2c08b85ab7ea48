-- ===== src/Array/Set.antt =====
-- ui/dist/Main.js, `_elm_lang$core$Native_Array`: `set`.
pub mod Written
use kubecast.Common.{
  ℕ, zero, suc, ◌-◌, Option, none, some, List, [], ◌∷◌, ltb, if◌then◌else◌, ◌>>=◌, get_elem?,
}
use kubecast.Array.{Tree, Array, tree_length, get_slot, index_in}

-- `table[i] = item` within a table.
abbrev pub put_elem {ℓ} : {A : Type ℓ} → ℕ → A → List A → Option (List A)
put_elem i item [] = none
put_elem zero item (x ∷ xs) = some (item ∷ xs)
put_elem (suc i) item (x ∷ xs) = put_elem i item xs >>= λ ys. some (x ∷ ys)

module _ {ℓ} {A : Type ℓ} where
  unfoldable pub unsafe_set : ℕ → A → (h : ℕ) → Tree A h → Option (Tree A h)
  unfolding get_slot index_in
  unsafe_set i item zero table = put_elem i item table
  unsafe_set i item (suc h) (table, lengths) =
      let slot = get_slot i (suc h) lengths in
      index_in i slot lengths >>= λ j. get_elem? slot table >>= λ child.
      unsafe_set j item h child >>= λ child'.
      put_elem slot child' table >>= λ table'. some (table', lengths)

  -- `set` at an index, which is at least 0: an array that is too short is returned.
  unfoldable pub set : ℕ → A → Array A → Option (Array A)
  unfolding tree_length unsafe_set
  set i item a = tree_length A a.height a.tree >>= λ n.
      if ltb i n
      then (unsafe_set i item a.height a.tree >>= λ tree.
          some (record { height = a.height; tree = tree }))
      else some a
