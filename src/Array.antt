-- ===== src/Array.antt =====
-- ui/dist/Main.js, `_elm_lang$core$Native_Array` and `_elm_lang$core$Array$…`: Elm's arrays, as far
-- as the page uses them. An array is a tree of height `h`: at height 0 a table of elements, above it
-- a table of trees one lower with the accumulated numbers of their elements. `none` is what the
-- code does when it reads outside a table: it throws, or goes on with `undefined`.
pub mod Sums
pub mod Wellformed
pub mod Reading
pub mod Chain
pub mod Pushing
pub mod Closing
pub mod Laws
pub mod Folds
pub mod Traversal
pub mod Push
pub mod Map
pub mod Set
pub mod Operations
use kubecast.Common.{
  ℕ, zero, suc, ◌+◌, ◌-◌, ◌*◌, ◌/◌, ◌^◌, Bool, true, false, Option, none, some, List, [], ◌∷◌, ◌++◌,
  ltb, ◌==◌, if◌then◌else◌, ◌>>=◌, length, get_elem?, drop,
}

-- The maximal table size.
abbrev pub table_size : ℕ
table_size = 32

-- The last element of a table: `undefined` in an empty one.
abbrev pub last {ℓ} : {A : Type ℓ} → List A → Option A
last [] = none
last (x ∷ []) = some x
last (x ∷ y ∷ xs) = last (y ∷ xs)

-- `while (lengths[slot] <= i) slot++`, at the rest of `lengths` from the slot.
unfoldable pub scan : ℕ → ℕ → List ℕ → ℕ
scan i slot [] = slot
scan i slot (n ∷ ns) = let rest = scan i (suc slot) ns in if ltb i n then slot else rest

unfoldable pub get_slot : ℕ → ℕ → List ℕ → ℕ
unfolding scan
get_slot i height lengths = let slot = i / 2 ^ (height * 5) in scan i slot (drop slot lengths)

-- `i` less the number of the elements before the slot.
unfoldable pub index_in : ℕ → ℕ → List ℕ → Option ℕ
index_in i zero lengths = some i
index_in i (suc slot) lengths =
    get_elem? slot lengths >>= λ n. if ltb i n then none else some (i - n)

-- The new last entry of `lengths` for a tree of `len` elements.
abbrev pub add_length : ℕ → List ℕ → ℕ
add_length len lengths = elim (last lengths) [ none ↦ len | some n ↦ len + n ]

module _ {ℓ} (A : Type ℓ) where
  abbrev pub Tree : ℕ → Type ℓ
  Tree zero = List A
  Tree (suc h) = List (Tree h) × List ℕ

  pub record Array : Type ℓ where
    pub height : ℕ
    pub tree : Tree height

  -- The nodes that `fromList` fills, from a height up: the one at index `h` has height `suc h`.
  pub data Nodes : ℕ → Type ℓ where
    no_nodes : {h : ℕ} → Nodes h
    node : {h : ℕ} → List (Tree h) → List ℕ → Nodes (suc h) → Nodes h

  -- `length` of a tree.
  unfoldable pub tree_length : (h : ℕ) → Tree h → Option ℕ
  tree_length zero table = some (length table)
  tree_length (suc h) (table, lengths) = last lengths

  unfoldable pub unsafe_get : ℕ → (h : ℕ) → Tree h → Option A
  unfolding get_slot index_in
  unsafe_get i zero table = get_elem? i table
  unsafe_get i (suc h) (table, lengths) =
      let slot = get_slot i (suc h) lengths in
      index_in i slot lengths >>= λ j. get_elem? slot table >>= λ child. unsafe_get j h child

  -- `fromListPush`. A node that is new gets one tree and is not full.
  unfoldable pub from_list_push : (h : ℕ) → Tree h → Nodes h → Option (Nodes h)
  unfolding tree_length
  from_list_push h tree no_nodes =
      tree_length h tree >>= λ len. some (node (tree ∷ []) (len ∷ []) no_nodes)
  from_list_push h tree (node table lengths nodes) = tree_length h tree >>= λ len.
      let table' = table ++ tree ∷ [] in
      let lengths' = lengths ++ add_length len lengths ∷ [] in
      elim (length table' == table_size) [
        | true ↦
            from_list_push (suc h) (table', lengths') nodes >>= λ nodes'. some (node [] [] nodes')
        | false ↦ some (node table' lengths' nodes)
      ]

  -- The loop of `fromList` over the list, and what may be left on the table.
  unfoldable pub fill : List A → List A → Nodes 0 → Option (Nodes 0)
  unfolding from_list_push
  fill [] [] nodes = some nodes
  fill [] (x ∷ table) nodes = from_list_push 0 (x ∷ table) nodes
  fill (x ∷ list) table nodes =
      let table' = table ++ x ∷ [] in
      elim (length table' == table_size) [
        | true ↦ from_list_push 0 table' nodes >>= fill list []
        | false ↦ fill list table' nodes
      ]

  -- `if (head.height > 0 && head.table.length === 1)`; every node has a height above 0.
  abbrev pub head_of : (h : ℕ) → List (Tree h) → List ℕ → Array
  head_of h [] lengths = record { height = suc h; tree = ([], lengths) }
  head_of h (tree ∷ []) lengths = record { height = h; tree = tree }
  head_of h (t ∷ u ∷ table) lengths = record { height = suc h; tree = (t ∷ u ∷ table, lengths) }

  -- The loop that pushes the nodes into higher ones, from index `h` on, and the head; on fuel.
  unfoldable pub close : ℕ → (h : ℕ) → Nodes h → Option (Array)
  unfolding from_list_push
  close zero h nodes = none
  close (suc fuel) h no_nodes = none
  close (suc fuel) h (node table lengths no_nodes) = some (head_of h table lengths)
  close (suc fuel) h (node [] lengths (node table' lengths' nodes)) =
      close fuel (suc h) (node table' lengths' nodes)
  close (suc fuel) h (node (t ∷ table) lengths (node table' lengths' nodes)) =
      from_list_push (suc h) (t ∷ table, lengths) (node table' lengths' nodes)
      >>= close fuel (suc h)

  abbrev pub node_count : {h : ℕ} → Nodes h → ℕ
  node_count no_nodes = 0
  node_count (node table lengths nodes) = suc (node_count nodes)

module _ {ℓ} {A : Type ℓ} where
  unfoldable pub empty : Array A
  empty = record { height = 0; tree = [] }

  -- The function of Native_Array, which throws out of range.
  unfoldable pub native_get : ℕ → Array A → Option A
  unfolding tree_length unsafe_get
  native_get i array = tree_length A array.height array.tree >>= λ n.
      if ltb i n then unsafe_get A i array.height array.tree else none

  -- `Array.get`: `some none` is `Nothing`.
  unfoldable pub get : ℕ → Array A → Option (Option A)
  unfolding tree_length native_get
  get i array = tree_length A array.height array.tree >>= λ n.
      if ltb i n then (native_get i array >>= λ x. some (some x)) else some none

  unfoldable pub from_list : List A → Option (Array A)
  unfolding empty fill close
  from_list [] = some empty
  from_list (x ∷ list) =
      fill A (x ∷ list) [] no_nodes >>= λ nodes. close A (suc (node_count A nodes)) 0 nodes
