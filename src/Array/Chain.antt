-- ===== src/Array/Chain.antt =====
-- ui/dist/Main.js, `_elm_lang$core$Native_Array`: the nodes that `fromList` keeps, one for each
-- height, and their invariant.
use kubecast.Common.{
  ℕ, suc, ◌≤◌, ◌<◌, ◌≡◌, refl, sym, ◌∙◌, ap, some, List, [], ◌∷◌, ◌++◌, map, length, All, arith,
  append-nil,
}
use kubecast.Array.{Tree, Nodes, no_nodes, node, tree_length, table_size, last, head_of}
use kubecast.Array.Sums.{sums, last_sums}
use kubecast.Array.Wellformed.{concat, length-concat, elements, count, Wf, IsArray}

abbrev pub NotEmpty {ℓ} : {B : Type ℓ} → List B → Type 0
NotEmpty [] = ⊥
NotEmpty (x ∷ xs) = Unit

module _ {ℓ} (A : Type ℓ) where
  -- A tree that may stand in a table.
  abbrev pub Child : (h : ℕ) → Tree A h → Type ℓ
  Child h c = Wf A h c × (tree_length A h c ≡ some (count A h c))

  pub record IsNode (h : ℕ) (table : List (Tree A h)) (lengths : List ℕ) : Type ℓ where
    pub children : All (Child h) table
    pub accumulated : lengths ≡ sums 0 (map (count A h) table)
    pub room : length table < table_size

  abbrev pub Ok : (h : ℕ) → Nodes A h → Type ℓ
  Ok h no_nodes = Unit
  Ok h (node table lengths nodes) = IsNode h table lengths × Ok (suc h) nodes

  -- The highest node is there, and not empty.
  abbrev pub Top : (h : ℕ) → Nodes A h → Type 0
  Top h no_nodes = ⊥
  Top h (node table lengths no_nodes) = NotEmpty table
  Top h (node table lengths (node table' lengths' nodes)) = Top (suc h) (node table' lengths' nodes)

  abbrev pub TopIf : (h : ℕ) → Nodes A h → Type 0
  TopIf h no_nodes = Unit
  TopIf h (node table lengths nodes) = Top h (node table lengths nodes)

  -- All nodes below the highest one are empty.
  abbrev pub Clean : (h : ℕ) → Nodes A h → Type ℓ
  Clean h no_nodes = Unit
  Clean h (node table lengths no_nodes) = Unit
  Clean h (node table lengths (node table' lengths' nodes)) =
      (table ≡ []) × Clean (suc h) (node table' lengths' nodes)

  pub Top-rest :
      {h : ℕ} (table : List (Tree A h)) (lengths : List ℕ) (nodes : Nodes A (suc h))
      → Top h (node table lengths nodes)
      → TopIf (suc h) nodes
  Top-rest _ _ no_nodes t = tt
  Top-rest _ _ (node table lengths nodes) t = t

  pub Top-empty : {h : ℕ} (nodes : Nodes A (suc h)) → Top (suc h) nodes → Top h (node [] [] nodes)
  Top-empty no_nodes t = absurd t
  Top-empty (node table lengths nodes) t = t

  -- A node that is not empty may stand on top.
  pub Top-node :
      {h : ℕ} (table : List (Tree A h)) (lengths : List ℕ) (nodes : Nodes A (suc h))
      → TopIf (suc h) nodes
      → NotEmpty table
      → Top h (node table lengths nodes)
  Top-node _ _ no_nodes t n = n
  Top-node _ _ (node table lengths nodes) t n = t

  pub Clean-empty :
      {h : ℕ} (nodes : Nodes A (suc h)) → Clean (suc h) nodes → Clean h (node [] [] nodes)
  Clean-empty no_nodes c = tt
  Clean-empty (node table lengths nodes) c = (refl, c)

  -- The elements, those of the higher nodes first.
  abbrev pub nodes_elements : (h : ℕ) → Nodes A h → List A
  nodes_elements h no_nodes = []
  nodes_elements h (node table lengths nodes) =
      nodes_elements (suc h) nodes ++ concat (map (elements A h) table)

  pub Child-of_node :
      (h : ℕ) (table : List (Tree A h)) (lengths : List ℕ)
      → All (Child h) table
      → lengths ≡ sums 0 (map (count A h) table)
      → length table ≤ table_size
      → NotEmpty table
      → Child (suc h) (table, lengths)
  unfolding tree_length
  Child-of_node h [] lengths ok e b n = absurd n
  Child-of_node h (t ∷ table) lengths ok e b n = (
    (ok, e, b),
    ap last e
        ∙ last_sums (count A h t) (map (count A h) table)
        ∙ ap some (sym (length-concat (elements A h) (t ∷ table))),
  )

  -- The head of `fromList` is a well-formed array with the node's elements.
  pub head_of-IsArray :
      (h : ℕ) (table : List (Tree A h)) (lengths : List ℕ)
      → IsNode h table lengths
      → NotEmpty table
      → IsArray A (head_of A h table lengths)
        × (elements A (head_of A h table lengths).height (head_of A h table lengths).tree
            ≡ concat (map (elements A h) table))
  head_of-IsArray h [] lengths ok n = absurd n
  head_of-IsArray h (t ∷ []) lengths ok n = (
    record { wf = ok.children.0.0; counted = ok.children.0.1 },
    sym (append-nil (elements A h t)),
  )
  head_of-IsArray h (t ∷ u ∷ table) lengths ok n =
      let child =
        Child-of_node h (t ∷ u ∷ table) lengths ok.children ok.accumulated (omega (arith, ok.room))
          n in
      (record { wf = child.0; counted = child.1 }, refl)
