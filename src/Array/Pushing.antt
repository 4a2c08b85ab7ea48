-- ===== src/Array/Pushing.antt =====
-- ui/dist/Main.js, `_elm_lang$core$Native_Array`: `fromListPush` on the nodes and on their
-- elements.
use kubecast.Common.{
  ℕ, suc, ◌≤◌, ◌≡◌, ◌⊎◌, inl, inr, refl, sym, ◌∙◌, ap, Bool-cases, ◌==◌, some, List, [], ◌∷◌, ◌++◌,
  map, length, All, All-append, arith, map-append, append-nil, append_assoc, length-append,
}
use kubecast.Array.{Tree, Nodes, no_nodes, node, node_count, table_size, add_length, from_list_push}
use kubecast.Array.Sums.{sums, sums-push}
use kubecast.Array.Wellformed.{concat, concat-snoc, elements, count}
use kubecast.Array.Chain.{
  NotEmpty, Child, IsNode, Ok, Top, TopIf, Clean, nodes_elements, Child-of_node, Top-rest,
  Top-empty, Top-node, Clean-empty,
}

pub NotEmpty-snoc {ℓ} : {B : Type ℓ} (xs : List B) (x : B) → NotEmpty (xs ++ x ∷ [])
NotEmpty-snoc [] x = tt
NotEmpty-snoc (y ∷ xs) x = tt

module _ {ℓ} (A : Type ℓ) where
  -- What the nodes are after a push.
  pub record Pushed (h : ℕ) (tree : Tree A h) (nodes nodes' : Nodes A h) : Type ℓ where
    pub ok : Ok A h nodes'
    pub top : Top A h nodes'
    pub appended : nodes_elements A h nodes' ≡ nodes_elements A h nodes ++ elements A h tree
    pub growth :
        (node_count A nodes' ≡ node_count A nodes)
        ⊎ ((node_count A nodes' ≡ suc (node_count A nodes)) × Clean A h nodes')

  -- A table with one more tree.
  accumulated-push :
      (h : ℕ) (tree : Tree A h) (table : List (Tree A h)) (lengths : List ℕ)
      → IsNode A h table lengths
      → lengths ++ add_length (count A h tree) lengths ∷ []
        ≡ sums 0 (map (count A h) (table ++ tree ∷ []))
  accumulated-push h tree table lengths ok =
      ap (λ ls. ls ++ add_length (count A h tree) ls ∷ []) ok.accumulated
      ∙ sums-push (map (count A h) table) (count A h tree)
      ∙ ap (sums 0) (sym (map-append (count A h) table (tree ∷ [])))

  elements-push :
      (h : ℕ) (tree : Tree A h) (table : List (Tree A h))
      → concat (map (elements A h) (table ++ tree ∷ []))
        ≡ concat (map (elements A h) table) ++ elements A h tree
  elements-push h tree table =
      ap concat (map-append (elements A h) table (tree ∷ []))
      ∙ concat-snoc (map (elements A h) table) (elements A h tree)

  -- The full table went up.
  Pushed-carry :
      (h : ℕ) (tree : Tree A h) (table : List (Tree A h)) (lengths : List ℕ)
      (nodes nodes' : Nodes A (suc h))
      → Pushed
          (suc h)
          (table ++ tree ∷ [], lengths ++ add_length (count A h tree) lengths ∷ [])
          nodes
          nodes'
      → Pushed h tree (node table lengths nodes) (node [] [] nodes')
  Pushed-carry h tree table lengths nodes nodes' p = record {
    ok = (record { children = tt; accumulated = refl; room = omega arith }, p.ok);
    top = Top-empty A nodes' p.top;
    appended =
        append-nil (nodes_elements A (suc h) nodes')
        ∙ p.appended
        ∙ ap (λ xs. nodes_elements A (suc h) nodes ++ xs) (elements-push h tree table)
        ∙ sym (
            append_assoc (nodes_elements A (suc h) nodes) (concat (map (elements A h) table))
              (elements A h tree));
    growth = elim p.growth [
      | inl e ↦ inl (omega (arith, e))
      | inr (e, c) ↦ inr (omega (arith, e), Clean-empty A nodes' c)
    ];
  }

  pub from_list_push-Pushed :
      (h : ℕ) (tree : Tree A h) (nodes : Nodes A h)
      → Child A h tree
      → Ok A h nodes
      → TopIf A h nodes
      → (nodes' : Nodes A h) × (from_list_push A h tree nodes ≡ some nodes')
        × Pushed h tree nodes nodes'
  unfolding from_list_push
  from_list_push-Pushed h tree no_nodes child ok top = (
    node (tree ∷ []) (count A h tree ∷ []) no_nodes,
    rw child.1 refl,
    record {
      ok = (
        record {
          children = (child, tt);
          accumulated = ap (λ n. n ∷ []) (omega arith);
          room = omega arith;
        },
        tt,
      );
      top = NotEmpty-snoc [] tree;
      appended = append-nil (elements A h tree);
      growth = inr (omega arith, tt);
    },
  )
  from_list_push-Pushed h tree (node table lengths nodes) child ok top =
      let table' = table ++ tree ∷ [] in
      let lengths' = lengths ++ add_length (count A h tree) lengths ∷ [] in
      let children : All (Child A h) table' =
        All-append (Child A h) table (tree ∷ []) ok.0.children (child, tt) in
      let sums' = accumulated-push h tree table lengths ok.0 in
      let size = length-append table (tree ∷ []) in
      let small : length table' ≤ table_size = omega (arith, size, ok.0.room) in
      elim (Bool-cases (length table' == table_size)) [
        | inl e ↦
            let full =
              Child-of_node A h table' lengths' children sums' small (NotEmpty-snoc table tree) in
            let (nodes', e', p) =
              from_list_push-Pushed (suc h) (table', lengths') nodes full ok.1
                (Top-rest A table lengths nodes top) in
            (
              node [] [] nodes',
              rw (child.1, e, e') refl,
              Pushed-carry h tree table lengths nodes nodes' p,
            )
        | inr e ↦ (
          node table' lengths' nodes,
          rw (child.1, e) refl,
          record {
            ok = (
              record { children = children; accumulated = sums'; room = ground (arith, small, e) },
              ok.1,
            );
            top =
                Top-node A table' lengths' nodes (Top-rest A table lengths nodes top)
                  (NotEmpty-snoc table tree);
            appended =
                ap (λ xs. nodes_elements A (suc h) nodes ++ xs) (elements-push h tree table)
                ∙ sym (
                    append_assoc (nodes_elements A (suc h) nodes)
                      (concat (map (elements A h) table)) (elements A h tree));
            growth = inl refl;
          },
        )
      ]
