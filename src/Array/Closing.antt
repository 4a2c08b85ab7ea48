-- ===== src/Array/Closing.antt =====
-- ui/dist/Main.js, `_elm_lang$core$Native_Array`: the last loop of `fromList`, and how much fuel
-- it needs.
use kubecast.Common.{
  ℕ, zero, suc, ◌≤◌, ◌≡◌, ◌⊎◌, inl, inr, refl, sym, ◌∙◌, some, List, [], ◌∷◌, arith, append-nil,
}
use kubecast.Array.{Tree, Nodes, no_nodes, node, node_count, Array, close}
use kubecast.Array.Wellformed.{elements, IsArray}
use kubecast.Array.Chain.{Ok, Top, Clean, nodes_elements, Child-of_node, head_of-IsArray}
use kubecast.Array.Pushing.{from_list_push-Pushed}

module _ {ℓ} (A : Type ℓ) where
  abbrev pub Enough : ℕ → (h : ℕ) → Nodes A h → Type ℓ
  Enough fuel h nodes =
      (suc (node_count A nodes) ≤ fuel) ⊎ (Clean A h nodes × (node_count A nodes ≤ fuel))

  -- A push leaves enough fuel for the rest: it may add a level, but then the nodes are clean.
  Enough-next :
      (fuel h : ℕ) (t : Tree A h) (table : List (Tree A h)) (lengths : List ℕ)
      (table' : List (Tree A (suc h))) (lengths' : List ℕ) (nodes : Nodes A (suc (suc h)))
      (nodes' : Nodes A (suc h))
      → Enough (suc fuel) h (node (t ∷ table) lengths (node table' lengths' nodes))
      → (node_count A nodes' ≡ suc (node_count A nodes))
        ⊎ ((node_count A nodes' ≡ suc (suc (node_count A nodes))) × Clean A (suc h) nodes')
      → Enough fuel (suc h) nodes'
  Enough-next fuel h t table lengths table' lengths' nodes nodes' (inl q) (inl e) =
      inl (omega (arith, q, e))
  Enough-next fuel h t table lengths table' lengths' nodes nodes' (inl q) (inr (e, c)) =
      inr (c, omega (arith, q, e))
  Enough-next fuel h t table lengths table' lengths' nodes nodes' (inr (c, q)) e = absurd (cc (c.0))

  -- The loop ends, with a well-formed array of the nodes' elements.
  pub close-IsArray :
      (fuel h : ℕ) (nodes : Nodes A h)
      → Ok A h nodes
      → Top A h nodes
      → Enough fuel h nodes
      → (array : Array A) × (close A fuel h nodes ≡ some array)
        × IsArray A array
        × (elements A array.height array.tree ≡ nodes_elements A h nodes)
  unfolding close
  close-IsArray fuel h no_nodes ok top enough = absurd top
  close-IsArray zero h (node table lengths nodes) ok top enough = elim enough [
    | inl e ↦ absurd (omega (arith, e))
    | inr e ↦ absurd (omega (arith, e.1))
  ]
  close-IsArray (suc fuel) h (node table lengths no_nodes) ok top enough =
      let (a, e) = head_of-IsArray A h table lengths ok.0 top in (_, refl, a, e)
  close-IsArray (suc fuel) h (node [] lengths (node table' lengths' nodes)) ok top enough =
      let (array, e, a, g) =
        close-IsArray fuel (suc h) (node table' lengths' nodes) ok.1 top (elim enough [
          | inl e ↦ inl (omega (arith, e))
          | inr e ↦ inr (e.0.1, omega (arith, e.1))
        ]) in
      (array, e, a, g ∙ sym (append-nil _))
  close-IsArray (suc fuel) h (node (t ∷ table) lengths (node table' lengths' nodes)) ok top enough =
      let rest = node table' lengths' nodes in
      let full =
        Child-of_node A h (t ∷ table) lengths ok.0.children ok.0.accumulated
          (omega (arith, ok.0.room)) tt in
      let (nodes', e, p) =
        from_list_push-Pushed A (suc h) (t ∷ table, lengths) rest full ok.1 top in
      let (array, e', a, g) =
        close-IsArray fuel (suc h) nodes' p.ok p.top
          (Enough-next fuel h t table lengths table' lengths' nodes nodes' enough p.growth) in
      (array, rw (e) e', a, g ∙ p.appended)
