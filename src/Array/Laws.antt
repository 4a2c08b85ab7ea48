-- ===== src/Array/Laws.antt =====
-- ui/dist/Main.js, `_elm_lang$core$Native_Array`: `fromList` and `get` as a client of the arrays
-- sees them.
use kubecast.Common.{
  ℕ, zero, suc, ◌≤◌, ◌<◌, ◌≡◌, ◌⊎◌, inl, inr, refl, sym, ◌∙◌, ap, none, some, List, [], ◌∷◌, ◌++◌,
  length, get_elem?, arith, append-nil, append_assoc, length-append, Bool-cases, ◌==◌,
}
use kubecast.Array.{
  Nodes, no_nodes, node, node_count, Array, table_size, tree_length, fill, empty, from_list,
  native_get, get,
}
use kubecast.Array.Sums.{lt-or-le, ltb-true, ltb-false}
use kubecast.Array.Wellformed.{elements, count, IsArray}
use kubecast.Array.Chain.{NotEmpty, Child, Ok, Top, TopIf, nodes_elements}
use kubecast.Array.Reading.{unsafe_get-elements}
use kubecast.Array.Pushing.{NotEmpty-snoc, from_list_push-Pushed}
use kubecast.Array.Closing.{close-IsArray}

module _ {ℓ} (A : Type ℓ) where
  TopIf-Top : (nodes : Nodes A 0) → Top A 0 nodes → TopIf A 0 nodes
  TopIf-Top no_nodes t = tt
  TopIf-Top (node table lengths nodes) t = t

  leaf-Child : (table : List A) → length table ≤ table_size → Child A 0 table
  unfolding tree_length
  leaf-Child table b = (record { small = b }, refl)

  nil_middle : (xs ys : List A) → xs ++ [] ++ ys ≡ xs ++ ys
  nil_middle xs ys = ap (λ zs. zs ++ ys) (append-nil xs)

  appended :
      (nodes : Nodes A 0) (table : List A) (x : A) (list : List A)
      → nodes_elements A 0 nodes ++ (table ++ x ∷ []) ++ list
        ≡ nodes_elements A 0 nodes ++ table ++ x ∷ list
  appended nodes table x list = simp append_assoc

  fill-Ok :
      (list table : List A) (nodes : Nodes A 0)
      → length table < table_size
      → Ok A 0 nodes
      → TopIf A 0 nodes
      → NotEmpty list ⊎ (NotEmpty table ⊎ Top A 0 nodes)
      → (nodes' : Nodes A 0) × (fill A list table nodes ≡ some nodes')
        × Ok A 0 nodes'
        × Top A 0 nodes'
        × (nodes_elements A 0 nodes' ≡ nodes_elements A 0 nodes ++ table ++ list)
  unfolding fill
  fill-Ok [] [] nodes b ok top (inl n) = absurd n
  fill-Ok [] [] nodes b ok top (inr (inl n)) = absurd n
  fill-Ok [] [] nodes b ok top (inr (inr t)) = (nodes, refl, ok, t, simp append-nil)
  fill-Ok [] (x ∷ table) nodes b ok top n =
      let (nodes', e, p) =
        from_list_push-Pushed A 0 (x ∷ table) nodes (leaf-Child (x ∷ table) (omega (arith, b))) ok
          top in
      (nodes', e, p.ok, p.top, p.appended ∙ sym (append-nil _))
  fill-Ok (x ∷ list) table nodes b ok top n =
      let table' = table ++ x ∷ [] in
      let size = length-append table (x ∷ []) in
      elim (Bool-cases (length table' == table_size)) [
        | inl e ↦
            let (nodes', e', p) =
              from_list_push-Pushed A 0 table' nodes (leaf-Child table' (omega (arith, size, b))) ok
                top in
            let (nodes'', e'', ok', top', g) =
              fill-Ok list [] nodes' (omega arith) p.ok (TopIf-Top nodes' p.top)
                (inr (inr p.top)) in
            (
              nodes'',
              rw (e, e', fill) e'',
              ok',
              top',
              g
                  ∙ ap (λ xs. xs ++ [] ++ list) p.appended
                  ∙ nil_middle (nodes_elements A 0 nodes ++ table') list
                  ∙ appended nodes table x list,
            )
        | inr e ↦
            let (nodes', e', ok', top', g) =
              fill-Ok list table' nodes (ground (arith, size, b, e)) ok top
                (inr (inl (NotEmpty-snoc table x))) in
            (nodes', rw (e, fill) e', ok', top', g ∙ appended nodes table x list)
      ]

  pub from_list-IsArray :
      (xs : List A)
      → (array : Array A) × (from_list xs ≡ some array)
        × IsArray A array
        × (elements A array.height array.tree ≡ xs)
  unfolding from_list empty tree_length
  from_list-IsArray [] =
      (_, refl, record { wf = record { small = omega arith }; counted = refl }, refl)
  from_list-IsArray (x ∷ xs) =
      let (nodes, e, ok, top, g) = fill-Ok (x ∷ xs) [] no_nodes (omega arith) tt tt (inl tt) in
      let (array, e', a, g') =
        close-IsArray A (suc (node_count A nodes)) 0 nodes ok top (inl (omega arith)) in
      (array, rw e e', a, g' ∙ g)

  get_elem-some : (i : ℕ) (xs : List A) → i < length xs → (x : A) × (get_elem? i xs ≡ some x)
  get_elem-some i [] h = absurd (omega (arith, h))
  get_elem-some zero (x ∷ xs) h = (x, refl)
  get_elem-some (suc i) (x ∷ xs) h = get_elem-some i xs (omega (arith, h))

  get_elem-none : (i : ℕ) (xs : List A) → length xs ≤ i → get_elem? i xs ≡ none
  get_elem-none i [] h = refl
  get_elem-none zero (x ∷ xs) h = absurd (omega (arith, h))
  get_elem-none (suc i) (x ∷ xs) h = get_elem-none i xs (omega (arith, h))

  pub get-elements :
      (i : ℕ) (array : Array A)
      → IsArray A array
      → get i array ≡ some (get_elem? i (elements A array.height array.tree))
  unfolding get native_get
  get-elements i array a = elim (lt-or-le i (count A array.height array.tree)) [
    | inl b ↦
        let (x, e) = get_elem-some i (elements A array.height array.tree) b in
        rw (a.counted, ltb-true i _ b, unsafe_get-elements A array.height array.tree i a.wf b, e)
          refl
    | inr b ↦
        rw (a.counted, ltb-false i _ b, get_elem-none i (elements A array.height array.tree) b) refl
  ]

  -- `fromList` returns an array for every list, and `get` there returns the list's element at any
  -- index, or `Nothing` past its end; neither throws.
  pub get-from_list :
      (i : ℕ) (xs : List A)
      → (array : Array A) × (from_list xs ≡ some array) × (get i array ≡ some (get_elem? i xs))
  get-from_list i xs =
      let (array, e, a, g) = from_list-IsArray xs in
      (array, e, get-elements i array a ∙ ap (λ ys. some (get_elem? i ys)) g)
