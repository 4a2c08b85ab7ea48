-- ===== src/Array/Wellformed.antt =====
-- ui/dist/Main.js, `_elm_lang$core$Native_Array`: the elements of a tree in order, and the
-- invariant of a tree.
use kubecast.Common.{
  ℕ, zero, suc, ◌≤◌, ◌≡◌, refl, sym, ◌∙◌, ap, some, List, [], ◌∷◌, ◌++◌, map, length, All, arith,
  length-append, append_assoc, append-nil,
}
use kubecast.Array.{Tree, tree_length, table_size, Array}
use kubecast.Array.Sums.{sums, total}

module _ {ℓ} {A : Type ℓ} where
  abbrev pub concat : List (List A) → List A
  concat [] = []
  concat (xs ∷ xss) = xs ++ concat xss

  pub concat-snoc : (xss : List (List A)) (xs : List A) → concat (xss ++ xs ∷ []) ≡ concat xss ++ xs
  concat-snoc [] xs = append-nil xs
  concat-snoc (ys ∷ xss) xs =
      ap (λ zs. ys ++ zs) (concat-snoc xss xs) ∙ sym (append_assoc ys (concat xss) xs)

  pub length-concat {κ} :
      {T : Type κ} (f : T → List A) (table : List T)
      → length (concat (map f table)) ≡ total (map (λ t. length (f t)) table)
  length-concat f [] = refl
  length-concat f (t ∷ table) =
      omega (arith, length-append (f t) (concat (map f table)), length-concat f table)

-- A leaf is not overfull.
pub record IsLeaf {ℓ} {A : Type ℓ} (table : List A) : Type ℓ where
  pub small : length table ≤ table_size

module _ {ℓ} (A : Type ℓ) where
  abbrev pub elements : (h : ℕ) → Tree A h → List A
  elements zero table = table
  elements (suc h) (table, lengths) = concat (map (elements h) table)

  abbrev pub count : (h : ℕ) → Tree A h → ℕ
  count h tree = length (elements h tree)

  -- At most 32 children, each of them well formed and, above the leaves, not empty; `lengths`
  -- accumulates their numbers of elements.
  abbrev pub Wf : (h : ℕ) → Tree A h → Type ℓ
  Wf zero table = IsLeaf table
  Wf (suc h) (table, lengths) =
      All (λ c. Wf h c × (tree_length A h c ≡ some (count h c))) table
      × (lengths ≡ sums 0 (map (count h) table))
      × (length table ≤ table_size)

  pub record IsArray (array : Array A) : Type ℓ where
    pub wf : Wf array.height array.tree
    pub counted : tree_length A array.height array.tree ≡ some (count array.height array.tree)
