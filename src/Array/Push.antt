-- ===== src/Array/Push.antt =====
-- ui/dist/Main.js, `_elm_lang$core$Native_Array`: `push` with what it calls.
pub mod Pushed
use kubecast.Common.{
  ℕ, zero, suc, ◌+◌, Option, none, some, List, [], ◌∷◌, ◌++◌, ltb, if◌then◌else◌, ◌>>=◌, length,
}
use kubecast.Array.{Tree, Array, table_size, last, tree_length}

-- `xs[xs.length - 1] = x`.
abbrev pub set_last {ℓ} : {A : Type ℓ} → A → List A → List A
set_last x [] = []
set_last x (y ∷ []) = x ∷ []
set_last x (y ∷ z ∷ ys) = y ∷ set_last x (z ∷ ys)

module _ {ℓ} {A : Type ℓ} where
  -- A tree of a height that contains only the item.
  unfoldable pub create : A → (h : ℕ) → Tree A h
  create item zero = item ∷ []
  create item (suc h) = (create item h ∷ [], 1 ∷ [])

  -- `push_`: `some none` is `null`.
  unfoldable pub push_ : A → (h : ℕ) → Tree A h → Option (Option (Tree A h))
  unfolding create tree_length
  push_ item zero table =
      if ltb (length table) table_size then some (some (table ++ item ∷ [])) else some none
  push_ item (suc h) (table, lengths) = last table >>= λ bot_right.
      push_ item h bot_right >>= λ pushed. elim pushed [
        | some tree ↦
            last lengths >>= λ n. some (some (set_last tree table, set_last (suc n) lengths))
        | none ↦
            if ltb (length table) table_size
            then (last lengths >>= λ n. tree_length A h (create item h) >>= λ len.
                some (some (table ++ create item h ∷ [], lengths ++ (n + len) ∷ [])))
            else some none
      ]

  -- Two trees below a new one.
  unfoldable pub siblise : (h : ℕ) → Tree A h → Tree A h → Option (Array A)
  unfolding tree_length
  siblise h a b = tree_length A h a >>= λ m. tree_length A h b >>= λ n.
      some (record { height = suc h; tree = (a ∷ b ∷ [], m ∷ (m + n) ∷ []) })

  unfoldable pub push : A → Array A → Option (Array A)
  unfolding push_ create siblise
  push item a = push_ item a.height a.tree >>= λ pushed. elim pushed [
    | some tree ↦ some (record { height = a.height; tree = tree })
    | none ↦ siblise a.height a.tree (create item a.height)
  ]
