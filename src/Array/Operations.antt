-- ===== src/Array/Operations.antt =====
-- ui/dist/Main.js, `_elm_lang$core$Native_Array` and `_elm_lang$core$Array$…`: a run of operations on an
-- array, and the same run on the list of its elements.
use kubecast.Common.{
  ℕ, ◌≡◌, refl, sym, ap, ◌∙◌, Bool, Bool-cases, inl, inr, arith, Option, some, List, [], ◌∷◌, ◌++◌,
  if◌then◌else◌, ◌>>=◌, map, get_elem?, append-nil, append_assoc,
}
use kubecast.Array.{Array, tree_length, empty, from_list, get}
use kubecast.Array.Wellformed.{elements, IsArray}
use kubecast.Array.Laws.{from_list-IsArray, get-elements}
use kubecast.Array.Folds.{forward, foldl, to_list}
use kubecast.Array.Traversal.{to_list-elements, foldl-elements}
use kubecast.Array.Push.{push}
use kubecast.Array.Push.Pushed.{push-elements}
use kubecast.Array.Map.{map_array, map_array-elements}
use kubecast.Array.Set.{set}
use kubecast.Array.Set.Written.{put_at, set-elements}

module _ {ℓ} {A : Type ℓ} where
  -- The function of `filter` that is folded over the array.
  unfoldable pub push_okay : (A → Bool) → A → Option (Array A) → Option (Array A)
  push_okay is_okay x xs = xs >>= λ array. if is_okay x then push x array else some array

  unfoldable pub filter_array : (A → Bool) → Array A → Option (Array A)
  unfolding push_okay
  filter_array is_okay arr = foldl (push_okay is_okay) (some empty) arr

  abbrev pub filter_list : (A → Bool) → List A → List A
  filter_list is_okay [] = []
  filter_list is_okay (x ∷ xs) =
      let rest = filter_list is_okay xs in if is_okay x then x ∷ rest else rest

  -- An array of some elements.
  abbrev pub Has : Option (Array A) → List A → Type ℓ
  Has r xs = (a : Array A) × (r ≡ some a) × IsArray A a × (elements A a.height a.tree ≡ xs)

  forward-push_okay :
      (is_okay : A → Bool) (xs ys : List A) (r : Option (Array A))
      → Has r ys
      → Has (forward (push_okay is_okay) r xs) (ys ++ filter_list is_okay xs)
  unfolding push_okay
  forward-push_okay is_okay [] ys r (a, e, i, g) = (a, e, i, g ∙ sym (append-nil ys))
  forward-push_okay is_okay (x ∷ xs) ys r (a, e, i, g) = elim (Bool-cases (is_okay x)) [
    | inl okay ↦
        let (a', e', i', g') = push-elements A x a i in
        let next : push_okay is_okay x r ≡ some a' = rw (e, okay) e' in
        let (b, f, j, k) =
          forward-push_okay is_okay xs (ys ++ x ∷ []) (push_okay is_okay x r)
            (a', next, i', g' ∙ ap (λ zs. zs ++ x ∷ []) g) in
        (b, f, j, rw okay (k ∙ append_assoc ys (x ∷ []) (filter_list is_okay xs)))
    | inr bad ↦
        let next : push_okay is_okay x r ≡ some a = rw (e, bad) refl in
        let (b, f, j, k) =
          forward-push_okay is_okay xs ys (push_okay is_okay x r) (a, next, i, g) in
        (b, f, j, rw bad k)
  ]

  empty-Has : Has (some empty) []
  unfolding empty tree_length
  empty-Has = (_, refl, record { wf = record { small = omega arith }; counted = refl }, refl)

  filter_array-Has :
      (is_okay : A → Bool) (a : Array A)
      → Has (filter_array is_okay a) (filter_list is_okay (elements A a.height a.tree))
  unfolding filter_array
  filter_array-Has is_okay a =
      let (b, e, i, g) =
        forward-push_okay is_okay (elements A a.height a.tree) [] (some empty) empty-Has in
      (b, foldl-elements (push_okay is_okay) (some empty) a ∙ e, i, g)

-- An operation of a program on an array.
pub data Op {ℓ} (A : Type ℓ) : Type ℓ where
  push_op : A → Op A
  set_op : ℕ → A → Op A
  map_op : (A → A) → Op A
  filter_op : (A → Bool) → Op A

module _ {ℓ} {A : Type ℓ} where
  unfoldable pub run_op : Op A → Array A → Option (Array A)
  run_op (push_op item) a = push item a
  run_op (set_op i item) a = set i item a
  run_op (map_op f) a = some (map_array f a)
  run_op (filter_op is_okay) a = filter_array is_okay a

  unfoldable pub run_ops : List (Op A) → Array A → Option (Array A)
  unfolding run_op
  run_ops [] a = some a
  run_ops (op ∷ ops) a = run_op op a >>= run_ops ops

  -- The same on lists.
  abbrev pub list_op : Op A → List A → List A
  list_op (push_op item) xs = xs ++ item ∷ []
  list_op (set_op i item) xs = put_at i item xs
  list_op (map_op f) xs = map f xs
  list_op (filter_op is_okay) xs = filter_list is_okay xs

  abbrev pub list_ops : List (Op A) → List A → List A
  list_ops [] xs = xs
  list_ops (op ∷ ops) xs = list_ops ops (list_op op xs)

  run_op-Has :
      (op : Op A) (a : Array A)
      → IsArray A a
      → Has (run_op op a) (list_op op (elements A a.height a.tree))
  unfolding run_op
  run_op-Has (push_op item) a i = push-elements A item a i
  run_op-Has (set_op n item) a i = set-elements A n item a i
  run_op-Has (map_op f) a i = let (j, k) = map_array-elements f a i in (map_array f a, refl, j, k)
  run_op-Has (filter_op is_okay) a i = filter_array-Has is_okay a

  run_ops-Has :
      (ops : List (Op A)) (a : Array A) (xs : List A)
      → IsArray A a
      → elements A a.height a.tree ≡ xs
      → Has (run_ops ops a) (list_ops ops xs)
  unfolding run_ops
  run_ops-Has [] a xs i g = (a, refl, i, g)
  run_ops-Has (op ∷ ops) a xs i g =
      let (b, e, j, k) = run_op-Has op a i in
      let (c, e', l, m) = run_ops-Has ops b (list_op op xs) j (k ∙ ap (list_op op) g) in
      (c, rw e e', l, m)

  -- Arrays are lists: a run of `push`, `set`, `map` and `filter` on the array made from a list does not
  -- throw, and ends with an array that `toList` makes the list that the same run on the list ends
  -- with, and in which `get` at any index is that list's element there, or `Nothing` past its end. On
  -- the list, `set` past the end changes nothing.
  pub run_ops-Reads :
      (ops : List (Op A)) (xs : List A)
      → (a : Array A) × ((from_list xs >>= run_ops ops) ≡ some a)
        × (to_list a ≡ list_ops ops xs)
        × ((i : ℕ) → get i a ≡ some (get_elem? i (list_ops ops xs)))
  run_ops-Reads ops xs =
      let (a, e, i, g) = from_list-IsArray A xs in
      let (b, e', j, k) = run_ops-Has ops a xs i g in
      (
        b,
        ap (λ r. r >>= run_ops ops) e ∙ e',
        to_list-elements b ∙ k,
        λ n. get-elements A n b j ∙ ap (λ ys. some (get_elem? n ys)) k,
      )
