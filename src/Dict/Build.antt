-- ===== src/Dict/Build.antt =====
-- ui/dist/Main.js, `_elm_lang$core$Dict$…`: what `get` reads from a union, a filtered dictionary, a
-- difference, an intersection, a dictionary made from a list, and a mapped one.
use kubecast.Common.{
  ℕ, eq, ◌≡◌, refl, sym, ◌∙◌, ap, Bool, Option, none, some, List, [], ◌∷◌, map-append, subst, arith,
  if◌then◌else◌, ◌>>=◌, inl, inr, Bool-cases,
}
use mathlib.Core.List
use kubecast.Ord.{Comparable}
use kubecast.Dict.{NColor, Dict, rb_empty, rb_node, empty}
use kubecast.Dict.Ops.{get, put, discard}
use kubecast.Dict.Balance.{contents}
use kubecast.Dict.Sorted.{IsSorted, Above, find, find-Above}
use kubecast.Dict.Refine.{get-find}
use kubecast.Dict.RedBlack.{Valid, leaf, red_node, black_node}
use kubecast.Dict.Derived.{foldl_list, union, filter, from_list, diff, map}
use kubecast.Dict.Laws.{IsDict, revise, empty-IsDict}
use kubecast.Dict.Folds.{reads, Reads, update-Reads, foldl_list-Reads, foldl-contents}

abbrev pub or_else {ℓ} : {A : Type ℓ} → Option A → Option A → Option A
or_else (some a) b = some a
or_else none b = b

pub or_else-none {ℓ} : {A : Type ℓ} (m : Option A) → or_else m none ≡ m
or_else-none none = refl
or_else-none (some a) = refl

module _ {ℓ κ} {K : Type ℓ} {V : Type κ} ⦃o : Comparable K⦄ where
  -- The binding of a key that stands last in a list.
  abbrev pub find_last : K → List (K × V) → Option V
  find_last i [] = none
  find_last i ((j, v) ∷ xs) = or_else (find_last i xs) (elim (o.cmp i j) [ eq ↦ some v | _ ↦ none ])

  find_last-find : (i : K) (xs : List (K × V)) → IsSorted xs → find_last i xs ≡ find i xs
  unfolding find
  find_last-find i [] s = refl
  find_last-find i ((j, v) ∷ xs) s =
      ground (arith, find_last-find i xs s.1, find-Above i xs, o.eq_of_cmp i j)

  abbrev set_at : K × V → (K → Option V) → K → Option V
  set_at p g = revise g p.0 (λ _. some p.1)

  set_at-find_last :
      (xs : List (K × V)) (g : K → Option V) (i : K)
      → foldl_list set_at g xs i ≡ or_else (find_last i xs) (g i)
  unfolding foldl_list
  set_at-find_last [] g i = refl
  set_at-find_last ((j, v) ∷ xs) g i = ground (arith, set_at-find_last xs (set_at (j, v) g) i)

  put-Reads : (p : K × V) (t : Dict K V) → IsDict t → Reads (put p.0 p.1 t) (set_at p (reads t))
  unfolding put
  put-Reads p t h = update-Reads p.0 (λ _. some p.1) t h

  Reads-eq :
      (m : Option (Dict K V)) (g g' : K → Option V)
      → ((i : K) → g i ≡ g' i)
      → Reads m g
      → Reads m g'
  Reads-eq m g g' e (t, e', h, r) = (t, e', h, r ∙ λ x i. e i x)

  -- The union of two dictionaries is a dictionary, and reads as the first where that has the key,
  -- and as the second elsewhere.
  pub union-Reads :
      (t1 t2 : Dict K V)
      → IsDict t1
      → IsDict t2
      → Reads (union t1 t2) (λ i. or_else (get i t1) (get i t2))
  unfolding union
  union-Reads t1 t2 h1 h2 = rw (foldl-contents (λ k v acc. acc >>= put k v) (some t2) t1) (
      Reads-eq _ _ _
        (λ i.
          set_at-find_last (contents t1) (reads t2) i
          ∙ ap (λ x. or_else x (get i t2))
              (find_last-find i (contents t1) h1.sorted ∙ sym (get-find i t1 h1.sorted)))
        (foldl_list-Reads (λ p. put p.0 p.1) set_at put-Reads (contents t1) t2 h2))

  -- A dictionary can be made from any list, and reads a key's last binding there.
  pub from_list-Reads : (xs : List (K × V)) → Reads (from_list xs) (λ i. find_last i xs)
  unfolding from_list get
  from_list-Reads xs =
      Reads-eq _ _ _ (λ i. set_at-find_last xs (reads empty) i ∙ or_else-none (find_last i xs))
        (foldl_list-Reads (λ p. put p.0 p.1) set_at put-Reads xs empty empty-IsDict)

  -- What a filter leaves of the value at a key.
  abbrev pub keep : (K → V → Bool) → K → Option V → Option V
  keep p i none = none
  keep p i (some v) = if p i v then some v else none

  abbrev pub filter_at : (K → V → Bool) → K × V → (K → Option V) → K → Option V
  filter_at p e g = if p e.0 e.1 then set_at e g else g

  pub filter_at-find :
      (p : K → V → Bool) (xs : List (K × V)) (g : K → Option V) (i : K)
      → IsSorted xs
      → foldl_list (filter_at p) g xs i ≡ or_else (keep p i (find i xs)) (g i)
  unfolding foldl_list find
  filter_at-find p [] g i s = refl
  filter_at-find p ((j, v) ∷ xs) g i s =
      ground
        (arith, filter_at-find p xs (filter_at p (j, v) g) i s.1, o.eq_of_cmp i j, find-Above i xs)

  filter_step-Reads :
      (p : K → V → Bool) (e : K × V) (t : Dict K V)
      → IsDict t
      → Reads (if p e.0 e.1 then put e.0 e.1 t else some t) (filter_at p e (reads t))
  filter_step-Reads p e t h = elim (Bool-cases (p e.0 e.1)) [
    | inl b ↦ rw b (put-Reads e t h)
    | inr b ↦ rw b (t, refl, h, refl)
  ]

  -- The filtered dictionary is a dictionary, and reads as the old one where the predicate holds of
  -- the key and its value.
  pub filter-Reads :
      (p : K → V → Bool) (d : Dict K V) → IsDict d → Reads (filter p d) (λ i. keep p i (get i d))
  unfolding filter get
  filter-Reads p d h =
      rw
        (foldl-contents (λ k v acc. acc >>= λ t. if p k v then put k v t else some t) (some empty)
          d)
        (Reads-eq _ _ _
          (λ i.
            filter_at-find p (contents d) (λ j. get j empty) i h.sorted
            ∙ or_else-none (keep p i (find i (contents d)))
            ∙ ap (keep p i) (sym (get-find i d h.sorted)))
          (foldl_list-Reads _ (filter_at p) (filter_step-Reads p) (contents d) empty empty-IsDict))

  remove_at-find {μ} :
      {W : Type μ} (xs : List (K × W)) (g : K → Option V) (i : K)
      → foldl_list (λ e q. revise q e.0 (λ _. none)) g xs i
        ≡ elim (find i xs) [ none ↦ g i | some w ↦ none ]
  unfolding foldl_list find
  remove_at-find [] g i = refl
  remove_at-find ((j, w) ∷ xs) g i = ground (arith, remove_at-find xs (revise g j (λ _. none)) i)

  discard-Reads :
      (k : K) (t : Dict K V) → IsDict t → Reads (discard k t) (revise (reads t) k (λ _. none))
  unfolding discard
  discard-Reads k t h = update-Reads k (λ _. none) t h

  -- The difference of two dictionaries is a dictionary, and reads as the first at the keys that the
  -- second lacks.
  pub diff-Reads {μ} :
      {W : Type μ} (t1 : Dict K V) (t2 : Dict K W)
      → IsDict t1
      → IsDict t2
      → Reads (diff t1 t2) (λ i. elim (get i t2) [ none ↦ get i t1 | some w ↦ none ])
  unfolding diff
  diff-Reads {W = W} t1 t2 h1 h2 = rw (foldl-contents (λ k w acc. acc >>= discard k) (some t1) t2) (
      Reads-eq _ _ _
        (λ i.
          remove_at-find (contents t2) (reads t1) i
          ∙ ap
              (λ (m : Option W). let r : Option V = elim m [ none ↦ get i t1 | some w ↦ none ] in r)
              (sym (get-find i t2 h2.sorted)))
        (foldl_list-Reads (λ e. discard e.0) (λ e q. revise q e.0 (λ _. none))
          (λ e. discard-Reads e.0) (contents t2) t1 h1))

module _ {ℓ κ μ} {K : Type ℓ} {V : Type κ} {W : Type μ} ⦃o : Comparable K⦄ (f : K → V → W) where
  abbrev map_entry : K × V → K × W
  map_entry p = (p.0, f p.0 p.1)

  contents-map : (d : Dict K V) → contents (map f d) ≡ List.map map_entry (contents d)
  unfolding map
  contents-map (rb_empty c) = refl
  contents-map (rb_node c k v l r) = simp (contents-map l, contents-map r, map-append)

  map-Valid : {c : NColor} {n : ℕ} {d : Dict K V} → Valid c n d → Valid c n (map f d)
  unfolding map
  map-Valid leaf = leaf
  map-Valid (red_node a b) = red_node (map-Valid a) (map-Valid b)
  map-Valid (black_node a b) = black_node (map-Valid a) (map-Valid b)

  Above-map : (j : K) (xs : List (K × V)) → Above j xs → Above j (List.map map_entry xs)
  Above-map j [] a = tt
  Above-map j (x ∷ xs) a = (a.0, Above-map j xs a.1)

  map-IsSorted : (xs : List (K × V)) → IsSorted xs → IsSorted (List.map map_entry xs)
  map-IsSorted [] s = tt
  map-IsSorted ((j, v) ∷ xs) s = (Above-map j xs s.0, map-IsSorted xs s.1)

  -- Mapping a dictionary gives a dictionary, which reads as `f` of the key and what the old one
  -- reads there.
  pub map-Reads :
      (d : Dict K V)
      → IsDict d
      → IsDict (map f d)
        × ((i : K) → get i (map f d) ≡ elim (get i d) [ none ↦ none | some v ↦ some (f i v) ])
  unfolding map get
  map-Reads d h = (
    record {
      height = h.height;
      valid = map-Valid h.valid;
      sorted = subst IsSorted (sym (contents-map d)) (map-IsSorted (contents d) h.sorted);
    },
    λ i. get-map i d,
  )
    where
      get-map :
          (i : K) (d : Dict K V)
          → get i (map f d) ≡ elim (get i d) [ none ↦ none | some v ↦ some (f i v) ]
      get-map i (rb_empty c) = refl
      get-map i (rb_node c j v l r) = ground (arith, get-map i l, get-map i r, o.eq_of_cmp i j)
