-- ===== src/Tests/Dicts.antt =====
-- Runs of the theorems on dictionaries, at small dictionaries over numbers.
use kubecast.Common.{ℕ, ◌+◌, ◌≡◌, refl, Bool, Option, none, some, List, [], ◌∷◌, ltb}
use kubecast.Ord.{nat_comparable}
use kubecast.Dict.{Dict, rb_empty, rb_node, red, black, lblack}
use kubecast.Dict.Ops.{get, update}
use kubecast.Dict.Derived
use kubecast.Dict.Balance.{contents}
use kubecast.Dict.Sorted.{IsSorted, find, alter}
use kubecast.Dict.RedBlack.{Valid, leaf, red_node, black_node}
use kubecast.Dict.Total.{update-Valid}
use kubecast.Dict.Laws.{IsDict, revise, update_refines, get-update}
use kubecast.Dict.Folds.{Reads}
use kubecast.Dict.Build.{or_else, union-Reads}
use kubecast.Dict.Merge.{Side, sides, visit}
use kubecast.Dict.Visits.{merge-sides}

-- A black root with a red left child, and one with two red children.
abbrev small : Dict ℕ ℕ
small = rb_node black 5 50 (rb_node red 3 30 (rb_empty lblack) (rb_empty lblack)) (rb_empty lblack)

abbrev large : Dict ℕ ℕ
large =
    rb_node black 3 33 (rb_node red 1 11 (rb_empty lblack) (rb_empty lblack))
      (rb_node red 7 77 (rb_empty lblack) (rb_empty lblack))

small-IsDict : IsDict small
unfolding nat_comparable
small-IsDict = record {
  height = 1;
  valid = black_node (red_node leaf leaf) leaf;
  sorted = ((refl, tt), (tt, tt));
}

large-IsDict : IsDict large
unfolding nat_comparable
large-IsDict = record {
  height = 1;
  valid = black_node (red_node leaf leaf) (red_node leaf leaf);
  sorted = ((refl, (refl, tt)), ((refl, tt), (tt, tt)));
}

abbrev drop : Option ℕ → Option ℕ
drop v = none

update_refines_example :
    (t : Dict ℕ ℕ) × (update 3 drop large ≡ some t)
    × IsDict t
    × (contents t ≡ alter 3 drop (contents large))
update_refines_example = update_refines 3 drop large large-IsDict

update-Valid_example : (t : Dict ℕ ℕ) × (update 5 drop small ≡ some t) × ((m : ℕ) × Valid black m t)
update-Valid_example = update-Valid 5 drop 1 small (black_node (red_node leaf leaf) leaf)

get-update_example :
    (t : Dict ℕ ℕ) × (update 3 drop large ≡ some t)
    × IsDict t
    × ((i : ℕ) → get i t ≡ revise (λ j. get j large) 3 drop i)
get-update_example = get-update 3 drop large large-IsDict

union-Reads_example : Reads (Derived.union small large) (λ i. or_else (get i small) (get i large))
union-Reads_example = union-Reads small large small-IsDict large-IsDict

abbrev bindings : List (ℕ × ℕ)
bindings = (1, 10) ∷ (0, 5) ∷ (1, 20) ∷ []

abbrev is_low : ℕ → ℕ → Bool
is_low k v = ltb k 4

abbrev total : ℕ → ℕ → ℕ
total k v = k + v

abbrev collect : ℕ → ℕ → List ℕ → List ℕ
collect k v acc = v ∷ acc

abbrev note_both : ℕ → ℕ → ℕ → List ℕ → List ℕ
note_both k a b acc = (a + b) ∷ acc

merge-sides_example :
    (vs : List (ℕ × Side ℕ ℕ)) × (Derived.merge collect note_both collect small large []
      ≡ Derived.foldl_list (visit collect note_both collect) [] vs)
    × IsSorted vs
    × ((i : ℕ) → find i vs ≡ sides (get i small) (get i large))
merge-sides_example = merge-sides collect note_both collect small large [] small-IsDict large-IsDict
