-- ===== src/Tests/Page.antt =====
-- Runs of the theorems on arrays and on the page, at a listing of two sessions.
use kubecast.Common.{
  ◌+◌, ℕ, ◌≡◌, ◌≢◌, ◌⊎◌, refl, some, List, [], ◌∷◌, map, All, get_elem?, ◌==◌, ◌>>=◌,
}
use kubecast.Text.{Str, codes, trim, is_space}
use kubecast.Array.{Array, from_list, get}
use kubecast.Array.Folds.{to_list}
use kubecast.Array.Operations.{
  Op, push_op, set_op, map_op, filter_op, run_ops, list_ops, run_ops-Reads,
}
use kubecast.Server.{list_message, join_labels}
use kubecast.App.Model.{
  Location, Model, Msg, display_cast, list_casts, on_location_change, Command, no_command, play,
}
use kubecast.App.Update.{update}
use kubecast.App.View.{view}
use kubecast.App.Options.{is_plain, ArePlain, quoted, choice, page, view-list_message}
use kubecast.App.Listing.{IsEntry, label_text}
use kubecast.App.Selection.{
  first_line, played, run, update-list_message, update-list_casts, run-played, run-stays,
}

abbrev numbers : List ℕ
numbers = 10 ∷ 11 ∷ 12 ∷ 13 ∷ 14 ∷ []

abbrev here : Location
here = record { protocol = codes "https:"; host = codes "kubecast.io" }

abbrev first : Str × List Str
first = (codes "/d/1.cast", codes "ns" ∷ codes "pod" ∷ [])

abbrev second : Str × List Str
second = (codes "/d/2.cast", codes "" ∷ [])

first-IsEntry : IsEntry first
unfolding is_space
first-IsEntry = record {
  first = 47;
  rest = codes "d/1.cast";
  no_space = refl;
  path = refl;
  path_line = (refl, (refl, (refl, (refl, (refl, (refl, (refl, (refl, (refl, tt)))))))));
  label = codes "ns";
  labels = codes "pod" ∷ [];
  some_label = refl;
  label_lines = ((refl, (refl, tt)), ((refl, (refl, (refl, tt))), tt));
}

second-IsEntry : IsEntry second
unfolding is_space
second-IsEntry = record {
  first = 47;
  rest = codes "d/2.cast";
  no_space = refl;
  path = refl;
  path_line = (refl, (refl, (refl, (refl, (refl, (refl, (refl, (refl, (refl, tt)))))))));
  label = [];
  labels = [];
  some_label = refl;
  label_lines = (tt, tt);
}

abbrev pub model : Model
model = record { cast = codes "/d/2.cast"; casts = []; labels = []; location = here }

update-list_message_example :
    (p : Model × Command) × (update (list_casts (list_message [] (first ∷ second ∷ []))) model
      ≡ some p)
    × (p.0.casts ≡ map (λ x. x.0) (first ∷ second ∷ []))
    × (p.0.labels ≡ map label_text (first ∷ second ∷ []))
    × (p.0.location ≡ model.location)
update-list_message_example =
    update-list_message first (second ∷ []) model (first-IsEntry, (second-IsEntry, tt))

first-ArePlain : ArePlain first
unfolding is_plain join_labels
first-ArePlain = (
  (refl, (refl, (refl, (refl, (refl, (refl, (refl, (refl, (refl, tt))))))))),
  (refl, (refl, (refl, (refl, (refl, (refl, (refl, tt))))))),
)

second-ArePlain : ArePlain second
unfolding is_plain join_labels
second-ArePlain =
    ((refl, (refl, (refl, (refl, (refl, (refl, (refl, (refl, (refl, tt))))))))), (refl, tt))

view-list_message_example :
    (p : Model × Command) × (update (list_casts (list_message [] (first ∷ second ∷ []))) model
      ≡ some p)
    × (view p.0 ≡ page (map choice (first ∷ second ∷ [])))
    × ((entry : Str × List Str)
        → (q : Model × Command) × (update (display_cast (quoted entry.0)) p.0 ≡ some q)
          × (q.1 ≡ play (quoted entry.0))
          × (view q.0 ≡ view p.0))
view-list_message_example =
    view-list_message first (second ∷ []) model (first-IsEntry, (second-IsEntry, tt))
      (first-ArePlain, (second-ArePlain, tt))

update-list_casts_example :
    (p : Model × Command) × (update (list_casts (codes "/d/1.cast")) model ≡ some p)
    × (((model.cast ≢ []) × (p.0.cast ≡ model.cast) × (p.1 ≡ no_command))
        ⊎ ((model.cast ≡ [])
            × (p.0.cast ≡ first_line (trim (codes "/d/1.cast")))
            × (p.1 ≡ play (first_line (trim (codes "/d/1.cast"))))))
update-list_casts_example = update-list_casts (codes "/d/1.cast") model

abbrev msgs : List Msg
msgs = list_casts (codes "/d/1.cast") ∷ on_location_change here ∷ []

run-played_example :
    (q : Model × List Command) × (run msgs model ≡ some q) × (played model.cast q.1 ≡ q.0.cast)
run-played_example = run-played msgs model

model_shows : model.cast ≢ []
model_shows = cc

run-stays_example :
    (q : Model × List Command) × (run msgs model ≡ some q)
    × (q.0.cast ≡ model.cast)
    × All (λ c. c ≡ no_command) q.1
run-stays_example = run-stays msgs model model_shows (tt, (tt, tt))

abbrev add_up : ℕ → ℕ → ℕ
add_up x sum = x + sum

abbrev operations : List (Op ℕ)
operations =
    push_op 15 ∷ set_op 2 7 ∷ map_op (λ n. n + 1) ∷ filter_op (λ n. n == 8) ∷ push_op 3 ∷ []

run_ops-Reads_example :
    (a : Array ℕ) × ((from_list numbers >>= run_ops operations) ≡ some a)
    × (to_list a ≡ list_ops operations numbers)
    × ((i : ℕ) → get i a ≡ some (get_elem? i (list_ops operations numbers)))
run_ops-Reads_example = run_ops-Reads operations numbers
