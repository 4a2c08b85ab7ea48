-- ===== src/App/Options.antt =====
-- ui/dist/Main.js, `_dippynark$elm$Cast_View$…`: the choices that the page offers, from the server's
-- list message.
use kubecast.Common.{
  ℕ, ◌≡◌, refl, sym, ap, ap₂, ◌∙◌, true, false, Bool, ◌||◌, some, List, [], ◌∷◌, ◌++◌, ◌==◌, not,
  Bool-cases, inl, inr, if◌then◌else◌, drop, map, All,
}
use mathlib.Core.List.{reverse, reverse-append, reverse-reverse}
use kubecast.Text.{Str, codes}
use kubecast.Server.Opening.{==-eq}
use kubecast.Server.{list_message}
use kubecast.App.Listing.{IsEntry, label_text}
use kubecast.App.Model.{Model, Command, play, list_casts, display_cast}
use kubecast.App.Update.{update}
use kubecast.App.Selection.{update-list_message}
use kubecast.App.View.{
  replace, slashed, add_slashes, to_string, starts_with, ends_with, unsurround, unquote, Html,
  attribute, on_input, element, text, nodes, nil, map2, cast_option, view,
}

-- A character that `addSlashes` leaves.
unfoldable pub is_plain : ℕ → Bool
is_plain c = not (c == 92 || c == 10 || c == 9 || c == 13 || c == 11 || c == 0 || c == 34)

abbrev pub IsPlain : Str → Type 0
IsPlain s = All (λ c. is_plain c ≡ true) s

replace-plain : (c : ℕ) (by s : Str) → All (λ d. (d == c) ≡ false) s → replace c by s ≡ s
unfolding replace
replace-plain c by [] h = refl
replace-plain c by (d ∷ s) h = rw h.0 (ap (λ t. d ∷ t) (replace-plain c by s h.1))

other : (d c : ℕ) → is_plain c ≡ false → is_plain d ≡ true → (d == c) ≡ false
other d c n p = elim (Bool-cases (d == c)) [
  | inl y ↦ let clash : true ≡ false = sym p ∙ ap is_plain (sym (==-eq d c y)) ∙ n in cc
  | inr e ↦ e
]

-- Plain characters are none of those.
pub IsPlain-none :
    (c : ℕ) (s : Str) → is_plain c ≡ false → IsPlain s → All (λ d. (d == c) ≡ false) s
IsPlain-none c [] n h = tt
IsPlain-none c (d ∷ s) n h = (other d c n h.0, IsPlain-none c s n h.1)

add_slashes-plain : (s : Str) → IsPlain s → add_slashes s ≡ s
unfolding add_slashes is_plain
add_slashes-plain s h =
    rw
      (
        replace-plain 92 (slashed 92) s (IsPlain-none 92 s refl h),
        replace-plain 10 (slashed 110) s (IsPlain-none 10 s refl h),
        replace-plain 9 (slashed 116) s (IsPlain-none 9 s refl h),
        replace-plain 13 (slashed 114) s (IsPlain-none 13 s refl h),
        replace-plain 11 (slashed 118) s (IsPlain-none 11 s refl h),
        replace-plain 0 (slashed 48) s (IsPlain-none 0 s refl h),
        replace-plain 34 (slashed 34) s (IsPlain-none 34 s refl h),
      )
      refl

if_true : {b : Bool} (x y : Str) → b ≡ true → (if b then x else y) ≡ x
if_true x y e = rw e

ends_quote : (x : Str) → ends_with (34 ∷ []) (34 ∷ (x ++ 34 ∷ [])) ≡ true
unfolding ends_with
ends_quote x = ap (starts_with (34 ∷ [])) (reverse-append (34 ∷ x) (34 ∷ []))

drop_quote : (x : Str) → reverse (drop 1 (reverse (x ++ 34 ∷ []))) ≡ x
drop_quote x = ap (λ r. reverse (drop 1 r)) (reverse-append x (34 ∷ [])) ∙ reverse-reverse x

-- `unquote` takes away what `toString` put around.
unquote-to_string : (s : Str) → unquote (to_string s) ≡ add_slashes s
unfolding unquote unsurround to_string starts_with
unquote-to_string s = if_true _ _ (ends_quote (add_slashes s)) ∙ drop_quote (add_slashes s)

abbrev pub quoted : Str → Str
quoted s = 34 ∷ (s ++ 34 ∷ [])

to_string-plain : (s : Str) → IsPlain s → to_string s ≡ quoted s
unfolding to_string
to_string-plain s h = ap quoted (add_slashes-plain s h)

-- The choice for a session: its value is the path in quotes, and it shows the labels.
abbrev pub choice : Str × List Str → Html
choice entry =
    element (codes "option") (attribute (codes "value") (quoted entry.0) ∷ [])
      (nodes (text (label_text entry) ∷ []))

cast_option-plain :
    (entry : Str × List Str)
    → IsPlain entry.0
    → IsPlain (label_text entry)
    → cast_option entry.0 (label_text entry) ≡ choice entry
unfolding cast_option
cast_option-plain entry h k =
    ap₂
      (λ value shown.
        element (codes "option") (attribute (codes "value") value ∷ []) (nodes (text shown ∷ [])))
      (to_string-plain entry.0 h)
      (unquote-to_string (label_text entry) ∙ add_slashes-plain (label_text entry) k)

-- The page with some choices.
abbrev pub page : List Html → Html
page options = element (codes "div") (attribute (codes "class") (codes "container") ∷ []) (
    nodes (
      element (codes "div") (attribute (codes "class") (codes "row") ∷ []) (
        nodes (
          element (codes "h2") (attribute (codes "class") (codes "text-center") ∷ [])
            (nodes (text (codes "Terminal Sessions") ∷ []))
          ∷ element (codes "select") (on_input display_cast ∷ []) (nodes options)
          ∷ []))
      ∷ element (codes "div") (attribute (codes "class") (codes "row") ∷ []) (
          nodes (
            element (codes "div")
              (attribute (codes "id") (codes "asciinema-player-container")
                ∷ attribute (codes "class") (codes "container")
                ∷ [])
              nil
            ∷ []))
      ∷ []))

view-page : (model : Model) → view model ≡ page (map2 cast_option model.casts model.labels)
unfolding view
view-page model = refl

abbrev pub ArePlain : Str × List Str → Type 0
ArePlain entry = IsPlain entry.0 × IsPlain (label_text entry)

map2-choices :
    (es : List (Str × List Str))
    → All ArePlain es
    → map2 cast_option (map (λ x. x.0) es) (map label_text es) ≡ map choice es
unfolding map2
map2-choices [] h = refl
map2-choices (e ∷ es) h =
    ap₂ (λ x xs. x ∷ xs) (cast_option-plain e h.0.0 h.0.1) (map2-choices es h.1)

-- What the page shows of a message of the server: after a list message of at least one session, with
-- paths and labels as the page can take them apart and with no character that is escaped, the page
-- has a choice for each session, in the server's order, which shows its labels and has its path, in
-- quotes, for its value; and when the user takes a choice, the page plays its value and keeps the
-- lists.
pub view-list_message :
    (e : Str × List Str) (es : List (Str × List Str)) (model : Model)
    → All IsEntry (e ∷ es)
    → All ArePlain (e ∷ es)
    → (p : Model × Command) × (update (list_casts (list_message [] (e ∷ es))) model ≡ some p)
      × (view p.0 ≡ page (map choice (e ∷ es)))
      × ((entry : Str × List Str)
          → (q : Model × Command) × (update (display_cast (quoted entry.0)) p.0 ≡ some q)
            × (q.1 ≡ play (quoted entry.0))
            × (view q.0 ≡ view p.0))
unfolding update view
view-list_message e es model h k =
    let (p, eq, casts, labels, location) = update-list_message e es model h in
    (
      p,
      eq,
      view-page p.0 ∙ ap page (ap₂ (map2 cast_option) casts labels ∙ map2-choices (e ∷ es) k),
      λ entry. ((record p.0 { cast = quoted entry.0 }, play (quoted entry.0)), refl, refl, refl),
    )
