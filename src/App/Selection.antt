-- ===== src/App/Selection.antt =====
-- ui/dist/Main.js, `_dippynark$elm$Cast_Update$…`: what `update` makes of a message, and of a run
-- of messages.
use kubecast.Common.{
  ℕ, Option, none, some, List, [], ◌∷◌, All, ◌≡◌, ◌≢◌, ◌⊎◌, inl, inr, refl, ap, ◌∙◌, sym, map,
  subst, if◌then◌else◌, get_elem?, ◌==◌, Bool-cases, Option-cases, arith, ◌>>=◌,
}
use kubecast.Text.{Str, newline, str_eq, split, trim, push_head}
use kubecast.Text.Split.{str_eq-cases, str_eq_ne}
use kubecast.Server.{list_message}
use kubecast.App.Helpers.{odd_elements, even_elements}
use kubecast.App.Riffle.{get_elem-elements}
use kubecast.App.Model.{
  Model, Msg, display_cast, list_casts, on_location_change, Command, no_command, play,
}
use kubecast.App.Update.{set_cast_if_empty, update}
use kubecast.Array.Laws.{get-from_list}
use kubecast.App.Listing.{
  IsEntry, label_text, split-trim-list_message, odd_elements-lines_of, even_elements-lines_of,
}

-- The text up to the first newline.
abbrev pub first_line : Str → Str
first_line [] = []
first_line (c ∷ cs) = if c == newline then [] else c ∷ first_line cs

push_head-first :
    (c : ℕ) (parts : List Str) (s : Str)
    → get_elem? 0 parts ≡ some s
    → get_elem? 0 (push_head c parts) ≡ some (c ∷ s)
push_head-first c [] s h = absurd (cc)
push_head-first c (l ∷ ls) s h = ground (arith, h)

first_line-split : (s : Str) → get_elem? 0 (split newline s) ≡ some (first_line s)
unfolding split
first_line-split [] = refl
first_line-split (c ∷ cs) = elim (Bool-cases (c == newline)) [
  | inl e ↦ rw e refl
  | inr e ↦ rw e (push_head-first c (split newline cs) (first_line cs) (first_line-split cs))
]

-- What the player plays: a command may change it.
abbrev pub play_one : Str → Command → Str
play_one cast no_command = cast
play_one cast (play path) = path

abbrev pub played : Str → List Command → Str
played cast [] = cast
played cast (command ∷ commands) = played (play_one cast command) commands

-- A message that is no choice of the user.
abbrev pub IsPassive : Msg → Type 0
IsPassive (display_cast cast) = ⊥
IsPassive (list_casts text) = Unit
IsPassive (on_location_change location) = Unit

-- The session on display after a listing, with the command.
abbrev chosen : Str → List Str → Str × Command
chosen cast casts =
    if str_eq cast []
    then elim (get_elem? 0 casts) [ some first ↦ (first, play first) | none ↦ ([], no_command) ]
    else (cast, no_command)

set_cast_if_empty-chosen :
    (cast : Str) (casts : List Str) → set_cast_if_empty cast casts ≡ some (chosen cast casts)
unfolding set_cast_if_empty
set_cast_if_empty-chosen cast casts =
    let (array, e, g) = get-from_list Str 0 casts in
    elim (Bool-cases (str_eq cast [])) [
      | inr f ↦ rw f refl
      | inl t ↦ elim (Option-cases (get_elem? 0 casts)) [
        | inl n ↦ rw (t, e, g, n) refl
        | inr f ↦ rw (t, e, g, f.1) refl
      ]
    ]

-- The model after a list message, and the command.
abbrev listed : Str → Model → Model × Command
listed text model =
    let casts = odd_elements (split newline (trim text)) in
    (
      record model {
        cast = (chosen model.cast casts).0;
        casts = casts;
        labels = even_elements (split newline (trim text));
      },
      (chosen model.cast casts).1,
    )

update-listed :
    (text : Str) (model : Model) → update (list_casts text) model ≡ some (listed text model)
unfolding update
update-listed text model =
    rw (set_cast_if_empty-chosen model.cast (odd_elements (split newline (trim text)))) refl

chosen-keeps : (cast : Str) (casts : List Str) → cast ≢ [] → chosen cast casts ≡ (cast, no_command)
chosen-keeps cast casts h = rw (str_eq_ne cast [] h) refl

chosen-first :
    (casts : List Str) (first : Str)
    → get_elem? 0 casts ≡ some first
    → chosen [] casts ≡ (first, play first)
unfolding str_eq
chosen-first casts first h = rw h refl

play_one-chosen :
    (cast : Str) (casts : List Str) → play_one cast (chosen cast casts).1 ≡ (chosen cast casts).0
play_one-chosen cast casts = elim (str_eq-cases cast []) [
  | inr e ↦ rw e.1 refl
  | inl e ↦ elim (Option-cases (get_elem? 0 casts)) [
    | inl n ↦ rw (e.1, n) e.0
    | inr s ↦ rw (e.1, s.1) refl
  ]
]

-- The page takes the server's list message apart again: for at least one session, with paths that
-- do not begin with white space, at least one label each, and no newline in them, the page's casts
-- are the paths and its labels the joined labels of each, in the server's order, and the location
-- stays.
pub update-list_message :
    (e : Str × List Str) (es : List (Str × List Str)) (model : Model)
    → All IsEntry (e ∷ es)
    → (p : Model × Command) × (update (list_casts (list_message [] (e ∷ es))) model ≡ some p)
      × (p.0.casts ≡ map (λ x. x.0) (e ∷ es))
      × (p.0.labels ≡ map label_text (e ∷ es))
      × (p.0.location ≡ model.location)
update-list_message e es model h =
    let parts = split-trim-list_message e es h in
    (
      listed (list_message [] (e ∷ es)) model,
      update-listed (list_message [] (e ∷ es)) model,
      ap odd_elements parts ∙ odd_elements-lines_of (e ∷ es),
      ap even_elements parts ∙ even_elements-lines_of (e ∷ es),
      refl,
    )

-- A list message, whatever its text: a session on display stays there and nothing is played; with
-- none on display, the first line of the trimmed text is displayed and played, also when that line
-- is empty because the server has no session.
pub update-list_casts :
    (text : Str) (model : Model)
    → (p : Model × Command) × (update (list_casts text) model ≡ some p)
      × (((model.cast ≢ []) × (p.0.cast ≡ model.cast) × (p.1 ≡ no_command))
          ⊎ ((model.cast ≡ [])
              × (p.0.cast ≡ first_line (trim text))
              × (p.1 ≡ play (first_line (trim text)))))
update-list_casts text model = (
  listed text model,
  update-listed text model,
  elim (str_eq-cases model.cast []) [
    | inr (n, f) ↦
        let e = chosen-keeps model.cast (odd_elements (split newline (trim text))) n in
        inl (n, ap (λ p. p.0) e, ap (λ p. p.1) e)
    | inl (e, t) ↦
        let first =
          (get_elem-elements 0 (split newline (trim text))).0 ∙ first_line-split (trim text) in
        let s =
          ap (λ c. chosen c (odd_elements (split newline (trim text)))) e
          ∙ chosen-first (odd_elements (split newline (trim text))) (first_line (trim text))
              first in
        inr (e, ap (λ p. p.0) s, ap (λ p. p.1) s)
  ],
)

-- The page's loop: each message goes through `update`; its commands are carried out in order.
abbrev pub run : List Msg → Model → Option (Model × List Command)
run [] model = some (model, [])
run (msg ∷ msgs) model = update msg model >>= λ p. run msgs p.0 >>= λ q. some (q.0, p.1 ∷ q.1)

update-play_one :
    (msg : Msg) (model : Model)
    → (p : Model × Command) × (update msg model ≡ some p) × (play_one model.cast p.1 ≡ p.0.cast)
unfolding update
update-play_one (display_cast cast) model = (_, refl, refl)
update-play_one (on_location_change location) model = (_, refl, refl)
update-play_one (list_casts text) model = (
  listed text model,
  update-listed text model,
  play_one-chosen model.cast (odd_elements (split newline (trim text))),
)

-- A run of messages does not crash, and after it the page shows the session that the player was
-- last told to play, or the one it showed before when it was told nothing.
pub run-played :
    (msgs : List Msg) (model : Model)
    → (q : Model × List Command) × (run msgs model ≡ some q) × (played model.cast q.1 ≡ q.0.cast)
run-played [] model = ((model, []), refl, refl)
run-played (msg ∷ msgs) model =
    let (p, e, c) = update-play_one msg model in
    let (q, e', c') = run-played msgs p.0 in
    ((q.0, p.1 ∷ q.1), rw (e, e') refl, ap (λ cast. played cast q.1) c ∙ c')

update-passive :
    (msg : Msg) (model : Model)
    → model.cast ≢ []
    → IsPassive msg
    → (p : Model × Command) × (update msg model ≡ some p)
      × (p.0.cast ≡ model.cast)
      × (p.1 ≡ no_command)
unfolding update
update-passive (display_cast cast) model h s = absurd s
update-passive (on_location_change location) model h s = (_, refl, refl, refl)
update-passive (list_casts text) model h s =
    let e = chosen-keeps model.cast (odd_elements (split newline (trim text))) h in
    (listed text model, update-listed text model, ap (λ p. p.0) e, ap (λ p. p.1) e)

-- Once a session is on display, a run of messages without a choice of the user (`display_cast`)
-- does not crash, leaves it there, and plays nothing.
pub run-stays :
    (msgs : List Msg) (model : Model)
    → model.cast ≢ []
    → All IsPassive msgs
    → (q : Model × List Command) × (run msgs model ≡ some q)
      × (q.0.cast ≡ model.cast)
      × All (λ c. c ≡ no_command) q.1
run-stays [] model h hs = ((model, []), refl, refl, tt)
run-stays (msg ∷ msgs) model h hs =
    let (p, e, c, n) = update-passive msg model h hs.0 in
    let (q, e', c', n') = run-stays msgs p.0 (subst (λ s. s ≢ []) (sym c) h) hs.1 in
    ((q.0, p.1 ∷ q.1), rw (e, e') refl, c' ∙ c, (n, n'))
