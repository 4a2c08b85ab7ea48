-- ===== src/App/Served.antt =====
-- From the server's disk to the page: what the page shows of a message of `listHandler` (cmd/server/
-- main.go) about sessions that `uploadHandler` made.
use kubecast.Common.{
  ℕ, ◌+◌, ◌^◌, ◌<◌, ◌/◌, ◌%◌, zero, suc, ◌≡◌, refl, sym, ap, ◌∙◌, arith, true, some, List, [], ◌∷◌,
  ◌++◌, ltb, Bool-cases, inl, inr, map, subst, All, All-append,
}
use mathlib.Core.List.{map-map}
use kubecast.Text.{Str, codes, newline, is_space}
use kubecast.Text.Split.{IsLine}
use kubecast.Server.{join_labels}
use kubecast.Server.Hash.{TtyWrite, decimal, is_label_char, sanitise, labels_of, labels_text}
use kubecast.Server.Store.{Table, Disk}
use kubecast.Server.Labels.{
  Agrees, labels_in, labels_in-scanned, Scans, HasNames, scan_lines-labels_text,
}
use kubecast.Server.Names.{cast_name, list_files}
use kubecast.Server.Names.Rounds.{entry_at, list_files-list_message}
use kubecast.App.Listing.{IsEntry}
use kubecast.App.Model.{Model, Command, list_casts}
use kubecast.App.Update.{update}
use kubecast.App.View.{view}
use kubecast.App.Options.{
  is_plain, IsPlain, IsPlain-none, ArePlain, page, choice, view-list_message,
}

label_char-plain : (c : ℕ) → is_label_char c ≡ true → is_plain c ≡ true
unfolding is_label_char is_plain
label_char-plain c h = ground (arith, h)

sanitise-IsPlain : (s : Str) → IsPlain (sanitise s)
unfolding sanitise
sanitise-IsPlain [] = tt
sanitise-IsPlain (c ∷ cs) = elim (Bool-cases (is_label_char c)) [
  | inl e ↦ rw e (label_char-plain c e, sanitise-IsPlain cs)
  | inr e ↦ rw e (sanitise-IsPlain cs)
]

join_labels-IsPlain :
    (acc : Str) (labels : List Str)
    → IsPlain acc
    → All IsPlain labels
    → IsPlain (join_labels acc labels)
unfolding join_labels is_plain
join_labels-IsPlain acc [] h hs = h
join_labels-IsPlain acc (l ∷ ls) h hs =
    join_labels-IsPlain (acc ++ l ++ codes ".") ls
      (All-append _ (acc ++ l) (codes ".") (All-append _ acc l h hs.0) (dot, tt)) hs.1
  where
    dot : is_plain 46 ≡ true
    dot = refl

digit-plain : (d : ℕ) → d < 10 → is_plain (48 + d) ≡ true
unfolding is_plain
digit-plain d h = ground (arith, h)

decimal-IsPlain : (fuel n : ℕ) → IsPlain (decimal fuel n)
unfolding decimal
decimal-IsPlain zero n = tt
decimal-IsPlain (suc fuel) n = elim (Bool-cases (ltb n 10)) [
  | inl small ↦ rw small (digit-plain n (ground (arith, small)), tt)
  | inr large ↦ rw large (
      All-append _ (decimal fuel (n / 10)) _ (decimal-IsPlain fuel (n / 10))
        (digit-plain (n % 10) (omega arith), tt))
]

cast-IsPlain : IsPlain (codes ".cast")
unfolding is_plain
cast-IsPlain = (refl, (refl, (refl, (refl, (refl, tt)))))

cast_name-IsPlain : (data_path : Str) (h : ℕ) → IsPlain data_path → IsPlain (cast_name data_path h)
unfolding cast_name is_plain
cast_name-IsPlain data_path h p =
    All-append _ data_path _ p
      (slash, All-append _ (decimal 20 h) (codes ".cast") (decimal-IsPlain 20 h) cast-IsPlain)
  where
    slash : is_plain 47 ≡ true
    slash = refl

labels_of-IsPlain : (w : TtyWrite) → All IsPlain (labels_of w)
unfolding labels_of
labels_of-IsPlain w = (
  sanitise-IsPlain w.pod_namespace,
  (
    sanitise-IsPlain w.pod_name,
    (sanitise-IsPlain w.container_name, (sanitise-IsPlain w.hostname, tt)),
  ),
)

-- Plain characters are no newline.
All-IsLine : (ls : List Str) → All IsPlain ls → All (IsLine newline) ls
unfolding is_plain
All-IsLine [] h = tt
All-IsLine (l ∷ ls) h = (IsPlain-newline l h.0, All-IsLine ls h.1)
  where
    IsPlain-newline : (s : Str) → IsPlain s → IsLine newline s
    IsPlain-newline s h = IsPlain-none 10 s refl h

-- The labels file of a session holds what `uploadHandler` writes there for a write with arrays of Go's
-- sizes.
abbrev pub Labelled : Disk → ℕ → Type 0
Labelled disk h =
    (w : TtyWrite) × (disk.labels h ≡ some (labels_text [] (labels_of w))) × HasNames w

labels_in-labels_of :
    (disk : Disk) (h : ℕ) (l : Labelled disk h) → labels_in (disk.labels h) ≡ labels_of l.0
labels_in-labels_of disk h l =
    labels_in-scanned (disk.labels h) _ _ l.1 (scan_lines-labels_text l.0 l.2)

cast_name-IsEntry :
    (path : Str) (h : ℕ) (w : TtyWrite)
    → IsPlain path
    → IsEntry (cast_name (47 ∷ path) h, labels_of w)
unfolding cast_name labels_of is_space is_plain
cast_name-IsEntry path h w p = record {
  first = 47;
  rest = path ++ 47 ∷ (decimal 20 h ++ codes ".cast");
  no_space = refl;
  path = refl;
  path_line =
      (All-IsLine (cast_name (47 ∷ path) h ∷ []) (cast_name-IsPlain (47 ∷ path) h (refl, p), tt)).0;
  label = sanitise w.pod_namespace;
  labels = _;
  some_label = refl;
  label_lines = All-IsLine (labels_of w) (labels_of-IsPlain w);
}

cast_name-ArePlain :
    (path : Str) (h : ℕ) (w : TtyWrite)
    → IsPlain path
    → ArePlain (cast_name (47 ∷ path) h, labels_of w)
unfolding is_plain
cast_name-ArePlain path h w p = (
  cast_name-IsPlain (47 ∷ path) h (refl, p),
  join_labels-IsPlain [] (labels_of w) tt (labels_of-IsPlain w),
)

All-entry_at :
    (P : Str × List Str → Type 0) (path : Str) (disk : Disk) (hashes : List ℕ)
    → ((h : ℕ) (w : TtyWrite) → P (cast_name path h, labels_of w))
    → All (Labelled disk) hashes
    → All P (map (entry_at path disk) hashes)
All-entry_at P path disk [] f l = tt
All-entry_at P path disk (h ∷ hashes) f l = (
  subst (λ ls. P (cast_name path h, ls)) (sym (labels_in-labels_of disk h l.0)) (f h l.0.0),
  All-entry_at P path disk hashes f l.1,
)

with_texts :
    (disk : Disk) (hashes : List ℕ)
    → All (Labelled disk) hashes
    → All (λ h. Scans (disk.labels h)) hashes
with_texts disk [] l = tt
with_texts disk (h ∷ hashes) l =
    ((_, _, l.0.1, scan_lines-labels_text l.0.0 l.0.2), with_texts disk hashes l.1)

-- What the page shows of the server's disk: for at least one session, under an absolute data path
-- with no character that is escaped, each with the labels file that `uploadHandler` writes for
-- names shorter than 64 KiB, and for kept labels that are those of the files, a round of `listHandler` over the names of the sessions'
-- files does not fail, and the page that receives its message has a choice for each session, in the
-- order of the files, which has the path of the session's file, in quotes, for its value and shows
-- the labels in the session's labels file.
pub view-list_files :
    (path : Str) (h : ℕ) (hashes : List ℕ) (labels : Table (List Str)) (disk : Disk) (model : Model)
    → IsPlain path
    → All (λ h. h < 2 ^ 32) (h ∷ hashes)
    → All (Labelled disk) (h ∷ hashes)
    → Agrees labels disk
    → (p : Str × Table (List Str)) × (q : Model × Command) × (list_files []
          (map (cast_name (47 ∷ path)) (h ∷ hashes))
          labels
          disk
        ≡ some p)
      × (update (list_casts p.0) model ≡ some q)
      × (view q.0 ≡ page (map (λ h. choice (entry_at (47 ∷ path) disk h)) (h ∷ hashes)))
view-list_files path h hashes labels disk model plain small labelled agrees =
    let (p, e, text, kept) =
      list_files-list_message (47 ∷ path) (h ∷ hashes) labels disk small agrees
        (with_texts disk (h ∷ hashes) labelled) in
    let (q, g, shown, taken) =
      view-list_message (entry_at (47 ∷ path) disk h) (map (entry_at (47 ∷ path) disk) hashes) model
        (All-entry_at IsEntry (47 ∷ path) disk (h ∷ hashes)
          (λ h w. cast_name-IsEntry path h w plain) labelled)
        (All-entry_at ArePlain (47 ∷ path) disk (h ∷ hashes)
          (λ h w. cast_name-ArePlain path h w plain) labelled) in
    (
      p,
      q,
      e,
      ap (λ t. update (list_casts t) model) text ∙ g,
      shown ∙ ap page (map-map choice (entry_at (47 ∷ path) disk) (h ∷ hashes)),
    )
