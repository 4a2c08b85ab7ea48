-- ===== src/Server/Labels.antt =====
-- cmd/server/main.go: the labels of a session, from the upload to the message of `listHandler`.
use kubecast.Common.{
  ℕ, ◌≡◌, refl, sym, ◌∙◌, ap, subst, true, false, Option, none, some, List, [], ◌∷◌, ◌++◌, map, All,
  ◌==◌, ◌<◌, ◌≤◌, length, ltb, arith, Bool-cases, inl, inr, append_assoc, append-nil,
}
use kubecast.Text.{Str, newline}
use kubecast.Text.Split.{IsLine}
use kubecast.Text.Lines.{unlines}
use kubecast.Server.{join_labels, list_message}
use kubecast.Server.Hash.{TtyWrite, is_label_char, sanitise, labels_of, labels_text}
use kubecast.Server.Store.{Table, Disk}
use kubecast.Server.Refine.{drop_return_line}
use kubecast.Server.Handler.{
  max_scan_token_size, split_lines, scan_tokens, scan_lines, keep_labels, find_labels, list_round,
}

labels_text-unlines :
    (acc : Str) (labels : List Str) → labels_text acc labels ≡ acc ++ unlines labels
unfolding labels_text
labels_text-unlines acc [] = sym (append-nil acc)
labels_text-unlines acc (l ∷ ls) =
    labels_text-unlines (acc ++ l ++ newline ∷ []) ls
    ∙ append_assoc (acc ++ l) (newline ∷ []) (unlines ls)
    ∙ append_assoc acc l (newline ∷ unlines ls)

split_lines-line :
    (l s : Str) → IsLine newline l → split_lines (l ++ newline ∷ s) ≡ l ∷ split_lines s
unfolding split_lines
split_lines-line [] s h = refl
split_lines-line (c ∷ l) s h = rw (h.0, split_lines-line l s h.1) refl

split_lines-unlines : (ls : List Str) → All (IsLine newline) ls → split_lines (unlines ls) ≡ ls
unfolding split_lines
split_lines-unlines [] h = refl
split_lines-unlines (l ∷ ls) h =
    split_lines-line l (unlines ls) h.0 ∙ ap (λ u. l ∷ u) (split_lines-unlines ls h.1)

-- A line that the scanner returns as it is.
abbrev IsToken : Str → Type 0
IsToken l = IsLine 13 l × (length l < max_scan_token_size)

scan_tokens-IsToken : (ls : List Str) → All IsToken ls → scan_tokens ls ≡ some ls
unfolding scan_tokens
scan_tokens-IsToken [] h = refl
scan_tokens-IsToken (l ∷ ls) h =
    rw (fits (length l) h.0.1, scan_tokens-IsToken ls h.1)
      (ap (λ x. some (x ∷ ls)) (drop_return_line l h.0.0))
  where
    fits : (n : ℕ) → n < max_scan_token_size → ltb n max_scan_token_size ≡ true
    fits n h = ground (arith, h)

is_label_char-newline : (c : ℕ) → is_label_char c ≡ true → (c == newline) ≡ false
unfolding is_label_char
is_label_char-newline c h = ground (arith, h)

sanitise-IsLine : (s : Str) → IsLine newline (sanitise s)
unfolding sanitise
sanitise-IsLine [] = tt
sanitise-IsLine (c ∷ cs) = elim (Bool-cases (is_label_char c)) [
  | inl e ↦ rw (e) (is_label_char-newline c e, sanitise-IsLine cs)
  | inr e ↦ rw (e) (sanitise-IsLine cs)
]

is_label_char-return : (c : ℕ) → is_label_char c ≡ true → (c == 13) ≡ false
unfolding is_label_char
is_label_char-return c h = ground (arith, h)

length-sanitise : (s : Str) → length (sanitise s) ≤ length s
unfolding sanitise
length-sanitise [] = omega arith
length-sanitise (c ∷ cs) = elim (Bool-cases (is_label_char c)) [
  | inl e ↦ rw e (omega (arith, length-sanitise cs))
  | inr e ↦ rw e (omega (arith, length-sanitise cs))
]

sanitise-IsToken : (s : Str) → length s < max_scan_token_size → IsToken (sanitise s)
unfolding sanitise
sanitise-IsToken s h = (no_return s, omega (arith, h, length-sanitise s))
  where
    no_return : (s : Str) → IsLine 13 (sanitise s)
    no_return [] = tt
    no_return (c ∷ cs) = elim (Bool-cases (is_label_char c)) [
      | inl e ↦ rw (e) (is_label_char-return c e, no_return cs)
      | inr e ↦ rw (e) (no_return cs)
    ]

-- The texts of which labels are made are shorter than a line may be, as Go's arrays of at most 253
-- bytes are.
abbrev pub HasNames : TtyWrite → Type 0
HasNames w =
    (length w.pod_namespace < max_scan_token_size)
    × (length w.pod_name < max_scan_token_size)
    × (length w.container_name < max_scan_token_size)
    × (length w.hostname < max_scan_token_size)

-- The labels that `uploadHandler` writes for a session are those that `listHandler` reads: the
-- pod's namespace and name, the container's name and the host's, each without the characters that
-- are no letter, digit or dash, whatever bytes the client sent in arrays that are shorter than 64
-- KiB.
pub scan_lines-labels_text :
    (w : TtyWrite) → HasNames w → scan_lines (labels_text [] (labels_of w)) ≡ some (labels_of w)
unfolding labels_of scan_lines
scan_lines-labels_text w n =
    ap scan_lines (labels_text-unlines [] (labels_of w))
    ∙ ap scan_tokens (
        split_lines-unlines (labels_of w) (
          sanitise-IsLine w.pod_namespace,
          (
            sanitise-IsLine w.pod_name,
            (sanitise-IsLine w.container_name, (sanitise-IsLine w.hostname, tt)),
          ),
        ))
    ∙ scan_tokens-IsToken (labels_of w) (
      sanitise-IsToken w.pod_namespace n.0,
      (
        sanitise-IsToken w.pod_name n.1,
        (sanitise-IsToken w.container_name n.2, (sanitise-IsToken w.hostname n.3, tt)),
      ),
    )

abbrev pub AgreesAt : Option (List Str) → Option Str → Type 0
AgreesAt none text = Unit
AgreesAt (some labels) none = ⊥
AgreesAt (some labels) (some text) = scan_lines text ≡ some labels

-- The labels that are kept are those of the files.
abbrev pub Agrees : Table (List Str) → Disk → Type 0
Agrees labels disk = (h : ℕ) → AgreesAt (labels h) (disk.labels h)

-- The labels in a file, and none without a file or with one that the scanner does not take.
abbrev pub labels_in : Option Str → List Str
labels_in none = []
labels_in (some text) = elim (scan_lines text) [ none ↦ [] | some labels ↦ labels ]

keep_labels-Agrees :
    (h : ℕ) (ls : List Str) (labels : Table (List Str)) (disk : Disk) (text : Str)
    → Agrees labels disk
    → disk.labels h ≡ some text
    → scan_lines text ≡ some ls
    → Agrees (keep_labels labels h ls) disk
keep_labels-Agrees h [] labels disk text a e g i = a i
keep_labels-Agrees h (l ∷ ls) labels disk text a e g i = elim (Bool-cases (i == h)) [
  | inl y ↦
      let here : i ≡ h = ground (arith, y) in
      rw y (subst (AgreesAt (some (l ∷ ls))) (sym (ap disk.labels here ∙ e)) g)
  | inr n ↦ rw n (a i)
]

find_labels-Agrees :
    (h : ℕ) (labels : Table (List Str)) (disk : Disk) (text : Str) (ls : List Str)
    (kept : Option (List Str))
    → labels h ≡ kept
    → AgreesAt kept (some text)
    → Agrees labels disk
    → disk.labels h ≡ some text
    → scan_lines text ≡ some ls
    → (labels' : Table (List Str)) × (find_labels h labels disk ≡ some (ls, labels'))
      × Agrees labels' disk
unfolding find_labels
find_labels-Agrees h labels disk text ls (some ls') ek k a e g =
    (labels, rw (ek, find_labels) (ap (λ xs. some (xs, labels)) (same_labels (sym k ∙ g))), a)
  where
    same_labels : {xs ys : List Str} → some xs ≡ some ys → xs ≡ ys
    same_labels e = cc
find_labels-Agrees h labels disk text ls none ek k a e g = (
  keep_labels labels h ls,
  rw (ek, e, g, find_labels) refl,
  keep_labels-Agrees h ls labels disk text a e g,
)

pub labels_in-scanned :
    (file : Option Str) (text : Str) (ls : List Str)
    → file ≡ some text
    → scan_lines text ≡ some ls
    → labels_in file ≡ ls
labels_in-scanned file text ls e s =
    ap labels_in e ∙ ap (λ r. elim r as (λ x. List Str) [ none ↦ [] | some labels ↦ labels ]) s

-- A file of labels is there, and the scanner takes it.
abbrev pub Scans : Option Str → Type 0
Scans file =
    (text : Str) × (labels : List Str) × (file ≡ some text) × (scan_lines text ≡ some labels)

-- A round of `listHandler` does not fail, if every listed session has its labels file, without a line
-- that is too long for the scanner, and the labels kept are those of the files: its message lists
-- each session with the labels in its file, whether they were kept or read, and the labels kept are
-- still those of the files.
pub list_round-list_message :
    (message : Str) (files : List (Str × ℕ)) (labels : Table (List Str)) (disk : Disk)
    → Agrees labels disk
    → All (λ f. Scans (disk.labels f.1)) files
    → (p : Str × Table (List Str)) × (list_round message files labels disk ≡ some p)
      × (p.0 ≡ list_message message (map (λ f. (f.0, labels_in (disk.labels f.1))) files))
      × Agrees p.1 disk
unfolding list_round list_message
list_round-list_message message [] labels disk a h = ((message, labels), refl, refl, a)
list_round-list_message message (f ∷ files) labels disk a h =
    let (text, ls, e, s) = h.0 in
    let (labels', e', a') =
      find_labels-Agrees f.1 labels disk text ls (labels f.1) refl
        (subst (AgreesAt (labels f.1)) e (a f.1)) a e s in
    let line = f.0 ++ newline ∷ [] ++ join_labels [] ls ++ newline ∷ [] in
    let (p, e'', g, b) = list_round-list_message (message ++ line) files labels' disk a' h.1 in
    (
      p,
      rw e' e'',
      g
          ∙ ap
              (λ ls'.
                list_message
                  (message ++ (f.0 ++ newline ∷ [] ++ join_labels [] ls' ++ newline ∷ []))
                  (map (λ f. (f.0, labels_in (disk.labels f.1))) files))
              (sym (labels_in-scanned (disk.labels f.1) text ls e s)),
      b,
    )
