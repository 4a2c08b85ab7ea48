-- ===== src/Server/Handler.antt =====
-- cmd/server/main.go, `listHandler`: one round of its loop, with the labels that it keeps. The files
-- come as `filepath.Glob` gives them, each with the hash that its name is parsed to. `none` is
-- `glog.Fatal`.
use kubecast.Common.{
  ℕ, Option, none, some, List, [], ◌∷◌, ◌++◌, ◌==◌, if◌then◌else◌, ◌>>=◌, ltb, length,
}
use kubecast.Text.{Str, newline}
use kubecast.Server.{join_labels}
use kubecast.Server.Store.{Table, set, Disk}
use kubecast.Server.Upload.{drop_return}

-- The first line and the other lines of a text, where there is a line.
abbrev pub push_line : ℕ → List Str → List Str
push_line c [] = (c ∷ []) ∷ []
push_line c (l ∷ ls) = (c ∷ l) ∷ ls

-- The lines of a text; nothing stands after a newline at the end.
unfoldable pub split_lines : Str → List Str
split_lines [] = []
split_lines (c ∷ cs) =
    let rest = split_lines cs in if c == newline then [] ∷ rest else push_line c rest

-- `bufio.MaxScanTokenSize`: a line must be shorter, for its newline has to fit the buffer too.
abbrev pub max_scan_token_size : ℕ
max_scan_token_size = 65536

-- A carriage return at the end of a line is dropped. `none` is `scanner.Err`, after a line that is too
-- long.
unfoldable pub scan_tokens : List Str → Option (List Str)
scan_tokens [] = some []
scan_tokens (line ∷ rest) =
    let tokens = scan_tokens rest in
    if ltb (length line) max_scan_token_size
    then (tokens >>= λ ls. some (drop_return line ∷ ls))
    else none

-- `scanner.Scan` over a file, until its end or an error.
unfoldable pub scan_lines : Str → Option (List Str)
unfolding split_lines scan_tokens
scan_lines text = scan_tokens (split_lines text)

-- `labels[hash] = append(labels[hash], …)` for each line: with no line there is no entry.
abbrev pub keep_labels : Table (List Str) → ℕ → List Str → Table (List Str)
keep_labels labels hash [] = labels
keep_labels labels hash (l ∷ ls) = set labels hash (l ∷ ls)

-- The labels of one file, kept or read.
unfoldable pub find_labels : ℕ → Table (List Str) → Disk → Option (List Str × Table (List Str))
unfolding scan_lines
find_labels hash labels disk = elim (labels hash) [
  | some labels_array ↦ some (labels_array, labels)
  | none ↦ disk.labels hash >>= λ text.
      scan_lines text >>= λ labels_array. some (labels_array, keep_labels labels hash labels_array)
]

-- The loop over the files: the message so far, and the labels kept.
unfoldable pub list_round :
    Str → List (Str × ℕ) → Table (List Str) → Disk → Option (Str × Table (List Str))
unfolding find_labels join_labels
list_round message [] labels disk = some (message, labels)
list_round message ((file, hash) ∷ files) labels disk = find_labels hash labels disk >>= λ p.
    list_round (message ++ (file ++ newline ∷ [] ++ join_labels [] p.0 ++ newline ∷ [])) files p.1
      disk
