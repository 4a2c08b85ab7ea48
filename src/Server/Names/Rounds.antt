-- ===== src/Server/Names/Rounds.antt =====
-- cmd/server/main.go, `listHandler`: a round over the files that `uploadHandler` names.
use kubecast.Common.{
  ℕ, ◌^◌, ◌<◌, ◌≡◌, refl, ap, ◌∙◌, Option, some, List, [], ◌∷◌, ◌++◌, ◌>>=◌, All, map,
}
use kubecast.Text.{Str, newline}
use mathlib.Core.List.{map-map}
use kubecast.Server.{join_labels, list_message}
use kubecast.Server.Store.{Table, Disk}
use kubecast.Server.Handler.{find_labels, list_round}
use kubecast.Server.Labels.{Agrees, labels_in, Scans, list_round-list_message}
use kubecast.Server.Names.{cast_name, list_files}
use kubecast.Server.Names.Parsing.{parse_hash-cast_name}

list_files-list_round :
    (data_path message : Str) (hashes : List ℕ) (labels : Table (List Str)) (disk : Disk)
    → All (λ h. h < 2 ^ 32) hashes
    → list_files message (map (cast_name data_path) hashes) labels disk
      ≡ list_round message (map (λ h. (cast_name data_path h, h)) hashes) labels disk
unfolding list_files list_round
list_files-list_round data_path message [] labels disk l = refl
list_files-list_round data_path message (h ∷ hashes) labels disk l =
    rw (parse_hash-cast_name data_path h l.0) (
      ap
        (λ (k : List Str × Table (List Str) → Option (Str × Table (List Str))).
          find_labels h labels disk >>= k)
        (λ i p.
          list_files-list_round data_path
            (message
              ++ (cast_name data_path h ++ newline ∷ [] ++ join_labels [] p.0 ++ newline ∷ []))
            hashes p.1 disk l.1 i))

-- The session of a hash in the listing of a disk: its path and the labels in its file.
abbrev pub entry_at : Str → Disk → ℕ → Str × List Str
entry_at data_path disk h = (cast_name data_path h, labels_in (disk.labels h))

All-named :
    (data_path : Str) (hashes : List ℕ) (disk : Disk)
    → All (λ h. Scans (disk.labels h)) hashes
    → All (λ (f : Str × ℕ). Scans (disk.labels f.1)) (map (λ h. (cast_name data_path h, h)) hashes)
All-named data_path [] disk t = tt
All-named data_path (h ∷ hashes) disk t = (t.0, All-named data_path hashes disk t.1)

-- A round over the files that `uploadHandler` names lists their sessions, if each has a labels file
-- that the scanner takes, and the labels that are kept are those of the files, which they still are afterwards.
pub list_files-list_message :
    (data_path : Str) (hashes : List ℕ) (labels : Table (List Str)) (disk : Disk)
    → All (λ h. h < 2 ^ 32) hashes
    → Agrees labels disk
    → All (λ h. Scans (disk.labels h)) hashes
    → (p : Str × Table (List Str)) × (list_files [] (map (cast_name data_path) hashes) labels disk
        ≡ some p)
      × (p.0 ≡ list_message [] (map (entry_at data_path disk) hashes))
      × Agrees p.1 disk
list_files-list_message data_path hashes labels disk l a t =
    let (p, e, g, b) =
      list_round-list_message [] (map (λ h. (cast_name data_path h, h)) hashes) labels disk a
        (All-named data_path hashes disk t) in
    (
      p,
      list_files-list_round data_path [] hashes labels disk l ∙ e,
      g ∙ ap (list_message []) (map-map _ _ hashes),
      b,
    )
