-- ===== src/Server.antt =====
-- cmd/server/main.go, `listHandler`: the message that lists the sessions, one line for the path of
-- a session and one for its labels.
pub mod Store
pub mod Hash
pub mod Upload
pub mod Refine
pub mod Opening
pub mod Sessions
pub mod Handler
pub mod Labels
pub mod Overlap
pub mod Names
pub mod Wire
pub mod Appending
pub mod Interleaved
use kubecast.Common.{List, [], ◌∷◌, ◌++◌}
use kubecast.Text.{Str, newline, codes}

-- The loop over `labelsArray`.
unfoldable pub join_labels : Str → List Str → Str
join_labels labels_string [] = labels_string
join_labels labels_string (label ∷ labels_array) =
    join_labels (labels_string ++ label ++ codes ".") labels_array

-- The loop over `files`, each with the labels that the handler has for it.
unfoldable pub list_message : Str → List (Str × List Str) → Str
unfolding join_labels
list_message message [] = message
list_message message ((file, labels) ∷ files) =
    list_message (message ++ (file ++ newline ∷ [] ++ join_labels [] labels ++ newline ∷ [])) files
