-- ===== src/Server/Hash.antt =====
-- cmd/server/main.go: the key of a session and its hash, the labels, and pkg/server/tty.go.
use kubecast.Common.{
  ℕ, zero, suc, ◌+◌, ◌*◌, ◌/◌, ◌%◌, ◌^◌, List, [], ◌∷◌, ◌++◌, Bool, ◌&&◌, ◌||◌, not, ltb, ◌==◌,
  if◌then◌else◌, map,
}
use kubecast.Text.{Str, newline}
use Prim.Native.Nat.{bit_xor}

-- What the client sends for one write to a terminal, with its arrays as lists of bytes.
pub record TtyWrite : Type 0 where
  pub count : ℕ
  pub buffer : Str
  pub timestamp : ℕ
  pub inode : ℕ
  pub mount_namespace_inum : ℕ
  pub hostname : Str
  pub container_name : Str
  pub pod_name : Str
  pub pod_namespace : Str
  pub pod_uid : Str

-- `%d` of a number: its decimal digits, on fuel; a uint64 has at most 20.
unfoldable pub decimal : ℕ → ℕ → Str
decimal zero n = []
decimal (suc fuel) n =
    let rest = decimal fuel (n / 10) in
    if ltb n 10 then (48 + n) ∷ [] else rest ++ (48 + n % 10) ∷ []

-- The 32-bit FNV-1a hash that Go's `hash/fnv` computes.
unfoldable pub fnv : ℕ → Str → ℕ
fnv h [] = h
fnv h (c ∷ cs) = fnv (bit_xor h c * 16777619 % 2 ^ 32) cs

unfoldable pub hash : Str → ℕ
unfolding fnv
hash s = fnv 2166136261 s

unfoldable pub session_key : TtyWrite → Str
unfolding decimal
session_key w = w.hostname ++ decimal 20 w.inode ++ decimal 20 w.mount_namespace_inum

unfoldable pub session_hash : TtyWrite → ℕ
unfolding hash session_key
session_hash w = hash (session_key w)

-- The characters that the regular expression `[^a-zA-Z0-9-]+` leaves.
unfoldable pub is_label_char : ℕ → Bool
is_label_char c =
    (not (ltb c 97) && ltb c 123)
    || (not (ltb c 65) && ltb c 91)
    || (not (ltb c 48) && ltb c 58)
    || c == 45

unfoldable pub sanitise : Str → Str
unfolding is_label_char
sanitise [] = []
sanitise (c ∷ cs) = let rest = sanitise cs in if is_label_char c then c ∷ rest else rest

unfoldable pub labels_of : TtyWrite → List Str
unfolding sanitise
labels_of w = map sanitise (w.pod_namespace ∷ w.pod_name ∷ w.container_name ∷ w.hostname ∷ [])

-- The loop that joins the labels for the file.
unfoldable pub labels_text : Str → List Str → Str
labels_text labels_string [] = labels_string
labels_text labels_string (label ∷ labels) =
    labels_text (labels_string ++ label ++ newline ∷ []) labels
