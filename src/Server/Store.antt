-- ===== src/Server/Store.antt =====
-- The server's files, by the hash in their names: `<hash>.cast` and `<hash>.cast.labels`; and what
-- an open file of Go does when it is written. Every write of the model succeeds in full.
use kubecast.Common.{ℕ, ◌+◌, Option, some, ◌++◌, ◌==◌, if◌then◌else◌, length, take, drop}
use kubecast.Text.{Str}

abbrev pub Table : Type 0 → Type 0
Table V = ℕ → Option V

abbrev pub set : {V : Type 0} → Table V → ℕ → V → Table V
set table k v i = if i == k then some v else table i

pub record Disk : Type 0 where
  pub casts : Table Str
  pub labels : Table Str

-- A file opened to append, or at a position.
pub data Handle : Type 0 where
  appending : Handle
  at : ℕ → Handle

-- The handle and the content after a write.
unfoldable pub write : Handle → Str → Str → Handle × Str
write appending s content = (appending, content ++ s)
write (at n) s content = (at (n + length s), take n content ++ s ++ drop (n + length s) content)
