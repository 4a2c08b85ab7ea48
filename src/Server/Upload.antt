-- ===== src/Server/Upload.antt =====
-- cmd/server/main.go, `uploadHandler`, and pkg/asciinema: each write of a terminal is appended to
-- the file of its session. `none` is `glog.Fatal`, or the panic of a slice that is out of range.
use kubecast.Common.{
  ℕ, ◌/◌, Option, none, some, List, [], ◌∷◌, ◌==◌, ltb, if◌then◌else◌, length, take, ◌>>=◌, ◌≡◌,
}
use kubecast.Text.{Str, newline}
use kubecast.Text.Split.{IsLine}
use kubecast.Server.Hash.{TtyWrite, session_hash, labels_of, labels_text}
use kubecast.Server.Store.{Table, set, Disk, Handle, appending, at, write}

-- Go's `encoding/json` for a header of version 2, width 80 and height 32 with a timestamp, and for
-- an event: the time of the write in nanoseconds, the header's timestamp, and the text. The time
-- that is printed is a float, so this is a parameter.
pub record Json : Type 0 where
  pub marshal_header : ℕ → Str
  pub unmarshal_header : Str → Option ℕ
  pub marshal_entry : ℕ → ℕ → Str → Str
  -- A header is read back, and holds no newline and no carriage return.
  pub unmarshal-marshal : (t : ℕ) → unmarshal_header (marshal_header t) ≡ some t
  pub header_line : (t : ℕ) → IsLine newline (marshal_header t)
  pub header_no_return : (t : ℕ) → IsLine 13 (marshal_header t)

-- `strings.Replace`, of "\n" by "\r\n" and then of "\u000e" by "\u0000".
unfoldable pub crlf : Str → Str
crlf [] = []
crlf (c ∷ cs) = let rest = crlf cs in if c == 10 then 13 ∷ 10 ∷ rest else c ∷ rest

unfoldable pub no_shift_out : Str → Str
no_shift_out [] = []
no_shift_out (c ∷ cs) = let rest = no_shift_out cs in if c == 14 then 0 ∷ rest else c ∷ rest

-- `Buffer[0:Count]` panics past the end of the array.
unfoldable pub written : TtyWrite → Option Str
written w = if ltb (length w.buffer) w.count then none else some (take w.count w.buffer)

-- The first line, and the line as the scanner gives it, without a carriage return at its end.
abbrev pub first_line : Str → Str
first_line [] = []
first_line (c ∷ cs) = let rest = first_line cs in if c == newline then [] else c ∷ rest

abbrev pub drop_return : Str → Str
drop_return [] = []
drop_return (c ∷ []) = if c == 13 then [] else c ∷ []
drop_return (c ∷ d ∷ cs) = c ∷ drop_return (d ∷ cs)

unfoldable pub scan_line : Str → Str
scan_line s = drop_return (first_line s)

-- The maps of one handler.
pub record Local : Type 0 where
  pub files : Table Handle
  pub timestamps : Table ℕ

unfoldable pub new_local : Local
new_local = record { files = λ h. none; timestamps = λ h. none }

module _ (json : Json) where
  -- `asciinema.Init` at a new file: the handle, the content and the timestamp.
  unfoldable pub init_file : TtyWrite → Handle × Str × ℕ
  unfolding write
  init_file w =
      let timestamp = w.timestamp / 1000000000 in
      let (handle, content) = write (at 0) (json.marshal_header timestamp) [] in
      (handle, content, timestamp)

  -- `asciinema.Append`.
  unfoldable pub append_entry : TtyWrite → Handle → ℕ → Str → Option (Handle × Str)
  unfolding written crlf no_shift_out write
  append_entry w handle timestamp content = written w >>= λ text. some (
      write handle (newline ∷ json.marshal_entry w.timestamp timestamp (no_shift_out (crlf text)))
        content)

  -- The labels are written when their file is new.
  unfoldable pub write_labels : ℕ → TtyWrite → Disk → Disk
  unfolding labels_of labels_text
  write_labels h w disk = elim (disk.labels h) [
    | none ↦ record disk { labels = set disk.labels h (labels_text [] (labels_of w)) }
    | some labels ↦ disk
  ]

  -- The file of the session: open already, new, or there from before.
  unfoldable pub open_file : ℕ → TtyWrite → Local → Disk → Handle × Local × Disk
  unfolding init_file
  open_file h w local disk = elim (local.files h) [
    | some handle ↦ (handle, local, disk)
    | none ↦ elim (disk.casts h) [
      | none ↦
          let (handle, content, timestamp) = init_file w in
          (
            handle,
            record {
              files = set local.files h handle;
              timestamps = set local.timestamps h timestamp;
            },
            record disk { casts = set disk.casts h content },
          )
      | some content ↦ (appending, record local { files = set local.files h appending }, disk)
    ]
  ]

  -- The session's timestamp: known, or read from the header.
  unfoldable pub find_timestamp : ℕ → Local → Str → Option (ℕ × Local)
  unfolding scan_line
  find_timestamp h local content = elim (local.timestamps h) [
    | some timestamp ↦ some (timestamp, local)
    | none ↦ json.unmarshal_header (scan_line content) >>= λ timestamp.
        some (timestamp, record local { timestamps = set local.timestamps h timestamp })
  ]

  -- One round of the handler's loop.
  unfoldable pub upload_step : TtyWrite → Local → Disk → Option (Local × Disk)
  unfolding session_hash write_labels open_file find_timestamp append_entry
  upload_step w local disk =
      let h = session_hash w in
      let (handle, local', disk') = open_file h w local (write_labels h w disk) in
      disk'.casts h >>= λ content. find_timestamp h local' content >>= λ p.
      append_entry w handle p.0 content >>= λ q.
      some
        (record p.1 { files = set p.1.files h q.0 }, record disk' { casts = set disk'.casts h q.1 })

  -- The disk of a round when it comes to its append, if it does: what a panic there leaves.
  unfoldable pub before_append : TtyWrite → Local → Disk → Option Disk
  unfolding session_hash write_labels open_file find_timestamp
  before_append w local disk =
      let h = session_hash w in
      let (handle, local', disk') = open_file h w local (write_labels h w disk) in
      disk'.casts h >>= λ content. find_timestamp h local' content >>= λ p. some disk'

  unfoldable pub upload : List TtyWrite → Local → Disk → Option (Local × Disk)
  unfolding upload_step
  upload [] local disk = some (local, disk)
  upload (w ∷ ws) local disk = upload_step w local disk >>= λ p. upload ws p.0 p.1
