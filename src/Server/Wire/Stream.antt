-- ===== src/Server/Wire/Stream.antt =====
-- cmd/server/main.go, `uploadHandler` on the bytes of a connection: it reads records until the stream
-- ends, and handles each.
use kubecast.Common.{
  ℕ, zero, suc, ◌≤◌, ◌<◌, ◌≡◌, ◌≢◌, refl, sym, ap, ◌∙◌, arith, Option, none, some, List, [], ◌∷◌,
  ◌++◌, length, All, append_assoc, append-nil, length-append,
}
use kubecast.Text.{Str}
use kubecast.Server.Hash.{TtyWrite}
use kubecast.Server.Store.{Table, Disk}
use kubecast.Server.Upload.{Json, Local, new_local, before_append, upload_step}
use kubecast.Server.Refine.{Session, all_recorded, recorded, file_of, Represents}
use kubecast.Server.Sessions.{upload_step-Represents}
use kubecast.Server.Wire.{encode, record_size, Read, eof, unexpected_eof, got, read}
use kubecast.Server.Wire.RoundTrip.{IsSized, length-encode}
use kubecast.Server.Wire.Reading.{read-encode, read-short, read-rest}

-- How a handler ends: it returns; or `glog.Fatal` ends the server; or the slice of a buffer panics,
-- which ends the handler, and which Go's `net/http` recovers from: the server goes on with the disk
-- as the handler left it.
pub data Served : Type 0 where
  returned : Local → Disk → Served
  fatal : Served
  panicked : Disk → Served
  out_of_fuel : Served

-- What a client sends for a list of writes.
abbrev pub encode_all : List TtyWrite → Str
encode_all [] = []
encode_all (w ∷ ws) = encode w ++ encode_all ws

-- A write that the server takes: of Go's sizes, with a count that fits its buffer.
abbrev pub Fits : TtyWrite → Type 0
Fits w = IsSized w × (w.count ≤ length w.buffer)

module _ (json : Json) where
  -- A round that fails: before its append by `glog.Fatal`, and in it by the slice.
  unfoldable pub failed : Option Disk → Served
  failed none = fatal
  failed (some disk) = panicked disk

  unfoldable pub after_step :
      (Str → Local → Disk → Served) → Str → Option Disk → Option (Local × Disk) → Served
  unfolding failed
  after_step go rest left none = failed left
  after_step go rest left (some p) = go rest p.0 p.1

  unfoldable pub after_read : (Str → Local → Disk → Served) → Read → Local → Disk → Served
  unfolding after_step before_append upload_step
  after_read go eof local disk = returned local disk
  after_read go unexpected_eof local disk = fatal
  after_read go (got w rest) local disk =
      after_step go rest (before_append json w local disk) (upload_step json w local disk)

  -- The loop of the handler, on fuel.
  unfoldable pub handle : ℕ → Str → Local → Disk → Served
  unfolding after_read read
  handle zero bytes local disk = out_of_fuel
  handle (suc fuel) bytes local disk = after_read (handle fuel) (read bytes) local disk

  -- A record has one byte at least, so more fuel than bytes is enough.
  unfoldable pub upload_handler : Str → Disk → Served
  unfolding handle new_local
  upload_handler bytes disk = handle (suc (length bytes)) bytes new_local disk

  handle-encoded :
      (ws : List TtyWrite) (rest : Str) (sessions : Table Session) (fuel : ℕ) (local : Local)
      (disk : Disk)
      → length (encode_all ws ++ rest) < fuel
      → All Fits ws
      → Represents json sessions local disk.casts
      → (fuel' : ℕ) × (p : Local × Disk) × (length rest < fuel')
        × (handle fuel (encode_all ws ++ rest) local disk ≡ handle fuel' rest p.0 p.1)
        × Represents json (all_recorded ws sessions) p.0 p.1.casts
  unfolding handle after_read after_step
  handle-encoded [] rest sessions fuel local disk l h r = (fuel, (local, disk), l, refl, r)
  handle-encoded (w ∷ ws) rest sessions zero local disk l h r = absurd (omega arith)
  handle-encoded (w ∷ ws) rest sessions (suc fuel) local disk l h r =
      let (p, e, r') = upload_step-Represents json w sessions local disk h.0.1 r in
      let assoc = append_assoc (encode w) (encode_all ws) rest in
      let (fuel', q, l', e', r'') =
        handle-encoded ws rest (recorded w sessions) fuel p.0 p.1
          (omega (
            arith,
            ap length assoc,
            length-append (encode w) (encode_all ws ++ rest),
            length-encode w h.0.0,
          ))
          h.1 r' in
      (
        fuel',
        q,
        l',
        ap (λ b. after_read (handle fuel) (read b) local disk) assoc
            ∙ ap (λ x. after_read (handle fuel) x local disk)
                (read-encode w (encode_all ws ++ rest) h.0.0)
            ∙ ap
                (after_step (handle fuel) (encode_all ws ++ rest) (before_append json w local disk))
                e
            ∙ e',
        r'',
      )

  -- New handlers have empty maps, which fit the sessions whose files are there.
  fresh-Represents :
      (sessions : Table Session) (casts : Table Str)
      → ((i : ℕ) → casts i ≡ file_of json (sessions i))
      → Represents json sessions new_local casts
  unfolding new_local
  fresh-Represents sessions casts files i = record { file = files i; at_end = tt; began = tt }

  -- A connection from its bytes to the files: for the bytes of writes of Go's sizes whose counts fit
  -- their buffers, the handler reads them all and returns at the end of the stream, and if the files
  -- were those of some sessions, they are then those of the sessions with all writes recorded.
  pub upload_handler-encoded :
      (ws : List TtyWrite) (sessions : Table Session) (disk : Disk)
      → All Fits ws
      → ((i : ℕ) → disk.casts i ≡ file_of json (sessions i))
      → (p : Local × Disk) × (upload_handler (encode_all ws) disk ≡ returned p.0 p.1)
        × ((i : ℕ) → p.1.casts i ≡ file_of json (all_recorded ws sessions i))
  unfolding upload_handler handle after_read read
  upload_handler-encoded ws sessions disk h files =
      let bytes = encode_all ws in
      let (fuel, p, l, e, r) =
        handle-encoded ws [] sessions (suc (length bytes)) new_local disk
          (omega (arith, ap length (append-nil bytes))) h
          (fresh-Represents sessions disk.casts files) in
      (
        p,
        ap (λ b. handle (suc (length bytes)) b new_local disk) (sym (append-nil bytes))
            ∙ e
            ∙ at_end fuel p.0 p.1 l,
        λ i. (r i).file,
      )
    where
      at_end :
          (fuel : ℕ) (local : Local) (d : Disk)
          → 0 < fuel
          → handle fuel [] local d ≡ returned local d
      at_end zero local d l = absurd (omega arith)
      at_end (suc fuel) local d l = refl

  -- A stream that breaks off within a record ends the server: after writes that it takes, on files of
  -- some sessions, some bytes that are less than a record's make the handler fail.
  pub upload_handler-truncated :
      (ws : List TtyWrite) (part : Str) (sessions : Table Session) (disk : Disk)
      → All Fits ws
      → 0 < length part
      → length part < record_size
      → ((i : ℕ) → disk.casts i ≡ file_of json (sessions i))
      → upload_handler (encode_all ws ++ part) disk ≡ fatal
  unfolding upload_handler handle after_read
  upload_handler-truncated ws part sessions disk h more short files =
      let bytes = encode_all ws ++ part in
      let (fuel, p, l, e, r) =
        handle-encoded ws part sessions (suc (length bytes)) new_local disk (omega arith) h
          (fresh-Represents sessions disk.casts files) in
      e ∙ breaks fuel p.0 p.1 l
    where
      breaks :
          (fuel : ℕ) (local : Local) (d : Disk)
          → length part < fuel
          → handle fuel part local d ≡ fatal
      breaks zero local d l = absurd (omega arith)
      breaks (suc fuel) local d l =
          ap (λ x. after_read (handle fuel) x local d) (read-short part more short)

  after_read-ends :
      (go : Str → Local → Disk → Served) (bytes : Str) (x : Read) (local : Local) (disk : Disk)
      → read bytes ≡ x
      → ((rest : Str) (l : Local) (d : Disk)
          → length rest < length bytes
          → go rest l d ≢ out_of_fuel)
      → after_read go x local disk ≢ out_of_fuel
  unfolding after_read after_step failed
  after_read-ends go bytes eof local disk e h = cc
  after_read-ends go bytes unexpected_eof local disk e h = cc
  after_read-ends go bytes (got w rest) local disk e h =
      stepped (before_append json w local disk) (upload_step json w local disk)
    where
      stepped :
          (left : Option Disk) (o : Option (Local × Disk)) → after_step go rest left o ≢ out_of_fuel
      stepped none none = cc
      stepped (some d) none = cc
      stepped left (some p) = h rest p.0 p.1 (read-rest bytes e)

  handle-ends :
      (fuel : ℕ) (bytes : Str) (local : Local) (disk : Disk)
      → length bytes < fuel
      → handle fuel bytes local disk ≢ out_of_fuel
  unfolding handle
  handle-ends zero bytes local disk l = absurd (omega arith)
  handle-ends (suc fuel) bytes local disk l =
      after_read-ends (handle fuel) bytes (read bytes) local disk refl
        (λ rest l' d s. handle-ends fuel rest l' d (omega arith))

  -- The handler comes to an end on every stream that ends, whatever its bytes.
  pub upload_handler-ends : (bytes : Str) (disk : Disk) → upload_handler bytes disk ≢ out_of_fuel
  unfolding upload_handler
  upload_handler-ends bytes disk =
      handle-ends (suc (length bytes)) bytes new_local disk (omega arith)
