-- ===== src/Client/Delivery.antt =====
-- cmd/client/main.go and cmd/server/main.go together: from the writes to terminals to the server's
-- files.
use kubecast.Common.{
  ℕ, zero, suc, ◌+◌, ◌-◌, ◌<◌, ◌≡◌, refl, sym, ap, ◌∙◌, arith, Bool, true, false, ◌||◌, Option,
  none, some, List, [], ◌∷◌, ◌++◌, length, take, All, All-append, append-nil, append_assoc,
  length-append, ◌⊎◌, inl, inr,
}
use kubecast.Text.{Str}
use kubecast.Server.Hash.{TtyWrite}
use kubecast.Server.Store.{Table, Disk}
use kubecast.Server.Upload.{Json}
use kubecast.Server.Refine.{Session, recorded, all_recorded, file_of}
use kubecast.Server.Wire.Stream.{
  Served, returned, fatal, panicked, out_of_fuel, upload_handler, encode_all, Fits,
  upload_handler-encoded, upload_handler-truncated,
}
use kubecast.Client.Probe.{Call, IsCall, probe, clamp_count-le}
use kubecast.Client.{zeros, copy_into, tty_write_to_go, Event, tty_write, lost, client_loop}
use kubecast.Client.Arrival.{whole, is_cut, EndsWith, take_encoded, whole-Fits}

length-zeros : (n : ℕ) → length (zeros n) ≡ n
unfolding zeros
length-zeros zero = refl
length-zeros (suc n) = omega (arith, length-zeros n)

take_and_missing : (n : ℕ) (s : Str) → length (take n s) + (n - length s) ≡ n
take_and_missing zero s = omega arith
take_and_missing (suc n) [] = omega arith
take_and_missing (suc n) (c ∷ s) = omega (arith, take_and_missing n s)

length-copy_into : (size : ℕ) (s : Str) → length (copy_into size s) ≡ size
unfolding copy_into
length-copy_into size s = omega (
  arith,
  length-append (take size s) (zeros (size - length s)),
  length-zeros (size - length s),
  take_and_missing size s,
)

-- What the probe makes of a call, the server takes.
pub probe-Fits :
    (hostname : Str) (call : Call) → IsCall call → Fits (tty_write_to_go hostname (probe call))
unfolding tty_write_to_go probe
probe-Fits hostname call h = (
  record {
    count = omega (arith, clamp_count-le call.dx h.dx);
    timestamp = h.ktime;
    inode = h.i_ino;
    mount_namespace_inum = omega (arith, h.inum);
    buffer = h.user;
    hostname = length-copy_into 64 hostname;
    container_name = length-zeros 253;
    pod_name = length-zeros 253;
    pod_namespace = length-zeros 253;
    pod_uid = length-zeros 32;
  },
  omega (arith, clamp_count-le call.dx h.dx, h.user),
)

-- The writes of a run, whether sending them succeeds or not.
abbrev pub writes : Str → List Event → List TtyWrite
writes hostname [] = []
writes hostname (lost n ∷ events) = writes hostname events
writes hostname (tty_write call sent ∷ events) =
    tty_write_to_go hostname (probe call) ∷ writes hostname events

abbrev pub AreCalls : List Event → Type 0
AreCalls [] = Unit
AreCalls (lost n ∷ events) = AreCalls events
AreCalls (tty_write call sent ∷ events) = IsCall call × AreCalls events

abbrev pub all_of : List (List TtyWrite) → List TtyWrite
all_of [] = []
all_of (ws ∷ connections) = ws ++ all_of connections

-- Each write goes to one connection, in order.
all_of-client_loop :
    (hostname : Str) (sent : List TtyWrite) (events : List Event)
    → all_of (client_loop hostname sent events) ≡ sent ++ writes hostname events
unfolding client_loop
all_of-client_loop hostname sent [] = refl
all_of-client_loop hostname sent (lost n ∷ events) = all_of-client_loop hostname sent events
all_of-client_loop hostname sent (tty_write call true ∷ events) =
    let w = tty_write_to_go hostname (probe call) in
    all_of-client_loop hostname (sent ++ w ∷ []) events
    ∙ append_assoc sent (w ∷ []) (writes hostname events)
all_of-client_loop hostname sent (tty_write call false ∷ events) =
    let w = tty_write_to_go hostname (probe call) in
    ap (◌++◌ (sent ++ w ∷ [])) (all_of-client_loop hostname [] events)
    ∙ append_assoc sent (w ∷ []) (writes hostname events)

client_loop-Fits :
    (hostname : Str) (sent : List TtyWrite) (events : List Event)
    → All Fits sent
    → AreCalls events
    → All (All Fits) (client_loop hostname sent events)
unfolding client_loop
client_loop-Fits hostname sent [] f h = (f, tt)
client_loop-Fits hostname sent (lost n ∷ events) f h = client_loop-Fits hostname sent events f h
client_loop-Fits hostname sent (tty_write call true ∷ events) f h =
    let w = tty_write_to_go hostname (probe call) in
    client_loop-Fits hostname (sent ++ w ∷ []) events
      (All-append Fits sent (w ∷ []) f (probe-Fits hostname call h.0, tt)) h.1
client_loop-Fits hostname sent (tty_write call false ∷ events) f h =
    let w = tty_write_to_go hostname (probe call) in
    (
      All-append Fits sent (w ∷ []) f (probe-Fits hostname call h.0, tt),
      client_loop-Fits hostname [] events tt h.1,
    )

all_recorded-append :
    (old new : List TtyWrite) (sessions : Table Session)
    → all_recorded (old ++ new) sessions ≡ all_recorded new (all_recorded old sessions)
all_recorded-append [] new sessions = refl
all_recorded-append (w ∷ old) new sessions = all_recorded-append old new (recorded w sessions)

-- What the network does: how many bytes of each connection arrive, from the first on, before the
-- server reads the end of the stream. Nothing ties them to the sends that succeed.
abbrev pub next : (ℕ → ℕ) → ℕ → ℕ
next network k = network (suc k)

-- The writes that arrive whole, and whether some connection ends within a record.
abbrev pub arrived : (ℕ → ℕ) → List (List TtyWrite) → List TtyWrite
arrived network [] = []
arrived network (ws ∷ connections) = whole (network 0) ws ++ arrived (next network) connections

abbrev pub any_cut : (ℕ → ℕ) → List (List TtyWrite) → Bool
any_cut network [] = false
any_cut network (ws ∷ connections) = is_cut (network 0) ws || any_cut (next network) connections

module _ (json : Json) where
  abbrev pub after_handler : (Disk → Option Disk) → Served → Option Disk
  after_handler go (returned local disk) = go disk
  after_handler go fatal = none
  after_handler go (panicked disk) = go disk
  after_handler go out_of_fuel = none

  -- The server on what arrives of connections, each handler done before the next begins: the disk at
  -- the end, unless the server has ended.
  abbrev pub serve_all : (ℕ → ℕ) → List (List TtyWrite) → Disk → Option Disk
  serve_all network [] disk = some disk
  serve_all network (ws ∷ connections) disk =
      after_handler (serve_all (next network) connections)
        (upload_handler json (take (network 0) (encode_all ws)) disk)

  -- The server has ended, at a connection that was cut within a record; or none was, and the files are
  -- those of the sessions with the writes recorded that arrived.
  abbrev pub Recorded : (ℕ → ℕ) → List (List TtyWrite) → Table Session → Disk → Type 0
  Recorded network connections sessions disk =
      (any_cut network connections ≡ true) × (serve_all network connections disk ≡ none)
      ⊎ (any_cut network connections ≡ false)
        × (d : Disk) × (serve_all network connections disk ≡ some d)
        × ((i : ℕ)
            → d.casts i ≡ file_of json (all_recorded (arrived network connections) sessions i))

  module _ (network : ℕ → ℕ) (ws : List TtyWrite) (connections : List (List TtyWrite))
      (sessions : Table Session) (disk : Disk) where
    abbrev sent : List TtyWrite
    sent = whole (network 0) ws

    abbrev go : Disk → Option Disk
    go = serve_all (next network) connections

    cut_here :
        (part : Str)
        → All Fits ws
        → ((i : ℕ) → disk.casts i ≡ file_of json (sessions i))
        → EndsWith (network 0) ws part
        → is_cut (network 0) ws ≡ true
        → 0 < length part
        → Recorded network (ws ∷ connections) sessions disk
    cut_here part f files e cut more = inl (
      rw cut refl,
      ap (λ b. after_handler go (upload_handler json b disk)) e.bytes
          ∙ ap (after_handler go) (
              upload_handler-truncated json sent part sessions disk (whole-Fits ws (network 0) f)
                more e.short files),
    )

    later :
        (d : Disk)
        → is_cut (network 0) ws ≡ false
        → serve_all network (ws ∷ connections) disk ≡ go d
        → Recorded (next network) connections (all_recorded sent sessions) d
        → Recorded network (ws ∷ connections) sessions disk
    later d not_cut here (inl (cut, ended)) = inl (rw not_cut cut, here ∙ ended)
    later d not_cut here (inr (uncut, d', rest, files)) = inr (
      rw not_cut uncut,
      d',
      here ∙ rest,
      λ i.
          files i
          ∙ ap (λ (t : Table Session). file_of json (t i))
              (sym (all_recorded-append sent (arrived (next network) connections) sessions)),
    )

    served-Recorded :
        (part : Str)
        → All Fits ws
        → ((i : ℕ) → disk.casts i ≡ file_of json (sessions i))
        → ((t : Table Session) (d : Disk)
            → ((i : ℕ) → d.casts i ≡ file_of json (t i))
            → Recorded (next network) connections t d)
        → EndsWith (network 0) ws part
        → (is_cut (network 0) ws ≡ true) × (0 < length part)
          ⊎ (is_cut (network 0) ws ≡ false) × (part ≡ [])
        → Recorded network (ws ∷ connections) sessions disk
    served-Recorded part f files after e (inl (cut, more)) = cut_here part f files e cut more
    served-Recorded part f files after e (inr (not_cut, empty)) =
        let (p, handled, files') =
          upload_handler-encoded json sent sessions disk (whole-Fits ws (network 0) f) files in
        later p.1 not_cut
          (ap (λ b. after_handler go (upload_handler json b disk))
              (e.bytes ∙ ap (◌++◌ (encode_all sent)) empty ∙ append-nil (encode_all sent))
            ∙ ap (after_handler go) handled)
          (after (all_recorded sent sessions) p.1 files')

  serve_all-Recorded :
      (connections : List (List TtyWrite)) (network : ℕ → ℕ) (sessions : Table Session)
      (disk : Disk)
      → All (All Fits) connections
      → ((i : ℕ) → disk.casts i ≡ file_of json (sessions i))
      → Recorded network connections sessions disk
  serve_all-Recorded [] network sessions disk f files = inr (refl, disk, refl, files)
  serve_all-Recorded (ws ∷ connections) network sessions disk f files =
      let (part, e) = take_encoded ws (network 0) f.0 in
      served-Recorded network ws connections sessions disk part f.0 files
        (λ t d. serve_all-Recorded connections (next network) t d f.1) e e.ending

  -- From the terminals to the files, for calls that the kernel makes, however many of the bytes of
  -- each connection arrive before its stream ends, and where each handler is done before the next
  -- begins. The client writes each
  -- write to one connection, in order. If some connection is cut within a record, the server ends.
  -- Otherwise, if the files were those of some sessions, they are at the end those of the sessions
  -- with just the writes recorded, in order, that arrived whole.
  pub client_loop-recorded :
      (hostname : Str) (events : List Event) (network : ℕ → ℕ) (sessions : Table Session)
      (disk : Disk)
      → AreCalls events
      → ((i : ℕ) → disk.casts i ≡ file_of json (sessions i))
      → (all_of (client_loop hostname [] events) ≡ writes hostname events)
        × Recorded network (client_loop hostname [] events) sessions disk
  client_loop-recorded hostname events network sessions disk h files = (
    all_of-client_loop hostname [] events,
    serve_all-Recorded (client_loop hostname [] events) network sessions disk
        (client_loop-Fits hostname [] events tt h) files,
  )
