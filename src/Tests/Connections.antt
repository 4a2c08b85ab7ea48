-- ===== src/Tests/Connections.antt =====
-- Runs of the theorems on connections: a client whose second write cannot be sent, and two handlers.
use kubecast.Common.{ℕ, ◌≡◌, ◌≢◌, refl, true, false, some, List, [], ◌∷◌, ◌++◌, map, arith}
use kubecast.Text.{codes}
use kubecast.Server.Hash.{TtyWrite, session_hash}
use kubecast.Server.Store.{Table, Disk}
use kubecast.Server.Upload.{Local, new_local}
use kubecast.Server.Refine.{Session, recorded, all_recorded, file_of}
use kubecast.Server.Opening.{==-refl}
use kubecast.Server.Interleaved.{Shared, interleaved, Present, AllFit, interleaved-recorded}
use kubecast.Server.Wire.Stream.{
  returned, fatal, out_of_fuel, encode_all, upload_handler, upload_handler-encoded,
  upload_handler-truncated, upload_handler-ends,
}
use kubecast.Client.Probe.{Call, IsCall, probe}
use kubecast.Client.{Event, tty_write, lost, tty_write_to_go, client_loop}
use kubecast.Client.Delivery.{probe-Fits, writes, all_of, Recorded, client_loop-recorded}
use kubecast.Tests.Uploads.{ones, length-ones, json, no_sessions, empty_disk, fits}
use kubecast.Tests.Uploads

abbrev call : Call
call = record { dx = 300; user = ones 256; i_ino = 12; inum = 3; ktime = 3000000000 }

call-IsCall : IsCall call
call-IsCall = record {
  dx = omega arith;
  user = length-ones 256;
  i_ino = omega arith;
  inum = omega arith;
  ktime = omega arith;
}

abbrev events : List Event
events = tty_write call true ∷ lost 2 ∷ tty_write call false ∷ tty_write call true ∷ []

nothing_there : (i : ℕ) → empty_disk.casts i ≡ file_of json (no_sessions i)
nothing_there i = refl

-- One record of each connection arrives: the write whose sending fails is lost.
abbrev network : ℕ → ℕ
network k = 1139

client_loop-recorded_example :
    (all_of (client_loop (codes "node") [] events) ≡ writes (codes "node") events)
    × Recorded json network (client_loop (codes "node") [] events) no_sessions empty_disk
client_loop-recorded_example =
    client_loop-recorded json (codes "node") events network no_sessions empty_disk
      (call-IsCall, (call-IsCall, (call-IsCall, tt))) nothing_there

abbrev sent : List TtyWrite
sent = tty_write_to_go (codes "node") (probe call) ∷ []

upload_handler-encoded_example :
    (p : Local × Disk) × (upload_handler json (encode_all sent) empty_disk ≡ returned p.0 p.1)
    × ((i : ℕ) → p.1.casts i ≡ file_of json (all_recorded sent no_sessions i))
upload_handler-encoded_example =
    upload_handler-encoded json sent no_sessions empty_disk
      (probe-Fits (codes "node") call call-IsCall, tt) nothing_there

upload_handler-truncated_example :
    upload_handler json (encode_all sent ++ codes "part") empty_disk ≡ fatal
upload_handler-truncated_example =
    upload_handler-truncated json sent (codes "part") no_sessions empty_disk
      (probe-Fits (codes "node") call call-IsCall, tt) (omega arith) (omega arith) nothing_there

upload_handler-ends_example : upload_handler json (codes "any bytes") empty_disk ≢ out_of_fuel
upload_handler-ends_example = upload_handler-ends json (codes "any bytes") empty_disk

-- The session of a write, with its file.
abbrev sessions : Table Session
sessions = recorded Uploads.tty_write no_sessions

abbrev shared : Shared
shared = record {
  locals = λ c. new_local;
  disk = record { casts = λ i. file_of json (sessions i); labels = λ i. some [] };
}

sessions-Present : Present (sessions (session_hash Uploads.tty_write))
sessions-Present = rw (==-refl (session_hash Uploads.tty_write)) tt

shared-AllFit : AllFit json sessions shared
unfolding new_local
shared-AllFit c = (λ i. record { file = refl; at_end = tt; began = tt }, λ i. tt)

abbrev rounds : List (ℕ × TtyWrite)
rounds = (1, Uploads.tty_write) ∷ (2, Uploads.tty_write) ∷ (1, Uploads.tty_write) ∷ []

interleaved-recorded_example :
    (s : Shared) × (interleaved json rounds shared ≡ some s)
    × ((i : ℕ) → s.disk.casts i ≡ file_of json (all_recorded (map (λ r. r.1) rounds) sessions i))
interleaved-recorded_example =
    interleaved-recorded json rounds sessions shared
      ((fits, sessions-Present), ((fits, sessions-Present), ((fits, sessions-Present), tt)))
      shared-AllFit
