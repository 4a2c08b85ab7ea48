-- ===== src/Client.antt =====
-- The way of a write to a terminal into the server: the probe (bpf/bpf_tty.c), pkg/kubecast and the
-- client's loop (cmd/client/main.go).
pub mod Probe
pub mod Arrival
pub mod Delivery
use kubecast.Common.{ℕ, zero, suc, ◌-◌, Bool, true, false, List, [], ◌∷◌, ◌++◌, length, take}
use kubecast.Text.{Str}
use kubecast.Server.Hash.{TtyWrite}
use kubecast.Server.Wire.{
  hostname_size, pod_name_size, container_name_size, pod_namespace_size, pod_uid_size,
}
use kubecast.Client.Probe.{TtyWriteT, Call, probe}

-- An array of Go that a string is copied into: what does not fit is cut off, and the rest is zero.
unfoldable pub zeros : ℕ → Str
zeros zero = []
zeros (suc n) = 0 ∷ zeros n

unfoldable pub copy_into : ℕ → Str → Str
unfolding zeros
copy_into size s = take size s ++ zeros (size - length s)

-- `TtyWriteToGo` on a host of a given name; `os.Hostname` gives the name.
unfoldable pub tty_write_to_go : Str → TtyWriteT → TtyWrite
unfolding copy_into
tty_write_to_go hostname w = record {
  count = w.count;
  buffer = w.buf;
  timestamp = w.timestamp;
  inode = w.ino;
  mount_namespace_inum = w.mnt_ns_inum;
  hostname = copy_into hostname_size hostname;
  container_name = zeros container_name_size;
  pod_name = zeros pod_name_size;
  pod_namespace = zeros pod_namespace_size;
  pod_uid = zeros pod_uid_size;
}

-- What the loop's `select` takes: a write, with whether sending it succeeds, or a count of lost ones.
pub data Event : Type 0 where
  tty_write : Call → Bool → Event
  lost : ℕ → Event

-- The loop of `main`: what is written to each connection. The write whose sending fails is the last
-- one of its connection; some of its bytes may have been sent. The connection is closed and a new one
-- is made, however many attempts that takes, and the write is not sent again.
unfoldable pub client_loop : Str → List TtyWrite → List Event → List (List TtyWrite)
unfolding tty_write_to_go probe
client_loop hostname sent [] = sent ∷ []
client_loop hostname sent (lost n ∷ events) = client_loop hostname sent events
client_loop hostname sent (tty_write call true ∷ events) =
    client_loop hostname (sent ++ tty_write_to_go hostname (probe call) ∷ []) events
client_loop hostname sent (tty_write call false ∷ events) =
    (sent ++ tty_write_to_go hostname (probe call) ∷ []) ∷ client_loop hostname [] events
