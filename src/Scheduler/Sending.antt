-- ===== src/Scheduler/Sending.antt =====
-- ui/dist/Main.js, `_elm_lang$core$Native_Scheduler`: `rawSpawn` and `rawSend` as the process sees them.
use kubecast.Common.{
  ℕ, ◌≡◌, sym, ap, ◌∙◌, List, [], ◌∷◌, ◌++◌, ◌==◌, if◌then◌else◌, append-nil, append_assoc,
  Bool-cases, inl, inr,
}
use mathlib.Core.Path.{fun_ext}
use kubecast.Scheduler.{Value, Task, Process, World, put_process, enqueue, raw_send, raw_spawn}
use kubecast.Scheduler.Meaning.{==-self, process}
use kubecast.Scheduler.Waking.{same}

module _ {K A : Type 0} where
  -- Messages that are sent to a process, one after the other.
  abbrev pub send_all : ℕ → List (Value A) → World K A → World K A
  send_all pid [] w = w
  send_all pid (msg ∷ msgs) w = send_all pid msgs (raw_send pid msg w)

  abbrev delivered : List (Value A) → Process K A → Process K A
  delivered msgs p = record p { mailbox = p.mailbox ++ msgs }

  raw_send-process :
      (pid : ℕ) (msg : Value A) (w : World K A)
      → (raw_send pid msg w).processes pid
        ≡ record (w.processes pid) { mailbox = (w.processes pid).mailbox ++ msg ∷ [] }
  unfolding raw_send enqueue
  raw_send-process pid msg w = rw (==-self pid)

  pub send_all-process :
      (pid : ℕ) (msgs : List (Value A)) (w : World K A)
      → (send_all pid msgs w).processes pid
        ≡ record (w.processes pid) { mailbox = (w.processes pid).mailbox ++ msgs }
  send_all-process pid [] w =
      ap (λ l. record (w.processes pid) { mailbox = l })
        (sym (append-nil (w.processes pid).mailbox))
  send_all-process pid (msg ∷ msgs) w =
      send_all-process pid msgs (raw_send pid msg w)
      ∙ ap (delivered msgs) (raw_send-process pid msg w)
      ∙ ap (λ l. record (w.processes pid) { mailbox = l })
          (append_assoc (w.processes pid).mailbox (msg ∷ []) msgs)

  pub put_self :
      (pid : ℕ) (p : Process K A) (w : World K A) → w.processes pid ≡ p → put_process pid p w ≡ w
  put_self pid p w e = ap (λ f. record w { processes = f }) (fun_ext at_id)
    where
      at_id : (i : ℕ) → (if i == pid then p else w.processes i) ≡ w.processes i
      at_id i = elim (Bool-cases (i == pid)) [
        | inl y ↦ rw y (sym (ap w.processes (same i pid y) ∙ e))
        | inr n ↦ rw n
      ]

  raw_spawn-process :
      (task : Task K A) (w : World K A) → (raw_spawn task w).processes w.guid ≡ process task [] []
  unfolding raw_spawn enqueue
  raw_spawn-process task w = rw (==-self w.guid)

  -- A process that was just started, with messages sent to it.
  pub spawned-process :
      (task : Task K A) (msgs : List (Value A)) (w : World K A)
      → (send_all w.guid msgs (raw_spawn task w)).processes w.guid ≡ process task [] msgs
  spawned-process task msgs w =
      send_all-process w.guid msgs (raw_spawn task w)
      ∙ ap (delivered msgs) (raw_spawn-process task w)
