-- ===== src/Scheduler/Waking.antt =====
-- ui/dist/Main.js, `_elm_lang$core$Native_Scheduler`: no process that can go on is forgotten.
use kubecast.Common.{
  ℕ, ◌+◌, ◌≡◌, ◌⊎◌, inl, inr, arith, true, false, Option, none, some, List, [], ◌∷◌, ◌++◌, ◌==◌,
  Bool-cases, Option-cases, bind-eq-some, at_result,
}
use kubecast.Scheduler.{
  Value, Task, Frame, Process, World, put_process, enqueue, raw_spawn, raw_send, call_back, cancel,
  kill_process, run_binding,
}
use kubecast.Scheduler.Task.{succeed, fail, and_then, on_error, receive, spawn, send, kill, sleep}

abbrev pub Listed : ℕ → List ℕ → Type 0
Listed i [] = ⊥
Listed i (x ∷ xs) = (i ≡ x) ⊎ Listed i xs

Listed-append : (i : ℕ) (xs ys : List ℕ) → Listed i xs → Listed i (xs ++ ys)
Listed-append i [] ys h = elim h [ ]
Listed-append i (x ∷ xs) ys (inl e) = inl e
Listed-append i (x ∷ xs) ys (inr h) = inr (Listed-append i xs ys h)

Listed-last : (i x : ℕ) (xs : List ℕ) → i ≡ x → Listed i (xs ++ x ∷ [])
Listed-last i x [] e = inl e
Listed-last i x (y ∷ xs) e = inr (Listed-last i x xs e)

pub same : (i j : ℕ) → (i == j) ≡ true → i ≡ j
same i j e = ground arith

module _ {K A : Type 0} where
  -- A process that cannot go on: it was killed, it is done, it sleeps, or it waits for a message and
  -- has none.
  abbrev pub Idle : Option (Task K A) → List (Frame K A) → List (Value A) → Type 0
  Idle none stack mailbox = Unit
  Idle (some (succeed v)) stack mailbox = stack ≡ []
  Idle (some (fail e)) stack mailbox = stack ≡ []
  Idle (some (and_then f task)) stack mailbox = ⊥
  Idle (some (on_error f task)) stack mailbox = ⊥
  Idle (some (receive f)) stack mailbox = mailbox ≡ []
  Idle (some (spawn task)) stack mailbox = ⊥
  Idle (some (send to msg)) stack mailbox = ⊥
  Idle (some (kill victim)) stack mailbox = ⊥
  Idle (some (sleep object)) stack mailbox = Unit

  abbrev pub IdleProcess : Process K A → Type 0
  IdleProcess p = Idle p.root p.stack p.mailbox

  -- A process is in the queue, or cannot go on.
  abbrev pub Minded : World K A → ℕ → Type 0
  Minded w i = Listed i w.work_queue ⊎ IdleProcess (w.processes i)

  -- The processes but the one that runs.
  abbrev pub AllBut : ℕ → World K A → Type 0
  AllBut pid w = (i : ℕ) → (i == pid) ≡ false → Minded w i

  pub queue-Minded :
      (pid : ℕ) (w : World K A) (i : ℕ)
      → ((i == pid) ≡ false → Minded w i)
      → Minded (enqueue pid w) i
  unfolding enqueue
  queue-Minded pid w i h = elim (Bool-cases (i == pid)) [
    | inl e ↦ inl (Listed-last i pid w.work_queue (same i pid e))
    | inr n ↦ elim (h n) [ inl l ↦ inl (Listed-append i w.work_queue _ l) | inr d ↦ inr d ]
  ]

  pub enqueue-Minded :
      (pid : ℕ) (p : Process K A) (w : World K A) (i : ℕ)
      → ((i == pid) ≡ false → Minded w i)
      → Minded (enqueue pid (put_process pid p w)) i
  enqueue-Minded pid p w i h =
      queue-Minded pid (put_process pid p w) i
        (λ n. elim (h n) [ inl l ↦ inl l | inr d ↦ inr (rw n d) ])

  put-Minded :
      (pid : ℕ) (p : Process K A) (w : World K A) (i : ℕ)
      → ((i == pid) ≡ false → Minded w i)
      → IdleProcess p
      → Minded (put_process pid p w) i
  put-Minded pid p w i h d = elim (Bool-cases (i == pid)) [
    | inl e ↦ inr (rw e d)
    | inr n ↦ elim (h n) [ inl l ↦ inl l | inr d' ↦ inr (rw n d') ]
  ]

  pub call_back-Minded :
      (pid : ℕ) (task : Task K A) (w : World K A) (i : ℕ)
      → ((i == pid) ≡ false → Minded w i)
      → Minded (call_back pid task w) i
  unfolding call_back
  call_back-Minded pid task w i h =
      enqueue-Minded pid (record (w.processes pid) { root = some task }) w i h

  pub raw_send-Minded :
      (pid : ℕ) (msg : Value A) (w : World K A) (i : ℕ)
      → ((i == pid) ≡ false → Minded w i)
      → Minded (raw_send pid msg w) i
  unfolding raw_send
  raw_send-Minded pid msg w i h =
      let p = w.processes pid in
      enqueue-Minded pid (record p { mailbox = p.mailbox ++ msg ∷ [] }) w i h

  pub raw_spawn-Minded :
      (task : Task K A) (w : World K A) (i : ℕ)
      → ((i == w.guid) ≡ false → Minded w i)
      → Minded (raw_spawn task w) i
  unfolding raw_spawn
  raw_spawn-Minded task w i h =
      enqueue-Minded w.guid (record { root = some task; stack = []; mailbox = [] })
        (record w { guid = w.guid + 1 }) i h

  -- `cancel` leaves the processes and the queue.
  cancel-Minded : (root : Task K A) (w : World K A) (i : ℕ) → Minded w i → Minded (cancel root w) i
  unfolding cancel
  cancel-Minded (sleep object) w i h = elim (Option-cases (w.cancels object)) [
    | inl e ↦ rw (e, cancel) h
    | inr e ↦ rw (e.1, cancel) h
  ]
  cancel-Minded (succeed v) w i h = h
  cancel-Minded (fail e) w i h = h
  cancel-Minded (and_then f t) w i h = h
  cancel-Minded (on_error f t) w i h = h
  cancel-Minded (receive f) w i h = h
  cancel-Minded (spawn t) w i h = h
  cancel-Minded (send p m) w i h = h
  cancel-Minded (kill p) w i h = h

  kill_process-Minded :
      (pid : ℕ) (w : World K A) {w' : World K A} (i : ℕ)
      → kill_process pid w ≡ some w'
      → Minded w i
      → Minded w' i
  unfolding kill_process
  kill_process-Minded pid w i e h =
      let (root, e1, e2) = bind-eq-some (w.processes pid).root _ e in
      at_result (λ u. Minded u i) e2
        (put-Minded pid _ (cancel root w) i (λ n. cancel-Minded root w i h) tt)

  pub run_binding-Minded :
      (task : Task K A) (pid : ℕ) (w : World K A) {w' : World K A} (i : ℕ)
      → (w.processes pid).root ≡ some task
      → run_binding task pid w ≡ some w'
      → AllBut pid w
      → Minded w' i
  unfolding run_binding
  run_binding-Minded (spawn t) pid w i er e h =
      at_result (λ u. Minded u i) e
        (call_back-Minded pid _ (raw_spawn t w) i (λ n. raw_spawn-Minded t w i (λ _. h i n)))
  run_binding-Minded (send p m) pid w i er e h =
      at_result (λ u. Minded u i) e
        (call_back-Minded pid _ (raw_send p m w) i (λ n. raw_send-Minded p m w i (λ _. h i n)))
  run_binding-Minded (kill p) pid w i er e h =
      let (v, e1, e2) = bind-eq-some (kill_process p w) _ e in
      at_result (λ u. Minded u i) e2
        (call_back-Minded pid _ v i (λ n. kill_process-Minded p w i e1 (h i n)))
  run_binding-Minded (sleep object) pid w i er e h =
      at_result (λ u. Minded u i) e
        (elim (Bool-cases (i == pid)) [ inl y ↦ inr (rw (same i pid y, er) tt) | inr n ↦ h i n ])
  run_binding-Minded (succeed v) pid w i er e h = cc
  run_binding-Minded (fail x) pid w i er e h = cc
  run_binding-Minded (and_then f t) pid w i er e h = cc
  run_binding-Minded (on_error f t) pid w i er e h = cc
  run_binding-Minded (receive f) pid w i er e h = cc

  pub halt-Minded :
      (pid : ℕ) (p : Process K A) (w : World K A) (i : ℕ)
      → IdleProcess p
      → AllBut pid w
      → Minded (put_process pid p w) i
  halt-Minded pid p w i d h = put-Minded pid p w i (h i) d

  pub AllBut-put :
      (pid : ℕ) (p : Process K A) (w : World K A) → AllBut pid w → AllBut pid (put_process pid p w)
  AllBut-put pid p w h i n = elim (h i n) [ inl l ↦ inl l | inr d ↦ inr (rw n d) ]
