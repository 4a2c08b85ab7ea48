-- ===== src/Scheduler/Invariant.antt =====
-- ui/dist/Main.js, `_elm_lang$core$Native_Scheduler`: the invariant of the scheduler between the calls
-- of the browser.
use kubecast.Common.{
  ℕ, zero, suc, ◌+◌, ◌≡◌, ◌⊎◌, refl, subst, inl, inr, arith, Bool, true, false, Option, some, List,
  [], ◌∷◌, ◌++◌, ◌==◌, if◌then◌else◌, Bool-cases, Option-cases, bind-eq-some, at_result,
}
use kubecast.Scheduler.{
  Value, Task, Process, World, Move, max_steps, put_process, enqueue, raw_spawn, raw_send,
  call_back, cancel, tuple_0, process_id, remove_timer, kill_process, run_binding, after_move, step,
}
use kubecast.Scheduler.Task.{succeed, fail, and_then, on_error, receive, spawn, send, kill, sleep}
use kubecast.Scheduler.Move.{next, halt, native, throws}
use kubecast.Scheduler.Work.{Run, finished, threw, out_of_fuel, work, Stimulus, woke, sent, spawned}
use kubecast.Scheduler.Serving.{Serves, full, idle, skips, runs, Breaks, Ends, work-Ends}
use kubecast.Scheduler.Stepping.{step-Minded}
use kubecast.Scheduler.Waking.{Listed, Minded, AllBut, enqueue-Minded, same}

not_both : (i j : ℕ) → i ≡ j → (i == j) ≡ false → ⊥
not_both i j e n = ground (arith, e, n)

module _ {K A : Type 0} where
  -- The flag is set, and a number of calls of `work` are due.
  abbrev Busy : ℕ → World K A → Type 0
  Busy due w = (w.working ≡ true) × (w.scheduled ≡ due)

  enqueue-Busy : (due pid : ℕ) (w : World K A) → Busy due w → Busy due (enqueue pid w)
  unfolding enqueue
  enqueue-Busy due pid w b = (refl, rw b.0 b.1)

  cancel-Busy : (due : ℕ) (root : Task K A) (w : World K A) → Busy due w → Busy due (cancel root w)
  unfolding cancel
  cancel-Busy due (sleep object) w b = elim (Option-cases (w.cancels object)) [
    | inl e ↦ rw (e, cancel) b
    | inr e ↦ rw (e.1, cancel) b
  ]
  cancel-Busy due (succeed v) w b = b
  cancel-Busy due (fail e) w b = b
  cancel-Busy due (and_then f t) w b = b
  cancel-Busy due (on_error f t) w b = b
  cancel-Busy due (receive f) w b = b
  cancel-Busy due (spawn t) w b = b
  cancel-Busy due (send p m) w b = b
  cancel-Busy due (kill p) w b = b

  call_back-Busy :
      (due pid : ℕ) (task : Task K A) (w : World K A) → Busy due w → Busy due (call_back pid task w)
  unfolding call_back
  call_back-Busy due pid task w b =
      enqueue-Busy due pid (put_process pid (record (w.processes pid) { root = some task }) w) b

  raw_spawn-Busy :
      (due : ℕ) (task : Task K A) (w : World K A) → Busy due w → Busy due (raw_spawn task w)
  unfolding raw_spawn
  raw_spawn-Busy due task w b =
      enqueue-Busy due w.guid
        (put_process w.guid (record { root = some task; stack = []; mailbox = [] })
          (record w { guid = w.guid + 1 }))
        b

  raw_send-Busy :
      (due pid : ℕ) (msg : Value A) (w : World K A) → Busy due w → Busy due (raw_send pid msg w)
  unfolding raw_send
  raw_send-Busy due pid msg w b =
      let p = w.processes pid in
      enqueue-Busy due pid (put_process pid (record p { mailbox = p.mailbox ++ msg ∷ [] }) w) b

  run_binding-Busy :
      (due : ℕ) (task : Task K A) (pid : ℕ) (w : World K A) {w' : World K A}
      → run_binding task pid w ≡ some w'
      → Busy due w
      → Busy due w'
  unfolding run_binding kill_process
  run_binding-Busy due (spawn t) pid w e b = at_result (Busy due) e (
      call_back-Busy due pid (succeed (process_id w.guid)) (raw_spawn t w)
        (raw_spawn-Busy due t w b))
  run_binding-Busy due (send p m) pid w e b =
      at_result (Busy due) e
        (call_back-Busy due pid (succeed tuple_0) (raw_send p m w) (raw_send-Busy due p m w b))
  run_binding-Busy due (kill p) pid w e b =
      let (v, e1, e2) = bind-eq-some (kill_process p w) _ e in
      let (root, e3, e4) = bind-eq-some (w.processes p).root _ e1 in
      at_result (Busy due) e2 (
        call_back-Busy due pid (succeed tuple_0) v
          (at_result (Busy due) e4 (cancel-Busy due root w b)))
  run_binding-Busy due (sleep object) pid w e b = at_result (Busy due) e b
  run_binding-Busy due (succeed v) pid w e b = cc
  run_binding-Busy due (fail x) pid w e b = cc
  run_binding-Busy due (and_then f t) pid w e b = cc
  run_binding-Busy due (on_error f t) pid w e b = cc
  run_binding-Busy due (receive f) pid w e b = cc

module _ {K A : Type 0} (apply : K → Value A → Task K A) where
  after_move-Busy :
      (due : ℕ) (go : World K A → Option (ℕ × World K A)) (left pid : ℕ) (m : Move K A)
      (w : World K A) {left' : ℕ} {w' : World K A}
      → ((v : World K A) → Busy due v → go v ≡ some (left', w') → Busy due w')
      → after_move apply go left pid m w ≡ some (left', w')
      → Busy due w
      → Busy due w'
  unfolding after_move
  after_move-Busy due go left pid (next p) w ih e b = ih (put_process pid p w) b e
  after_move-Busy due go left pid (halt p) w ih e b = at_result (λ q. Busy due q.1) e b
  after_move-Busy due go left pid (native task) w ih e b =
      let (v, e1, e2) = bind-eq-some (run_binding task pid w) _ e in
      at_result (λ q. Busy due q.1) e2 (run_binding-Busy due task pid w e1 b)
  after_move-Busy due go left pid throws w ih e b = cc

  step-Busy :
      (due left pid : ℕ) (w : World K A) {left' : ℕ} {w' : World K A}
      → step apply left pid w ≡ some (left', w')
      → Busy due w
      → Busy due w'
  unfolding step
  step-Busy due zero pid w e b = at_result (λ q. Busy due q.1) e (enqueue-Busy due pid w b)
  step-Busy due (suc left) pid w e b =
      after_move-Busy due (step apply left pid) left pid _ w
        (λ v b' e'. step-Busy due left pid v e' b') e b

  -- Between the calls of the browser: a process that is not in the queue cannot go on, and a call of
  -- `work` is due exactly if `working` is set, which it is if the queue is not empty.
  pub record IsValid (w : World K A) : Type 0 where
    pub minded : (i : ℕ) → Minded w i
    pub due : w.scheduled ≡ (if w.working then 1 else 0)
    pub awake : (w.working ≡ true) ⊎ (w.work_queue ≡ [])

  head-AllBut :
      (pid : ℕ) (queue : List ℕ) (w : World K A)
      → w.work_queue ≡ pid ∷ queue
      → ((i : ℕ) → Minded w i)
      → AllBut pid (record w { work_queue = queue })
  head-AllBut pid queue w e h i n = elim (h i) [
    | inl l ↦ elim (subst (Listed i) e l) [ inl y ↦ absurd (not_both i pid y n) | inr r ↦ inl r ]
    | inr d ↦ inr d
  ]

  -- `work` with the call taken from those that are due, and the flag set.
  Serves-IsValid :
      {left : ℕ} {w u : World K A} {taken : List ℕ}
      → Serves apply left w taken u
      → Busy 0 w
      → ((i : ℕ) → Minded w i)
      → IsValid u
  Serves-IsValid (full w) b h = record {
    minded = h;
    due = rw b.0 (omega (arith, b.1));
    awake = inl b.0;
  }
  Serves-IsValid (idle left w e) b h = record { minded = h; due = b.1; awake = inr e }
  Serves-IsValid (skips left w pid queue e er s) b h = Serves-IsValid s b (λ i.
      elim (Bool-cases (i == pid)) [
        | inl y ↦ inr (rw (same i pid y, er) tt)
        | inr n ↦ head-AllBut pid queue w e h i n
      ])
  Serves-IsValid (runs left w pid queue {left'} {v} e es s) b h =
      Serves-IsValid s (step-Busy 0 (suc left) pid (record w { work_queue = queue }) es b) (
        step-Minded apply (suc left) pid (record w { work_queue = queue }) es
          (head-AllBut pid queue w e h))

  enqueue-IsValid :
      (pid : ℕ) (p : Process K A) (w : World K A)
      → IsValid w
      → IsValid (enqueue pid (put_process pid p w))
  unfolding enqueue
  enqueue-IsValid pid p w v = record {
    minded = λ i. enqueue-Minded pid p w i (λ _. v.minded i);
    due = flag w.working v.due;
    awake = inl refl;
  }
    where
      flag : (b : Bool) {n : ℕ} → n ≡ (if b then 1 else 0) → (if b then n else n + 1) ≡ 1
      flag true e = e
      flag false e = omega (arith, e)

  Stimulus-IsValid : {w u : World K A} → Stimulus apply w u → IsValid w → IsValid u
  unfolding call_back raw_send raw_spawn
  Stimulus-IsValid {w} (woke id {pid} e) v =
      enqueue-IsValid pid _ (record w { timers = remove_timer id w.timers })
        (record { minded = v.minded; due = v.due; awake = v.awake })
  Stimulus-IsValid {w} (sent pid msg) v = enqueue-IsValid pid _ w v
  Stimulus-IsValid {w} (spawned task) v =
      enqueue-IsValid w.guid _ (record w { guid = w.guid + 1 })
        (record { minded = v.minded; due = v.due; awake = v.awake })

  finished-IsValid :
      (w : World K A) (r : Run K A)
      → Ends apply max_steps w r
      → Busy 0 w
      → ((i : ℕ) → Minded w i)
      → ((r ≡ threw) × Breaks apply max_steps w) ⊎ ((u : World K A) × (r ≡ finished u) × IsValid u)
  finished-IsValid w threw h b m = inl (refl, h)
  finished-IsValid w (finished u) (taken, s) b m = inr (u, refl, Serves-IsValid s b m)
  finished-IsValid w out_of_fuel h b m = absurd h

  -- No process that could go on is left lying, until a call of `work` throws: in a world where
  -- every process that is not in the work queue was killed, is done, is at a sleep (of its timer
  -- nothing is said), or waits for a message with an empty mailbox, and where a call of `work` is due,
  -- only one, exactly if `working` is set, which it is if the queue is not empty, the same holds after
  -- a timer wakes a process, a message is sent or a process is started; and a call of `work` that is
  -- due ends in such a world, or it throws, and then because a process that it takes kills a dead
  -- one.
  pub work-IsValid :
      (w : World K A)
      → IsValid w
      → ((u : World K A) → Stimulus apply w u → IsValid u)
        × ((due : ℕ)
            → w.scheduled ≡ suc due
            → ((work apply (record w { scheduled = due }) ≡ threw)
                × Breaks apply max_steps (record w { scheduled = due }))
              ⊎ ((u : World K A) × (work apply (record w { scheduled = due }) ≡ finished u)
                  × IsValid u))
  work-IsValid w v = (
    λ u s. Stimulus-IsValid s v,
    λ due e.
        let flags = flags_of w.working v.due e in
        let called = record w { scheduled = due } in
        finished-IsValid called (work apply called) (work-Ends apply called) flags v.minded,
  )
    where
      flags_of :
          (b : Bool) {n due : ℕ} → n ≡ (if b then 1 else 0) → n ≡ suc due → (b ≡ true) × (due ≡ 0)
      flags_of true e f = (refl, omega (arith, e, f))
      flags_of false e f = absurd (omega (arith, e, f))
