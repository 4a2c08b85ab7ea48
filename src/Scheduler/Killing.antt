-- ===== src/Scheduler/Killing.antt =====
-- ui/dist/Main.js, `_elm_lang$core$Native_Scheduler`: `sleep`, `kill` and the field `cancel`, which is
-- one for all processes that run the same object.
use kubecast.Common.{
  length, ℕ, suc, ◌*◌, ◌+◌, ◌≡◌, refl, sym, ap, ◌∙◌, subst, arith, All, List, [], ◌++◌, none, some,
  ◌∷◌, ◌==◌, ◌>>=◌, true, false,
}
use kubecast.Scheduler.{
  Value, Task, World, put_process, remove_timer, raw_send, cancel, kill_process, run_binding,
  enqueue, max_steps, move, after_move, step, update,
}
use kubecast.Scheduler.Work.{finished, work, work_loop, take_process, run_process, stepped}
use kubecast.Scheduler.Task.{sleep}

==-self : (n : ℕ) → (n == n) ≡ true
==-self n = ground arith

next-ne : (n : ℕ) → (n == n + 1) ≡ false
next-ne n = ground arith

-- A process has no timer.
abbrev pub NoTimer : ℕ → List (ℕ × ℕ) → Type 0
NoTimer pid timers = All (λ t. (t.1 == pid) ≡ false) timers

module _ {K A : Type 0} where
  kill_process-sleeping :
      (object pid id : ℕ) (w : World K A)
      → (w.processes pid).root ≡ some (sleep object)
      → w.cancels object ≡ some id
      → kill_process pid w
        ≡ some (
            put_process pid
              (record (w.processes pid) { root = none })
              (record w { timers = remove_timer id w.timers }))
  unfolding kill_process cancel
  kill_process-sleeping object pid id w e c = simp (e) (rw (c, cancel) refl)

  -- A process that sleeps at an object of its own: killing it takes its timer away, and it is dead.
  pub kill-sleep :
      (object pid : ℕ) (w : World K A)
      → (w.processes pid).root ≡ some (sleep object)
      → remove_timer w.next_timer w.timers ≡ w.timers
      → (u : World K A) × ((run_binding (sleep object) pid w >>= λ v. kill_process pid v) ≡ some u)
        × (u.timers ≡ w.timers)
        × ((u.processes pid).root ≡ none)
  unfolding run_binding
  kill-sleep object pid w e fresh =
      let v = record w {
        timers = (w.next_timer, pid) ∷ w.timers;
        next_timer = w.next_timer + 1;
        cancels = update w.cancels object (some w.next_timer);
      } in
      (
        put_process pid (record (w.processes pid) { root = none })
            (record v { timers = remove_timer w.next_timer v.timers }),
        kill_process-sleeping object pid w.next_timer v e (rw (==-self object)),
        rw (==-self w.next_timer) fresh,
        rw (==-self pid),
      )

  -- Two processes that sleep at one object, the second after the first, where the number of the
  -- second's timer is not in use: killing the first takes the timer of the second away, and leaves the
  -- timer of the first, which is dead. If the second had no timer before, it is still asleep and has
  -- none.
  pub kill-shared_sleep :
      (object first second : ℕ) (w : World K A)
      → (first == second) ≡ false
      → (w.processes first).root ≡ some (sleep object)
      → (w.processes second).root ≡ some (sleep object)
      → remove_timer (w.next_timer + 1) w.timers ≡ w.timers
      → NoTimer second w.timers
      → (u : World K A) × ((run_binding (sleep object) first w >>= λ v.
            run_binding (sleep object) second v >>= λ v'. kill_process first v')
          ≡ some u)
        × (u.timers ≡ (w.next_timer, first) ∷ w.timers)
        × ((u.processes first).root ≡ none)
        × ((u.processes second).root ≡ some (sleep object))
        × NoTimer second u.timers
  unfolding run_binding
  kill-shared_sleep object first second w n e e' fresh none_left =
      let v = record w {
        timers = (w.next_timer + 1, second) ∷ (w.next_timer, first) ∷ w.timers;
        next_timer = w.next_timer + 1 + 1;
        cancels =
            update (update w.cancels object (some w.next_timer)) object (some (w.next_timer + 1));
      } in
      let timers_left : remove_timer (w.next_timer + 1) v.timers
          ≡ (w.next_timer, first) ∷ w.timers =
        rw (==-self (w.next_timer + 1), next-ne w.next_timer)
          (ap (λ ts. (w.next_timer, first) ∷ ts) fresh) in
      (
        put_process first (record (w.processes first) { root = none })
            (record v { timers = remove_timer (w.next_timer + 1) v.timers }),
        kill_process-sleeping object first (w.next_timer + 1) v e (rw (==-self object)),
        timers_left,
        rw (==-self first),
        rw (flip first second n) e',
        subst (NoTimer second) (sym timers_left) (n, none_left),
      )
    where
      flip : (a b : ℕ) → (a == b) ≡ false → (b == a) ≡ false
      flip a b h = ground (arith, h)

module _ {K A : Type 0} (apply : K → Value A → Task K A) where
  -- The world after the sleep was started again.
  abbrev asleep : ℕ → ℕ → World K A → World K A
  asleep object pid v = record v {
    work_queue = [];
    working = false;
    timers = (v.next_timer, pid) ∷ v.timers;
    next_timer = v.next_timer + 1;
    cancels = update v.cancels object (some v.next_timer);
  }

  step-sleep :
      (left object pid : ℕ) (v : World K A)
      → (v.processes pid).root ≡ some (sleep object)
      → step apply (suc (suc left)) pid v
        ≡ (run_binding (sleep object) pid v >>= λ u. some (suc left, u))
  unfolding step
  step-sleep left object pid v e = rw (e, move, after_move) refl

  loop-sleep :
      (fuel left object pid : ℕ) (v : World K A)
      → v.work_queue ≡ pid ∷ []
      → (v.processes pid).root ≡ some (sleep object)
      → work_loop apply (suc (suc fuel)) (suc (suc left)) v ≡ finished (asleep object pid v)
  unfolding work_loop take_process run_process stepped step run_binding
  loop-sleep fuel left object pid v q e =
      rw (q, work_loop, take_process, e, run_process)
        (ap (stepped apply (work_loop apply (suc fuel)))
          (step-sleep left object pid (record v { work_queue = [] }) e))

  -- A message to a process that sleeps starts the sleep again: when nothing is in the work queue, then
  -- after the message the next call of `work` ends, and it has started a second timer for the process,
  -- beside those that were running; the process is still asleep, with the message in its mailbox.
  pub raw_send-restarts_sleep :
      (object pid : ℕ) (msg : Value A) (w : World K A)
      → (w.processes pid).root ≡ some (sleep object)
      → w.work_queue ≡ []
      → (u : World K A) × (work apply (raw_send pid msg w) ≡ finished u)
        × (u.timers ≡ (w.next_timer, pid) ∷ w.timers)
        × ((u.processes pid).root ≡ some (sleep object))
        × ((u.processes pid).mailbox ≡ (w.processes pid).mailbox ++ msg ∷ [])
  unfolding work raw_send enqueue
  raw_send-restarts_sleep object pid msg w e idle =
      let v = raw_send pid msg w in
      let queue : v.work_queue ≡ pid ∷ [] = ap (λ q. q ++ pid ∷ []) idle in
      let budget : length v.work_queue + 3 * max_steps + 1 ≡ 30002 =
        omega (arith, ap length queue) in
      (
        asleep object pid v,
        ap (λ fuel. work_loop apply fuel max_steps v) budget
            ∙ loop-sleep 30000 9998 object pid v queue (rw (==-self pid) e),
        refl,
        rw (==-self pid) e,
        rw (==-self pid) refl,
      )
