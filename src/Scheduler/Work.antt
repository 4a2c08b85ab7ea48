-- ===== src/Scheduler/Work.antt =====
-- ui/dist/Main.js, `_elm_lang$core$Native_Scheduler`: `work`, which runs the processes of the queue,
-- and the events by which the page's other code and its timers act on the scheduler.
use kubecast.Common.{
  ℕ, zero, suc, ◌+◌, ◌*◌, false, Option, none, some, List, [], ◌∷◌, ◌==◌, if◌then◌else◌, length,
  ◌≡◌,
}
use kubecast.Scheduler.{
  Value, Task, succeed, tuple_0, World, max_steps, remove_timer, raw_spawn, raw_send, call_back,
  step,
}

-- How a call of `work` ends; the loop of the program has no third way.
pub data Run (K A : Type 0) : Type 0 where
  finished : World K A → Run K A
  threw : Run K A
  out_of_fuel : Run K A

-- The process of a timer.
abbrev pub find_timer : ℕ → List (ℕ × ℕ) → Option ℕ
find_timer id [] = none
find_timer id ((i, pid) ∷ timers) = if i == id then some pid else find_timer id timers

module _ {K A : Type 0} (apply : K → Value A → Task K A) where
  -- After `step`, the loop goes on with `go`.
  unfoldable pub stepped : (ℕ → World K A → Run K A) → Option (ℕ × World K A) → Run K A
  stepped go none = threw
  stepped go (some (left, w)) = go left w

  -- A process that was killed is passed over.
  unfoldable pub run_process :
      (ℕ → World K A → Run K A) → ℕ → ℕ → World K A → Option (Task K A) → Run K A
  unfolding step stepped
  run_process go left pid w none = go (suc left) w
  run_process go left pid w (some task) = stepped go (step apply (suc left) pid w)

  unfoldable pub take_process : (ℕ → World K A → Run K A) → ℕ → World K A → List ℕ → Run K A
  unfolding run_process
  take_process go left w [] = finished (record w { working = false })
  take_process go left w (pid ∷ queue) =
      run_process go left pid (record w { work_queue = queue }) (w.processes pid).root

  -- The loop of `work` on fuel, with the rounds that are left below `MAX_STEPS`. With none left, the
  -- last process that it took is one, so `work` is scheduled again.
  unfoldable pub work_loop : ℕ → ℕ → World K A → Run K A
  unfolding take_process
  work_loop zero left w = out_of_fuel
  work_loop (suc fuel) zero w = finished (record w { scheduled = w.scheduled + 1 })
  work_loop (suc fuel) (suc left) w = take_process (work_loop fuel) left w w.work_queue

  -- Each round takes a process from the queue, and one that runs adds two at most.
  unfoldable pub work : World K A → Run K A
  unfolding work_loop
  work w = work_loop (length w.work_queue + 3 * max_steps + 1) max_steps w

  -- What other code does to the scheduler: the browser calls the callback of a timer, or a message is
  -- sent, or a process started.
  pub data Stimulus (w : World K A) : World K A → Type 0 where
    woke :
        (id : ℕ) {pid : ℕ}
        → find_timer id w.timers ≡ some pid
        → Stimulus w
            (call_back pid (succeed tuple_0) (record w { timers = remove_timer id w.timers }))
    sent : (pid : ℕ) (msg : Value A) → Stimulus w (raw_send pid msg w)
    spawned : (task : Task K A) → Stimulus w (raw_spawn task w)

  -- A history with the number of calls of `work` in it, each due when the browser makes it. A history
  -- ends before a call that throws.
  pub data History (w : World K A) : ℕ → World K A → Type 0 where
    begin : History w 0 w
    later : {n : ℕ} {v u : World K A} → History w n v → Stimulus v u → History w n u
    then_worked :
        {n due : ℕ} {v u : World K A}
        → History w n v
        → v.scheduled ≡ suc due
        → work (record v { scheduled = due }) ≡ finished u
        → History w (suc n) u
