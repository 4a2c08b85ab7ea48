-- ===== src/Scheduler/Serving.antt =====
-- ui/dist/Main.js, `_elm_lang$core$Native_Scheduler`: `work` as a relation that names the processes
-- which a call takes from the queue.
use kubecast.Common.{
  ℕ, zero, suc, ◌+◌, ◌*◌, ◌≤◌, ◌<◌, ◌≡◌, refl, subst, arith, false, Option, none, some, List, [],
  ◌∷◌, length,
}
use kubecast.Scheduler.{Value, Task, World, max_steps, step}
use kubecast.Scheduler.Work.{
  Run, finished, threw, out_of_fuel, stepped, run_process, take_process, work_loop, work,
}
use kubecast.Scheduler.Throwing.{KillsDead, step-throws}
use kubecast.Scheduler.Queue.{step-Appends, length-Appends}

module _ {K A : Type 0} (apply : K → Value A → Task K A) where
  -- The loop of `work` with the rounds that are left, from a world to the one it leaves, and the
  -- processes that it takes from the queue, in order.
  pub data Serves : ℕ → World K A → List ℕ → World K A → Type 0 where
    full : (w : World K A) → Serves zero w [] (record w { scheduled = w.scheduled + 1 })
    idle :
        (left : ℕ) (w : World K A)
        → w.work_queue ≡ []
        → Serves (suc left) w [] (record w { working = false })
    skips :
        (left : ℕ) (w : World K A) (pid : ℕ) (queue : List ℕ) {taken : List ℕ} {u : World K A}
        → w.work_queue ≡ pid ∷ queue
        → (w.processes pid).root ≡ none
        → Serves (suc left) (record w { work_queue = queue }) taken u
        → Serves (suc left) w (pid ∷ taken) u
    runs :
        (left : ℕ) (w : World K A) (pid : ℕ) (queue : List ℕ) {taken : List ℕ} {u : World K A}
        {left' : ℕ} {v : World K A}
        → w.work_queue ≡ pid ∷ queue
        → step apply (suc left) pid (record w { work_queue = queue }) ≡ some (left', v)
        → Serves left' v taken u
        → Serves (suc left) w (pid ∷ taken) u

  -- A call that ends because `step` throws, at a process that is taken from the queue and comes to
  -- kill a dead one.
  pub data Breaks : ℕ → World K A → Type 0 where
    skips_then :
        (left : ℕ) (w : World K A) (pid : ℕ) (queue : List ℕ)
        → w.work_queue ≡ pid ∷ queue
        → (w.processes pid).root ≡ none
        → Breaks (suc left) (record w { work_queue = queue })
        → Breaks (suc left) w
    runs_then :
        (left : ℕ) (w : World K A) (pid : ℕ) (queue : List ℕ) {left' : ℕ} {v : World K A}
        → w.work_queue ≡ pid ∷ queue
        → step apply (suc left) pid (record w { work_queue = queue }) ≡ some (left', v)
        → Breaks left' v
        → Breaks (suc left) w
    breaks :
        (left : ℕ) (w : World K A) (pid : ℕ) (queue : List ℕ)
        → w.work_queue ≡ pid ∷ queue
        → step apply (suc left) pid (record w { work_queue = queue }) ≡ none
        → KillsDead apply pid (record w { work_queue = queue })
        → Breaks (suc left) w

  -- A call that ends well, or that an exception ends.
  abbrev pub Ends : ℕ → World K A → Run K A → Type 0
  Ends left w out_of_fuel = ⊥
  Ends left w threw = Breaks left w
  Ends left w (finished u) = (taken : List ℕ) × Serves left w taken u

  Ends-later :
      (left left' : ℕ) (w v : World K A) (pid : ℕ) (r : Run K A)
      → ((taken : List ℕ) (u : World K A) → Serves left' v taken u → Serves left w (pid ∷ taken) u)
      → (Breaks left' v → Breaks left w)
      → Ends left' v r
      → Ends left w r
  Ends-later left left' w v pid out_of_fuel f g h = h
  Ends-later left left' w v pid threw f g h = g h
  Ends-later left left' w v pid (finished u) f g (taken, s) = (pid ∷ taken, f taken u s)

  stepped-Ends :
      (go : ℕ → World K A → Run K A) (left : ℕ) (w : World K A) (pid : ℕ) (queue : List ℕ)
      (r : Option (ℕ × World K A)) (task : Task K A)
      → w.work_queue ≡ pid ∷ queue
      → (w.processes pid).root ≡ some task
      → step apply (suc left) pid (record w { work_queue = queue }) ≡ r
      → ((left' : ℕ) (v : World K A)
          → length v.work_queue + 3 * left' ≤ length queue + 3 * left + 2
          → Ends left' v (go left' v))
      → Ends (suc left) w (stepped apply go r)
  unfolding stepped
  stepped-Ends go left w pid queue none task e er es ih =
      breaks left w pid queue e es
        (step-throws apply (suc left) pid (record w { work_queue = queue }) task er es)
  stepped-Ends go left w pid queue (some (left', v)) task e er es ih =
      let (a, l) = step-Appends apply (suc left) pid (record w { work_queue = queue }) es in
      let few = length-Appends (record w { work_queue = queue }) v a in
      Ends-later (suc left) left' w v pid (go left' v) (λ taken u s. runs left w pid queue e es s)
        (runs_then left w pid queue e es) (ih left' v (omega arith))

  run_process-Ends :
      (go : ℕ → World K A → Run K A) (left : ℕ) (w : World K A) (pid : ℕ) (queue : List ℕ)
      (root : Option (Task K A))
      → w.work_queue ≡ pid ∷ queue
      → (w.processes pid).root ≡ root
      → ((left' : ℕ) (v : World K A)
          → length v.work_queue + 3 * left' ≤ length queue + 3 * left + 3
          → Ends left' v (go left' v))
      → Ends (suc left) w (run_process apply go left pid (record w { work_queue = queue }) root)
  unfolding run_process
  run_process-Ends go left w pid queue none e er ih =
      Ends-later (suc left) (suc left) w (record w { work_queue = queue }) pid _
        (λ taken u s. skips left w pid queue e er s) (skips_then left w pid queue e er)
        (ih (suc left) (record w { work_queue = queue }) (omega arith))
  run_process-Ends go left w pid queue (some task) e er ih =
      stepped-Ends go left w pid queue _ task e er refl (λ l v h. ih l v (omega arith))

  take_process-Ends :
      (go : ℕ → World K A → Run K A) (left : ℕ) (w : World K A) (queue : List ℕ)
      → w.work_queue ≡ queue
      → ((left' : ℕ) (v : World K A)
          → length v.work_queue + 3 * left' < length queue + 3 * suc left
          → Ends left' v (go left' v))
      → Ends (suc left) w (take_process apply go left w queue)
  unfolding take_process
  take_process-Ends go left w [] e ih = ([], idle left w e)
  take_process-Ends go left w (pid ∷ queue) e ih =
      run_process-Ends go left w pid queue _ e refl (λ l v h. ih l v (omega arith))

  -- The loop comes to an end, if the fuel is more than three for each round that is left and one for
  -- each process in the queue.
  pub work_loop-Ends :
      (fuel left : ℕ) (w : World K A)
      → length w.work_queue + 3 * left < fuel
      → Ends left w (work_loop apply fuel left w)
  unfolding work_loop
  work_loop-Ends zero left w h = absurd (omega arith)
  work_loop-Ends (suc fuel) zero w h = ([], full w)
  work_loop-Ends (suc fuel) (suc left) w h =
      take_process-Ends (work_loop apply fuel) left w w.work_queue refl
        (λ l v h'. work_loop-Ends fuel l v (omega arith))

  -- Every call of `work` comes to an end: an exception ends it, since a process that it takes kills a
  -- dead one, or it serves processes of the queue within its budget of steps, and then leaves the
  -- world that this serving leaves.
  pub work-Ends : (w : World K A) → Ends max_steps w (work apply w)
  unfolding work
  work-Ends w = work_loop-Ends (length w.work_queue + 3 * max_steps + 1) max_steps w (omega arith)

  Ends-finished :
      {left : ℕ} {w u : World K A} (r : Run K A)
      → r ≡ finished u
      → Ends left w r
      → (taken : List ℕ) × Serves left w taken u
  Ends-finished {left} {w} r e h = subst (Ends left w) e h

  pub work-Serves :
      {w u : World K A} → work apply w ≡ finished u → (taken : List ℕ) × Serves max_steps w taken u
  work-Serves {w} e = Ends-finished (work apply w) e (work-Ends w)
