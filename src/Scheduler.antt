-- ===== src/Scheduler.antt =====
-- ui/dist/Main.js, `_elm_lang$core$Native_Scheduler`: tasks, processes and the work queue.
--
-- A process is named by its id, and the table of the processes is a function: an id that no process
-- has yet names one that is dead. A task that sleeps has the identity of its object, since the
-- scheduler keeps the function that cancels it in a field of that object.
pub mod Work
pub mod Queue
pub mod Serving
pub mod Fairness
pub mod Waking
pub mod Stepping
pub mod Invariant
pub mod Meaning
pub mod Killing
pub mod Throwing
pub mod Sending
use kubecast.Common.{
  ℕ, zero, suc, ◌+◌, Bool, true, Option, none, some, List, [], ◌∷◌, ◌++◌, ◌==◌, if◌then◌else◌,
  ◌>>=◌,
}

pub data Value (A : Type 0) : Type 0 where
  tuple_0 : Value A
  process_id : ℕ → Value A
  value : A → Value A

-- Callbacks are of a type `K` of function objects, and values carry an `A` of the program.
-- `succeed`, `fail`, `andThen`, `onError`, `receive`, and the native bindings `spawn`, `send`, `kill`
-- and `sleep`.
pub data Task (K A : Type 0) : Type 0 where
  succeed : Value A → Task K A
  fail : Value A → Task K A
  and_then : K → Task K A → Task K A
  on_error : K → Task K A → Task K A
  receive : K → Task K A
  spawn : Task K A → Task K A
  send : ℕ → Value A → Task K A
  kill : ℕ → Task K A
  sleep : ℕ → Task K A

pub data Frame (K A : Type 0) : Type 0 where
  after_success : K → Frame K A
  after_error : K → Frame K A

-- The root is `none` when the process was killed.
pub record Process (K A : Type 0) : Type 0 where
  pub root : Option (Task K A)
  pub stack : List (Frame K A)
  pub mailbox : List (Value A)

-- `scheduled` counts the calls `setTimeout(work, 0)` that are pending, `timers` those of `sleep`, each
-- with its id and the process that it wakes; `cancels` has the timer that a task's `cancel` clears.
pub record World (K A : Type 0) : Type 0 where
  pub processes : ℕ → Process K A
  pub guid : ℕ
  pub work_queue : List ℕ
  pub working : Bool
  pub scheduled : ℕ
  pub timers : List (ℕ × ℕ)
  pub next_timer : ℕ
  pub cancels : ℕ → Option ℕ

abbrev pub max_steps : ℕ
max_steps = 10000

abbrev pub update : {B : Type 0} → (ℕ → B) → ℕ → B → ℕ → B
update f k b i = if i == k then b else f i

-- `clearTimeout`.
abbrev pub remove_timer : ℕ → List (ℕ × ℕ) → List (ℕ × ℕ)
remove_timer id [] = []
remove_timer id ((i, pid) ∷ timers) =
    let rest = remove_timer id timers in if i == id then rest else (i, pid) ∷ rest

module _ {K A : Type 0} where
  abbrev pub put_process : ℕ → Process K A → World K A → World K A
  put_process pid p w = record w { processes = update w.processes pid p }

  unfoldable pub enqueue : ℕ → World K A → World K A
  enqueue pid w = record w {
    work_queue = w.work_queue ++ pid ∷ [];
    working = true;
    scheduled = if w.working then w.scheduled else w.scheduled + 1;
  }

  -- The new process has the id that `guid` gives.
  unfoldable pub raw_spawn : Task K A → World K A → World K A
  unfolding enqueue
  raw_spawn task w = enqueue w.guid (
      put_process w.guid (record { root = some task; stack = []; mailbox = [] })
        (record w { guid = w.guid + 1 }))

  unfoldable pub raw_send : ℕ → Value A → World K A → World K A
  unfolding enqueue
  raw_send pid msg w =
      let p = w.processes pid in
      enqueue pid (put_process pid (record p { mailbox = p.mailbox ++ msg ∷ [] }) w)

  -- The callback that `step` hands to a native binding.
  unfoldable pub call_back : ℕ → Task K A → World K A → World K A
  unfolding enqueue
  call_back pid new_root w =
      enqueue pid (put_process pid (record (w.processes pid) { root = some new_root }) w)

  abbrev clear_timeout : Option ℕ → World K A → World K A
  clear_timeout none w = w
  clear_timeout (some id) w = record w { timers = remove_timer id w.timers }

  -- `root.cancel()`, for a root with that field.
  unfoldable pub cancel : Task K A → World K A → World K A
  cancel (sleep object) w = clear_timeout (w.cancels object) w
  cancel task w = w

  -- `kill` reads the constructor of the root, which throws if there is none.
  unfoldable pub kill_process : ℕ → World K A → Option (World K A)
  unfolding cancel
  kill_process pid w =
      let p = w.processes pid in
      p.root >>= λ root. some (put_process pid (record p { root = none }) (cancel root w))

  -- `process.root.callback(...)` of a native binding; `sleep` calls back later. `none` is an
  -- exception.
  unfoldable pub run_binding : Task K A → ℕ → World K A → Option (World K A)
  unfolding raw_spawn raw_send call_back kill_process
  run_binding (spawn task) pid w =
      some (call_back pid (succeed (process_id w.guid)) (raw_spawn task w))
  run_binding (send to msg) pid w = some (call_back pid (succeed tuple_0) (raw_send to msg w))
  run_binding (kill victim) pid w =
      kill_process victim w >>= λ w'. some (call_back pid (succeed tuple_0) w')
  run_binding (sleep object) pid w = some (record w {
    timers = (w.next_timer, pid) ∷ w.timers;
    next_timer = w.next_timer + 1;
    cancels = update w.cancels object (some w.next_timer);
  })
  run_binding task pid w = none

-- What one round of the loop of `step` does to a process: go on, stop, or call a native binding.
pub data Move (K A : Type 0) : Type 0 where
  next : Process K A → Move K A
  halt : Process K A → Move K A
  native : Task K A → Move K A
  throws : Move K A

-- `apply` is the call of a callback.
module _ {K A : Type 0} (apply : K → Value A → Task K A) where
  -- A result is handed to the first frame that takes it; the frames above are popped.
  unfoldable pub succeeded : Value A → List (Frame K A) → List (Value A) → Move K A
  succeeded v [] mailbox = halt (record { root = some (succeed v); stack = []; mailbox = mailbox })
  succeeded v (after_error f ∷ stack) mailbox = succeeded v stack mailbox
  succeeded v (after_success f ∷ stack) mailbox =
      next (record { root = some (apply f v); stack = stack; mailbox = mailbox })

  unfoldable pub failed : Value A → List (Frame K A) → List (Value A) → Move K A
  failed e [] mailbox = halt (record { root = some (fail e); stack = []; mailbox = mailbox })
  failed e (after_success f ∷ stack) mailbox = failed e stack mailbox
  failed e (after_error f ∷ stack) mailbox =
      next (record { root = some (apply f e); stack = stack; mailbox = mailbox })

  unfoldable pub received : K → List (Frame K A) → List (Value A) → Move K A
  received f stack [] = halt (record { root = some (receive f); stack = stack; mailbox = [] })
  received f stack (msg ∷ mailbox) =
      next (record { root = some (apply f msg); stack = stack; mailbox = mailbox })

  unfoldable pub move : Option (Task K A) → List (Frame K A) → List (Value A) → Move K A
  unfolding succeeded failed received
  move none stack mailbox = throws
  move (some (succeed v)) stack mailbox = succeeded v stack mailbox
  move (some (fail e)) stack mailbox = failed e stack mailbox
  move (some (and_then f task)) stack mailbox =
      next (record { root = some task; stack = after_success f ∷ stack; mailbox = mailbox })
  move (some (on_error f task)) stack mailbox =
      next (record { root = some task; stack = after_error f ∷ stack; mailbox = mailbox })
  move (some (receive f)) stack mailbox = received f stack mailbox
  move (some task) stack mailbox = native task

  -- The rest of a round of `step`, whose other rounds are `go`.
  unfoldable pub after_move :
      (World K A → Option (ℕ × World K A)) → ℕ → ℕ → Move K A → World K A → Option (ℕ × World K A)
  unfolding run_binding
  after_move go left pid (next p) w = go (put_process pid p w)
  after_move go left pid (halt p) w = some (left, put_process pid p w)
  after_move go left pid (native task) w = run_binding task pid w >>= λ w'. some (left, w')
  after_move go left pid throws w = none

  -- `step` of a process, with the rounds that are left below `MAX_STEPS` in place of the steps made.
  unfoldable pub step : ℕ → ℕ → World K A → Option (ℕ × World K A)
  unfolding move enqueue after_move
  step zero pid w = some (0, enqueue pid w)
  step (suc left) pid w =
      let p = w.processes pid in
      after_move (step left pid) left pid (move p.root p.stack p.mailbox) w
