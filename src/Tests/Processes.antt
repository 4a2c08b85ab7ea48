-- ===== src/Tests/Processes.antt =====
-- Runs of the theorems on the scheduler and the platform, with callbacks that return what they get.
use kubecast.Common.{
  ℕ, suc, ◌+◌, ◌≡◌, ◌<◌, refl, true, false, some, none, [], ◌∷◌, length, get_elem?, arith, inl, inr,
  ◌⊎◌, ◌++◌, Bool-cases, ◌==◌, ◌>>=◌,
}
use kubecast.Scheduler.{
  Value, value, Task, succeed, and_then, sleep, World, max_steps, put_process, raw_spawn, raw_send,
  run_binding, kill_process, step, update,
}
use kubecast.Scheduler.Waking.{same}
use kubecast.Scheduler.Work.{Stimulus, finished, threw, History, begin, then_worked, work}
use kubecast.Scheduler.Serving.{Breaks, Ends, work-Ends}
use kubecast.Scheduler.Fairness.{taken_in, taken_in_turn}
use kubecast.Scheduler.Invariant.{IsValid, work-IsValid}
use kubecast.Scheduler.Meaning.{process, succeeds, then_goes_on, step-Evaluates}
use kubecast.Scheduler.Killing.{NoTimer, kill-shared_sleep, raw_send-restarts_sleep}

-- A callback returns what it gets.
abbrev same_again : ℕ → Value ℕ → Task ℕ ℕ
same_again f v = succeed v

abbrev start : World ℕ ℕ
start = record {
  processes = λ i. record { root = none; stack = []; mailbox = [] };
  guid = 0;
  work_queue = [];
  working = false;
  scheduled = 0;
  timers = [];
  next_timer = 0;
  cancels = λ i. none;
}

abbrev task : Task ℕ ℕ
task = and_then 0 (succeed (value 7))

work-Ends_example :
    Ends same_again max_steps (raw_spawn task start) (work same_again (raw_spawn task start))
work-Ends_example = work-Ends same_again (raw_spawn task start)

-- One process that is done, in a queue of one.
abbrev waiting : World ℕ ℕ
waiting = record start {
  processes = update start.processes 0 (process (succeed (value 7)) [] []);
  work_queue = 0 ∷ [];
  working = true;
  scheduled = 1;
}

abbrev served : World ℕ ℕ
served = record waiting {
  processes = update waiting.processes 0 (process (succeed (value 7)) [] []);
  work_queue = [];
  working = false;
  scheduled = 0;
}

one_call : History same_again waiting 1 served
unfolding work
one_call = then_worked {due = 0} begin refl refl

waiting-IsValid : IsValid same_again waiting
waiting-IsValid = record {
  minded =
      λ i. elim (Bool-cases (i == 0)) [ inl y ↦ inl (inl (same i 0 y)) | inr n ↦ inr (rw n tt) ];
  due = refl;
  awake = inl refl;
}

work-IsValid_example :
    ((u : World ℕ ℕ) → Stimulus same_again waiting u → IsValid same_again u)
    × ((due : ℕ)
        → waiting.scheduled ≡ suc due
        → ((work same_again (record waiting { scheduled = due }) ≡ threw)
            × Breaks same_again max_steps (record waiting { scheduled = due }))
          ⊎ ((u : World ℕ ℕ) × (work same_again (record waiting { scheduled = due }) ≡ finished u)
              × IsValid same_again u))
work-IsValid_example = work-IsValid same_again waiting waiting-IsValid

taken_in_turn_example :
    (0 < length (taken_in same_again one_call))
    × (get_elem? 0 (taken_in same_again one_call) ≡ get_elem? 0 waiting.work_queue)
taken_in_turn_example = taken_in_turn same_again one_call 0 (omega arith) (omega arith)

step-Evaluates_example :
    step same_again (suc (0 + suc 0) + suc 5) 0 (put_process 0 (process task [] []) start)
    ≡ some (5, put_process 0 (process (succeed (value 7)) [] []) start)
step-Evaluates_example =
    step-Evaluates same_again (then_goes_on (succeeds (value 7)) (succeeds (value 7))) 5 0 [] start

-- Two processes at one object.
abbrev sleepers : World ℕ ℕ
sleepers = record start {
  processes = λ i. record { root = some (sleep 3); stack = []; mailbox = [] };
}

kill-shared_sleep_example :
    (u : World ℕ ℕ) × ((run_binding (sleep 3) 0 sleepers >>= λ v.
    run_binding (sleep 3) 1 v >>= λ v'. kill_process 0 v')
      ≡ some u)
    × (u.timers ≡ (sleepers.next_timer, 0) ∷ sleepers.timers)
    × ((u.processes 0).root ≡ none)
    × ((u.processes 1).root ≡ some (sleep 3))
    × NoTimer 1 u.timers
kill-shared_sleep_example = kill-shared_sleep 3 0 1 sleepers refl refl refl refl tt

raw_send-restarts_sleep_example :
    (u : World ℕ ℕ) × (work same_again (raw_send 0 (value 1) sleepers) ≡ finished u)
    × (u.timers ≡ (sleepers.next_timer, 0) ∷ sleepers.timers)
    × ((u.processes 0).root ≡ some (sleep 3))
    × ((u.processes 0).mailbox ≡ (sleepers.processes 0).mailbox ++ value 1 ∷ [])
raw_send-restarts_sleep_example =
    raw_send-restarts_sleep same_again 3 0 (value 1) sleepers refl refl
