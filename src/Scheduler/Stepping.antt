-- ===== src/Scheduler/Stepping.antt =====
-- ui/dist/Main.js, `_elm_lang$core$Native_Scheduler`: `step` forgets no process.
use kubecast.Common.{
  ℕ, zero, suc, ◌≡◌, refl, Option, none, some, List, [], ◌∷◌, bind-eq-some, at_result,
}
use kubecast.Scheduler.{
  Value, Task, Frame, World, Move, put_process, enqueue, run_binding, succeeded, failed, received,
  move, after_move, step,
}
use kubecast.Scheduler.Task.{succeed, fail, and_then, on_error, receive, spawn, send, kill, sleep}
use kubecast.Scheduler.Frame.{after_success, after_error}
use kubecast.Scheduler.Move.{next, halt, native, throws}
use kubecast.Scheduler.Waking.{
  IdleProcess, Minded, AllBut, queue-Minded, run_binding-Minded, halt-Minded, AllBut-put,
}

-- A move at which the process stops leaves it where it cannot go on.
abbrev Stops : {K A : Type 0} → Option (Task K A) → Move K A → Type 0
Stops root (next p) = Unit
Stops root (halt p) = IdleProcess p
Stops root (native task) = root ≡ some task
Stops root throws = Unit

module _ {K A : Type 0} (apply : K → Value A → Task K A) where
  succeeded-Stops :
      (v : Value A) (stack : List (Frame K A)) (mailbox : List (Value A))
      → Stops (some (succeed v)) (succeeded apply v stack mailbox)
  unfolding succeeded
  succeeded-Stops v [] mailbox = refl
  succeeded-Stops v (after_success f ∷ stack) mailbox = tt
  succeeded-Stops v (after_error f ∷ stack) mailbox = succeeded-Stops v stack mailbox

  failed-Stops :
      (e : Value A) (stack : List (Frame K A)) (mailbox : List (Value A))
      → Stops (some (fail e)) (failed apply e stack mailbox)
  unfolding failed
  failed-Stops e [] mailbox = refl
  failed-Stops e (after_error f ∷ stack) mailbox = tt
  failed-Stops e (after_success f ∷ stack) mailbox = failed-Stops e stack mailbox

  move-Stops :
      (root : Option (Task K A)) (stack : List (Frame K A)) (mailbox : List (Value A))
      → Stops root (move apply root stack mailbox)
  unfolding move received
  move-Stops none stack mailbox = tt
  move-Stops (some (succeed v)) stack mailbox = succeeded-Stops v stack mailbox
  move-Stops (some (fail e)) stack mailbox = failed-Stops e stack mailbox
  move-Stops (some (and_then f task)) stack mailbox = tt
  move-Stops (some (on_error f task)) stack mailbox = tt
  move-Stops (some (receive f)) stack [] = refl
  move-Stops (some (receive f)) stack (msg ∷ mailbox) = tt
  move-Stops (some (spawn task)) stack mailbox = refl
  move-Stops (some (send to msg)) stack mailbox = refl
  move-Stops (some (kill victim)) stack mailbox = refl
  move-Stops (some (sleep object)) stack mailbox = refl

  after_move-Minded :
      (go : World K A → Option (ℕ × World K A)) (left pid : ℕ) (m : Move K A) (w : World K A)
      {left' : ℕ} {w' : World K A} (i : ℕ)
      → ((v : World K A) → AllBut pid v → go v ≡ some (left', w') → Minded w' i)
      → Stops (w.processes pid).root m
      → after_move apply go left pid m w ≡ some (left', w')
      → AllBut pid w
      → Minded w' i
  unfolding after_move
  after_move-Minded go left pid (next p) w i ih st e h =
      ih (put_process pid p w) (AllBut-put pid p w h) e
  after_move-Minded go left pid (halt p) w i ih st e h =
      at_result (λ q. Minded q.1 i) e (halt-Minded pid p w i st h)
  after_move-Minded go left pid (native task) w i ih st e h =
      let (v, e1, e2) = bind-eq-some (run_binding task pid w) _ e in
      at_result (λ q. Minded q.1 i) e2 (run_binding-Minded task pid w i st e1 h)
  after_move-Minded go left pid throws w i ih st e h = cc

  -- `step` forgets no process, the one that runs included.
  pub step-Minded :
      (left pid : ℕ) (w : World K A) {left' : ℕ} {w' : World K A}
      → step apply left pid w ≡ some (left', w')
      → AllBut pid w
      → (i : ℕ) → Minded w' i
  unfolding step enqueue
  step-Minded zero pid w e h i = at_result (λ q. Minded q.1 i) e (queue-Minded pid w i (h i))
  step-Minded (suc left) pid w e h i =
      after_move-Minded (step apply left pid) left pid _ w i
        (λ v h' e'. step-Minded left pid v e' h' i)
        (move-Stops (w.processes pid).root (w.processes pid).stack (w.processes pid).mailbox) e h
