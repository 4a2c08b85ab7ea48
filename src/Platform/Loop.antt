-- ===== src/Platform/Loop.antt =====
-- ui/dist/Main.js, `_elm_lang$core$Native_Platform`: a loop whose tasks call no native binding
-- handles its messages in order.
use kubecast.Common.{ℕ, suc, ◌+◌, ◌≡◌, refl, sym, ap, ◌∙◌, some, List, [], ◌∷◌}
use kubecast.Scheduler.Sending.{send_all, put_self, spawned-process}
use kubecast.Scheduler.{Value, Task, Process, World, put_process, succeeded, received, move, step}
use kubecast.Scheduler.Task.{succeed, and_then, receive}
use kubecast.Scheduler.Frame.{after_success}
use kubecast.Scheduler.Meaning.{
  process, returned, Evaluates, Moves, stay, go, Moves-trans, Moves-step, Evaluates-Moves,
  step_halt,
}
use kubecast.Platform.{Callback, loop, handle, apply, spawn_loop}

module _ {Manager Other A : Type 0}
    (on_message : Manager → Value A → Value A → Task (Callback Manager Other A) A)
    (apply_other : Other → Value A → Task (Callback Manager Other A) A) where
  abbrev calls : Callback Manager Other A → Value A → Task (Callback Manager Other A) A
  calls = apply on_message apply_other

  -- A manager at a state, waiting for a message.
  abbrev pub waiting : Manager → Value A → List (Value A) → Process (Callback Manager Other A) A
  waiting manager state mailbox =
      process (receive (handle manager state)) (after_success (loop manager) ∷ []) mailbox

  -- The states that the messages of a mailbox lead to, each handled by a task that returns.
  pub data Handles (manager : Manager) : Value A → List (Value A) → Value A → Type 0 where
    none_left : (state : Value A) → Handles manager state [] state
    handles :
        {state : Value A} (msg : Value A) {mailbox : List (Value A)} {state' last : Value A} {n : ℕ}
        → Evaluates calls (on_message manager msg state) (returned state') n
        → Handles manager state' mailbox last
        → Handles manager state (msg ∷ mailbox) last

  loop_back :
      (manager : Manager) (state : Value A) (mailbox : List (Value A)) {n : ℕ}
      {task : Task (Callback Manager Other A) A}
      → Evaluates calls task (returned state) n
      → (m : ℕ) × Moves calls m
          (process task (after_success (loop manager) ∷ []) mailbox)
          (waiting manager state mailbox)
  unfolding move succeeded apply
  loop_back manager state mailbox {n} k =
      let (over, moves, e) = Evaluates-Moves calls k (after_success (loop manager) ∷ []) mailbox in
      (
        n + suc (suc 0),
        Moves-trans calls moves (
            go (process (succeed state) over mailbox) e (
              go (process (and_then (loop manager) (receive (handle manager state))) [] mailbox)
                refl (stay (waiting manager state mailbox)))),
      )

  Handles-Moves :
      (manager : Manager) (state : Value A) (mailbox : List (Value A)) {last : Value A}
      → Handles manager state mailbox last
      → (m : ℕ) × Moves calls m (waiting manager state mailbox) (waiting manager last [])
  unfolding move received apply
  Handles-Moves manager state [] (none_left _) = (0, stay _)
  Handles-Moves manager state (msg ∷ mailbox) {last = last} (handles _ {state' = state'} k h) =
      let (m, moves) = loop_back manager state' mailbox k in
      let (n, moves') = Handles-Moves manager state' mailbox h in
      (
        suc (m + n),
        go (waiting manager state (msg ∷ mailbox)) refl (Moves-trans calls moves moves'),
      )

  -- A loop whose tasks call no native binding, such as that of a port, handles its messages in order: if
  -- messages are sent to it when it was just started, and its first task and the tasks that handle
  -- them, each at the state that the one before left, come to a result by `andThen` and `onError`
  -- alone, then some number of rounds of `step` handles them all, and leaves the loop at the last
  -- state, waiting, with no message left; and nothing else is changed.
  pub handled_in_order :
      (manager : Manager) (init : Task (Callback Manager Other A) A) (msgs : List (Value A))
      {first last : Value A} {n : ℕ}
      → Evaluates calls init (returned first) n
      → Handles manager first msgs last
      → (m : ℕ) × ((left : ℕ) (w : World (Callback Manager Other A) A)
          → step calls (m + suc left) w.guid (send_all w.guid msgs (spawn_loop manager init w))
            ≡ some (
              left,
              put_process w.guid
                  (waiting manager last [])
                  (send_all w.guid msgs (spawn_loop manager init w)),
            ))
  unfolding move received spawn_loop
  handled_in_order manager init msgs {first} {last} k h =
      let (m, moves) = loop_back manager first msgs k in
      let (n, moves') = Handles-Moves manager first msgs h in
      let start = process (and_then (loop manager) init) [] msgs in
      let all : Moves calls (suc (m + n)) start (waiting manager last []) =
        go start refl (Moves-trans calls moves moves') in
      (
        suc (m + n),
        λ left w.
            let u = send_all w.guid msgs (spawn_loop manager init w) in
            ap (step calls (suc (m + n) + suc left) w.guid) (
              sym (put_self w.guid start u (spawned-process (and_then (loop manager) init) msgs w)))
            ∙ Moves-step calls all (suc left) w.guid u
            ∙ step_halt calls left w.guid (waiting manager last []) (waiting manager last []) u
                refl,
      )
