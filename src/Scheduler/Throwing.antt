-- ===== src/Scheduler/Throwing.antt =====
-- ui/dist/Main.js, `_elm_lang$core$Native_Scheduler`: `step` throws only where a process kills one that
-- is dead.
use kubecast.Common.{
  ℕ, zero, suc, ◌≡◌, ◌⊎◌, refl, sym, ap, ◌∙◌, inl, inr, arith, Option, none, some, List, [], ◌∷◌,
  ◌==◌, true, ◌>>=◌,
}
use kubecast.Scheduler.{
  Value, Task, Frame, Process, World, Move, put_process, kill_process, cancel, call_back, tuple_0,
  run_binding, succeeded, failed, received, move, after_move, step,
}
use kubecast.Scheduler.Task.{succeed, fail, and_then, on_error, receive, spawn, send, kill, sleep}
use kubecast.Scheduler.Frame.{after_success, after_error}
use kubecast.Scheduler.Move.{next, halt, native}

same_id : (n : ℕ) → (n == n) ≡ true
same_id n = ground arith

module _ {K A : Type 0} (apply : K → Value A → Task K A) where
  -- After some rounds of `step`, the process kills one that is dead.
  pub data KillsDead (pid : ℕ) : World K A → Type 0 where
    kills_now :
        (w : World K A) (victim : ℕ)
        → (w.processes pid).root ≡ some (kill victim)
        → (w.processes victim).root ≡ none
        → KillsDead pid w
    kills_later :
        (w : World K A) (p : Process K A)
        → move apply (w.processes pid).root (w.processes pid).stack (w.processes pid).mailbox
          ≡ next p
        → KillsDead pid (put_process pid p w)
        → KillsDead pid w

  -- A round goes on with a root, or stops.
  abbrev GoesOn : Move K A → Type 0
  GoesOn m =
      ((p : Process K A) × (task : Task K A) × (m ≡ next p) × (p.root ≡ some task))
      ⊎ ((p : Process K A) × (m ≡ halt p))

  succeeded-GoesOn :
      (v : Value A) (stack : List (Frame K A)) (mailbox : List (Value A))
      → GoesOn (succeeded apply v stack mailbox)
  unfolding succeeded
  succeeded-GoesOn v [] mailbox = inr (_, refl)
  succeeded-GoesOn v (after_error f ∷ stack) mailbox = succeeded-GoesOn v stack mailbox
  succeeded-GoesOn v (after_success f ∷ stack) mailbox = inl (_, _, refl, refl)

  failed-GoesOn :
      (e : Value A) (stack : List (Frame K A)) (mailbox : List (Value A))
      → GoesOn (failed apply e stack mailbox)
  unfolding failed
  failed-GoesOn e [] mailbox = inr (_, refl)
  failed-GoesOn e (after_success f ∷ stack) mailbox = failed-GoesOn e stack mailbox
  failed-GoesOn e (after_error f ∷ stack) mailbox = inl (_, _, refl, refl)

  received-GoesOn :
      (f : K) (stack : List (Frame K A)) (mailbox : List (Value A))
      → GoesOn (received apply f stack mailbox)
  unfolding received
  received-GoesOn f stack [] = inr (_, refl)
  received-GoesOn f stack (msg ∷ mailbox) = inl (_, _, refl, refl)

  -- What a root does in a round: it goes on or stops, or it is a native binding.
  abbrev Round : Task K A → Move K A → Type 0
  Round task m =
      GoesOn m
      ⊎ ((m ≡ native task)
          × (((victim : ℕ) × (task ≡ kill victim))
              ⊎ ((pid : ℕ) (w : World K A) → (v : World K A) × (run_binding task pid w ≡ some v))))

  move-Round :
      (task : Task K A) (stack : List (Frame K A)) (mailbox : List (Value A))
      → Round task (move apply (some task) stack mailbox)
  unfolding move run_binding
  move-Round (succeed v) stack mailbox = inl (succeeded-GoesOn v stack mailbox)
  move-Round (fail e) stack mailbox = inl (failed-GoesOn e stack mailbox)
  move-Round (and_then f task) stack mailbox = inl (inl (_, _, refl, refl))
  move-Round (on_error f task) stack mailbox = inl (inl (_, _, refl, refl))
  move-Round (receive f) stack mailbox = inl (received-GoesOn f stack mailbox)
  move-Round (spawn task) stack mailbox = inr (refl, inr (λ pid w. (_, refl)))
  move-Round (send to msg) stack mailbox = inr (refl, inr (λ pid w. (_, refl)))
  move-Round (kill victim) stack mailbox = inr (refl, inl (victim, refl))
  move-Round (sleep object) stack mailbox = inr (refl, inr (λ pid w. (_, refl)))

  kill-dead :
      (victim pid : ℕ) (w : World K A) (root : Option (Task K A))
      → (w.processes victim).root ≡ root
      → run_binding (kill victim) pid w ≡ none
      → root ≡ none
  unfolding run_binding kill_process
  kill-dead victim pid w none e f = refl
  kill-dead victim pid w (some root) e f = absurd (
      clash (
        sym f
        ∙ ap
            (λ (r : Option (Task K A)).
              (r >>= λ task.
              some
                (put_process victim (record (w.processes victim) { root = none }) (cancel task w)))
              >>= λ w'. some (call_back pid (succeed tuple_0) w'))
            e))
    where
      clash : {v : World K A} → none ≡ some v → ⊥
      clash e = cc

  abbrev with_left : ℕ → World K A → Option (ℕ × World K A)
  with_left left v = some (left, v)

  bind_none : (left : ℕ) (r : Option (World K A)) → (r >>= with_left left) ≡ none → r ≡ none
  bind_none left none e = refl
  bind_none left (some v) e = cc

  -- `step` of a process that is alive throws only if it comes to kill a dead one.
  pub step-throws :
      (left pid : ℕ) (w : World K A) (task : Task K A)
      → (w.processes pid).root ≡ some task
      → step apply left pid w ≡ none
      → KillsDead pid w
  unfolding step after_move
  step-throws zero pid w task e f = cc
  step-throws (suc left) pid w task e f =
      let p = w.processes pid in
      let here : move apply p.root p.stack p.mailbox ≡ move apply (some task) p.stack p.mailbox =
        ap (λ r. move apply r p.stack p.mailbox) e in
      elim (move-Round task p.stack p.mailbox) [
        | inl (inl (q, task', g, h)) ↦ kills_later w q (here ∙ g) (
            step-throws left pid (put_process pid q w) task' (rw (same_id pid) h)
              (sym (ap (λ m. after_move apply (step apply left pid) left pid m w) (here ∙ g)) ∙ f))
        | inl (inr (q, g)) ↦ absurd (
            clash
              (sym f ∙ ap (λ m. after_move apply (step apply left pid) left pid m w) (here ∙ g)))
        | inr (g, inl (victim, h)) ↦ kills_now w victim (e ∙ ap some h) (
            kill-dead victim pid w _ refl (
              bind_none left _ (
                sym (
                  ap (λ m. after_move apply (step apply left pid) left pid m w)
                    (here ∙ g ∙ ap native h))
                ∙ f)))
        | inr (g, inr runs) ↦ absurd (
            clash (
              sym f
              ∙ ap (λ m. after_move apply (step apply left pid) left pid m w) (here ∙ g)
              ∙ ap (λ r. r >>= with_left left) (runs pid w).1))
      ]
    where
      clash : {v : ℕ × World K A} → none ≡ some v → ⊥
      clash e = cc
