-- ===== src/Scheduler/Meaning.antt =====
-- ui/dist/Main.js, `_elm_lang$core$Native_Scheduler`: what `andThen` and `onError` mean, apart from
-- stacks and steps, and that `step` computes it.
use kubecast.Common.{
  ℕ, suc, ◌+◌, ◌≡◌, refl, ap, ◌∙◌, arith, some, List, [], ◌∷◌, ◌==◌, if◌then◌else◌, Bool, true,
  false, subst,
}
use mathlib.Core.Path.{fun_ext}
use kubecast.Scheduler.{
  Value, Task, Frame, Process, World, put_process, succeeded, failed, move, after_move, step,
}
use kubecast.Scheduler.Task.{succeed, fail, and_then, on_error}
use kubecast.Scheduler.Frame.{after_success, after_error}
use kubecast.Scheduler.Move.{next, halt}

pub data Outcome (A : Type 0) : Type 0 where
  returned : Value A → Outcome A
  raised : Value A → Outcome A

abbrev pub as_task : {K A : Type 0} → Outcome A → Task K A
as_task (returned v) = succeed v
as_task (raised e) = fail e

abbrev pub process : {K A : Type 0} → Task K A → List (Frame K A) → List (Value A) → Process K A
process task stack mailbox = record { root = some task; stack = stack; mailbox = mailbox }

pub ==-self : (n : ℕ) → (n == n) ≡ true
==-self n = ground arith

module _ {K A : Type 0} (apply : K → Value A → Task K A) where
  -- A task evaluates to an outcome, in a number of steps: `andThen` goes on with a result and passes an
  -- error on, and `onError` the other way round.
  pub data Evaluates : Task K A → Outcome A → ℕ → Type 0 where
    succeeds : (v : Value A) → Evaluates (succeed v) (returned v) 0
    fails : (e : Value A) → Evaluates (fail e) (raised e) 0
    then_goes_on :
        {f : K} {task : Task K A} {v : Value A} {r : Outcome A} {m n : ℕ}
        → Evaluates task (returned v) m
        → Evaluates (apply f v) r n
        → Evaluates (and_then f task) r (suc (m + suc n))
    then_passes_on :
        {f : K} {task : Task K A} {e : Value A} {m : ℕ}
        → Evaluates task (raised e) m
        → Evaluates (and_then f task) (raised e) (suc m)
    error_passes_on :
        {f : K} {task : Task K A} {v : Value A} {m : ℕ}
        → Evaluates task (returned v) m
        → Evaluates (on_error f task) (returned v) (suc m)
    error_goes_on :
        {f : K} {task : Task K A} {e : Value A} {r : Outcome A} {m n : ℕ}
        → Evaluates task (raised e) m
        → Evaluates (apply f e) r n
        → Evaluates (on_error f task) r (suc (m + suc n))

  -- A number of rounds of `step` at which a process goes on.
  pub data Moves : ℕ → Process K A → Process K A → Type 0 where
    stay : (p : Process K A) → Moves 0 p p
    go :
        {n : ℕ} (p : Process K A) {q r : Process K A}
        → move apply p.root p.stack p.mailbox ≡ next q
        → Moves n q r
        → Moves (suc n) p r

  pub Moves-trans : {m n : ℕ} {p q r : Process K A} → Moves m p q → Moves n q r → Moves (m + n) p r
  Moves-trans {n} {p} {r} (stay _) l = subst (λ k. Moves k p r) (omega arith) l
  Moves-trans {r} (go {n = m} p e k) l =
      subst (λ k. Moves k p r) (omega arith) (go p e (Moves-trans k l))

  put_put :
      (pid : ℕ) (p q : Process K A) (w : World K A)
      → put_process pid q (put_process pid p w) ≡ put_process pid q w
  put_put pid p q w =
      ap (λ f. record w { processes = f }) (fun_ext (λ i. at_id (i == pid) (w.processes i)))
    where
      at_id :
          (b : Bool) (x : Process K A)
          → (if b then q else if b then p else x) ≡ (if b then q else x)
      at_id true x = refl
      at_id false x = refl

  step_go :
      (left pid : ℕ) (p q : Process K A) (w : World K A)
      → move apply p.root p.stack p.mailbox ≡ next q
      → step apply (suc left) pid (put_process pid p w) ≡ step apply left pid (put_process pid q w)
  unfolding step
  step_go left pid p q w e =
      rw (==-self pid, e, after_move) (ap (step apply left pid) (put_put pid p q w))

  -- The rounds of a run of moves are those of `step`.
  pub Moves-step :
      {n : ℕ} {p q : Process K A}
      → Moves n p q
      → (left pid : ℕ) (w : World K A)
      → step apply (n + left) pid (put_process pid p w) ≡ step apply left pid (put_process pid q w)
  Moves-step (stay p) left pid w = ap (λ l. step apply l pid (put_process pid p w)) (omega arith)
  Moves-step (go {n} p {q} {r} e k) left pid w =
      ap (λ l. step apply l pid (put_process pid p w)) (omega arith)
      ∙ step_go (n + left) pid p q w e
      ∙ Moves-step k left pid w

  -- A task that evaluates moves to its outcome, whatever the stack; the frames that may be left on the
  -- stack are those that the outcome passes.
  pub Evaluates-Moves :
      {task : Task K A} {r : Outcome A} {n : ℕ}
      → Evaluates task r n
      → (stack : List (Frame K A)) (mailbox : List (Value A))
      → (left_over : List (Frame K A)) × Moves n
          (process task stack mailbox)
          (process (as_task r) left_over mailbox)
        × (move apply (some (as_task r)) left_over mailbox
            ≡ move apply (some (as_task r)) stack mailbox)
  unfolding move succeeded failed
  Evaluates-Moves (succeeds v) stack mailbox = (stack, stay _, refl)
  Evaluates-Moves (fails e) stack mailbox = (stack, stay _, refl)
  Evaluates-Moves (then_goes_on {f} {task} {v} k l) stack mailbox =
      let (over, moves, e) = Evaluates-Moves k (after_success f ∷ stack) mailbox in
      let (over', moves', e') = Evaluates-Moves l stack mailbox in
      (
        over',
        go (process (and_then f task) stack mailbox) refl
            (Moves-trans moves (go (process (succeed v) over mailbox) e moves')),
        e',
      )
  Evaluates-Moves (then_passes_on {f} {task} k) stack mailbox =
      let (over, moves, e) = Evaluates-Moves k (after_success f ∷ stack) mailbox in
      (over, go (process (and_then f task) stack mailbox) refl moves, e)
  Evaluates-Moves (error_passes_on {f} {task} k) stack mailbox =
      let (over, moves, e) = Evaluates-Moves k (after_error f ∷ stack) mailbox in
      (over, go (process (on_error f task) stack mailbox) refl moves, e)
  Evaluates-Moves (error_goes_on {f} {task} {e = err} k l) stack mailbox =
      let (over, moves, e) = Evaluates-Moves k (after_error f ∷ stack) mailbox in
      let (over', moves', e') = Evaluates-Moves l stack mailbox in
      (
        over',
        go (process (on_error f task) stack mailbox) refl
            (Moves-trans moves (go (process (fail err) over mailbox) e moves')),
        e',
      )

  pub step_halt :
      (left pid : ℕ) (p q : Process K A) (w : World K A)
      → move apply p.root p.stack p.mailbox ≡ halt q
      → step apply (suc left) pid (put_process pid p w) ≡ some (left, put_process pid q w)
  unfolding step
  step_halt left pid p q w e =
      rw (==-self pid, e, after_move) (ap (λ u. some (left, u)) (put_put pid p q w))

  halts :
      (r : Outcome A) (mailbox : List (Value A))
      → move apply (some (as_task r)) [] mailbox ≡ halt (process (as_task r) [] mailbox)
  unfolding move succeeded failed
  halts (returned v) mailbox = refl
  halts (raised e) mailbox = refl

  -- `step` computes what a task means: for a process with an empty stack whose task evaluates to an
  -- outcome in fewer steps than are left, `step` does not throw, leaves the outcome as the process's
  -- root with the stack empty and the mailbox as it was, changes nothing else, and counts the steps
  -- of the evaluation and one.
  pub step-Evaluates :
      {task : Task K A} {r : Outcome A} {n : ℕ}
      → Evaluates task r n
      → (left pid : ℕ) (mailbox : List (Value A)) (w : World K A)
      → step apply (n + suc left) pid (put_process pid (process task [] mailbox) w)
        ≡ some (left, put_process pid (process (as_task r) [] mailbox) w)
  step-Evaluates {r} k left pid mailbox w =
      let (over, moves, e) = Evaluates-Moves k [] mailbox in
      Moves-step moves (suc left) pid w
      ∙ step_halt left pid (process (as_task r) over mailbox) _ w (e ∙ halts r mailbox)
