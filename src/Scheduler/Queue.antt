-- ===== src/Scheduler/Queue.antt =====
-- ui/dist/Main.js, `_elm_lang$core$Native_Scheduler`: what the operations add to the work queue, and
-- how far `step` counts.
use kubecast.Common.{
  ℕ, zero, suc, ◌+◌, ◌-◌, ◌≤◌, ◌≡◌, refl, sym, ap, ◌∙◌, inl, inr, arith, Option, some, List, [],
  ◌∷◌, ◌++◌, length, bind-eq-some, Option-cases, append_assoc, append-nil, length-append, at_result,
}
use kubecast.Scheduler.{
  Value, Task, World, Move, enqueue, cancel, kill_process, run_binding, step, after_move,
  put_process, call_back, raw_spawn, raw_send,
}
use kubecast.Scheduler.Task.{succeed, fail, and_then, on_error, receive, spawn, send, kill, sleep}
use kubecast.Scheduler.Move.{next, halt, native, throws}

module _ {K A : Type 0} where
  -- What an operation adds behind a queue, and how much that is at most.
  pub record Appends (most : ℕ) (w w' : World K A) : Type 0 where
    pub added : List ℕ
    pub behind : w'.work_queue ≡ w.work_queue ++ added
    pub few : length added ≤ most

  cancel-queue : (root : Task K A) (w : World K A) → (cancel root w).work_queue ≡ w.work_queue
  unfolding cancel
  cancel-queue (sleep object) w = elim (Option-cases (w.cancels object)) [
    | inl e ↦ rw (e, cancel) refl
    | inr e ↦ rw (e.1, cancel) refl
  ]
  cancel-queue (succeed v) w = refl
  cancel-queue (fail e) w = refl
  cancel-queue (and_then f t) w = refl
  cancel-queue (on_error f t) w = refl
  cancel-queue (receive f) w = refl
  cancel-queue (spawn t) w = refl
  cancel-queue (send p m) w = refl
  cancel-queue (kill p) w = refl

  kill_process-queue :
      (pid : ℕ) (w w' : World K A) → kill_process pid w ≡ some w' → w'.work_queue ≡ w.work_queue
  unfolding kill_process
  kill_process-queue pid w w' e =
      let (root, e1, e2) = bind-eq-some (w.processes pid).root _ e in
      let same : (cancel root w).work_queue ≡ w'.work_queue = cc in sym same ∙ cancel-queue root w

  run_binding-Appends :
      (task : Task K A) (pid : ℕ) (w w' : World K A)
      → run_binding task pid w ≡ some w'
      → Appends 2 w w'
  unfolding run_binding call_back raw_spawn raw_send enqueue
  run_binding-Appends (spawn t) pid w w' e = at_result (Appends 2 w) e (record {
    added = w.guid ∷ pid ∷ [];
    behind = append_assoc w.work_queue _ _;
    few = omega arith;
  })
  run_binding-Appends (send p m) pid w w' e =
      at_result (Appends 2 w) e
        (record { added = p ∷ pid ∷ []; behind = append_assoc w.work_queue _ _; few = omega arith })
  run_binding-Appends (kill p) pid w w' e =
      let (v, e1, e2) = bind-eq-some (kill_process p w) _ e in
      at_result (Appends 2 w) e2 (record {
        added = pid ∷ [];
        behind = ap (λ q. q ++ pid ∷ []) (kill_process-queue p w v e1);
        few = omega arith;
      })
  run_binding-Appends (sleep object) pid w w' e =
      at_result (Appends 2 w) e
        (record { added = []; behind = sym (append-nil w.work_queue); few = omega arith })
  run_binding-Appends (succeed v) pid w w' e = cc
  run_binding-Appends (fail x) pid w w' e = cc
  run_binding-Appends (and_then f t) pid w w' e = cc
  run_binding-Appends (on_error f t) pid w w' e = cc
  run_binding-Appends (receive f) pid w w' e = cc

  pub length-Appends :
      {most : ℕ} (w w' : World K A)
      → Appends most w w'
      → length w'.work_queue ≤ length w.work_queue + most
  length-Appends w w' a =
      omega (arith, ap length a.behind, length-append w.work_queue a.added, a.few)

module _ {K A : Type 0} (apply : K → Value A → Task K A) where
  after_move-Appends :
      (go : World K A → Option (ℕ × World K A)) (left pid : ℕ) (m : Move K A) (w : World K A)
      {left' : ℕ} {w' : World K A}
      → ((v : World K A)
          → v.work_queue ≡ w.work_queue
          → go v ≡ some (left', w')
          → Appends 2 w w' × (left' ≤ left))
      → after_move apply go left pid m w ≡ some (left', w')
      → Appends 2 w w' × (left' ≤ left)
  unfolding after_move
  after_move-Appends go left pid (next p) w ih e = ih (put_process pid p w) refl e
  after_move-Appends go left pid (halt p) w ih e =
      at_result (λ p. Appends 2 w p.1 × (p.0 ≤ left)) e
        (
          record { added = []; behind = sym (append-nil w.work_queue); few = omega arith },
          omega arith,
        )
  after_move-Appends go left pid (native task) w ih e =
      let (v, e1, e2) = bind-eq-some (run_binding task pid w) _ e in
      at_result (λ p. Appends 2 w p.1 × (p.0 ≤ left)) e2
        (run_binding-Appends task pid w v e1, omega arith)
  after_move-Appends go left pid throws w ih e = cc

  -- `step` adds two processes at most, and counts a round unless there is none left.
  pub step-Appends :
      (left pid : ℕ) (w : World K A) {left' : ℕ} {w' : World K A}
      → step apply left pid w ≡ some (left', w')
      → Appends 2 w w' × (left' ≤ left - 1)
  unfolding step enqueue
  step-Appends zero pid w e =
      at_result (λ p. Appends 2 w p.1 × (p.0 ≤ 0 - 1)) e
        (record { added = pid ∷ []; behind = refl; few = omega arith }, omega arith)
  step-Appends (suc left) pid w e =
      let (a, l) =
        after_move-Appends (step apply left pid) left pid _ w
          (λ v same e.
            let (a, l) = step-Appends left pid v e in
            (
              record {
                added = a.added;
                behind = a.behind ∙ ap (λ q. q ++ a.added) same;
                few = a.few;
              },
              omega arith,
            ))
          e in
      (a, omega arith)
