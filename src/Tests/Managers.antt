-- ===== src/Tests/Managers.antt =====
-- Runs of the theorems on the platform: a manager that keeps its last message, and a bag of three
-- commands.
use kubecast.Common.{ℕ, suc, ◌+◌, ◌≡◌, refl, true, false, some, none, List, [], ◌∷◌, ◌++◌}
use mathlib.Core.List.{reverse}
use kubecast.Text.{Str, codes}
use kubecast.Scheduler.{Value, value, Task, succeed, World, put_process, step}
use kubecast.Scheduler.Meaning.{succeeds}
use kubecast.Scheduler.Sending.{send_all}
use kubecast.Platform.{
  Callback, apply, spawn_loop, Bag, leaf, node, tagged, cons, nil, Effects, dispatch_effects,
}
use kubecast.Platform.Loop.{waiting, handles, none_left, handled_in_order}
use kubecast.Platform.Bags.{effects_for}
use kubecast.Platform.Dispatch.{dispatch_effects-mailbox}

-- A manager keeps its last message.
abbrev on_message : ℕ → Value ℕ → Value ℕ → Task (Callback ℕ ℕ ℕ) ℕ
on_message manager msg state = succeed msg

abbrev apply_other : ℕ → Value ℕ → Task (Callback ℕ ℕ ℕ) ℕ
apply_other f v = succeed v

abbrev msgs : List (Value ℕ)
msgs = value 1 ∷ value 2 ∷ []

handled_in_order_example :
    (m : ℕ) × ((left : ℕ) (w : World (Callback ℕ ℕ ℕ) ℕ)
      → step
          (apply on_message apply_other)
          (m + suc left)
          w.guid
          (send_all w.guid msgs (spawn_loop 4 (succeed (value 0)) w))
        ≡ some (
          left,
          put_process w.guid
              (waiting on_message apply_other 4 (value 2) [])
              (send_all w.guid msgs (spawn_loop 4 (succeed (value 0)) w)),
        ))
handled_in_order_example =
    handled_in_order on_message apply_other 4 (succeed (value 0)) msgs (succeeds (value 0)) (
      handles (value 1) (succeeds (value 1))
        (handles (value 2) (succeeds (value 2)) (none_left (value 2))))

abbrev start : World ℕ (Effects ℕ)
start = record {
  processes = λ i. record { root = none; stack = []; mailbox = [] };
  guid = 0;
  work_queue = [];
  working = false;
  scheduled = 0;
  timers = [];
  next_timer = 0;
  cancels = λ i. none;
}

abbrev map_effect : Str → (ℕ → ℕ) → ℕ → ℕ
map_effect home f e = f e

abbrev cmd_bag : Bag ℕ ℕ
cmd_bag = node (
    cons (leaf (codes "Task") 1)
      (cons (tagged (λ n. n + 10) (leaf (codes "Task") 2)) (cons (leaf (codes "Port") 3) nil)))

abbrev sub_bag : Bag ℕ ℕ
sub_bag = node nil

dispatch_effects-mailbox_example :
    ((dispatch_effects map_effect map_effect
        (λ e. e)
        ([] ++ (codes "Task", 0) ∷ (codes "Port", 1) ∷ [])
        cmd_bag
        sub_bag
        start).processes
      0).mailbox
    ≡ (start.processes 0).mailbox
      ++ value (record {
        cmds = reverse (effects_for map_effect map_effect true (codes "Task") (λ x. x) cmd_bag);
        subs = reverse (effects_for map_effect map_effect false (codes "Task") (λ x. x) sub_bag);
      })
        ∷ []
dispatch_effects-mailbox_example =
    dispatch_effects-mailbox map_effect map_effect (λ e. e) [] ((codes "Port", 1) ∷ [])
      (codes "Task") 0 cmd_bag sub_bag start tt (refl, tt)
