-- ===== src/Platform/Dispatch.antt =====
-- ui/dist/Main.js, `_elm_lang$core$Native_Platform`: the messages by which the effect managers
-- receive the effects.
use kubecast.Common.{
  ℕ, ◌≡◌, refl, ap, ◌∙◌, true, false, none, List, [], ◌∷◌, ◌++◌, ◌==◌, if◌then◌else◌, append-nil,
  Bool-cases, inl, inr, All,
}
use mathlib.Core.List.{reverse}
use kubecast.Text.{Str}
use kubecast.Scheduler.{Value, value, World, raw_send, enqueue}
use kubecast.Scheduler.Meaning.{==-self}
use kubecast.Platform.Bags.{effects_for, gained, gather_effects-gained}
use kubecast.Platform.{
  Bag, Effects, EffectsDict, or_none, apply_taggers, gather_effects, dispatch, dispatch_effects,
}

module _ {K A : Type 0} where
  mailbox_after :
      (pid j : ℕ) (msg : Value A) (w : World K A)
      → ((raw_send pid msg w).processes j).mailbox
        ≡ (if j == pid then (w.processes pid).mailbox ++ msg ∷ [] else (w.processes j).mailbox)
  unfolding raw_send enqueue
  mailbox_after pid j msg w = elim (Bool-cases (j == pid)) [ inl y ↦ rw y | inr n ↦ rw n ]

module _ {E K A : Type 0} where
  -- A manager whose process is not among these gets nothing.
  dispatch-others :
      (fx : Effects E → A) (dict : EffectsDict E) (managers : List (Str × ℕ)) (j : ℕ)
      (w : World K A)
      → All (λ m. (j == m.1) ≡ false) managers
      → ((dispatch fx dict managers w).processes j).mailbox ≡ (w.processes j).mailbox
  unfolding dispatch
  dispatch-others fx dict [] j w h = refl
  dispatch-others fx dict ((home, pid) ∷ managers) j w h =
      let msg = value (fx (or_none (dict home))) in
      dispatch-others fx dict managers j (raw_send pid msg w) h.1
      ∙ mailbox_after pid j msg w
      ∙ ap (λ b. if b then (w.processes pid).mailbox ++ msg ∷ [] else (w.processes j).mailbox) h.0

  dispatch-one :
      (fx : Effects E → A) (dict : EffectsDict E) (before after : List (Str × ℕ)) (home : Str)
      (pid : ℕ) (w : World K A)
      → All (λ m. (pid == m.1) ≡ false) before
      → All (λ m. (pid == m.1) ≡ false) after
      → ((dispatch fx dict (before ++ (home, pid) ∷ after) w).processes pid).mailbox
        ≡ (w.processes pid).mailbox ++ value (fx (or_none (dict home))) ∷ []
  unfolding dispatch
  dispatch-one fx dict [] after home pid w hb ha =
      let msg = value (fx (or_none (dict home))) in
      dispatch-others fx dict after pid (raw_send pid msg w) ha
      ∙ mailbox_after pid pid msg w
      ∙ ap (λ b. if b then (w.processes pid).mailbox ++ msg ∷ [] else (w.processes pid).mailbox)
          (==-self pid)
  dispatch-one fx dict ((h, p) ∷ before) after home pid w hb ha =
      let msg = value (fx (or_none (dict h))) in
      dispatch-one fx dict before after home pid (raw_send p msg w) hb.1 ha
      ∙ ap (λ l. l ++ value (fx (or_none (dict home))) ∷ [])
          (mailbox_after p pid msg w
            ∙ ap (λ b. if b then (w.processes p).mailbox ++ msg ∷ [] else (w.processes pid).mailbox)
                hb.0)

module _ {X E K A : Type 0} (cmd_map sub_map : Str → (X → X) → E → E) where
  -- After `update`, a manager whose process no other manager has receives just one message more: the
  -- commands and the subscriptions that are meant for it, each list with the last effect of the bag at
  -- the head, and each effect mapped by the taggers above it in its bag.
  pub dispatch_effects-mailbox :
      (fx : Effects E → A) (before after : List (Str × ℕ)) (home : Str) (pid : ℕ)
      (cmd_bag sub_bag : Bag X E) (w : World K A)
      → All (λ m. (pid == m.1) ≡ false) before
      → All (λ m. (pid == m.1) ≡ false) after
      → ((dispatch_effects cmd_map sub_map fx
            (before ++ (home, pid) ∷ after)
            cmd_bag
            sub_bag
            w).processes
          pid).mailbox
        ≡ (w.processes pid).mailbox
          ++ value (
              fx (record {
                cmds = reverse (effects_for cmd_map sub_map true home (λ x. x) cmd_bag);
                subs = reverse (effects_for cmd_map sub_map false home (λ x. x) sub_bag);
              }))
            ∷ []
  unfolding dispatch_effects apply_taggers
  dispatch_effects-mailbox fx before after home pid cmd_bag sub_bag w hb ha =
      let dict = gather_effects cmd_map sub_map true cmd_bag (λ home. none) [] in
      dispatch-one fx (gather_effects cmd_map sub_map false sub_bag dict []) before after home pid w
        hb ha
      ∙ ap (λ e. (w.processes pid).mailbox ++ value (fx e) ∷ [])
          (gather_effects-gained cmd_map sub_map false home sub_bag dict []
            ∙ ap (gained false (effects_for cmd_map sub_map false home (λ x. x) sub_bag))
                (gather_effects-gained cmd_map sub_map true home cmd_bag (λ home. none) [])
            ∙ simp (append-nil))
