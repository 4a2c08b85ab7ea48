-- ===== src/Platform/Ports.antt =====
-- ui/dist/Main.js, `_elm_lang$core$Native_Platform`: `setupOutgoingPort` and `setupIncomingPort`. The
-- JavaScript side subscribes functions to an outgoing port, and sends values to an incoming one.
pub mod Outgoing
pub mod Incoming
use kubecast.Common.{
  ℕ, zero, suc, Bool, Option, none, some, List, [], ◌∷◌, ◌++◌, ◌==◌, if◌then◌else◌, ◌>>=◌,
  get_elem?, map,
}

-- What a subscribed function does with the port while it is called.
pub data Call {ℓ} (F : Type ℓ) : Type ℓ where
  subscribing : F → Call F
  unsubscribing : F → Call F

-- The arrays that `subs` has been, the one that it is, and the calls so far.
pub record OutgoingPort {ℓ κ} (F : Type ℓ) (V : Type κ) : Type (ℓ ⊔ κ) where
  pub arrays : ℕ → List F
  pub subs : ℕ
  pub fresh : ℕ
  pub calls : List (F × V)

abbrev pub store {ℓ} : {A : Type ℓ} → ℕ → A → (ℕ → A) → ℕ → A
store i x arrays j = if j == i then x else arrays j

module _ {ℓ κ} {F : Type ℓ} {V : Type κ} where
  -- `subs.push(callback)`, in place.
  unfoldable pub subscribe : F → OutgoingPort F V → OutgoingPort F V
  subscribe callback p = record p {
    arrays = store p.subs (p.arrays p.subs ++ callback ∷ []) p.arrays;
  }

-- `indexOf` and `splice`.
module _ {ℓ} {F : Type ℓ} (same : F → F → Bool) where
  abbrev pub without : F → List F → List F
  without callback [] = []
  without callback (f ∷ fs) =
      let rest = without callback fs in if same f callback then fs else f ∷ rest

module _ {ℓ κ} {F : Type ℓ} {V : Type κ} (same : F → F → Bool) where
  -- A new array without the function.
  unfoldable pub unsubscribe : F → OutgoingPort F V → OutgoingPort F V
  unsubscribe callback p = record p {
    arrays = store p.fresh (without same callback (p.arrays p.subs)) p.arrays;
    subs = p.fresh;
    fresh = suc p.fresh;
  }

  unfoldable pub run_calls : List (Call F) → OutgoingPort F V → OutgoingPort F V
  unfolding subscribe unsubscribe
  run_calls [] p = p
  run_calls (subscribing f ∷ calls) p = run_calls calls (subscribe f p)
  run_calls (unsubscribing f ∷ calls) p = run_calls calls (unsubscribe f p)

module _ {ℓ κ} {F : Type ℓ} {V : Type κ} (same : F → F → Bool) (does : F → V → List (Call F)) where
  -- `currentSubs[i](value)`.
  unfoldable pub call_sub : F → V → OutgoingPort F V → OutgoingPort F V
  unfolding run_calls
  call_sub f value p =
      run_calls same (does f value) (record p { calls = p.calls ++ (f, value) ∷ [] })

  -- The loop over `currentSubs`, which ends when `i` is its length then; on fuel.
  unfoldable pub call_subs : ℕ → ℕ → ℕ → V → OutgoingPort F V → Option (OutgoingPort F V)
  unfolding call_sub
  call_subs zero i current_subs value p = none
  call_subs (suc fuel) i current_subs value p = elim (get_elem? i (p.arrays current_subs)) [
    | none ↦ some p
    | some f ↦ call_subs fuel (suc i) current_subs value (call_sub f value p)
  ]

  -- `onEffects`, at the values of the commands.
  unfoldable pub on_port_effects : ℕ → List V → OutgoingPort F V → Option (OutgoingPort F V)
  unfolding call_subs
  on_port_effects fuel [] p = some p
  on_port_effects fuel (value ∷ cmd_list) p =
      call_subs fuel 0 p.subs value p >>= on_port_effects fuel cmd_list

-- `sentBeforeInit`, `null` after the first `onEffects`, the subscriptions, and what `callback` got.
pub record IncomingPort {ℓ κ} (V : Type ℓ) (M : Type κ) : Type (ℓ ⊔ κ) where
  pub sent_before_init : Option (List V)
  pub subs : List (V → M)
  pub received : List M

module _ {ℓ κ} {V : Type ℓ} {M : Type κ} where
  -- `postInitSend`: every subscription's message, in their order.
  unfoldable pub post_init_send : V → IncomingPort V M → IncomingPort V M
  post_init_send value p = record p { received = p.received ++ map (λ tagger. tagger value) p.subs }

  unfoldable pub post_init_sends : List V → IncomingPort V M → IncomingPort V M
  unfolding post_init_send
  post_init_sends [] p = p
  post_init_sends (value ∷ values) p = post_init_sends values (post_init_send value p)

  -- `currentSend`.
  unfoldable pub send : V → IncomingPort V M → IncomingPort V M
  unfolding post_init_send
  send value p = elim p.sent_before_init [
    | none ↦ post_init_send value p
    | some values ↦ record p { sent_before_init = some (values ++ value ∷ []) }
  ]

  -- `currentOnEffects`.
  unfoldable pub on_subs : List (V → M) → IncomingPort V M → IncomingPort V M
  unfolding post_init_sends
  on_subs sub_list p = elim p.sent_before_init [
    | none ↦ record p { subs = sub_list }
    | some values ↦ record (post_init_sends values (record p { subs = sub_list })) {
      sent_before_init = none;
    }
  ]

  unfoldable pub new_port : IncomingPort V M
  new_port = record { sent_before_init = some []; subs = []; received = [] }
