-- ===== src/Platform/Ports/Incoming.antt =====
-- ui/dist/Main.js, `_elm_lang$core$Native_Platform`, `setupIncomingPort`: what the program gets of the
-- values that are sent to a port.
use kubecast.Common.{
  ◌≡◌, refl, sym, ap, ◌∙◌, Option, none, some, List, [], ◌∷◌, ◌++◌, map, append_assoc, append-nil,
}
use kubecast.Platform.Ports.{IncomingPort, post_init_send, post_init_sends, send, on_subs, new_port}

-- What happens to an incoming port: JavaScript sends a value, or a round of effects comes with
-- subscriptions.
pub data Incoming {ℓ κ} (V : Type ℓ) (M : Type κ) : Type (ℓ ⊔ κ) where
  sent : V → Incoming V M
  subscribed : List (V → M) → Incoming V M

module _ {ℓ κ} {V : Type ℓ} {M : Type κ} where
  abbrev pub happen : List (Incoming V M) → IncomingPort V M → IncomingPort V M
  happen [] p = p
  happen (sent value ∷ events) p = happen events (send value p)
  happen (subscribed subs ∷ events) p = happen events (on_subs subs p)

  -- The messages of a value.
  abbrev pub messages : List (V → M) → V → List M
  messages subs value = map (λ tagger. tagger value) subs

  abbrev pub all_messages : List (V → M) → List V → List M
  all_messages subs [] = []
  all_messages subs (value ∷ values) = messages subs value ++ all_messages subs values

  -- The messages of the events after the start, from the subscriptions that there are.
  abbrev pub later_messages : List (V → M) → List (Incoming V M) → List M
  later_messages subs [] = []
  later_messages subs (sent value ∷ events) = messages subs value ++ later_messages subs events
  later_messages subs (subscribed subs' ∷ events) = later_messages subs' events

  abbrev all_sent : List V → List (Incoming V M)
  all_sent values = map sent values

  post_init_sends-received :
      (values : List V) (p : IncomingPort V M)
      → ((post_init_sends values p).received ≡ p.received ++ all_messages p.subs values)
        × ((post_init_sends values p).subs ≡ p.subs)
  unfolding post_init_sends post_init_send
  post_init_sends-received [] p = (sym (append-nil p.received), refl)
  post_init_sends-received (value ∷ values) p =
      let (e, g) = post_init_sends-received values (post_init_send value p) in
      (e ∙ append_assoc p.received (messages p.subs value) (all_messages p.subs values), g)

  -- `send` and `onEffects` by what `sentBeforeInit` is.
  send-started :
      (value : V) (p : IncomingPort V M) (r : Option (List V))
      → p.sent_before_init ≡ r
      → send value p ≡ elim r [
        | none ↦ post_init_send value p
        | some values ↦ record p { sent_before_init = some (values ++ value ∷ []) }
      ]
  unfolding send
  send-started value p r e =
      ap
        (λ (r : Option (List V)). elim r as (λ x. IncomingPort V M) [
          | none ↦ post_init_send value p
          | some values ↦ record p { sent_before_init = some (values ++ value ∷ []) }
        ])
        e

  on_subs-started :
      (subs : List (V → M)) (p : IncomingPort V M) (r : Option (List V))
      → p.sent_before_init ≡ r
      → on_subs subs p ≡ elim r [
        | none ↦ record p { subs = subs }
        | some values ↦ record (post_init_sends values (record p { subs = subs })) {
          sent_before_init = none;
        }
      ]
  unfolding on_subs
  on_subs-started subs p r e =
      ap
        (λ (r : Option (List V)). elim r as (λ x. IncomingPort V M) [
          | none ↦ record p { subs = subs }
          | some values ↦ record (post_init_sends values (record p { subs = subs })) {
            sent_before_init = none;
          }
        ])
        e

  happen-early :
      (values early : List V) (events : List (Incoming V M)) (p : IncomingPort V M)
      → p.sent_before_init ≡ some early
      → (p' : IncomingPort V M) × (happen (map sent values ++ events) p ≡ happen events p')
        × (p'.sent_before_init ≡ some (early ++ values))
        × (p'.received ≡ p.received)
  happen-early [] early events p e = (p, refl, e ∙ ap some (sym (append-nil early)), refl)
  happen-early (value ∷ values) early events p e =
      let next = record p { sent_before_init = some (early ++ value ∷ []) } in
      let (p', e', s, r) = happen-early values (early ++ value ∷ []) events next refl in
      (
        p',
        ap (happen (map sent values ++ events)) (send-started value p (some early) e) ∙ e',
        s ∙ ap some (append_assoc early (value ∷ []) values),
        r,
      )

  happen-later :
      (events : List (Incoming V M)) (p : IncomingPort V M)
      → p.sent_before_init ≡ none
      → (happen events p).received ≡ p.received ++ later_messages p.subs events
  unfolding post_init_send
  happen-later [] p e = sym (append-nil p.received)
  happen-later (sent value ∷ events) p e =
      ap (λ q. (happen events q).received) (send-started value p none e)
      ∙ happen-later events (post_init_send value p) e
      ∙ append_assoc p.received (messages p.subs value) (later_messages p.subs events)
  happen-later (subscribed subs ∷ events) p e =
      ap (λ q. (happen events q).received) (on_subs-started subs p none e)
      ∙ happen-later events (record p { subs = subs }) e

  -- Nothing that is sent to a port is lost: the program gets every value, in the order of sending, once
  -- for each subscription: a value that is sent before the first round of effects for the
  -- subscriptions of that round, and a later one for those that there are when it is sent.
  pub happen-received :
      (values : List V) (subs : List (V → M)) (events : List (Incoming V M))
      → (happen (map sent values ++ subscribed subs ∷ events) new_port).received
        ≡ all_messages subs values ++ later_messages subs events
  unfolding new_port
  happen-received values subs events =
      let (p, e, s, r) = happen-early values [] (subscribed subs ∷ events) new_port refl in
      let started = record p { subs = subs } in
      let next = record (post_init_sends values started) { sent_before_init = none } in
      let (f, g) = post_init_sends-received values started in
      ap (λ q. q.received) e
      ∙ ap (λ q. (happen events q).received) (on_subs-started subs p (some values) s)
      ∙ happen-later events next refl
      ∙ ap (λ l. l ++ later_messages next.subs events)
          (f ∙ ap (λ l. l ++ all_messages subs values) r)
      ∙ ap (λ l. all_messages subs values ++ later_messages l events) g
