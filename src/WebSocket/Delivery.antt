-- ===== src/WebSocket/Delivery.antt =====
-- ui/dist/Main.js, `_elm_lang$websocket$WebSocket$onEffects` and `onSelfMsg` together: messages
-- to a connection that opens later.
use kubecast.Common.{◌≡◌, refl, sym, ◌∙◌, ap, none, some, List, [], ◌∷◌, ◌++◌, map, append_assoc}
use mathlib.Core.List.{reverse, reverse-cons}
use kubecast.Ord.{Comparable}
use kubecast.Dict.Ops.{get}
use kubecast.WebSocket.Tasks.{send, World}
use kubecast.WebSocket.{Cmd, Sub, State, good_open, open_socket, on_effects, on_self_msg}
use kubecast.WebSocket.Opening.{good_open_flushes}
use kubecast.WebSocket.Messages.{Runs, did, IsValid}
use kubecast.WebSocket.Effects.{texts_to, enqueue, queued, on_effects-Runs}

enqueue-reverse {ℓ} : {A : Type ℓ} (ts qs : List A) → enqueue ts (some qs) ≡ some (reverse ts ++ qs)
enqueue-reverse [] qs = refl
enqueue-reverse (t ∷ ts) qs =
    enqueue-reverse ts (t ∷ qs)
    ∙ ap some
        (sym (ap (λ xs. xs ++ qs) (reverse-cons t ts) ∙ append_assoc (reverse ts) (t ∷ []) qs))

enqueue_new {ℓ} :
    {A : Type ℓ} (t : A) (ts : List A) → enqueue (t ∷ ts) none ≡ some (reverse (t ∷ ts))
enqueue_new t ts = enqueue-reverse ts (t ∷ []) ∙ ap some (sym (reverse-cons t ts))

module _ {Name Text Msg Socket : Type 0} ⦃o : Comparable Name⦄ where
  -- In a manager whose tables are dictionaries, a round of `onEffects` with messages to a name that
  -- is not connected and has no queue does not crash, and when that name's connection opens next,
  -- just these messages are sent, in the order in which `onEffects` was given them (the trace
  -- has the newest first).
  pub delivered_in_order :
      (cmds : List (Cmd Name Text)) (subs : List (Sub Name Text Msg))
      (s : State Name Text Msg Socket) (w : World Name Text Msg Socket) (name : Name)
      (socket : Socket) (t : Text) (ts : List Text)
      → IsValid s
      → open_socket (get name s.sockets) ≡ none
      → get name s.queues ≡ none
      → texts_to name cmds ≡ t ∷ ts
      → Runs (on_effects cmds subs s) w (λ s' w'.
        Runs
          (on_self_msg (good_open name socket) s')
          w'
          (λ s'' w''. w'' ≡ did (map (send socket) (reverse (texts_to name cmds))) w'))
  delivered_in_order cmds subs s w name socket t ts v closed quiet texts =
      let (p, e, ok) = on_effects-Runs cmds subs s w v in
      let q = ok.1 name ∙ rw (closed, queued, quiet, texts) (enqueue_new t ts) in
      let (p', e', ok') = good_open_flushes name socket (reverse (t ∷ ts)) p.0 p.1 ok.0 q in
      (p, e, (p', e', rw texts (ok'.4)))
