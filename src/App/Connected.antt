-- ===== src/App/Connected.antt =====
-- ui/dist/Main.js: the page's subscription (`_dippynark$elm$Main$subscriptions`) in the WebSocket effect
-- manager, and what the page gets from the server.
use kubecast.Common.{
  ◌≡◌, ◌≢◌, refl, ap, ap₂, ◌∙◌, subst, inl, inr, Option, some, none, List, [], ◌∷◌,
}
use kubecast.Ord.{Comparable, Ordering-cases}
use kubecast.Text.{Str, codes}
use mathlib.Core.List.{reverse}
use kubecast.Dict.Ops.{get}
use kubecast.Dict.Build.{or_else}
use kubecast.App.Model.{Model, Msg, list_casts}
use kubecast.App.Main.{web_socket_url, subscriptions}
use kubecast.WebSocket.{State, receive, on_effects, on_self_msg, add, with_default, open_socket}
use kubecast.WebSocket.Tasks.{Connection, to_app, World}
use kubecast.WebSocket.Messages.{IsValid, Runs, did, deliveries, receive_delivers}
use kubecast.WebSocket.Reconcile.{Follows}
use kubecast.WebSocket.Effects.{subscribed, on_effects-Runs}

abbrev pub list_url : Model → Str
list_url model = web_socket_url model.location (codes "/list")

module _ {Socket : Type 0} where
  -- A wanted connection is there.
  Follows-some :
      (q : Option (List Str)) (old new : Option (Connection Socket))
      → Follows (or_else q (some [])) old new
      → (c : Connection Socket) × (new ≡ some c)
  Follows-some none none new (pid, e) = (_, e)
  Follows-some none (some c) new e = (c, e)
  Follows-some (some q) none new (pid, e) = (_, e)
  Follows-some (some q) (some c) new e = (c, e)

  queued_nothing :
      (r : Option Socket) (q : Option (List Str))
      → q ≡ none
      → (elim r as (λ x. Option (List Str)) [ some socket ↦ q | none ↦ q ]) ≡ none
  queued_nothing none q e = e
  queued_nothing (some socket) q e = e

module _ ⦃o : Comparable Str⦄ where
  subscribed-here :
      (model : Model)
      → subscribed (subscriptions model ∷ []) (list_url model) none ≡ some (list_casts ∷ [])
  unfolding subscriptions add
  subscribed-here model = rw (o.cmp_refl (list_url model)) refl

  subscribed-elsewhere :
      (model : Model) (name : Str)
      → name ≢ list_url model
      → subscribed (subscriptions model ∷ []) name none ≡ none
  unfolding subscriptions
  subscribed-elsewhere model name n = elim (Ordering-cases (o.cmp name (list_url model))) [
    | inl e ↦ rw e refl
    | inr (inl e) ↦ absurd (n (o.eq_of_cmp name (list_url model) e))
    | inr (inr e) ↦ rw e refl
  ]

module _ {Socket : Type 0} ⦃o : Comparable Str⦄ where
  -- The page and the server are connected: in a manager whose tables are dictionaries, a round of
  -- `onEffects` with the page's subscription and no message does not crash, and afterwards there is a
  -- connection for the address of the server's list, open or being opened; a text that arrives there is
  -- handed to the page as a list message, once, and a text from any other address is not handed to it;
  -- and no other address has a connection, but those to which messages are queued.
  pub subscriptions-connect :
      (model : Model) (s : State Str Str Msg Socket) (w : World Str Str Msg Socket)
      → IsValid s
      → Runs (on_effects [] (subscriptions model ∷ []) s) w (λ s' w'.
        ((c : Connection Socket) × (get (list_url model) s'.sockets ≡ some c))
        × ((text : Str)
            → on_self_msg (receive (list_url model) text) s' w'
              ≡ some (s', did (to_app (list_casts text) ∷ []) w'))
        × ((name text : Str)
            → name ≢ list_url model
            → on_self_msg (receive name text) s' w' ≡ some (s', w'))
        × ((name : Str)
            → name ≢ list_url model
            → get name s.queues ≡ none
            → get name s'.sockets ≡ none))
  unfolding with_default
  subscriptions-connect model s w v =
      let (p, e, ok) = on_effects-Runs [] (subscriptions model ∷ []) s w v in
      let here = ok.2 (list_url model) ∙ subscribed-here model in
      let elsewhere : (name : Str) → name ≢ list_url model → get name p.0.subs ≡ none =
        λ name n. ok.2 name ∙ subscribed-elsewhere model name n in
      (
        p,
        e,
        (
          Follows-some (get (list_url model) p.0.queues) (get (list_url model) s.sockets) _ (
              subst
                (λ t.
                  Follows
                    (or_else (get (list_url model) p.0.queues)
                      (elim t as (λ x. Option (List Str)) [ none ↦ none | some taggers ↦ some [] ]))
                    (get (list_url model) s.sockets) (get (list_url model) p.0.sockets))
                here (ok.3 (list_url model))),
          λ text.
              receive_delivers (list_url model) text p.0 p.1
              ∙ ap (λ t. some (p.0, did (reverse (deliveries text (with_default [] t))) p.1)) here,
          λ name text n.
              receive_delivers name text p.0 p.1
              ∙ ap (λ t. some (p.0, did (reverse (deliveries text (with_default [] t))) p.1))
                  (elsewhere name n),
          λ name n q.
              let none_queued : get name p.0.queues ≡ none =
                ok.1 name
                ∙ queued_nothing (open_socket (get name s.sockets)) (get name s.queues) q in
              subst (λ u. Follows u (get name s.sockets) (get name p.0.sockets))
                (ap₂
                  (λ q t.
                    or_else q
                      (elim t as (λ x. Option (List Str)) [ none ↦ none | some taggers ↦ some [] ]))
                  none_queued (elsewhere name n))
                (ok.3 name),
        ),
      )
