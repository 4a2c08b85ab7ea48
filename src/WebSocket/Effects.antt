-- ===== src/WebSocket/Effects.antt =====
-- ui/dist/Main.js, `_elm_lang$websocket$WebSocket$onEffects`: the messages that the application
-- sends, the subscriptions, and the whole round.
use kubecast.Common.{
  ◌≡◌, refl, sym, ◌∙◌, ap, subst₂, eq, Option, none, some, List, [], ◌∷◌, ◌++◌, arith, append_assoc,
  Option-cases, inl, inr,
}
use mathlib.Core.List.{reverse, reverse-cons}
use kubecast.Ord.{Comparable}
use kubecast.Dict.{Dict, empty}
use kubecast.Dict.Ops.{get, update}
use kubecast.Dict.Laws.{IsDict, revise, empty-IsDict}
use kubecast.Dict.Folds.{reads, Reads, update-Reads}
use kubecast.WebSocket.Tasks.{Connection, Effect, send, World, perform, bind-some, lift-some}
use kubecast.WebSocket.{
  Cmd, send_cmd, Sub, listen, keep_alive, State, add, with_default, open_socket, build_sub_dict,
  send_messages_help, on_effects,
}
use kubecast.WebSocket.Messages.{Runs, did, IsValid}
use kubecast.WebSocket.Reconcile.{Follows, wanted, cleanup-Runs}

-- Each message is put at the head of the queue.
abbrev pub enqueue {ℓ} : {A : Type ℓ} → List A → Option (List A) → Option (List A)
enqueue [] queue = queue
enqueue (t ∷ ts) none = enqueue ts (some (t ∷ []))
enqueue (t ∷ ts) (some queue) = enqueue ts (some (t ∷ queue))

module _ {Name : Type 0} ⦃o : Comparable Name⦄ where
  revise_at :
      {V : Type 0} (g : Name → Option V) (name : Name) (f : Option V → Option V) (i : Name)
      → revise g name f i ≡ elim (o.cmp i name) [ eq ↦ f (g i) | _ ↦ g i ]
  revise_at g name f i = ground (arith, o.eq_of_cmp i name)

module _ {Name Text : Type 0} ⦃o : Comparable Name⦄ where
  -- The messages to one name, in the order in which they were sent.
  abbrev pub texts_to : Name → List (Cmd Name Text) → List Text
  texts_to i [] = []
  texts_to i (send_cmd name msg ∷ cmds) = elim (o.cmp i name) [
    | eq ↦ msg ∷ texts_to i cmds
    | _ ↦ texts_to i cmds
  ]

  -- What is sent at once: the messages to the names that are connected.
  abbrev pub sent_now :
      {Msg Socket : Type 0}
      → List (Cmd Name Text)
      → Dict Name (Connection Socket)
      → List (Effect Name Text Msg Socket)
  sent_now [] sockets = []
  sent_now (send_cmd name msg ∷ cmds) sockets = elim (open_socket (get name sockets)) [
    | some socket ↦ send socket msg ∷ sent_now cmds sockets
    | none ↦ sent_now cmds sockets
  ]

  -- The queue of a name after the messages: as it was if the name is connected, and else with the
  -- messages to it put at its head.
  abbrev pub queued :
      {Socket : Type 0}
      → List (Cmd Name Text)
      → Dict Name (Connection Socket)
      → (Name → Option (List Text))
      → Name
      → Option (List Text)
  queued cmds sockets g i = elim (open_socket (get i sockets)) [
    | some socket ↦ g i
    | none ↦ enqueue (texts_to i cmds) (g i)
  ]

  queued_sent :
      {Socket : Type 0} (name : Name) (msg : Text) (socket : Socket) (cmds : List (Cmd Name Text))
      (sockets : Dict Name (Connection Socket)) (g : Name → Option (List Text)) (i : Name)
      → open_socket (get name sockets) ≡ some socket
      → queued cmds sockets g i ≡ queued (send_cmd name msg ∷ cmds) sockets g i
  queued_sent name msg socket cmds sockets g i e = ground (arith, o.eq_of_cmp i name)

  queued_added :
      {Socket : Type 0} (name : Name) (msg : Text) (cmds : List (Cmd Name Text))
      (sockets : Dict Name (Connection Socket)) (g : Name → Option (List Text)) (i : Name)
      → open_socket (get name sockets) ≡ none
      → queued cmds sockets (revise g name (add msg)) i
        ≡ queued (send_cmd name msg ∷ cmds) sockets g i
  unfolding add
  queued_added name msg cmds sockets g i e = ground (arith, o.eq_of_cmp i name)

module _ {Name Text Msg : Type 0} ⦃o : Comparable Name⦄ where
  -- The subscriptions of a name: its listeners, the latest first; also if it is only kept alive.
  abbrev pub subscribed :
      List (Sub Name Text Msg) → Name → Option (List (Text → Msg)) → Option (List (Text → Msg))
  subscribed [] i m = m
  subscribed (listen name tagger ∷ subs) i m =
      subscribed subs i (elim (o.cmp i name) [ eq ↦ add tagger m | _ ↦ m ])
  subscribed (keep_alive name ∷ subs) i m =
      subscribed subs i (elim (o.cmp i name) [ eq ↦ some (with_default [] m) | _ ↦ m ])

  build_sub_dict-Reads :
      (subs : List (Sub Name Text Msg)) (d : Dict Name (List (Text → Msg)))
      → IsDict d
      → Reads (build_sub_dict subs d) (λ i. subscribed subs i (get i d))
  unfolding build_sub_dict
  build_sub_dict-Reads [] d h = (d, refl, h, refl)
  build_sub_dict-Reads (listen name tagger ∷ subs) d h =
      let (q, e, hq, g) = update-Reads name (add tagger) d h in
      let (t, e', ht, g') = build_sub_dict-Reads subs q hq in
      (
        t,
        rw (e, build_sub_dict) e',
        ht,
        g' ∙ λ x i. subscribed subs i (((λ y. g y i) ∙ revise_at (reads d) name (add tagger) i) x),
      )
  build_sub_dict-Reads (keep_alive name ∷ subs) d h =
      let (q, e, hq, g) = update-Reads name (λ m. some (with_default [] m)) d h in
      let (t, e', ht, g') = build_sub_dict-Reads subs q hq in
      (
        t,
        rw (e, build_sub_dict) e',
        ht,
        g' ∙ λ x i.
            subscribed subs i
              (((λ y. g y i) ∙ revise_at (reads d) name (λ m. some (with_default [] m)) i) x),
      )

module _ {Name Text Msg Socket : Type 0} ⦃o : Comparable Name⦄ where
  did-reverse :
      (e : Effect Name Text Msg Socket) (es : List (Effect Name Text Msg Socket))
      (w : World Name Text Msg Socket)
      → did (reverse es) (did (e ∷ []) w) ≡ did (reverse (e ∷ es)) w
  did-reverse e es w =
      ap (λ t. record w { trace = t })
        (sym (
          ap (λ xs. xs ++ w.trace) (reverse-cons e es)
          ∙ append_assoc (reverse es) (e ∷ []) w.trace))

  -- Sending messages does not crash, if the queues are a dictionary: each message to a connected
  -- name is sent, in order, and each other one is put at the head of its name's queue; no other
  -- queue changes, and the queues stay a dictionary.
  pub send_messages_help-Runs :
      (cmds : List (Cmd Name Text)) (sockets : Dict Name (Connection Socket))
      (queues : Dict Name (List Text)) (w : World Name Text Msg Socket)
      → IsDict queues
      → Runs (send_messages_help cmds sockets queues) w (λ q w'.
        IsDict q
        × ((i : Name) → get i q ≡ queued cmds sockets (reads queues) i)
        × (w' ≡ did (reverse (sent_now cmds sockets)) w))
  unfolding send_messages_help perform
  send_messages_help-Runs [] sockets queues w h = ((queues, w), refl, (h, λ i. ground arith, refl))
  send_messages_help-Runs (send_cmd name msg ∷ cmds) sockets queues w h =
      elim (Option-cases (open_socket (get name sockets))) [
        | inr (socket, e) ↦
            let (p, e', ok) =
              send_messages_help-Runs cmds sockets queues (did (send socket msg ∷ []) w) h in
            (
              p,
              rw (e, send_messages_help) e',
              (
                ok.0,
                λ i. ok.1 i ∙ queued_sent name msg socket cmds sockets (reads queues) i e,
                ok.2 ∙ rw (e, sent_now) (did-reverse (send socket msg) (sent_now cmds sockets) w),
              ),
            )
        | inl e ↦
            let (q, eq', hq, gq) = update-Reads name (add msg) queues h in
            let (p, e', ok) = send_messages_help-Runs cmds sockets q w hq in
            (
              p,
              rw (e, send_messages_help) (lift-some (update name (add msg) queues) _ w q eq' ∙ e'),
              (
                ok.0,
                λ i.
                    ok.1 i
                    ∙ ap (λ g. queued cmds sockets g i) gq
                    ∙ queued_added name msg cmds sockets (reads queues) i e,
                ok.2 ∙ rw (e, sent_now) refl,
              ),
            )
      ]

  -- In a manager whose tables are dictionaries, a round of `onEffects` does not crash, and its
  -- tables stay dictionaries. Afterwards a name's queue has the messages to it put at its head if
  -- the name was not connected, and is as before otherwise; the subscriptions are those that were
  -- asked for; and a name has a connection exactly if it has a queue or a subscription: the one it
  -- had before, or else a new attempt with backoff 0.
  pub on_effects-Runs :
      (cmds : List (Cmd Name Text)) (subs : List (Sub Name Text Msg))
      (s : State Name Text Msg Socket) (w : World Name Text Msg Socket)
      → IsValid s
      → Runs (on_effects cmds subs s) w (λ s' w'.
        IsValid s'
        × ((i : Name) → get i s'.queues ≡ queued cmds s.sockets (reads s.queues) i)
        × ((i : Name) → get i s'.subs ≡ subscribed subs i none)
        × ((i : Name) → Follows (wanted s'.queues s'.subs i) (get i s.sockets) (get i s'.sockets)))
  unfolding on_effects
  on_effects-Runs cmds subs s w v =
      let (u, eu, hu, gu) = build_sub_dict-Reads subs empty empty-IsDict in
      let (p, e, ok) = send_messages_help-Runs cmds s.sockets s.queues w v.queues_ok in
      let (p', e', ok') = cleanup-Runs u s.sockets p.0 hu v.sockets_ok ok.0 p.1 in
      (
        p',
        lift-some (build_sub_dict subs empty) _ w u eu
            ∙ bind-some (send_messages_help cmds s.sockets s.queues) _ w p.1 p.0 e
            ∙ e',
        (
          ok'.0,
          λ i. ap (get i) ok'.1 ∙ ok.1 i,
          λ i. ap (get i) ok'.2 ∙ (λ x. gu x i) ∙ unfold get in refl,
          λ i.
              subst₂ (λ q t. Follows (wanted q t i) (get i s.sockets) (get i p'.0.sockets))
                (sym ok'.1) (sym ok'.2) (ok'.3 i),
        ),
      )
