-- ===== src/WebSocket/Messages.antt =====
-- ui/dist/Main.js, `_elm_lang$websocket$WebSocket$onSelfMsg`: what the manager does with a message
-- about one of its connections.
use kubecast.Common.{
  ℕ, suc, ◌≡◌, refl, sym, ◌∙◌, ap, append_assoc, none, some, List, [], ◌∷◌, ◌++◌, map, arith, inl,
  inr, ◌⊎◌, ◌*◌, ◌^◌,
}
use mathlib.Core.List.{reverse, reverse-cons}
use kubecast.Ord.{Comparable}
use kubecast.Dict.Ops.{get, put}
use kubecast.Dict.Laws.{IsDict, revise}
use kubecast.Dict.Folds.{reads, update-Reads}
use kubecast.WebSocket.Tasks.{
  Connection, opening, connected, Effect, spawn, to_app, World, Task, succeed, perform, sequence,
  bind-some,
}
use kubecast.WebSocket.{
  State, receive, die, bad_open, after, attempt_open, update_socket, with_default, reopen,
  on_self_msg,
}

after-suc : (n : ℕ) → after (suc n) ≡ 10 * 2 ^ suc n
unfolding after
after-suc n = ground arith

module _ {Name Text Msg Socket : Type 0} ⦃o : Comparable Name⦄ where
  -- The three tables of the manager are dictionaries.
  pub record IsValid (state : State Name Text Msg Socket) : Type 0 where
    pub sockets_ok : IsDict state.sockets
    pub queues_ok : IsDict state.queues
    pub subs_ok : IsDict state.subs

  -- A task that does not crash, with what holds of the new state and the new world.
  abbrev pub Runs :
      {A : Type 0}
      → Task Name Text Msg Socket A
      → World Name Text Msg Socket
      → (A → World Name Text Msg Socket → Type 0)
      → Type 0
  Runs {A} t w P = (p : A × World Name Text Msg Socket) × (t w ≡ some p) × P p.0 p.1

  -- The world after effects, the newest first.
  abbrev pub did :
      List (Effect Name Text Msg Socket) → World Name Text Msg Socket → World Name Text Msg Socket
  did es w = record w { trace = es ++ w.trace }

  -- The new state has this connection at the name, and is the old one otherwise.
  pub record Sets (name : Name) (c : Connection Socket) (s s' : State Name Text Msg Socket)
      : Type 0 where
    pub keeps : IsValid s'
    pub sockets_read : reads s'.sockets ≡ revise (reads s.sockets) name (λ _. some c)
    pub queues_same : s'.queues ≡ s.queues
    pub subs_same : s'.subs ≡ s.subs

  pub update_socket-Sets :
      (name : Name) (c : Connection Socket) (s : State Name Text Msg Socket)
      → IsValid s
      → (s' : State Name Text Msg Socket) × (update_socket name c s ≡ some s') × Sets name c s s'
  unfolding update_socket put
  update_socket-Sets name c s v =
      let (d, e, h, g) = update-Reads name (λ _. some c) s.sockets v.sockets_ok in
      (
        record s { sockets = d },
        rw (e, update_socket),
        record {
          keeps = record { sockets_ok = h; queues_ok = v.queues_ok; subs_ok = v.subs_ok };
          sockets_read = g;
          queues_same = refl;
          subs_same = refl;
        },
      )

  -- What `Receive` hands to the application, in the order of the subscriptions.
  abbrev pub deliveries : Text → List (Text → Msg) → List (Effect Name Text Msg Socket)
  deliveries str taggers = map (λ tagger. to_app (tagger str)) taggers

  abbrev sends : Text → List (Text → Msg) → List (Task Name Text Msg Socket (Unit {0}))
  sends str taggers = map (λ tagger. perform (to_app (tagger str))) taggers

  sequence-sends :
      (str : Text) (taggers : List (Text → Msg)) (w : World Name Text Msg Socket)
      → (us : List (Unit {0})) × (sequence (sends str taggers) w
          ≡ some (us, did (reverse (deliveries str taggers)) w))
  unfolding sequence perform
  sequence-sends str [] w = ([], refl)
  sequence-sends str (t ∷ ts) w =
      let (us, e) = sequence-sends str ts (did (to_app (t str) ∷ []) w) in
      (
        tt ∷ us,
        bind-some (sequence (sends str ts)) (λ rest. succeed (tt ∷ rest)) _ _ us e
            ∙ ap (λ es. some (tt ∷ us, record w { trace = es }))
                (sym (
                  ap (λ es. es ++ w.trace) (reverse-cons (to_app (t str)) (deliveries str ts))
                  ∙ append_assoc (reverse (deliveries str ts)) (to_app (t str) ∷ []) w.trace)),
      )

  reopen-Runs :
      (name : Name) (n : ℕ) (s : State Name Text Msg Socket) (w : World Name Text Msg Socket)
      → IsValid s
      → Runs (reopen name n s) w (λ s' w'.
        Sets name (opening n w.next_pid) s s'
        × (w' ≡ record {
          next_pid = suc w.next_pid;
          trace = spawn w.next_pid (after n) name ∷ w.trace;
        }))
  unfolding reopen attempt_open
  reopen-Runs name n s w v =
      let (s', e, h) = update_socket-Sets name (opening n w.next_pid) s v in
      ((s', _), rw e, (h, refl))

  -- A connection that closed is opened again at once, whatever state it was in, in a manager whose
  -- tables are dictionaries: a new process is started with no wait, the name's connection is
  -- `opening` with backoff 0, and all else stays.
  pub die_reopens :
      (name : Name) (s : State Name Text Msg Socket) (w : World Name Text Msg Socket)
      → IsValid s
      → (c : Connection Socket) → get name s.sockets ≡ some c
      → Runs (on_self_msg (die name) s) w (λ s' w'.
        Sets name (opening 0 w.next_pid) s s'
        × (w' ≡ record { next_pid = suc w.next_pid; trace = spawn w.next_pid 0 name ∷ w.trace }))
  unfolding on_self_msg after
  die_reopens name s w v c e = rw (e, on_self_msg) (reopen-Runs name 0 s w v)

  -- An attempt with backoff `n` that failed is repeated, in a manager whose tables are
  -- dictionaries: a new process is started that waits 10 * 2 ^ (n + 1) milliseconds, the name's
  -- connection is `opening` with the next backoff, and all else stays.
  pub bad_open_backs_off :
      (name : Name) (n pid : ℕ) (s : State Name Text Msg Socket) (w : World Name Text Msg Socket)
      → IsValid s
      → get name s.sockets ≡ some (opening n pid)
      → Runs (on_self_msg (bad_open name) s) w (λ s' w'.
        Sets name (opening (suc n) w.next_pid) s s'
        × (w' ≡ record {
          next_pid = suc w.next_pid;
          trace = spawn w.next_pid (10 * 2 ^ suc n) name ∷ w.trace;
        }))
  unfolding on_self_msg after
  bad_open_backs_off name n pid s w v e =
      let (p, e', h) = reopen-Runs name (suc n) s w v in
      (
        p,
        rw (e, on_self_msg) e',
        (
          h.0,
          h.1
              ∙ ap
                  (λ (t : ℕ). record {
                    next_pid = suc w.next_pid;
                    trace = spawn w.next_pid t name ∷ w.trace;
                  })
                  (after-suc n),
        ),
      )

  -- If the name has no connection, or an open one, then a failed attempt changes nothing.
  pub bad_open_ignored :
      (name : Name) (s : State Name Text Msg Socket) (w : World Name Text Msg Socket)
      → (get name s.sockets ≡ none)
        ⊎ ((socket : Socket) × (get name s.sockets ≡ some (connected socket)))
      → on_self_msg (bad_open name) s w ≡ some (s, w)
  unfolding on_self_msg
  bad_open_ignored name s w (inl e) = rw (e, on_self_msg)
  bad_open_ignored name s w (inr (socket, e)) = rw (e, on_self_msg)

  -- A received text is handed to every subscription of its connection, in their order in the table;
  -- the state stays as it is.
  pub receive_delivers :
      (name : Name) (str : Text) (s : State Name Text Msg Socket) (w : World Name Text Msg Socket)
      → on_self_msg (receive name str) s w
        ≡ some (s, did (reverse (deliveries str (with_default [] (get name s.subs)))) w)
  unfolding on_self_msg
  receive_delivers name str s w =
      let taggers = with_default [] (get name s.subs) in
      let (us, e) = sequence-sends str taggers w in
      bind-some (sequence (sends str taggers)) (λ _. succeed s) _ _ us e
