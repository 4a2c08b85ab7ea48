-- ===== src/WebSocket.antt =====
-- ui/dist/Main.js, `_elm_lang$websocket$WebSocket$…`: the effect manager that keeps the page's
-- connection to the server. A task is modelled by what it does when it runs: it may start, kill and
-- close connections, send, and hand messages to the application, and returns a value. Exceptions
-- come from the dictionaries alone.
pub mod Tasks
pub mod Messages
pub mod Opening
pub mod Reconcile
pub mod Closing
pub mod Effects
pub mod Delivery
use kubecast.Common.{
  ℕ, suc, ◌+◌, ◌*◌, ◌^◌, Bool, true, false, Option, none, some, List, [], ◌∷◌, ltb, if◌then◌else◌,
  map, ◌≡◌, refl,
}
use kubecast.Ord.{Comparable}
use kubecast.Dict.{Dict, empty}
use kubecast.Dict.Ops.{get, update, put, discard}
use kubecast.Dict.Derived.{union, merge, foldl_list}
use kubecast.Dict.Derived
use Tasks.{
  Connection, opening, connected, Effect, spawn, kill, close, send, to_app, World, Task, succeed,
  perform, lift, sequence, ◌>>=◌, ◌>>◌,
}

pub data Cmd (Name Text : Type 0) : Type 0 where
  send_cmd : Name → Text → Cmd Name Text

pub data Sub (Name Text Msg : Type 0) : Type 0 where
  listen : Name → (Text → Msg) → Sub Name Text Msg
  keep_alive : Name → Sub Name Text Msg

unfoldable pub cmd_map {ℓ} : {Name Text : Type 0} {F : Type ℓ} → F → Cmd Name Text → Cmd Name Text
cmd_map func (send_cmd url msg) = send_cmd url msg

unfoldable pub sub_map : {Name Text A B : Type 0} → (A → B) → Sub Name Text A → Sub Name Text B
sub_map func (listen url tagger) = listen url (λ text. func (tagger text))
sub_map func (keep_alive url) = keep_alive url

-- Two taggers of the program above one another map a subscription as their composition.
sub_map-sub_map :
    {Name Text A B C : Type 0} (f : B → C) (g : A → B) (sub : Sub Name Text A)
    → sub_map f (sub_map g sub) ≡ sub_map (λ a. f (g a)) sub
unfolding sub_map
sub_map-sub_map f g (listen url tagger) = refl
sub_map-sub_map f g (keep_alive url) = refl

pub data SelfMsg (Name Text Socket : Type 0) : Type 0 where
  receive : Name → Text → SelfMsg Name Text Socket
  die : Name → SelfMsg Name Text Socket
  good_open : Name → Socket → SelfMsg Name Text Socket
  bad_open : Name → SelfMsg Name Text Socket

pub record State (Name Text Msg Socket : Type 0) : Type 0 where
  pub sockets : Dict Name (Connection Socket)
  pub queues : Dict Name (List Text)
  pub subs : Dict Name (List (Text → Msg))

-- The sleep before an attempt, in milliseconds; none (0) for the first one.
unfoldable pub after : ℕ → ℕ
after backoff = if ltb backoff 1 then 0 else 10 * 2 ^ backoff

unfoldable pub add {ℓ} : {A : Type ℓ} → A → Option (List A) → Option (List A)
add value none = some (value ∷ [])
add value (some list) = some (value ∷ list)

-- The test for `Just (Connected socket)`.
unfoldable pub open_socket : {Socket : Type 0} → Option (Connection Socket) → Option Socket
open_socket none = none
open_socket (some (opening n pid)) = none
open_socket (some (connected socket)) = some socket

unfoldable pub with_default {ℓ} : {A : Type ℓ} → A → Option A → A
with_default d none = d
with_default d (some a) = a

unfoldable pub build_sub_dict :
    {Name Text Msg : Type 0} ⦃o : Comparable Name⦄
    → List (Sub Name Text Msg)
    → Dict Name (List (Text → Msg))
    → Option (Dict Name (List (Text → Msg)))
unfolding add with_default
build_sub_dict [] dict = some dict
build_sub_dict (listen name tagger ∷ subs) dict = elim (update name (add tagger) dict) [
  | none ↦ none
  | some d ↦ build_sub_dict subs d
]
build_sub_dict (keep_alive name ∷ subs) dict =
    elim (update name (λ m. some (with_default [] m)) dict) [
      | none ↦ none
      | some d ↦ build_sub_dict subs d
    ]

module _ {Name Text Msg Socket : Type 0} ⦃o : Comparable Name⦄ where
  -- A new process, which waits `after backoff` and then opens the connection.
  unfoldable pub attempt_open : ℕ → Name → Task Name Text Msg Socket ℕ
  attempt_open backoff name w = some (
    w.next_pid,
    record w { next_pid = suc w.next_pid; trace = spawn w.next_pid (after backoff) name ∷ w.trace },
  )

  unfoldable pub close_connection : Connection Socket → Task Name Text Msg Socket (Unit {0})
  unfolding perform
  close_connection (opening n pid) = perform (kill pid)
  close_connection (connected socket) = perform (close socket)

  unfoldable pub update_socket :
      Name → Connection Socket → State Name Text Msg Socket → Option (State Name Text Msg Socket)
  unfolding put
  update_socket name connection state = elim (put name connection state.sockets) [
    | none ↦ none
    | some d ↦ some (record state { sockets = d })
  ]

  unfoldable pub remove_queue :
      Name → State Name Text Msg Socket → Option (State Name Text Msg Socket)
  unfolding discard
  remove_queue name state = elim (discard name state.queues) [
    | none ↦ none
    | some d ↦ some (record state { queues = d })
  ]

  unfoldable pub send_messages_help :
      List (Cmd Name Text)
      → Dict Name (Connection Socket)
      → Dict Name (List Text)
      → Task Name Text Msg Socket (Dict Name (List Text))
  unfolding add open_socket perform
  send_messages_help [] sockets queues = succeed queues
  send_messages_help (send_cmd name msg ∷ rest) sockets queues =
      elim (open_socket (get name sockets)) [
        | some socket ↦ perform (send socket msg) >> send_messages_help rest sockets queues
        | none ↦ lift (update name (add msg) queues) >>= λ q. send_messages_help rest sockets q
      ]

  -- The steps of the merge in `onEffects`: over the wanted names and the sockets there are.
  unfoldable pub left_step :
      Name
      → List Text
      → Task Name Text Msg Socket (Dict Name (Connection Socket))
      → Task Name Text Msg Socket (Dict Name (Connection Socket))
  unfolding attempt_open put
  left_step name _ get_new_sockets = get_new_sockets >>= λ new_sockets.
      attempt_open 0 name >>= λ pid. lift (put name (opening 0 pid) new_sockets)

  unfoldable pub both_step :
      Name
      → List Text
      → Connection Socket
      → Task Name Text Msg Socket (Dict Name (Connection Socket))
      → Task Name Text Msg Socket (Dict Name (Connection Socket))
  unfolding put
  both_step name _ connection get_new_sockets =
      get_new_sockets >>= λ new_sockets. lift (put name connection new_sockets)

  unfoldable pub right_step :
      Name
      → Connection Socket
      → Task Name Text Msg Socket (Dict Name (Connection Socket))
      → Task Name Text Msg Socket (Dict Name (Connection Socket))
  unfolding close_connection
  right_step name connection get_new_sockets = close_connection connection >> get_new_sockets

  unfoldable pub cleanup :
      Dict Name (List (Text → Msg))
      → Dict Name (Connection Socket)
      → Dict Name (List Text)
      → Task Name Text Msg Socket (State Name Text Msg Socket)
  unfolding union Derived.map merge
  cleanup new_subs sockets new_queues =
      lift (union new_queues (Derived.map (λ k v. []) new_subs)) >>= λ new_entries.
      merge left_step both_step right_step new_entries sockets (succeed empty) >>= λ new_sockets.
      succeed (record { sockets = new_sockets; queues = new_queues; subs = new_subs })

  unfoldable pub on_effects :
      List (Cmd Name Text)
      → List (Sub Name Text Msg)
      → State Name Text Msg Socket
      → Task Name Text Msg Socket (State Name Text Msg Socket)
  unfolding build_sub_dict send_messages_help cleanup
  on_effects cmds subs state = lift (build_sub_dict subs empty) >>= λ new_subs.
      send_messages_help cmds state.sockets state.queues >>= λ new_queues.
      cleanup new_subs state.sockets new_queues

  -- `attemptOpen` and then the socket is `Opening` with the new process.
  unfoldable pub reopen :
      Name → ℕ → State Name Text Msg Socket → Task Name Text Msg Socket (State Name Text Msg Socket)
  unfolding attempt_open update_socket
  reopen name backoff state =
      attempt_open backoff name >>= λ pid. lift (update_socket name (opening backoff pid) state)

  -- The fold of `GoodOpen`: each message is sent before the task so far.
  unfoldable pub flush :
      Socket
      → State Name Text Msg Socket
      → List Text
      → Task Name Text Msg Socket (State Name Text Msg Socket)
  unfolding foldl_list perform
  flush socket state messages =
      foldl_list (λ msg task. perform (send socket msg) >> task) (succeed state) messages

  unfoldable pub on_self_msg :
      SelfMsg Name Text Socket
      → State Name Text Msg Socket
      → Task Name Text Msg Socket (State Name Text Msg Socket)
  unfolding sequence perform with_default reopen flush update_socket remove_queue
  on_self_msg (receive name str) state =
      sequence
        (map (λ tagger. perform (to_app (tagger str))) (with_default [] (get name state.subs)))
      >> succeed state
  on_self_msg (die name) state = elim (get name state.sockets) [
    | none ↦ succeed state
    | some connection ↦ reopen name 0 state
  ]
  on_self_msg (good_open name socket) state = elim (get name state.queues) [
    | none ↦ lift (update_socket name (connected socket) state)
    | some messages ↦ lift (update_socket name (connected socket) state) >>= λ state'.
        lift (remove_queue name state') >>= λ state''. flush socket state'' messages
  ]
  on_self_msg (bad_open name) state = elim (get name state.sockets) [
    | none ↦ succeed state
    | some connection ↦ elim connection [
      | opening n pid ↦ reopen name (suc n) state
      | connected socket ↦ succeed state
    ]
  ]
