-- ===== src/Tests/Sockets.antt =====
-- Runs of the theorems on the effect manager: names, texts, messages and sockets are numbers.
use kubecast.Common.{ℕ, ◌+◌, ◌≡◌, refl, none, some, List, [], ◌∷◌, ◌++◌, map}
use mathlib.Core.List.{reverse}
use kubecast.Ord.{nat_comparable}
use kubecast.Dict.{Dict, rb_empty, rb_node, black, lblack, empty}
use kubecast.Dict.Ops.{get}
use kubecast.Dict.RedBlack.{leaf, black_node}
use kubecast.Dict.Laws.{IsDict, revise, empty-IsDict}
use kubecast.Dict.Folds.{reads}
use kubecast.WebSocket.Tasks.{Connection, opening, connected, spawn, send, World}
use kubecast.WebSocket.{
  Cmd, send_cmd, Sub, listen, keep_alive, State, die, good_open, bad_open, open_socket, on_effects,
  on_self_msg,
}
use kubecast.WebSocket.Opening.{good_open_flushes, on_self_msg-IsValid}
use kubecast.WebSocket.Messages.{IsValid, Runs, did, Sets, die_reopens, bad_open_backs_off}
use kubecast.WebSocket.Reconcile.{Follows, wanted}
use kubecast.Dict.Merge.{Side, sides}
use kubecast.Dict.Sorted.{IsSorted, find}
use kubecast.WebSocket.{cleanup}
use kubecast.WebSocket.Closing.{closings, started, spawns, cleanup-closes}
use kubecast.WebSocket.Effects.{texts_to, queued, subscribed, on_effects-Runs}
use kubecast.WebSocket.Delivery.{delivered_in_order}

abbrev one {ℓ} : {V : Type ℓ} → ℕ → V → Dict ℕ V
one k v = rb_node black k v (rb_empty lblack) (rb_empty lblack)

one-IsDict {ℓ} : {V : Type ℓ} (k : ℕ) (v : V) → IsDict (one k v)
one-IsDict k v = record { height = 1; valid = black_node leaf leaf; sorted = (tt, tt) }

abbrev tagger : ℕ → ℕ
tagger t = t + 1000

-- Connection 1 is being opened, and two texts wait for it.
abbrev state : State ℕ ℕ ℕ ℕ
state = record {
  sockets = one 1 (opening 2 40);
  queues = one 1 (8 ∷ 7 ∷ []);
  subs = one 1 (tagger ∷ []);
}

state-IsValid : IsValid state
state-IsValid = record {
  sockets_ok = one-IsDict 1 (opening 2 40);
  queues_ok = one-IsDict 1 (8 ∷ 7 ∷ []);
  subs_ok = one-IsDict 1 (tagger ∷ []);
}

-- Connection 1 is being opened, and nothing waits.
abbrev quiet : State ℕ ℕ ℕ ℕ
quiet = record { sockets = one 1 (opening 2 40); queues = empty; subs = one 1 (tagger ∷ []) }

quiet-IsValid : IsValid quiet
quiet-IsValid = record {
  sockets_ok = one-IsDict 1 (opening 2 40);
  queues_ok = empty-IsDict;
  subs_ok = one-IsDict 1 (tagger ∷ []);
}

abbrev world : World ℕ ℕ ℕ ℕ
world = record { next_pid = 41; trace = [] }

abbrev cmds : List (Cmd ℕ ℕ)
cmds = send_cmd 1 10 ∷ send_cmd 2 30 ∷ send_cmd 1 11 ∷ []

abbrev subs : List (Sub ℕ ℕ ℕ)
subs = listen 1 tagger ∷ keep_alive 2 ∷ []

abbrev no_subs : Dict ℕ (List (ℕ → ℕ))
no_subs = empty

state_opening : get 1 state.sockets ≡ some (opening 2 40)
unfolding get nat_comparable
state_opening = refl

state_queue : get 1 state.queues ≡ some (8 ∷ 7 ∷ [])
unfolding get nat_comparable
state_queue = refl

no_socket : get 2 state.sockets ≡ none
unfolding get nat_comparable
no_socket = refl

no_queue : get 1 quiet.queues ≡ none
unfolding get
no_queue = refl

quiet_closed : open_socket (get 1 quiet.sockets) ≡ none
unfolding get nat_comparable open_socket
quiet_closed = refl

texts_to_1 : texts_to 1 cmds ≡ 10 ∷ 11 ∷ []
unfolding nat_comparable
texts_to_1 = refl

on_effects-Runs_example : Runs (on_effects cmds subs state) world (λ s' w'.
    IsValid s'
    × ((i : ℕ) → get i s'.queues ≡ queued cmds state.sockets (reads state.queues) i)
    × ((i : ℕ) → get i s'.subs ≡ subscribed subs i none)
    × ((i : ℕ) → Follows (wanted s'.queues s'.subs i) (get i state.sockets) (get i s'.sockets)))
on_effects-Runs_example = on_effects-Runs cmds subs state world state-IsValid

delivered_in_order_example : Runs (on_effects cmds subs quiet) world (λ s' w'.
    Runs
      (on_self_msg (good_open 1 500) s')
      w'
      (λ s'' w''. w'' ≡ did (map (send 500) (reverse (texts_to 1 cmds))) w'))
delivered_in_order_example =
    delivered_in_order cmds subs quiet world 1 500 10 (11 ∷ []) quiet-IsValid quiet_closed no_queue
      texts_to_1

on_self_msg-IsValid_example : Runs (on_self_msg (die 1) state) world (λ s' w'. IsValid s')
on_self_msg-IsValid_example = on_self_msg-IsValid (die 1) state world state-IsValid

die_reopens_example : Runs (on_self_msg (die 1) state) world (λ s' w'.
    Sets 1 (opening 0 41) state s' × (w' ≡ record { next_pid = 42; trace = spawn 41 0 1 ∷ [] }))
die_reopens_example = die_reopens 1 state world state-IsValid (opening 2 40) state_opening

bad_open_backs_off_example : Runs (on_self_msg (bad_open 1) state) world (λ s' w'.
    Sets 1 (opening 3 41) state s' × (w' ≡ record { next_pid = 42; trace = spawn 41 80 1 ∷ [] }))
bad_open_backs_off_example = bad_open_backs_off 1 2 40 state world state-IsValid state_opening

good_open_flushes_example : Runs (on_self_msg (good_open 1 500) state) world (λ s' w'.
    IsValid s'
    × (reads s'.sockets ≡ revise (reads state.sockets) 1 (λ _. some (connected 500)))
    × (reads s'.queues ≡ revise (reads state.queues) 1 (λ _. none))
    × (s'.subs ≡ state.subs)
    × (w' ≡ did (map (send 500) (8 ∷ 7 ∷ [])) world))
good_open_flushes_example =
    good_open_flushes 1 500 (8 ∷ 7 ∷ []) state world state-IsValid state_queue

-- Name 2 is wanted for its queue, and name 1 no longer.
cleanup-closes_example :
    Runs (cleanup no_subs (one 1 (connected 500)) (one 2 (8 ∷ []))) world (λ s' w'.
      (vs : List (ℕ × Side (List ℕ) (Connection ℕ))) × IsSorted vs
      × ((i : ℕ)
          → find i vs ≡ sides (wanted (one 2 (8 ∷ [])) no_subs i) (get i (one 1 (connected 500))))
      × (w'.trace ≡ spawns world.next_pid (started [] vs) ++ closings vs ++ world.trace))
cleanup-closes_example =
    cleanup-closes no_subs (one 1 (connected 500)) (one 2 (8 ∷ [])) world empty-IsDict
      (one-IsDict 1 (connected 500)) (one-IsDict 2 (8 ∷ []))
