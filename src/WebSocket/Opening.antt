-- ===== src/WebSocket/Opening.antt =====
-- ui/dist/Main.js, `_elm_lang$websocket$WebSocket$onSelfMsg` at `GoodOpen`, and at any message.
use kubecast.Common.{◌≡◌, refl, ◌∙◌, ap, none, some, List, [], ◌∷◌, map, Option-cases, inl, inr}
use kubecast.Ord.{Comparable}
use kubecast.Dict.Ops.{get, put, discard}
use kubecast.Dict.Derived.{foldl_list}
use kubecast.Dict.Laws.{revise}
use kubecast.Dict.Folds.{reads, update-Reads}
use kubecast.WebSocket.Tasks.{
  opening, connected, send, World, Task, succeed, perform, ◌>>◌, lift-some,
}
use kubecast.WebSocket.{
  State, SelfMsg, receive, die, good_open, bad_open, update_socket, remove_queue, flush,
  on_self_msg,
}
use kubecast.WebSocket.Messages.{
  IsValid, Runs, did, Sets, update_socket-Sets, die_reopens, bad_open_backs_off, bad_open_ignored,
  receive_delivers,
}

module _ {Name Text Msg Socket : Type 0} ⦃o : Comparable Name⦄ where
  flush_task :
      (socket : Socket) (t : Task Name Text Msg Socket (State Name Text Msg Socket))
      (msgs : List Text) (w : World Name Text Msg Socket)
      → foldl_list (λ msg task. perform (send socket msg) >> task) t msgs w
        ≡ t (did (map (send socket) msgs) w)
  unfolding foldl_list perform
  flush_task socket t [] w = refl
  flush_task socket t (m ∷ ms) w = flush_task socket (perform (send socket m) >> t) ms w

  -- In a manager whose tables are dictionaries, a connection that opens is marked open and sends
  -- what was queued for it, the oldest first (the trace and the queue both have the newest at the
  -- head); the queue is gone, and the other queues and the subscriptions stay.
  pub good_open_flushes :
      (name : Name) (socket : Socket) (messages : List Text) (s : State Name Text Msg Socket)
      (w : World Name Text Msg Socket)
      → IsValid s
      → get name s.queues ≡ some messages
      → Runs (on_self_msg (good_open name socket) s) w (λ s' w'.
        IsValid s'
        × (reads s'.sockets ≡ revise (reads s.sockets) name (λ _. some (connected socket)))
        × (reads s'.queues ≡ revise (reads s.queues) name (λ _. none))
        × (s'.subs ≡ s.subs)
        × (w' ≡ did (map (send socket) messages) w))
  unfolding on_self_msg remove_queue discard flush update_socket put
  good_open_flushes name socket messages s w v e =
      let (s1, e1, h) = update_socket-Sets name (connected socket) s v in
      let (q, e2, hq, gq) = update-Reads name (λ _. none) s1.queues h.keeps.queues_ok in
      let s2 : State Name Text Msg Socket = record s1 { queues = q } in
      (
        (s2, did (map (send socket) messages) w),
        rw (e, on_self_msg)
            (lift-some (update_socket name (connected socket) s) _ w s1 e1
              ∙ lift-some (remove_queue name s1) _ w s2 (rw (e2, remove_queue))
              ∙ flush_task socket (succeed s2) messages w),
        (
          record { sockets_ok = h.keeps.sockets_ok; queues_ok = hq; subs_ok = h.keeps.subs_ok },
          h.sockets_read,
          gq ∙ ap (λ d. revise (reads d) name (λ _. none)) h.queues_same,
          h.subs_same,
          refl,
        ),
      )

  -- In a manager whose tables are dictionaries, a connection that opens with nothing queued for it
  -- is marked open, and nothing else happens.
  pub good_open_quiet :
      (name : Name) (socket : Socket) (s : State Name Text Msg Socket)
      (w : World Name Text Msg Socket)
      → IsValid s
      → get name s.queues ≡ none
      → Runs
          (on_self_msg (good_open name socket) s)
          w
          (λ s' w'. Sets name (connected socket) s s' × (w' ≡ w))
  unfolding on_self_msg
  good_open_quiet name socket s w v e =
      let (s', e', h) = update_socket-Sets name (connected socket) s v in
      ((s', w), rw (e, on_self_msg, e'), (h, refl))

  -- In a manager whose tables are dictionaries, whatever the message about a connection, the
  -- manager does not crash, and its tables stay dictionaries.
  pub on_self_msg-IsValid :
      (m : SelfMsg Name Text Socket) (s : State Name Text Msg Socket)
      (w : World Name Text Msg Socket)
      → IsValid s
      → Runs (on_self_msg m s) w (λ s' w'. IsValid s')
  on_self_msg-IsValid (receive name str) s w v = (_, receive_delivers name str s w, v)
  on_self_msg-IsValid (die name) s w v = elim (Option-cases (get name s.sockets)) [
    | inl e ↦ ((s, w), unfold on_self_msg in rw (e, on_self_msg), v)
    | inr (c, e) ↦ let (p, e', h) = die_reopens name s w v c e in (p, e', h.0.keeps)
  ]
  on_self_msg-IsValid (good_open name socket) s w v = elim (Option-cases (get name s.queues)) [
    | inl e ↦ let (p, e', h) = good_open_quiet name socket s w v e in (p, e', h.0.keeps)
    | inr (ms, e) ↦ let (p, e', h) = good_open_flushes name socket ms s w v e in (p, e', h.0)
  ]
  on_self_msg-IsValid (bad_open name) s w v = elim (Option-cases (get name s.sockets)) [
    | inl e ↦ ((s, w), bad_open_ignored name s w (inl e), v)
    | inr (opening n pid, e) ↦
        let (p, e', h) = bad_open_backs_off name n pid s w v e in (p, e', h.0.keeps)
    | inr (connected socket, e) ↦ ((s, w), bad_open_ignored name s w (inr (socket, e)), v)
  ]
