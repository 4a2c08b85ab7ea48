-- ===== src/WebSocket/Closing.antt =====
-- ui/dist/Main.js, `_elm_lang$websocket$WebSocket$onEffects`, `cleanup`: what it does to the
-- connections, and in which order.
use kubecast.Common.{
  ℕ, suc, ◌+◌, ◌≡◌, refl, sym, ◌∙◌, ap, subst, some, List, [], ◌∷◌, ◌++◌, arith, append_assoc,
  append-nil, length,
}
use kubecast.Ord.{Comparable}
use kubecast.Dict.{Dict, empty}
use kubecast.Dict.Ops.{get, put}
use kubecast.Dict.Sorted.{IsSorted, find}
use kubecast.Dict.Derived.{foldl_list, merge, union}
use kubecast.Dict.Derived
use kubecast.Dict.Laws.{IsDict, empty-IsDict}
use kubecast.Dict.Folds.{update-Reads}
use kubecast.Dict.Build.{or_else, union-Reads, map-Reads}
use kubecast.Dict.Merge.{Side, only_left, both, only_right, sides, visit}
use kubecast.Dict.Visits.{merge-sides}
use kubecast.WebSocket.Tasks.{
  Connection, opening, connected, Effect, spawn, kill, close, World, Task, succeed, perform,
  bind-some, lift-some,
}
use kubecast.WebSocket.{
  after, attempt_open, close_connection, left_step, both_step, right_step, cleanup,
}
use kubecast.WebSocket.Messages.{Runs}
use kubecast.WebSocket.Reconcile.{wanted}

module _ {Name Text Socket : Type 0} where
  -- The names for which a connection is attempted, the last one first.
  abbrev pub started : List Name → List (Name × Side (List Text) (Connection Socket)) → List Name
  started ks [] = ks
  started ks ((k, only_left q) ∷ vs) = started (k ∷ ks) vs
  started ks ((k, both q c) ∷ vs) = started ks vs
  started ks ((k, only_right c) ∷ vs) = started ks vs

module _ {Name Text Msg Socket : Type 0} where
  -- How a connection is ended: its process is killed, or its socket closed.
  abbrev pub shut : Connection Socket → Effect Name Text Msg Socket
  shut (opening n pid) = kill pid
  shut (connected socket) = close socket

  -- The ends of the connections that are not wanted.
  abbrev pub closings :
      List (Name × Side (List Text) (Connection Socket)) → List (Effect Name Text Msg Socket)
  closings [] = []
  closings ((k, only_left q) ∷ vs) = closings vs
  closings ((k, both q c) ∷ vs) = closings vs
  closings ((k, only_right c) ∷ vs) = shut c ∷ closings vs

  -- The attempts, each by a process of its own from `first` on, with no wait; the last one first.
  abbrev pub spawns : ℕ → List Name → List (Effect Name Text Msg Socket)
  spawns first [] = []
  spawns first (k ∷ ks) = spawn (first + length ks) 0 k ∷ spawns first ks

module _ {Name Socket : Type 0} ⦃o : Comparable Name⦄ where
  put-IsDict :
      (k : Name) (c : Connection Socket) (d : Dict Name (Connection Socket))
      → IsDict d
      → (d' : Dict Name (Connection Socket)) × (put k c d ≡ some d') × IsDict d'
  unfolding put
  put-IsDict k c d h = let (d', e, h', g) = update-Reads k (λ _. some c) d h in (d', e, h')

moved {ℓ} :
    {A : Type ℓ} (xs ys : List A) (x : A) (zs : List A)
    → xs ++ ys ++ x ∷ zs ≡ xs ++ (ys ++ x ∷ []) ++ zs
moved xs ys x zs = simp append_assoc

module _ {Name Text Msg Socket : Type 0} ⦃o : Comparable Name⦄ where
  -- A task that builds a dictionary, ends connections and then attempts others.
  abbrev Does :
      List (Effect Name Text Msg Socket)
      → List Name
      → Task Name Text Msg Socket (Dict Name (Connection Socket))
      → Type 0
  Does cs ks t =
      (w : World Name Text Msg Socket)
      → Runs t w (λ d w'.
        IsDict d
        × (w'.next_pid ≡ w.next_pid + length ks)
        × (w'.trace ≡ spawns w.next_pid ks ++ cs ++ w.trace))

  left-Does :
      (k : Name) (q : List Text) (cs : List (Effect Name Text Msg Socket)) (ks : List Name)
      (t : Task Name Text Msg Socket (Dict Name (Connection Socket)))
      → Does cs ks t
      → Does cs (k ∷ ks) (left_step k q t)
  unfolding left_step attempt_open after
  left-Does k q cs ks t b w =
      let (p, e, ok) = b w in
      let pid = p.1.next_pid in
      let (d', e', h') = put-IsDict k (opening 0 pid) p.0 ok.0 in
      (
        (d', record p.1 { next_pid = suc pid; trace = spawn pid 0 k ∷ p.1.trace }),
        bind-some t _ w p.1 p.0 e ∙ rw e' refl,
        (
          h',
          omega (arith, ok.1),
          ap (λ n. spawn n 0 k ∷ p.1.trace) ok.1
              ∙ ap (λ es. spawn (w.next_pid + length ks) 0 k ∷ es) ok.2,
        ),
      )

  both-Does :
      (k : Name) (q : List Text) (c : Connection Socket) (cs : List (Effect Name Text Msg Socket))
      (ks : List Name) (t : Task Name Text Msg Socket (Dict Name (Connection Socket)))
      → Does cs ks t
      → Does cs ks (both_step k q c t)
  unfolding both_step
  both-Does k q c cs ks t b w =
      let (p, e, ok) = b w in
      let (d', e', h') = put-IsDict k c p.0 ok.0 in
      ((d', p.1), bind-some t _ w p.1 p.0 e ∙ rw e' refl, (h', ok.1, ok.2))

  right-Does :
      (k : Name) (c : Connection Socket) (cs : List (Effect Name Text Msg Socket)) (ks : List Name)
      (t : Task Name Text Msg Socket (Dict Name (Connection Socket)))
      → Does cs ks t
      → Does (cs ++ shut c ∷ []) ks (right_step k c t)
  unfolding right_step close_connection perform
  right-Does k (opening n pid) cs ks t b w =
      let (p, e, ok) = b (record w { trace = kill pid ∷ w.trace }) in
      (p, e, (ok.0, ok.1, ok.2 ∙ moved (spawns w.next_pid ks) cs (kill pid) w.trace))
  right-Does k (connected socket) cs ks t b w =
      let (p, e, ok) = b (record w { trace = close socket ∷ w.trace }) in
      (p, e, (ok.0, ok.1, ok.2 ∙ moved (spawns w.next_pid ks) cs (close socket) w.trace))

  Does-eq :
      (cs cs' : List (Effect Name Text Msg Socket)) (ks : List Name)
      (t : Task Name Text Msg Socket (Dict Name (Connection Socket)))
      → cs ≡ cs'
      → Does cs ks t
      → Does cs' ks t
  Does-eq cs cs' ks t e b = subst (λ c. Does c ks t) e b

  visits-Does :
      (vs : List (Name × Side (List Text) (Connection Socket)))
      (cs : List (Effect Name Text Msg Socket)) (ks : List Name)
      (t : Task Name Text Msg Socket (Dict Name (Connection Socket)))
      → Does cs ks t
      → Does
          (cs ++ closings vs)
          (started ks vs)
          (foldl_list (visit left_step both_step right_step) t vs)
  unfolding foldl_list
  visits-Does [] cs ks t b = Does-eq cs (cs ++ []) ks t (sym (append-nil cs)) b
  visits-Does ((k, only_left q) ∷ vs) cs ks t b =
      visits-Does vs cs (k ∷ ks) (left_step k q t) (left-Does k q cs ks t b)
  visits-Does ((k, both q c) ∷ vs) cs ks t b =
      visits-Does vs cs ks (both_step k q c t) (both-Does k q c cs ks t b)
  visits-Does ((k, only_right c) ∷ vs) cs ks t b =
      Does-eq ((cs ++ shut c ∷ []) ++ closings vs) (cs ++ shut c ∷ closings vs) (started ks vs) _
        (append_assoc cs (shut c ∷ []) (closings vs))
        (visits-Does vs (cs ++ shut c ∷ []) ks (right_step k c t) (right-Does k c cs ks t b))

  -- What `cleanup` does, if the three tables are dictionaries, follows a list of visits: the names
  -- that are wanted or have a connection, in ascending order. It does not crash; first every
  -- connection of a name that is not wanted is ended, and then a connection is attempted for every
  -- wanted name that has none, by a new process and with no wait; nothing else is done. (The trace
  -- has the newest effect first.)
  pub cleanup-closes :
      (new_subs : Dict Name (List (Text → Msg))) (sockets : Dict Name (Connection Socket))
      (new_queues : Dict Name (List Text)) (w : World Name Text Msg Socket)
      → IsDict new_subs
      → IsDict sockets
      → IsDict new_queues
      → Runs (cleanup new_subs sockets new_queues) w (λ s' w'.
        (vs : List (Name × Side (List Text) (Connection Socket))) × IsSorted vs
        × ((i : Name) → find i vs ≡ sides (wanted new_queues new_subs i) (get i sockets))
        × (w'.trace ≡ spawns w.next_pid (started [] vs) ++ closings vs ++ w.trace))
  unfolding cleanup
  cleanup-closes new_subs sockets new_queues w hu hs hq =
      let (hm, gm) = map-Reads (λ k v. []) new_subs hu in
      let (entries, e, he, ge) = union-Reads new_queues (Derived.map (λ k v. []) new_subs) hq hm in
      let (vs, m, sorted, found) =
        merge-sides left_step both_step right_step entries sockets (succeed empty) he hs in
      let start : Does [] [] (succeed empty) =
        λ u. ((empty, u), refl, (empty-IsDict, omega arith, refl)) in
      let (p, e', ok) = visits-Does vs [] [] (succeed empty) start w in
      (
        (record { sockets = p.0; queues = new_queues; subs = new_subs }, p.1),
        lift-some (union new_queues (Derived.map (λ k v. []) new_subs)) _ w entries e
            ∙ bind-some (merge left_step both_step right_step entries sockets (succeed empty)) _ w
                p.1 p.0 (ap (λ t. t w) m ∙ e'),
        (
          vs,
          sorted,
          λ i.
              found i
              ∙ ap (λ q. sides q (get i sockets))
                  ((λ x. ge x i) ∙ ap (or_else (get i new_queues)) (gm i)),
          ok.2,
        ),
      )
