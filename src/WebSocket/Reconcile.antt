-- ===== src/WebSocket/Reconcile.antt =====
-- ui/dist/Main.js, `_elm_lang$websocket$WebSocket$onEffects`, the part after the messages: the
-- connections against the subscriptions and the queues.
use kubecast.Common.{
  ℕ, suc, ◌≡◌, refl, sym, ◌∙◌, ap, ap₂, subst, Ordering, lt, eq, gt, Bool, true, false, Option,
  none, some, List, [], ◌∷◌,
}
use kubecast.Ord.{Comparable}
use kubecast.Dict.{Dict, empty}
use kubecast.Dict.Ops.{get, put}
use kubecast.Dict.Balance.{contents}
use kubecast.Dict.Sorted.{find}
use kubecast.Dict.Refine.{get-find}
use kubecast.Dict.Derived.{foldl_list, merge, union}
use kubecast.Dict.Derived
use kubecast.Dict.Laws.{IsDict, empty-IsDict}
use kubecast.Dict.Folds.{update-Reads}
use kubecast.Dict.Build.{
  or_else, keep, filter_at, filter_at-find, union-Reads, map-Reads, or_else-none,
}
use kubecast.Dict.Merge.{
  Side, only_left, both, only_right, sides, visits, visits-IsSorted, find-visits, visit,
  merge-visits,
}
use kubecast.WebSocket.Tasks.{
  Connection, opening, connected, spawn, World, Task, succeed, perform, bind-some, lift-some,
}
use kubecast.WebSocket.{
  State, after, attempt_open, close_connection, left_step, both_step, right_step, cleanup,
}
use kubecast.WebSocket.Messages.{Runs, IsValid}

-- The connection that a name has after the merge, by where it stood.
abbrev Fits :
    {Text Socket : Type 0}
    → Option (Side (List Text) (Connection Socket))
    → Option (Connection Socket)
    → Type 0
Fits none c = c ≡ none
Fits (some (only_left q)) c = (pid : ℕ) × (c ≡ some (opening 0 pid))
Fits (some (both q c')) c = c ≡ some c'
Fits (some (only_right c')) c = c ≡ none

abbrev is_wanted : {Name Text Socket : Type 0} → Name → Side (List Text) (Connection Socket) → Bool
is_wanted i (only_left q) = true
is_wanted i (both q c) = true
is_wanted i (only_right c) = false

Fits-set :
    {Text Socket : Type 0} (x : Ordering) (s r : Option (Side (List Text) (Connection Socket)))
    (c m : Option (Connection Socket))
    → Fits s c
    → Fits r m
    → Fits (elim x [ eq ↦ s | _ ↦ r ]) (elim x [ eq ↦ c | _ ↦ m ])
Fits-set lt s r c m h g = g
Fits-set eq s r c m h g = h
Fits-set gt s r c m h g = g

-- What `onEffects` makes of a name's connection: a wanted one stays as it is or is opened, an
-- unwanted one is dropped.
abbrev pub Follows :
    {Text Socket : Type 0}
    → Option (List Text)
    → Option (Connection Socket)
    → Option (Connection Socket)
    → Type 0
Follows none old new = new ≡ none
Follows (some q) (some c) new = new ≡ some c
Follows (some q) none new = (pid : ℕ) × (new ≡ some (opening 0 pid))

-- The names that are wanted: those with a queue, and those with a subscription.
abbrev pub wanted :
    {Name Text Msg : Type 0} ⦃o : Comparable Name⦄
    → Dict Name (List Text)
    → Dict Name (List (Text → Msg))
    → Name
    → Option (List Text)
wanted queues subs i =
    or_else (get i queues) (elim (get i subs) [ none ↦ none | some taggers ↦ some [] ])

Follows-keep :
    {Name Text Socket : Type 0} ⦃o : Comparable Name⦄ (i : Name) (q : Option (List Text))
    (old new : Option (Connection Socket))
    → Fits (keep is_wanted i (sides q old)) new
    → Follows q old new
Follows-keep i none none new f = f
Follows-keep i none (some c) new f = f
Follows-keep i (some q) none new f = f
Follows-keep i (some q) (some c) new f = f

module _ {Name Text Socket : Type 0} ⦃o : Comparable Name⦄ where
  put-Fits :
      (k : Name) (s : Side (List Text) (Connection Socket)) (c : Connection Socket)
      (R : Name → Option (Side (List Text) (Connection Socket))) (d : Dict Name (Connection Socket))
      → IsDict d
      → Fits (some s) (some c)
      → ((i : Name) → Fits (R i) (get i d))
      → (d' : Dict Name (Connection Socket)) × (put k c d ≡ some d')
        × IsDict d'
        × ((i : Name) → Fits (elim (o.cmp i k) [ eq ↦ some s | _ ↦ R i ]) (get i d'))
  unfolding put
  put-Fits k s c R d h fit fits =
      let (d', e, h', g) = update-Reads k (λ _. some c) d h in
      (
        d',
        e,
        h',
        λ i.
            subst (Fits (elim (o.cmp i k) [ eq ↦ some s | _ ↦ R i ])) (λ x. sym g x i)
              (Fits-set (o.cmp i k) (some s) (R i) (some c) (get i d) fit (fits i)),
      )

module _ {Name Text Msg Socket : Type 0} ⦃o : Comparable Name⦄ where
  -- A task that builds a dictionary which fits `R`, in every world.
  abbrev Builds :
      (Name → Option (Side (List Text) (Connection Socket)))
      → Task Name Text Msg Socket (Dict Name (Connection Socket))
      → Type 0
  Builds R t =
      (w : World Name Text Msg Socket)
      → Runs t w (λ d w'. IsDict d × ((i : Name) → Fits (R i) (get i d)))

  visit-Builds :
      (k : Name) (s : Side (List Text) (Connection Socket))
      (R : Name → Option (Side (List Text) (Connection Socket)))
      (t : Task Name Text Msg Socket (Dict Name (Connection Socket)))
      → Builds R t
      → Builds (filter_at is_wanted (k, s) R) (visit left_step both_step right_step (k, s) t)
  unfolding left_step both_step right_step attempt_open close_connection perform
  visit-Builds k (only_left q) R t b w =
      let (p, e, ok) = b w in
      let pid = p.1.next_pid in
      let (d', e', h', fits') =
        put-Fits k (only_left q) (opening 0 pid) R p.0 ok.0 (pid, refl) ok.1 in
      (
        (d', record p.1 { next_pid = suc pid; trace = spawn pid (after 0) k ∷ p.1.trace }),
        bind-some t _ w p.1 p.0 e ∙ rw e',
        (h', fits'),
      )
  visit-Builds k (both q c) R t b w =
      let (p, e, ok) = b w in
      let (d', e', h', fits') = put-Fits k (both q c) c R p.0 ok.0 refl ok.1 in
      ((d', p.1), bind-some t _ w p.1 p.0 e ∙ rw e', (h', fits'))
  visit-Builds k (only_right (opening n pid)) R t b w = b _
  visit-Builds k (only_right (connected socket)) R t b w = b _

  visits-Builds :
      (vs : List (Name × Side (List Text) (Connection Socket)))
      (R : Name → Option (Side (List Text) (Connection Socket)))
      (t : Task Name Text Msg Socket (Dict Name (Connection Socket)))
      → Builds R t
      → Builds
          (foldl_list (filter_at is_wanted) R vs)
          (foldl_list (visit left_step both_step right_step) t vs)
  unfolding foldl_list
  visits-Builds [] R t b = b
  visits-Builds ((k, s) ∷ vs) R t b = visits-Builds vs _ _ (visit-Builds k s R t b)

  -- From an empty dictionary, the merge builds one that fits the visits.
  merge-Builds :
      (entries : Dict Name (List Text)) (sockets : Dict Name (Connection Socket))
      → IsDict entries
      → IsDict sockets
      → (w : World Name Text Msg Socket)
      → Runs
          (merge left_step both_step right_step entries sockets (succeed empty))
          w
          (λ d w'. IsDict d × ((i : Name) → Follows (get i entries) (get i sockets) (get i d)))
  merge-Builds entries sockets he hs w =
      let vs = visits (contents entries) (contents sockets) in
      let start : Builds (λ _. none) (succeed empty) =
        λ u. ((empty, u), refl, (empty-IsDict, λ i. unfold get in refl)) in
      let (p, e, ok) = visits-Builds vs (λ _. none) (succeed empty) start w in
      (
        p,
        ap (λ t. t w) (merge-visits left_step both_step right_step entries sockets (succeed empty))
            ∙ e,
        (
          ok.0,
          λ i. Follows-keep i (get i entries) (get i sockets) (get i p.0) (
              subst (λ m. Fits m (get i p.0))
                (filter_at-find is_wanted vs (λ _. none) i
                    (visits-IsSorted (contents entries) (contents sockets) he.sorted hs.sorted)
                  ∙ or_else-none (keep is_wanted i (find i vs))
                  ∙ ap (keep is_wanted i) (
                      find-visits i (contents entries) (contents sockets) he.sorted hs.sorted
                      ∙ ap₂ sides (sym (get-find i entries he.sorted))
                          (sym (get-find i sockets hs.sorted))))
                (ok.1 i)),
        ),
      )

  pub cleanup-Runs :
      (new_subs : Dict Name (List (Text → Msg))) (sockets : Dict Name (Connection Socket))
      (new_queues : Dict Name (List Text))
      → IsDict new_subs
      → IsDict sockets
      → IsDict new_queues
      → (w : World Name Text Msg Socket)
      → Runs (cleanup new_subs sockets new_queues) w (λ s' w'.
        IsValid s'
        × (s'.queues ≡ new_queues)
        × (s'.subs ≡ new_subs)
        × ((i : Name) → Follows (wanted new_queues new_subs i) (get i sockets) (get i s'.sockets)))
  unfolding cleanup
  cleanup-Runs new_subs sockets new_queues hu hs hq w =
      let (hm, gm) = map-Reads (λ k v. []) new_subs hu in
      let (entries, e, he, ge) = union-Reads new_queues (Derived.map (λ k v. []) new_subs) hq hm in
      let (p, e', ok) = merge-Builds entries sockets he hs w in
      let s' : State Name Text Msg Socket = record {
        sockets = p.0;
        queues = new_queues;
        subs = new_subs;
      } in
      (
        (s', p.1),
        lift-some (union new_queues (Derived.map (λ k v. []) new_subs)) _ w entries e
            ∙ bind-some (merge left_step both_step right_step entries sockets (succeed empty)) _ w
                p.1 p.0 e',
        (
          record { sockets_ok = ok.0; queues_ok = hq; subs_ok = hu },
          refl,
          refl,
          λ i.
              subst (λ q. Follows q (get i sockets) (get i p.0))
                ((λ x. ge x i) ∙ ap (or_else (get i new_queues)) (gm i)) (ok.1 i),
        ),
      )
