-- ===== src/Scheduler/Fairness.antt =====
-- ui/dist/Main.js, `_elm_lang$core$Native_Scheduler`: the order in which processes are run, and that
-- none waits in the queue for ever.
use kubecast.Common.{
  ℕ, zero, suc, ◌≤◌, ◌<◌, ◌≡◌, ◌⊎◌, refl, sym, ap, ◌∙◌, inl, inr, arith, List, [], ◌∷◌, ◌++◌,
  length, get_elem?, append_assoc, append-nil, length-append,
}
use kubecast.Scheduler.{Value, Task, World, raw_spawn, raw_send, call_back, enqueue}
use kubecast.Scheduler.Work.{Stimulus, woke, sent, spawned, History, begin, later, then_worked}
use kubecast.Scheduler.Queue.{step-Appends}
use kubecast.Scheduler.Serving.{Serves, full, idle, skips, runs, work-Serves}

get_elem?-append :
    (i : ℕ) (xs ys : List ℕ) → i < length xs → get_elem? i (xs ++ ys) ≡ get_elem? i xs
get_elem?-append i [] ys h = absurd (omega arith)
get_elem?-append zero (x ∷ xs) ys h = refl
get_elem?-append (suc i) (x ∷ xs) ys h = get_elem?-append i xs ys (omega arith)

module _ {K A : Type 0} (apply : K → Value A → Task K A) where
  -- What a call takes comes from the front of the queue, with what is added behind it meanwhile.
  pub Serves-queue :
      {left : ℕ} {w u : World K A} {taken : List ℕ}
      → Serves apply left w taken u
      → (added : List ℕ) × (w.work_queue ++ added ≡ taken ++ u.work_queue)
  Serves-queue (full w) = ([], append-nil w.work_queue)
  Serves-queue (idle left w e) = ([], append-nil w.work_queue)
  Serves-queue (skips left w pid queue e er s) =
      let (added, q) = Serves-queue s in (added, ap (λ l. l ++ added) e ∙ ap (λ l. pid ∷ l) q)
  Serves-queue (runs left w pid queue {taken} {u} e es s) =
      let (a, l) = step-Appends apply (suc left) pid (record w { work_queue = queue }) es in
      let (added, q) = Serves-queue s in
      (
        a.added ++ added,
        ap (λ l. l ++ (a.added ++ added)) e
            ∙ ap (λ l. pid ∷ l)
                (sym (append_assoc queue a.added added) ∙ ap (λ l. l ++ added) (sym a.behind) ∙ q),
      )

  -- A call with rounds left takes a process, unless the queue is empty.
  pub Serves-first :
      {left : ℕ} {w u : World K A} {taken : List ℕ}
      → Serves apply (suc left) w taken u
      → (w.work_queue ≡ []) ⊎ (1 ≤ length taken)
  Serves-first (idle left w e) = inl e
  Serves-first (skips left w pid queue e er s) = inr (omega arith)
  Serves-first (runs left w pid queue e es s) = inr (omega arith)

  -- What the calls of `work` of a history took, one call after the other.
  abbrev pub taken_in : {w : World K A} {n : ℕ} {u : World K A} → History apply w n u → List ℕ
  taken_in begin = []
  taken_in (later h s) = taken_in h
  taken_in (then_worked h due e) = taken_in h ++ (work-Serves apply e).0

  abbrev pub adds_behind : {w u : World K A} → Stimulus apply w u → List ℕ
  adds_behind (woke id {pid} e) = pid ∷ []
  adds_behind (sent pid msg) = pid ∷ []
  adds_behind {w} (spawned task) = w.guid ∷ []

  Stimulus-queue :
      {w u : World K A} (s : Stimulus apply w u) → u.work_queue ≡ w.work_queue ++ adds_behind s
  unfolding call_back raw_send raw_spawn enqueue
  Stimulus-queue (woke id e) = refl
  Stimulus-queue (sent pid msg) = refl
  Stimulus-queue (spawned task) = refl

  -- In a history the queue of its start, with what was added behind it, was taken from the front, and
  -- each call of `work` took one process at least, unless the whole queue of the start was taken.
  History-queue :
      {w : World K A} {n : ℕ} {u : World K A} (h : History apply w n u)
      → (added : List ℕ) × (w.work_queue ++ added ≡ taken_in h ++ u.work_queue)
        × ((n ≤ length (taken_in h)) ⊎ (length w.work_queue ≤ length (taken_in h)))
  History-queue {w} begin = ([], append-nil w.work_queue, inl (omega arith))
  History-queue {w} (later h s) =
      let (added, q, l) = History-queue h in
      (
        added ++ adds_behind s,
        sym (append_assoc w.work_queue added (adds_behind s))
            ∙ ap (λ l. l ++ adds_behind s) q
            ∙ append_assoc (taken_in h) _ (adds_behind s)
            ∙ ap (λ l. taken_in h ++ l) (sym (Stimulus-queue s)),
        l,
      )
  History-queue {w} (then_worked {n} {due} {v} {u} h e f) =
      let (added, q, l) = History-queue h in
      let (more, s) = work-Serves apply f in
      let (new, q') = Serves-queue s in
      (
        added ++ new,
        sym (append_assoc w.work_queue added new)
            ∙ ap (λ l. l ++ new) q
            ∙ append_assoc (taken_in h) v.work_queue new
            ∙ ap (λ l. taken_in h ++ l) q'
            ∙ sym (append_assoc (taken_in h) more u.work_queue),
        served n (taken_in h) more w.work_queue added v.work_queue q l (Serves-first s),
      )
    where
      served :
          (n : ℕ) (old more queue added rest : List ℕ)
          → queue ++ added ≡ old ++ rest
          → (n ≤ length old) ⊎ (length queue ≤ length old)
          → (rest ≡ []) ⊎ (1 ≤ length more)
          → (suc n ≤ length (old ++ more)) ⊎ (length queue ≤ length (old ++ more))
      served n old more queue added rest q l (inl e) = inr (
          omega (
            arith,
            length-append old more,
            length-append old rest,
            length-append queue added,
            ap length q,
            ap length e,
          ))
      served n old more queue added rest q (inl l) (inr m) =
          inl (omega (arith, length-append old more))
      served n old more queue added rest q (inr l) (inr m) =
          inr (omega (arith, length-append old more))

  -- A process that stands at a position of the work queue, from 0, is taken from it in its turn, once
  -- `work` was called more often than its position says and no call threw, whatever is sent, started
  -- or woken between the calls; and what is taken is taken in the order of the queue.
  pub taken_in_turn :
      {w : World K A} {n : ℕ} {u : World K A} (h : History apply w n u) (i : ℕ)
      → i < n
      → i < length w.work_queue
      → (i < length (taken_in h)) × (get_elem? i (taken_in h) ≡ get_elem? i w.work_queue)
  taken_in_turn {w} {n} {u} h i hn hq =
      let (added, q, l) = History-queue h in
      let reached = enough n (length (taken_in h)) (length w.work_queue) hn hq l in
      (
        reached,
        sym (get_elem?-append i (taken_in h) u.work_queue reached)
            ∙ ap (get_elem? i) (sym q)
            ∙ get_elem?-append i w.work_queue added hq,
      )
    where
      enough : (n l q : ℕ) → i < n → i < q → (n ≤ l) ⊎ (q ≤ l) → i < l
      enough n l q hn hq (inl h) = omega arith
      enough n l q hn hq (inr h) = omega arith
