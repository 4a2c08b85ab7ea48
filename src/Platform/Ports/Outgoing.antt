-- ===== src/Platform/Ports/Outgoing.antt =====
-- ui/dist/Main.js, `_elm_lang$core$Native_Platform`, `setupOutgoingPort`: who gets the values of a port,
-- when the functions that are called unsubscribe functions in the meantime.
use kubecast.Common.{
  ℕ, zero, suc, ◌≤◌, ◌<◌, ◌≡◌, refl, sym, ap, ◌∙◌, arith, Bool, true, false, Bool-cases, inl, inr,
  some, none, List, [], ◌∷◌, ◌++◌, ◌==◌, length, length-append, append_assoc, append-nil, get_elem?,
  map,
}
use kubecast.Platform.Ports.{
  Call, unsubscribing, OutgoingPort, store, without, unsubscribe, run_calls, call_sub, call_subs,
  on_port_effects,
}

module _ {ℓ} {A : Type ℓ} where
  get_elem-middle :
      (xs : List A) (y : A) (ys : List A) → get_elem? (length xs) (xs ++ y ∷ ys) ≡ some y
  get_elem-middle [] y ys = refl
  get_elem-middle (x ∷ xs) y ys = get_elem-middle xs y ys

  get_elem-end : (xs : List A) → get_elem? (length xs) (xs ++ []) ≡ none
  get_elem-end [] = refl
  get_elem-end (x ∷ xs) = get_elem-end xs

  store-other : (i j : ℕ) (x : A) (arrays : ℕ → A) → j < i → store i x arrays j ≡ arrays j
  store-other i j x arrays h = rw (other i j h) refl
    where
      other : (i j : ℕ) → j < i → (j == i) ≡ false
      other i j h = ground (arith, h)

  store-same : (i : ℕ) (x : A) (arrays : ℕ → A) → store i x arrays i ≡ x
  store-same i x arrays = rw (same i) refl
    where
      same : (i : ℕ) → (i == i) ≡ true
      same i = ground arith

module _ {ℓ κ} {F : Type ℓ} {V : Type κ} (same : F → F → Bool) (drops : F → V → List F) where
  -- Each function that is called unsubscribes some functions.
  abbrev pub unsubscribes : F → V → List (Call F)
  unsubscribes f value = map unsubscribing (drops f value)

  abbrev drop_all : List F → List F → List F
  drop_all [] subs = subs
  drop_all (d ∷ ds) subs = drop_all ds (without same d subs)

  -- The functions that are left of `subs` after some were called with a value.
  abbrev pub left_by : V → List F → List F → List F
  left_by value [] subs = subs
  left_by value (f ∷ fs) subs = left_by value fs (drop_all (drops f value) subs)

  -- The calls for some values, and the functions that are left.
  abbrev pub delivered : List V → List F → List (F × V)
  delivered [] subs = []
  delivered (value ∷ values) subs =
      map (λ f. (f, value)) subs ++ delivered values (left_by value subs subs)

  abbrev pub remaining : List V → List F → List F
  remaining [] subs = subs
  remaining (value ∷ values) subs = remaining values (left_by value subs subs)

  length-without : (d : F) (subs : List F) → length (without same d subs) ≤ length subs
  length-without d [] = omega arith
  length-without d (f ∷ fs) = elim (Bool-cases (same f d)) [
    | inl e ↦ rw e (omega arith)
    | inr e ↦ rw e (omega (arith, length-without d fs))
  ]

  length-drop_all : (ds subs : List F) → length (drop_all ds subs) ≤ length subs
  length-drop_all [] subs = omega arith
  length-drop_all (d ∷ ds) subs =
      omega (arith, length-without d subs, length-drop_all ds (without same d subs))

  length-left_by : (value : V) (fs subs : List F) → length (left_by value fs subs) ≤ length subs
  length-left_by value [] subs = omega arith
  length-left_by value (f ∷ fs) subs = omega (
    arith,
    length-drop_all (drops f value) subs,
    length-left_by value fs (drop_all (drops f value) subs),
  )

  -- A port after some calls: an older array is as it was.
  record After (c : ℕ) (p q : OutgoingPort F V) (subs : List F) (calls : List (F × V))
      : Type (ℓ ⊔ κ) where
    pub older : q.arrays c ≡ p.arrays c
    pub current : q.arrays q.subs ≡ subs
    pub valid : q.subs < q.fresh
    pub newer : c < q.fresh
    pub called : q.calls ≡ calls

  run_calls-After :
      (ds : List F) (c : ℕ) (p : OutgoingPort F V)
      → p.subs < p.fresh
      → c < p.fresh
      → After c p (run_calls same (map unsubscribing ds) p) (drop_all ds (p.arrays p.subs)) p.calls
  unfolding run_calls
  run_calls-After [] c p v h = record {
    older = refl;
    current = refl;
    valid = v;
    newer = h;
    called = refl;
  }
  run_calls-After (d ∷ ds) c p v h =
      let less = without same d (p.arrays p.subs) in
      let r = run_calls-After ds c (unsubscribe same d p) (fresh p) (later p v h) in
      record {
        older = r.older ∙ store-other p.fresh c less p.arrays h;
        current = r.current ∙ ap (drop_all ds) (store-same p.fresh less p.arrays);
        valid = r.valid;
        newer = r.newer;
        called = r.called;
      }
    where
      fresh : (p : OutgoingPort F V) → p.fresh < suc p.fresh
      fresh p = omega arith

      later : (p : OutgoingPort F V) → p.subs < p.fresh → c < p.fresh → c < suc p.fresh
      later p v h = omega (arith, h)

  -- The loop from a position on.
  call_subs-After :
      (fuel : ℕ) (value : V) (done rest : List F) (c : ℕ) (p : OutgoingPort F V)
      → p.subs < p.fresh
      → c < p.fresh
      → p.arrays c ≡ done ++ rest
      → length rest < fuel
      → (q : OutgoingPort F V) × (call_subs same unsubscribes fuel (length done) c value p ≡ some q)
        × After c p q (left_by value rest (p.arrays p.subs)) (p.calls ++ map (λ f. (f, value)) rest)
  unfolding call_subs call_sub
  call_subs-After zero value done rest c p v h e l = absurd (omega (arith, l))
  call_subs-After (suc fuel) value done [] c p v h e l = (
    p,
    rw (e, get_elem-end done, call_subs) refl,
    record {
      older = refl;
      current = refl;
      valid = v;
      newer = h;
      called = sym (append-nil p.calls);
    },
  )
  call_subs-After (suc fuel) value done (f ∷ rest) c p v h e l =
      let called = record p { calls = p.calls ++ (f, value) ∷ [] } in
      let r = run_calls-After (drops f value) c called v h in
      let next = run_calls same (map unsubscribing (drops f value)) called in
      let (q, e', s) =
        call_subs-After fuel value (done ++ f ∷ []) rest c next r.valid r.newer
          (r.older ∙ e ∙ sym (append_assoc done (f ∷ []) rest)) (omega (arith, l)) in
      (
        q,
        rw (e, get_elem-middle done f rest, call_subs)
            (ap (λ i. call_subs same unsubscribes fuel i c value next)
                (omega (arith, length-append done (f ∷ [])))
              ∙ e'),
        record {
          older = s.older ∙ r.older;
          current = s.current ∙ ap (left_by value rest) r.current;
          valid = s.valid;
          newer = s.newer;
          called =
              s.called
              ∙ ap (λ cs. cs ++ map (λ g. (g, value)) rest) r.called
              ∙ append_assoc p.calls ((f, value) ∷ []) (map (λ g. (g, value)) rest);
        },
      )

  -- A port hands every value to every subscriber: if the functions that it calls subscribe no others,
  -- then for a round of commands, on more fuel than there are functions, each value in turn is handed
  -- to all functions that are subscribed when its turn comes, in the order in which they subscribed,
  -- also to those that are unsubscribed meanwhile, which get no later value; the functions that are
  -- left stay subscribed.
  pub on_port_effects-delivered :
      (fuel : ℕ) (values : List V) (p : OutgoingPort F V)
      → p.subs < p.fresh
      → length (p.arrays p.subs) < fuel
      → (q : OutgoingPort F V) × (on_port_effects same unsubscribes fuel values p ≡ some q)
        × (q.calls ≡ p.calls ++ delivered values (p.arrays p.subs))
        × (q.arrays q.subs ≡ remaining values (p.arrays p.subs))
  unfolding on_port_effects
  on_port_effects-delivered fuel [] p v l = (p, refl, sym (append-nil p.calls), refl)
  on_port_effects-delivered fuel (value ∷ values) p v l =
      let subs = p.arrays p.subs in
      let (next, e, r) = call_subs-After fuel value [] subs p.subs p v v refl l in
      let (q, e', called, current) =
        on_port_effects-delivered fuel values next r.valid
          (omega (arith, l, ap length r.current, length-left_by value subs subs)) in
      (
        q,
        rw e e',
        called
            ∙ ap (λ cs. cs ++ delivered values (next.arrays next.subs)) r.called
            ∙ append_assoc p.calls (map (λ f. (f, value)) subs)
                (delivered values (next.arrays next.subs))
            ∙ ap (λ fs. p.calls ++ (map (λ f. (f, value)) subs ++ delivered values fs)) r.current,
        current ∙ ap (remaining values) r.current,
      )
