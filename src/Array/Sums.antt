-- ===== src/Array/Sums.antt =====
-- ui/dist/Main.js, `_elm_lang$core$Native_Array`: accumulated lengths, and the search for a slot
-- in them.
use kubecast.Common.{
  ℕ, zero, suc, ◌+◌, ◌-◌, ◌*◌, ◌/◌, ◌^◌, ◌≤◌, ◌<◌, ◌≡◌, ◌≢◌, ◌⊎◌, refl, sym, ◌∙◌, ap, true, false,
  some, List, [], ◌∷◌, ◌++◌, get_elem?, drop, take, ltb, if◌then◌else◌, arith, Bool-cases, inl, inr,
  All,
}
use kubecast.Array.{scan, last, get_slot, index_in, add_length}
use native.Mathlib.Nat.{div-mul-le_self}

abbrev pub sums : ℕ → List ℕ → List ℕ
sums acc [] = []
sums acc (n ∷ ns) = (acc + n) ∷ sums (acc + n) ns

abbrev pub total : List ℕ → ℕ
total [] = 0
total (n ∷ ns) = n + total ns

pub sums-snoc :
    (acc : ℕ) (ns : List ℕ) (n : ℕ)
    → sums acc (ns ++ n ∷ []) ≡ sums acc ns ++ (acc + total ns + n) ∷ []
sums-snoc acc [] n = ap (λ k. k ∷ []) (omega arith)
sums-snoc acc (m ∷ ns) n =
    ap (λ ks. (acc + m) ∷ ks)
      (sums-snoc (acc + m) ns n ∙ ap (λ k. sums (acc + m) ns ++ k ∷ []) (omega arith))

last-sums : (acc n : ℕ) (ns : List ℕ) → last (sums acc (n ∷ ns)) ≡ some (acc + total (n ∷ ns))
last-sums acc n [] = ap some (omega arith)
last-sums acc n (m ∷ ns) = last-sums (acc + n) m ns ∙ ap some (omega arith)

pub last_sums : (n : ℕ) (ns : List ℕ) → last (sums 0 (n ∷ ns)) ≡ some (total (n ∷ ns))
last_sums n ns = last-sums 0 n ns ∙ ap some (omega arith)

-- A length that is pushed keeps the lengths accumulated.
pub sums-push :
    (ns : List ℕ) (n : ℕ) → sums 0 ns ++ add_length n (sums 0 ns) ∷ [] ≡ sums 0 (ns ++ n ∷ [])
sums-push [] n = ap (λ k. k ∷ []) (omega arith)
sums-push (m ∷ ns) n =
    rw (last_sums m ns)
      (ap (λ k. sums 0 (m ∷ ns) ++ k ∷ []) (omega arith) ∙ sym (sums-snoc 0 (m ∷ ns) n))

pub ltb-true : (i n : ℕ) → i < n → ltb i n ≡ true
ltb-true i n h = ground (arith, h)

pub ltb-false : (i n : ℕ) → n ≤ i → ltb i n ≡ false
ltb-false i n h = ground (arith, h)

-- Where position `i` lies in a row of blocks: the block, and the position in it.
abbrev pub place : ℕ → List ℕ → ℕ × ℕ
place i [] = (0, i)
place i (n ∷ ns) = if ltb i n then (0, i) else (suc (place (i - n) ns).0, (place (i - n) ns).1)

pub lt-or-le : (i n : ℕ) → (i < n) ⊎ (n ≤ i)
lt-or-le i n = elim (Bool-cases (ltb i n)) [
  | inl e ↦ inl (ground (arith, e))
  | inr e ↦ inr (ground (arith, e))
]

pub place_here : (i n : ℕ) (ns : List ℕ) → i < n → place i (n ∷ ns) ≡ (0, i)
place_here i n ns h = rw (ltb-true i n h) refl

pub place_later :
    (i n : ℕ) (ns : List ℕ)
    → n ≤ i
    → place i (n ∷ ns) ≡ (suc (place (i - n) ns).0, (place (i - n) ns).1)
place_later i n ns h = rw (ltb-false i n h) refl

sub_sub : (i acc n : ℕ) → i - acc - n ≡ i - (acc + n)
sub_sub i acc n = omega arith

sub_zero : (i : ℕ) → i - 0 ≡ i
sub_zero i = omega arith

zero_add : (i : ℕ) → 0 + i ≡ i
zero_add i = omega arith

zero_ne_suc : (k : ℕ) → 0 ≢ suc k
zero_ne_suc k = omega arith

-- The search finds the block, from any start that is not past it.
scan_from :
    (i skipped start acc : ℕ) (ns : List ℕ)
    → acc + total (take start ns) ≤ i
    → i < acc + total ns
    → scan i (skipped + start) (drop start (sums acc ns)) ≡ skipped + (place (i - acc) ns).0
unfolding scan
scan_from i skipped zero acc [] h b = omega (arith, h, b)
scan_from i skipped zero acc (n ∷ ns) h b = elim (lt-or-le i (acc + n)) [
  | inl c ↦ rw (ltb-true i (acc + n) c, place_here (i - acc) n ns (omega (arith, h, c))) refl
  | inr c ↦
      let rest =
        scan_from i (suc skipped) zero (acc + n) ns (omega (arith, c)) (omega (arith, b)) in
      rw (ltb-false i (acc + n) c, place_later (i - acc) n ns (omega (arith, c)), sub_sub i acc n)
        (ap (λ s. scan i s (sums (acc + n) ns)) (omega arith) ∙ rest ∙ omega arith)
]
scan_from i skipped (suc start) acc [] h b = omega (arith, h, b)
scan_from i skipped (suc start) acc (n ∷ ns) h b =
    let rest = scan_from i (suc skipped) start (acc + n) ns (omega (arith, h)) (omega (arith, b)) in
    rw (place_later (i - acc) n ns (omega (arith, h)), sub_sub i acc n)
      (ap (λ s. scan i s (drop start (sums (acc + n) ns))) (omega arith) ∙ rest ∙ omega arith)

place_zero : (i : ℕ) (ns : List ℕ) → (place i ns).0 ≡ 0 → (place i ns).1 ≡ i
place_zero i [] e = refl
place_zero i (n ∷ ns) e = elim (lt-or-le i n) [
  | inl c ↦ ap (λ q. q.1) (place_here i n ns c)
  | inr c ↦ absurd (zero_ne_suc _ (sym e ∙ ap (λ q. q.0) (place_later i n ns c)))
]

index_in_from :
    (i k acc : ℕ) (ns : List ℕ)
    → acc ≤ i
    → i < acc + total ns
    → (place (i - acc) ns).0 ≡ suc k
    → (p : ℕ) × (get_elem? k (sums acc ns) ≡ some p) × (p ≤ i) × (i - p ≡ (place (i - acc) ns).1)
index_in_from i k acc [] h b e = absurd (omega (arith, h, b))
index_in_from i k acc (n ∷ ns) h b e = elim (lt-or-le (i - acc) n) [
  | inl c ↦ absurd (zero_ne_suc k (sym (ap (λ q. q.0) (place_here (i - acc) n ns c)) ∙ e))
  | inr c ↦
      let later =
        place_later (i - acc) n ns c
        ∙ ap (λ j. (suc (place j ns).0, (place j ns).1)) (sub_sub i acc n) in
      let found : (place (i - (acc + n)) ns).0 ≡ k = omega (arith, ap (λ q. q.0) later, e) in
      elim k
          as (λ k.
            (place (i - (acc + n)) ns).0 ≡ k
            → (p : ℕ) × (get_elem? k (sums acc (n ∷ ns)) ≡ some p)
              × (p ≤ i)
              × (i - p ≡ (place (i - acc) (n ∷ ns)).1)) [
                | zero ↦ λ z. (
                  acc + n,
                  refl,
                  omega (arith, c, h),
                  sym (ap (λ q. q.1) later ∙ place_zero (i - (acc + n)) ns z),
                )
                | suc k' ↦ λ z.
                    let (p, g, l, d) =
                      index_in_from i k' (acc + n) ns (omega (arith, c, h)) (omega (arith, b)) z in
                    (p, g, l, d ∙ sym (ap (λ q. q.1) later))
              ]
        found
]

total-take : (cap s : ℕ) (ns : List ℕ) → All (λ n. n ≤ cap) ns → total (take s ns) ≤ s * cap
total-take cap zero ns h = omega arith
total-take cap (suc s) [] h = omega arith
total-take cap (suc s) (n ∷ ns) h =
    let rest = total-take cap s ns h.1 in
    let step : suc s * cap ≡ cap + s * cap = omega arith in omega (arith, rest, step, h.0)

-- `getSlot` finds the block of a position, when no block is larger than the shift assumes.
pub get_slot-place :
    (i height : ℕ) (ns : List ℕ)
    → All (λ n. n ≤ 2 ^ (height * 5)) ns
    → i < total ns
    → get_slot i height (sums 0 ns) ≡ (place i ns).0
unfolding get_slot
get_slot-place i height ns h b =
    let cap = 2 ^ (height * 5) in
    let start = i / cap in
    let before : total (take start ns) ≤ i =
      omega (arith, total-take cap start ns h, div-mul-le_self i cap) in
    let found = scan_from i 0 start 0 ns (omega (arith, before)) (omega (arith, b)) in
    ap (λ s. scan i s (drop start (sums 0 ns))) (sym (zero_add start))
    ∙ found
    ∙ zero_add _
    ∙ ap (λ j. (place j ns).0) (sub_zero i)

-- The index in the block.
pub index_in-place :
    (i : ℕ) (ns : List ℕ)
    → i < total ns
    → index_in i (place i ns).0 (sums 0 ns) ≡ some (place i ns).1
unfolding index_in
index_in-place i ns b = go (place i ns).0 refl
  where
    go : (k : ℕ) → (place i ns).0 ≡ k → index_in i k (sums 0 ns) ≡ some (place i ns).1
    go zero e = ap some (sym (place_zero i ns e))
    go (suc k) e =
        let (p, g, l, d) =
          index_in_from i k 0 ns (omega arith) (omega (arith, b))
            (ap (λ j. (place j ns).0) (sub_zero i) ∙ e) in
        rw (g, ltb-false i p l) (ap some (d ∙ ap (λ j. (place j ns).1) (sub_zero i)))
