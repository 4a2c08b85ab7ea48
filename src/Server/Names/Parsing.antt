-- ===== src/Server/Names/Parsing.antt =====
-- cmd/server/main.go: the hash in the name of a session's file is read back.
use kubecast.Common.{
  ℕ, zero, suc, ◌+◌, ◌-◌, ◌*◌, ◌/◌, ◌%◌, ◌^◌, ◌<◌, ◌≤◌, ◌≡◌, refl, ap, ◌∙◌, arith, true, false, not,
  ◌&&◌, none, some, [], ◌∷◌, ◌++◌, ltb, ◌==◌, ◌>>=◌, All, All-append, append_assoc, length,
  length-append, Bool-cases, inl, inr,
}
use mathlib.Core.List.{reverse_aux, reverse, reverse-append, reverse-cons, reverse-reverse}
use native.Mathlib.Omega.{pow_step}
use kubecast.Text.{Str, codes}
use kubecast.Server.Hash.{decimal}
use kubecast.Server.Names.{
  cast_name, until, past, base, stem, parse_digits, at_most, parse_nat, parse_hash,
}

abbrev IsDigit : ℕ → Type 0
IsDigit c = (48 ≤ c) × (c < 58)

decimal-IsDigit : (fuel n : ℕ) → All IsDigit (decimal fuel n)
unfolding decimal
decimal-IsDigit zero n = tt
decimal-IsDigit (suc fuel) n = elim (Bool-cases (ltb n 10)) [
  | inl small ↦ rw small ((omega arith, ground (arith, small)), tt)
  | inr large ↦ rw large (
      All-append IsDigit (decimal fuel (n / 10)) _ (decimal-IsDigit fuel (n / 10))
        ((omega arith, omega arith), tt))
]

parse_digits-append :
    (n : ℕ) (s : Str) (d : ℕ)
    → IsDigit d
    → parse_digits n (s ++ d ∷ []) ≡ (parse_digits n s >>= λ m. some (m * 10 + (d - 48)))
unfolding parse_digits
parse_digits-append n [] d h = rw (digit d h) refl
  where
    digit : (d : ℕ) → IsDigit d → (not (ltb d 48) && ltb d 58) ≡ true
    digit d h = ground (arith, h)
parse_digits-append n (c ∷ s) d h = elim (Bool-cases (not (ltb c 48) && ltb c 58)) [
  | inl is ↦ rw is (parse_digits-append (n * 10 + (c - 48)) s d h)
  | inr other ↦ rw other refl
]

below : {n p q : ℕ} → q ≡ 10 * p → n < q → n / 10 < p
below e h = omega (arith, e, h)

-- The digits of a number are read back.
parse_digits-decimal : (fuel n : ℕ) → n < 10 ^ fuel → parse_digits 0 (decimal fuel n) ≡ some n
unfolding decimal parse_digits
parse_digits-decimal zero n h = ap (λ m. some m) (omega arith)
parse_digits-decimal (suc fuel) n h = elim (Bool-cases (ltb n 10)) [
  | inl small ↦ rw small (
      parse_digits-append 0 [] (48 + n) (omega arith, ground (arith, small))
      ∙ ap (λ m. some m) (omega arith))
  | inr large ↦ rw large (
      parse_digits-append 0 (decimal fuel (n / 10)) (48 + n % 10) (omega arith, omega arith)
      ∙ ap (λ r. r >>= λ m. some (m * 10 + (48 + n % 10 - 48)))
          (parse_digits-decimal fuel (n / 10) (below (pow_step 10 fuel) h))
      ∙ ap (λ m. some m) (omega arith))
]

decimal-nonempty : (fuel n : ℕ) → 0 < length (decimal (suc fuel) n)
unfolding decimal
decimal-nonempty fuel n = elim (Bool-cases (ltb n 10)) [
  | inl small ↦ rw small (omega arith)
  | inr large ↦ rw large (omega (arith, length-append (decimal fuel (n / 10)) ((48 + n % 10) ∷ [])))
]

at_most-small : (limit n : ℕ) → n ≤ limit → at_most limit n ≡ some n
at_most-small limit n h = ground (arith, h)

parse_hash-digits :
    (s : Str) (n : ℕ)
    → All IsDigit s
    → 0 < length s
    → parse_digits 0 s ≡ some n
    → n < 2 ^ 32
    → parse_hash s ≡ some n
unfolding parse_hash parse_nat
parse_hash-digits [] n ds l e h = absurd (omega (arith, l))
parse_hash-digits (c ∷ s) n ds l e h =
    let minus : (c == 45) ≡ false = ground (arith, ds.0) in
    let plus : (c == 43) ≡ false = ground (arith, ds.0) in
    let fits : at_most (2 ^ 63 - 1) n ≡ some n = at_most-small (2 ^ 63 - 1) n (omega (arith, h)) in
    rw minus (rw plus (rw e (rw fits (ap (λ m. some m) (omega (arith, h))))))

-- The digits of a hash are parsed to it.
parse_hash-decimal : (h : ℕ) → h < 2 ^ 32 → parse_hash (decimal 20 h) ≡ some h
parse_hash-decimal h l =
    parse_hash-digits (decimal 20 h) h (decimal-IsDigit 20 h) (decimal-nonempty 19 h)
      (parse_digits-decimal 20 h (omega (arith, l))) l

until-append : (c : ℕ) (s t : Str) → All (λ d. (d == c) ≡ false) s → until c (s ++ c ∷ t) ≡ s
unfolding until
until-append c [] t h = rw (same c) refl
  where
    same : (c : ℕ) → (c == c) ≡ true
    same c = ground arith
until-append c (d ∷ s) t h = rw h.0 (ap (λ r. d ∷ r) (until-append c s t h.1))

reverse_aux-All : (P : ℕ → Type 0) (s t : Str) → All P s → All P t → All P (reverse_aux s t)
reverse_aux-All P [] t hs ht = ht
reverse_aux-All P (c ∷ s) t hs ht = reverse_aux-All P s (c ∷ t) hs.1 (hs.0, ht)

not_slash : (s : Str) → All IsDigit s → All (λ d. (d == 47) ≡ false) s
not_slash [] h = tt
not_slash (c ∷ s) h = (ground (arith, h.0), not_slash s h.1)

-- The base of a path is the part behind a slash that has no other behind it.
base-append : (s t : Str) → All (λ d. (d == 47) ≡ false) t → base (s ++ 47 ∷ t) ≡ t
unfolding base
base-append s t h =
    ap (λ r. reverse (until 47 r))
      (reverse-append s (47 ∷ t)
        ∙ ap (λ r. r ++ reverse s) (reverse-cons 47 t)
        ∙ append_assoc (reverse t) (47 ∷ []) (reverse s))
    ∙ ap reverse (
        until-append 47 (reverse t) (reverse s)
          (reverse_aux-All (λ d. (d == 47) ≡ false) t [] h tt))
    ∙ reverse-reverse t

stem-cast : (s : Str) → stem (s ++ codes ".cast") ≡ s
unfolding stem past
stem-cast s =
    ap
      (λ r. elim (past 46 r) as (λ x. Str) [
        | none ↦ s ++ codes ".cast"
        | some before ↦ reverse before
      ])
      (reverse-append s (codes ".cast"))
    ∙ reverse-reverse s

-- The hash is read back from the name that a session's file gets.
pub parse_hash-cast_name :
    (data_path : Str) (h : ℕ)
    → h < 2 ^ 32
    → parse_hash (stem (base (cast_name data_path h))) ≡ some h
unfolding cast_name
parse_hash-cast_name data_path h l =
    ap (λ b. parse_hash (stem b))
      (base-append data_path (decimal 20 h ++ codes ".cast") (
        All-append (λ d. (d == 47) ≡ false) (decimal 20 h) (codes ".cast")
          (not_slash (decimal 20 h) (decimal-IsDigit 20 h))
          (refl, (refl, (refl, (refl, (refl, tt)))))))
    ∙ ap parse_hash (stem-cast (decimal 20 h))
    ∙ parse_hash-decimal h l
