-- ===== src/Client/Arrival.antt =====
-- cmd/server/main.go, `uploadHandler`, on the first bytes of what a client writes to a connection
-- (cmd/client/main.go): a connection that breaks hands over some of the bytes, from the first on.
use kubecast.Common.{
  ℕ, zero, suc, ◌-◌, ◌≤◌, ◌<◌, ◌≡◌, refl, sym, ap, ◌∙◌, arith, Bool, true, false, List, [], ◌∷◌,
  ◌++◌, length, take, ltb, if◌then◌else◌, All, append_assoc, length-append, ◌⊎◌, inl, inr,
}
use native.Mathlib.Decide.{dec_lt}
use kubecast.Text.{Str}
use kubecast.Server.Hash.{TtyWrite}
use kubecast.Server.Wire.{encode, record_size}
use kubecast.Server.Wire.RoundTrip.{length-encode}
use kubecast.Server.Wire.Stream.{encode_all, Fits}

-- The writes whose records are within the first bytes of a connection.
abbrev pub whole : ℕ → List TtyWrite → List TtyWrite
whole n [] = []
whole n (w ∷ ws) =
    let rest = whole (n - record_size) ws in if ltb n record_size then [] else w ∷ rest

-- Whether the bytes end within a record.
abbrev pub is_cut : ℕ → List TtyWrite → Bool
is_cut n [] = false
is_cut n (w ∷ ws) =
    let rest = is_cut (n - record_size) ws in if ltb n record_size then ltb 0 n else rest

take_past :
    (s rest : Str) (n : ℕ) → length s ≤ n → take n (s ++ rest) ≡ s ++ take (n - length s) rest
take_past [] rest n h = ap (λ k. take k rest) (omega arith)
take_past (c ∷ s) rest zero h = absurd (omega arith)
take_past (c ∷ s) rest (suc n) h =
    ap (◌∷◌ c) (take_past s rest n (omega arith) ∙ ap (λ k. s ++ take k rest) (omega arith))

length-take : (n : ℕ) (s : Str) → n ≤ length s → length (take n s) ≡ n
length-take zero s h = refl
length-take (suc n) [] h = absurd (omega arith)
length-take (suc n) (c ∷ s) h = ap suc (length-take n s (omega arith))

ltb-true : (m n : ℕ) → m < n → ltb m n ≡ true
ltb-true m n h = ground (arith, h)

ltb-false : (m n : ℕ) → n ≤ m → ltb m n ≡ false
ltb-false m n h = ground (arith, h)

-- The part of a record that the bytes end with.
pub record EndsWith (n : ℕ) (ws : List TtyWrite) (part : Str) : Type 0 where
  pub bytes : take n (encode_all ws) ≡ encode_all (whole n ws) ++ part
  pub short : length part < record_size
  pub ending : (is_cut n ws ≡ true) × (0 < length part) ⊎ (is_cut n ws ≡ false) × (part ≡ [])

take-none : (n : ℕ) → take {A = ℕ} n [] ≡ []
take-none zero = refl
take-none (suc n) = refl

cut_first :
    (w : TtyWrite) (ws : List TtyWrite) (n : ℕ)
    → Fits w
    → n < record_size
    → EndsWith n (w ∷ ws) (take n (encode_all (w ∷ ws)))
cut_first w ws n f l =
    let size =
      length-take n (encode_all (w ∷ ws))
        (omega (arith, length-append (encode w) (encode_all ws), length-encode w f.0)) in
    record {
      bytes = rw (ltb-true n record_size l) refl;
      short = omega (arith, size);
      ending = rw (ltb-true n record_size l) (by_size n (take n (encode_all (w ∷ ws))) size);
    }
  where
    by_size :
        (m : ℕ) (part : Str)
        → length part ≡ m
        → (ltb 0 m ≡ true) × (0 < length part) ⊎ (ltb 0 m ≡ false) × (part ≡ [])
    by_size zero [] e = inr (refl, refl)
    by_size zero (c ∷ part) e = absurd (omega arith)
    by_size (suc m) part e = inl (ltb-true 0 (suc m) (omega arith), omega arith)

-- What arrives is the records of some writes, and a part of the next.
pub take_encoded : (ws : List TtyWrite) (n : ℕ) → All Fits ws → (part : Str) × EndsWith n ws part
take_encoded [] n f =
    ([], record { bytes = take-none n; short = omega arith; ending = inr (refl, refl) })
take_encoded (w ∷ ws) n f = elim (dec_lt n record_size) [
  | yes l ↦ (take n (encode_all (w ∷ ws)), cut_first w ws n f.0 l)
  | no h ↦
      let (part, e) = take_encoded ws (n - record_size) f.1 in
      (part, after_first part e (ltb-false n record_size (omega arith)) (omega arith))
]
  where
    after_first :
        (part : Str)
        → EndsWith (n - record_size) ws part
        → ltb n record_size ≡ false
        → record_size ≤ n
        → EndsWith n (w ∷ ws) part
    after_first part e long h = record {
      bytes = rw long (
          take_past (encode w) (encode_all ws) n (omega (arith, length-encode w f.0.0))
          ∙ ap (λ size. encode w ++ take (n - size) (encode_all ws)) (length-encode w f.0.0)
          ∙ ap (◌++◌ (encode w)) e.bytes
          ∙ sym (append_assoc (encode w) (encode_all (whole (n - record_size) ws)) part));
      short = e.short;
      ending = rw long e.ending;
    }

pub whole-Fits : (ws : List TtyWrite) (n : ℕ) → All Fits ws → All Fits (whole n ws)
whole-Fits [] n f = tt
whole-Fits (w ∷ ws) n f = elim (dec_lt n record_size) [
  | yes l ↦ rw (ltb-true n record_size l) tt
  | no h ↦ rw (ltb-false n record_size (omega arith)) (f.0, whole-Fits ws (n - record_size) f.1)
]
