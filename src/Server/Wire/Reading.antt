-- ===== src/Server/Wire/Reading.antt =====
-- pkg/server/tty.go: `binary.Read` on a stream.
use kubecast.Common.{
  ℕ, zero, suc, ◌-◌, ◌<◌, ◌≤◌, ◌≡◌, refl, sym, ap, ◌∙◌, arith, [], ◌∷◌, ◌++◌, ltb, true, false, ap₂,
  length, take, drop, length-append,
}
use kubecast.Text.{Str}
use native.Mathlib.Decide.{dec_lt}
use kubecast.Server.Wire.RoundTrip.{IsSized, length-encode, decode-encode, take-append, drop-append}
use kubecast.Server.Hash.{TtyWrite}
use kubecast.Server.Wire.{encode, decode, record_size, Read, eof, got, unexpected_eof, read}

read-long :
    (s : Str)
    → record_size ≤ length s
    → read s ≡ got (decode (take record_size s)) (drop record_size s)
unfolding read
read-long [] h = absurd (omega arith)
read-long (byte ∷ bytes) h = rw (enough (length bytes) h) refl
  where
    enough : (n : ℕ) → record_size ≤ suc n → ltb (suc n) record_size ≡ false
    enough n h = ground (arith, h)

-- What was written for a record is read back, and the rest of the stream is left.
pub read-encode : (w : TtyWrite) (rest : Str) → IsSized w → read (encode w ++ rest) ≡ got w rest
read-encode w rest h =
    read-long (encode w ++ rest) (omega (arith, length-encode w h, length-append (encode w) rest))
    ∙ ap₂ got
        (ap decode (take-append record_size (encode w) rest (length-encode w h))
          ∙ decode-encode w h)
        (drop-append record_size (encode w) rest (length-encode w h))

pub read-short : (s : Str) → 0 < length s → length s < record_size → read s ≡ unexpected_eof
unfolding read
read-short [] p h = absurd (omega arith)
read-short (byte ∷ bytes) p h = rw (short (length bytes) h) refl
  where
    short : (n : ℕ) → suc n < record_size → ltb (suc n) record_size ≡ true
    short n h = ground (arith, h)

length-drop : (n : ℕ) (s : Str) → length (drop n s) ≡ length s - n
length-drop zero s = omega arith
length-drop (suc n) [] = omega arith
length-drop (suc n) (c ∷ s) = omega (arith, length-drop n s)

abbrev rest_length : Read → ℕ
rest_length (got w rest) = length rest
rest_length other = 0

eof-ne-got : {w : TtyWrite} {rest : Str} → eof ≡ got w rest → ⊥
eof-ne-got e = cc

unexpected_eof-ne-got : {w : TtyWrite} {rest : Str} → unexpected_eof ≡ got w rest → ⊥
unexpected_eof-ne-got e = cc

read-empty : (s : Str) → length s ≡ 0 → read s ≡ eof
unfolding read
read-empty [] e = refl
read-empty (byte ∷ bytes) e = absurd (omega arith)

-- A record leaves fewer bytes than there were.
pub read-rest : (s : Str) {w : TtyWrite} {rest : Str} → read s ≡ got w rest → length rest < length s
read-rest s {w} {rest} e = by_length (length s) refl
  where
    by_length : (n : ℕ) → length s ≡ n → length rest < length s
    by_length zero z = absurd (eof-ne-got (sym (read-empty s z) ∙ e))
    by_length (suc n) z = elim (dec_lt (suc n) record_size) [
      | yes short ↦
          absurd (unexpected_eof-ne-got (sym (read-short s (omega arith) (omega arith)) ∙ e))
      | no long ↦
          omega
            (arith, ap rest_length (sym (read-long s (omega arith)) ∙ e), length-drop record_size s)
    ]
