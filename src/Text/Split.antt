-- ===== src/Text/Split.antt =====
-- Laws of `split`, `trim` and the equality of texts.
use kubecast.Common.{
  ℕ, true, false, [], ◌∷◌, ◌++◌, ◌==◌, All, ◌≡◌, refl, arith, ◌≢◌, ap, ◌⊎◌, inl, inr, Bool-cases,
  ap₂,
}
use mathlib.Core.List.{reverse, reverse-reverse}
use kubecast.Text.{Str, trim_left, trim, split, str_eq}

-- A line holds no separator.
abbrev pub IsLine : ℕ → Str → Type 0
IsLine sep = All (λ c. (c == sep) ≡ false)

pub split-append : (sep : ℕ) (l s : Str) → IsLine sep l → split sep (l ++ sep ∷ s) ≡ l ∷ split sep s
unfolding split
split-append sep [] s h = ground arith
split-append sep (c ∷ l) s h = rw (h.0, split-append sep l s h.1)

pub split_line : (sep : ℕ) (l : Str) → IsLine sep l → split sep l ≡ l ∷ []
unfolding split
split_line sep [] h = refl
split_line sep (c ∷ l) h = rw (h.0, split_line sep l h.1)

-- A text that neither begins nor ends with white space, and is not empty.
pub record IsTrimmed (s : Str) : Type 0 where
  pub left : trim_left s ≡ s
  pub right : trim_left (reverse s) ≡ reverse s

pub trim_trimmed : (s : Str) → IsTrimmed s → trim s ≡ s
unfolding trim
trim_trimmed s h = rw (h.left, h.right) (reverse-reverse s)

pub str_eq_refl : (s : Str) → str_eq s s ≡ true
unfolding str_eq
str_eq_refl [] = refl
str_eq_refl (c ∷ cs) = rw (str_eq_refl cs) (ground arith)

pub eq_of_str_eq : (s t : Str) → str_eq s t ≡ true → s ≡ t
unfolding str_eq
eq_of_str_eq [] [] h = refl
eq_of_str_eq [] (d ∷ ds) h = absurd (cc)
eq_of_str_eq (c ∷ cs) [] h = absurd (cc)
eq_of_str_eq (c ∷ cs) (d ∷ ds) h = elim (Bool-cases (c == d)) [
  | inl e ↦ ap₂ (λ x xs. x ∷ xs) (ground arith) (eq_of_str_eq cs ds (ground (arith, e, h)))
  | inr e ↦ absurd (ground (arith, e, h))
]

pub str_eq_ne : (s t : Str) → s ≢ t → str_eq s t ≡ false
str_eq_ne s t h = elim (Bool-cases (str_eq s t)) [
  | inl e ↦ absurd (h (eq_of_str_eq s t e))
  | inr e ↦ e
]

pub str_eq-cases : (s t : Str) → ((s ≡ t) × (str_eq s t ≡ true)) ⊎ ((s ≢ t) × (str_eq s t ≡ false))
str_eq-cases s t = elim (Bool-cases (str_eq s t)) [
  | inl e ↦ inl (eq_of_str_eq s t e, e)
  | inr e ↦ inr ((λ p. cc (e, ap (λ u. str_eq s u) p, str_eq_refl s)), e)
]
