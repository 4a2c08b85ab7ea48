-- ===== src/Ord/Strings.antt =====
-- Elm's `compare` on strings (ui/dist/Main.js, _elm_lang$core$Native_Utils, cmp), code unit by code unit.
use kubecast.Common.{Ordering, lt, eq, gt, compare, ◌≡◌, ℕ, arith, refl, ap₂, [], ◌∷◌}
use kubecast.Text.{Str}
use kubecast.Ord.{Comparable}

unfoldable pub cmp_str : Str → Str → Ordering
cmp_str [] [] = eq
cmp_str [] (d ∷ t) = lt
cmp_str (c ∷ s) [] = gt
cmp_str (c ∷ s) (d ∷ t) =
    let rest = cmp_str s t in elim (compare c d) [ lt ↦ lt | eq ↦ rest | gt ↦ gt ]

pub cmp_str-same : (s : Str) → cmp_str s s ≡ eq
unfolding cmp_str
cmp_str-same [] = refl
cmp_str-same (c ∷ s) = ground (arith, cmp_str-same s)

heads_equal : (c d : ℕ) (s t : Str) → cmp_str (c ∷ s) (d ∷ t) ≡ eq → c ≡ d
unfolding cmp_str
heads_equal c d s t e = ground (arith, e)

tails_equal : (c d : ℕ) (s t : Str) → cmp_str (c ∷ s) (d ∷ t) ≡ eq → cmp_str s t ≡ eq
unfolding cmp_str
tails_equal c d s t e = ground (arith, e)

pub cmp_str-equal : (s t : Str) → cmp_str s t ≡ eq → s ≡ t
unfolding cmp_str
cmp_str-equal [] [] e = refl
cmp_str-equal [] (d ∷ t) e = cc
cmp_str-equal (c ∷ s) [] e = cc
cmp_str-equal (c ∷ s) (d ∷ t) e =
    ap₂ (λ x xs. x ∷ xs) (heads_equal c d s t e) (cmp_str-equal s t (tails_equal c d s t e))

pub cmp_str-gt : (s t : Str) → cmp_str s t ≡ lt → cmp_str t s ≡ gt
unfolding cmp_str
cmp_str-gt [] [] e = cc
cmp_str-gt [] (d ∷ t) e = refl
cmp_str-gt (c ∷ s) [] e = cc
cmp_str-gt (c ∷ s) (d ∷ t) e = ground (arith, e, cmp_str-gt s t)

pub cmp_str-lt : (t s : Str) → cmp_str t s ≡ gt → cmp_str s t ≡ lt
unfolding cmp_str
cmp_str-lt [] [] e = cc
cmp_str-lt [] (d ∷ t) e = cc
cmp_str-lt (c ∷ s) [] e = refl
cmp_str-lt (c ∷ s) (d ∷ t) e = ground (arith, e, cmp_str-lt s t)

pub cmp_str_chain : (r s t : Str) → cmp_str r s ≡ lt → cmp_str s t ≡ lt → cmp_str r t ≡ lt
unfolding cmp_str
cmp_str_chain [] [] t e f = cc
cmp_str_chain [] (d ∷ s) [] e f = cc
cmp_str_chain [] (d ∷ s) (b ∷ t) e f = refl
cmp_str_chain (c ∷ r) [] t e f = cc
cmp_str_chain (c ∷ r) (d ∷ s) [] e f = cc
cmp_str_chain (c ∷ r) (d ∷ s) (b ∷ t) e f = ground (arith, e, f, cmp_str_chain r s t)

instance unfoldable pub str_comparable : Comparable Str
str_comparable = record {
  cmp = cmp_str;
  eq_of_cmp = cmp_str-equal;
  lt_trans = cmp_str_chain;
  gt_of_lt = cmp_str-gt;
  lt_of_gt = cmp_str-lt;
  cmp_refl = cmp_str-same;
}
