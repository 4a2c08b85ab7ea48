-- ===== src/Ord.antt =====
-- Elm's `comparable` keys with `compare` (ui/dist/Main.js, _elm_lang$core$Basics$compare): the
-- order that a dictionary is kept in. A type of keys is taken with the laws that `compare`
-- documents.
pub mod Strings
use kubecast.Common.{Ordering, lt, eq, gt, compare, ◌≡◌, ℕ, arith, refl, ◌⊎◌, inl, inr}

pub record Comparable {ℓ} (K : Type ℓ) : Type ℓ where
  -- Elm's `compare`.
  pub cmp : K → K → Ordering
  -- Keys that compare as equal are equal.
  pub eq_of_cmp : (j k : K) → cmp j k ≡ eq → j ≡ k
  -- The order is transitive.
  pub lt_trans : (i j k : K) → cmp i j ≡ lt → cmp j k ≡ lt → cmp i k ≡ lt
  -- The other way round the answer is the other one.
  pub gt_of_lt : (j k : K) → cmp j k ≡ lt → cmp k j ≡ gt
  pub lt_of_gt : (k j : K) → cmp k j ≡ gt → cmp j k ≡ lt
  pub cmp_refl : (k : K) → cmp k k ≡ eq

pub compare_same : (k : ℕ) → compare k k ≡ eq
compare_same = ground arith

pub compare_equal : (j k : ℕ) → compare j k ≡ eq → j ≡ k
compare_equal = ground arith

pub compare_flip_gt : (k j : ℕ) → compare k j ≡ gt → compare j k ≡ lt
compare_flip_gt = ground arith

pub compare_flip_lt : (j k : ℕ) → compare j k ≡ lt → compare k j ≡ gt
compare_flip_lt = ground arith

pub compare_chain : (i j k : ℕ) → compare i j ≡ lt → compare j k ≡ lt → compare i k ≡ lt
compare_chain = ground arith

instance unfoldable pub nat_comparable : Comparable ℕ
nat_comparable = record {
  cmp = compare;
  eq_of_cmp = compare_equal;
  lt_trans = compare_chain;
  gt_of_lt = compare_flip_lt;
  lt_of_gt = compare_flip_gt;
  cmp_refl = compare_same;
}

pub Ordering-cases : (c : Ordering) → (c ≡ lt) ⊎ ((c ≡ eq) ⊎ (c ≡ gt))
Ordering-cases lt = inl refl
Ordering-cases eq = inr (inl refl)
Ordering-cases gt = inr (inr refl)
