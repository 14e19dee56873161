-- ===== src/Base/Order.antt =====
-- Rust's `Ord`, with the laws that the trait asks for, for texts and for `i32`.
use Prim.Native.Nat.{compare as compare_ℕ, Ordering}
use Prim.Native.Nat.Ordering.{lt, eq, gt}
use Prim.Native.String.{String, compare}
use Prim.Native.String.compare
use mathlib.Core.Path.{◌≡◌}
use mathlib.Core.Logic.{◌≢◌}
use native.Mathlib.Omega.{arith}
use text.Mathlib.TextPositions.{compare_refl}
use text.Mathlib.TextEquality.{path_by_compare}
use cortex_v3_1_rmvm_relatio.Base.Int.{ℤ, pos, negsuc}

-- the laws of a total order, with `Ordering::Equal` only between equal keys
pub record TotalOrder {ℓ} {K : Type ℓ} (cmp : K → K → Ordering) : Type ℓ where
  pub lt_trans : (x y z : K) → cmp x y ≡ lt → cmp y z ≡ lt → cmp x z ≡ lt
  pub gt_of_lt : (x y : K) → cmp x y ≡ lt → cmp y x ≡ gt
  pub lt_of_gt : (x y : K) → cmp x y ≡ gt → cmp y x ≡ lt
  pub cmp_refl : (x : K) → cmp x x ≡ eq
  pub eq_of_cmp : (x y : K) → cmp x y ≡ eq → x ≡ y

pub record Ord {ℓ} (K : Type ℓ) : Type ℓ where
  pub cmp : K → K → Ordering
  pub laws : TotalOrder cmp
  pub open laws use *

module _ {ℓ} {K : Type ℓ} ⦃o : Ord K⦄ where
  pub cmp-le_trans : (x y z : K) → o.cmp x y ≢ gt → o.cmp y z ≢ gt → o.cmp x z ≢ gt
  cmp-le_trans x y z h k = ground (arith, o.lt_trans x y z, o.eq_of_cmp x y, o.eq_of_cmp y z)

-- Texts compare as their code points do, which is the order of their UTF-8 bytes.
compare-lt_of_gt : (s t : String) → compare s t ≡ gt → compare t s ≡ lt
compare-lt_of_gt String.[] String.[] h = cc compare.nil-nil
compare-lt_of_gt String.[] (String.◌∷◌ d t) h = cc (compare.nil-cons d t)
compare-lt_of_gt (String.◌∷◌ c s) String.[] h = compare.nil-cons c s
compare-lt_of_gt (String.◌∷◌ c s) (String.◌∷◌ d t) h =
    ground (arith, compare.cons-cons c d s t, compare.cons-cons d c t s, compare-lt_of_gt s t)

compare-gt_of_lt : (s t : String) → compare s t ≡ lt → compare t s ≡ gt
compare-gt_of_lt String.[] String.[] h = cc compare.nil-nil
compare-gt_of_lt String.[] (String.◌∷◌ d t) h = compare.cons-nil d t
compare-gt_of_lt (String.◌∷◌ c s) String.[] h = cc (compare.cons-nil c s)
compare-gt_of_lt (String.◌∷◌ c s) (String.◌∷◌ d t) h =
    ground (arith, compare.cons-cons c d s t, compare.cons-cons d c t s, compare-gt_of_lt s t)

compare-lt_trans : (s t u : String) → compare s t ≡ lt → compare t u ≡ lt → compare s u ≡ lt
compare-lt_trans String.[] (String.◌∷◌ d t) (String.◌∷◌ e u) h k = compare.nil-cons e u
compare-lt_trans (String.◌∷◌ c s) (String.◌∷◌ d t) (String.◌∷◌ e u) h k = ground (
  arith,
  compare.cons-cons c d s t,
  compare.cons-cons d e t u,
  compare.cons-cons c e s u,
  compare-lt_trans s t u,
)
compare-lt_trans s String.[] String.[] h k = cc
compare-lt_trans s String.[] (String.◌∷◌ e u) h k = lt_above_nil s h
  where
    lt_above_nil : (s : String) → compare s String.[] ≡ lt → compare s (String.◌∷◌ e u) ≡ lt
    lt_above_nil String.[] h = cc
    lt_above_nil (String.◌∷◌ c s) h = cc (compare.cons-nil c s)
compare-lt_trans s (String.◌∷◌ d t) String.[] h k = cc (compare.cons-nil d t)

pub compare-TotalOrder : TotalOrder compare
compare-TotalOrder = record {
  lt_trans = compare-lt_trans;
  gt_of_lt = compare-gt_of_lt;
  lt_of_gt = compare-lt_of_gt;
  cmp_refl = compare_refl;
  eq_of_cmp = path_by_compare;
}

instance abbrev pub string_ord : Ord String
string_ord = record { cmp = compare; laws = compare-TotalOrder }

abbrev pub compare_ℤ : ℤ → ℤ → Ordering
compare_ℤ (pos a) (pos b) = compare_ℕ a b
compare_ℤ (pos a) (negsuc b) = gt
compare_ℤ (negsuc a) (pos b) = lt
compare_ℤ (negsuc a) (negsuc b) = compare_ℕ b a

pub compare_ℤ-TotalOrder : TotalOrder compare_ℤ
compare_ℤ-TotalOrder = record {
  lt_trans = λ a b c h k. ground arith;
  gt_of_lt = λ a b h. ground arith;
  lt_of_gt = λ a b h. ground arith;
  cmp_refl = λ a. ground arith;
  eq_of_cmp = λ a b h. ground arith;
}

instance abbrev pub int_ord : Ord ℤ
int_ord = record { cmp = compare_ℤ; laws = compare_ℤ-TotalOrder }
