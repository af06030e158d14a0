-- ===== src/Base/Bytes.antt =====
-- Byte strings, and the lexicographic order of Rust's `[u8]`.
use Prim.Native.Nat.{ℕ, ◌<◌, compare, Ordering}
use Prim.Native.Nat.Ordering.{lt, eq, gt}
use mathlib.Core.Path.{◌≡◌, refl}
use mathlib.Core.Bool.{Bool, true, false}
use mathlib.Core.Option.{Option, none, some}
use mathlib.Core.List.{List, [], ◌∷◌}
use ferrum_db.Base.Tests.{◌==◌, if◌then◌else◌}
use native.Mathlib.Omega.{arith}

abbrev pub Bytes : Type 0
Bytes = List ℕ

abbrev pub IsByte : ℕ → Type 0
IsByte b = b < 256

-- `Ord::cmp` of two byte slices.
unfoldable pub cmp : Bytes → Bytes → Ordering
cmp [] [] = eq
cmp [] (y ∷ ys) = lt
cmp (x ∷ xs) [] = gt
cmp (x ∷ xs) (y ∷ ys) = elim (compare x y) [ lt ↦ lt | eq ↦ cmp xs ys | gt ↦ gt ]

infix 4 ◌≺◌
abbrev pub ◌≺◌ : Bytes → Bytes → Type 0
k ≺ j = cmp k j ≡ lt

pub cmp_refl : (k : Bytes) → cmp k k ≡ eq
unfolding cmp
cmp_refl [] = refl
cmp_refl (x ∷ xs) = ground (arith, cmp_refl xs)

pub eq_of_cmp : (k j : Bytes) → cmp k j ≡ eq → k ≡ j
unfolding cmp
eq_of_cmp [] [] h = refl
eq_of_cmp [] (y ∷ ys) h = cc
eq_of_cmp (x ∷ xs) [] h = cc
eq_of_cmp (x ∷ xs) (y ∷ ys) h = ground (arith, eq_of_cmp xs ys)

pub lt_of_gt : (k j : Bytes) → cmp k j ≡ gt → cmp j k ≡ lt
unfolding cmp
lt_of_gt [] [] h = cc
lt_of_gt [] (y ∷ ys) h = cc
lt_of_gt (x ∷ xs) [] h = refl
lt_of_gt (x ∷ xs) (y ∷ ys) h = ground (arith, lt_of_gt xs ys)

pub gt_of_lt : (k j : Bytes) → cmp k j ≡ lt → cmp j k ≡ gt
unfolding cmp
gt_of_lt [] [] h = cc
gt_of_lt [] (y ∷ ys) h = refl
gt_of_lt (x ∷ xs) [] h = cc
gt_of_lt (x ∷ xs) (y ∷ ys) h = ground (arith, gt_of_lt xs ys)

pub cmp_trans : (a b c : Bytes) → a ≺ b → b ≺ c → a ≺ c
unfolding cmp
cmp_trans [] b [] p q = absurd_back b p q
  where
    absurd_back : (b : Bytes) → cmp [] b ≡ lt → cmp b [] ≡ lt → cmp [] [] ≡ lt
    absurd_back [] p q = p
    absurd_back (y ∷ ys) p q = cc
cmp_trans [] b (z ∷ zs) p q = refl
cmp_trans (x ∷ xs) [] c p q = cc
cmp_trans (x ∷ xs) (y ∷ ys) [] p q = cc
cmp_trans (x ∷ xs) (y ∷ ys) (z ∷ zs) p q = ground (arith, cmp_trans xs ys zs)

-- `a < b` and `b < a` on byte slices.
abbrev pub is_lt : Ordering → Bool
is_lt lt = true
is_lt eq = false
is_lt gt = false

abbrev pub is_gt : Ordering → Bool
is_gt lt = false
is_gt eq = false
is_gt gt = true

-- `strip_prefix`
unfoldable pub strip_prefix : Bytes → Bytes → Option Bytes
strip_prefix [] s = some s
strip_prefix (p ∷ ps) [] = none
strip_prefix (p ∷ ps) (c ∷ cs) = let rest = strip_prefix ps cs in if p == c then rest else none

-- `contains` of a character
unfoldable pub has_char : ℕ → Bytes → Bool
has_char c [] = false
has_char c (x ∷ xs) = let rest = has_char c xs in if x == c then true else rest
