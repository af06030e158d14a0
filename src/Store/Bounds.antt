-- ===== src/Store/Bounds.antt =====
-- `in_bounds` and `range_overlaps` of ferrumdb-core/src/store.rs.
use ferrum_db.Base.{◌≡◌, Bool, true, false, not, ◌&&◌, arith}
use ferrum_db.Base.Bytes.{Bytes, cmp, is_lt, is_gt, eq_of_cmp, lt_of_gt, gt_of_lt, cmp_trans}

-- `std::ops::Bound`
pub data Bound : Type 0 where
  unbounded : Bound
  included excluded : Bytes → Bound

unfoldable pub above_lo : Bytes → Bound → Bool
above_lo key unbounded = true
above_lo key (included b) = not (is_lt (cmp key b))
above_lo key (excluded b) = is_gt (cmp key b)

unfoldable pub below_hi : Bytes → Bound → Bool
below_hi key unbounded = true
below_hi key (included b) = not (is_gt (cmp key b))
below_hi key (excluded b) = is_lt (cmp key b)

-- `in_bounds`
unfoldable pub in_bounds : Bytes → Bound → Bound → Bool
in_bounds key lo hi = above_lo key lo && below_hi key hi

unfoldable pub max_below_lo : Bytes → Bound → Bool
max_below_lo max unbounded = false
max_below_lo max (included b) = is_lt (cmp max b)
max_below_lo max (excluded b) = not (is_gt (cmp max b))

unfoldable pub min_above_hi : Bytes → Bound → Bool
min_above_hi min unbounded = false
min_above_hi min (included b) = is_gt (cmp min b)
min_above_hi min (excluded b) = not (is_lt (cmp min b))

-- `range_overlaps`
unfoldable pub range_overlaps : Bytes → Bytes → Bound → Bound → Bool
range_overlaps min max lo hi = not (max_below_lo max lo) && not (min_above_hi min hi)

-- A key that is at most `max` is under a lower bound that `max` is under.
below-above_lo :
    (key max : Bytes) (lo : Bound)
    → is_gt (cmp key max) ≡ false
    → max_below_lo max lo ≡ true
    → above_lo key lo ≡ false
unfolding max_below_lo above_lo
below-above_lo key max unbounded le h = cc
below-above_lo key max (included b) le h = ground (arith, eq_of_cmp key max, cmp_trans key max b)
below-above_lo key max (excluded b) le h =
    ground (arith, eq_of_cmp key max, eq_of_cmp max b, cmp_trans key max b)

gt_trans :
    (a b c : Bytes) → is_gt (cmp a b) ≡ true → is_gt (cmp b c) ≡ true → is_gt (cmp a c) ≡ true
gt_trans a b c p q = ground (arith, lt_of_gt a b, lt_of_gt b c, cmp_trans c b a, gt_of_lt c a)

above-below_hi :
    (key min : Bytes) (hi : Bound)
    → is_lt (cmp key min) ≡ false
    → min_above_hi min hi ≡ true
    → below_hi key hi ≡ false
unfolding min_above_hi below_hi
above-below_hi key min unbounded le h = cc
above-below_hi key min (included b) le h = ground (arith, eq_of_cmp key min, gt_trans key min b)
above-below_hi key min (excluded b) le h =
    ground (arith, eq_of_cmp key min, eq_of_cmp min b, gt_trans key min b)

-- A table that `range_overlaps` skips has no key in the bounds: no key from the least to the
-- greatest key of the table is.
pub range_overlaps-in_bounds :
    (min max key : Bytes) (lo hi : Bound)
    → range_overlaps min max lo hi ≡ false
    → is_lt (cmp key min) ≡ false
    → is_gt (cmp key max) ≡ false
    → in_bounds key lo hi ≡ false
unfolding range_overlaps in_bounds
range_overlaps-in_bounds min max key lo hi skip ge le =
    ground (arith, below-above_lo key max lo, above-below_hi key min hi)
