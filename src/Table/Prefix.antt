-- ===== src/Table/Prefix.antt =====
-- The bounds of `scan_prefix` hold exactly the keys that begin with the prefix.
use ferrum_db.Base.{
  ℕ, suc, ◌<◌, ◌≡◌, refl, Bool, true, false, ◌&&◌, Option, none, some, [], ◌∷◌, ◌++◌, ltb, All,
  arith, if◌then◌else◌, ◌==◌, inl, inr, Option-cases, Bool-cases,
}
use ferrum_db.Base.Bytes.{Bytes, IsByte, cmp, is_lt}
use ferrum_db.Store.Bounds.{included, in_bounds, above_lo, below_hi}
use ferrum_db.Table.{from_last, upper_loop, prefix_upper_bound, upper_bound}

-- `key.starts_with(prefix)`
unfoldable pub starts_with : Bytes → Bytes → Bool
starts_with [] key = true
starts_with (b ∷ bs) [] = false
starts_with (b ∷ bs) (c ∷ cs) = (b == c) && starts_with bs cs

-- The upper bound from the front: the last byte below 255 is the one that is raised.
put_front : ℕ → Option Bytes → Option Bytes
put_front b (some e) = some (b ∷ e)
put_front b none = if ltb b 255 then some (suc b ∷ []) else none

raise : Bytes → Option Bytes
unfolding put_front
raise [] = none
raise (b ∷ bs) = put_front b (raise bs)

put_last : ℕ → Option Bytes → Option Bytes
put_last b (some e) = some (e ++ (b ∷ []))
put_last b none = if ltb b 255 then some (suc b ∷ []) else none

upper_loop-snoc : (r : Bytes) (b : ℕ) → upper_loop (r ++ (b ∷ [])) ≡ put_last b (upper_loop r)
unfolding upper_loop put_last
upper_loop-snoc [] b = refl
upper_loop-snoc (c ∷ r) b = ground (arith, upper_loop-snoc r b)

from_last-snoc : (r : Bytes) (b : ℕ) → from_last (r ++ (b ∷ [])) ≡ b ∷ from_last r
unfolding from_last
from_last-snoc [] b = refl
from_last-snoc (c ∷ r) b = rw (from_last-snoc r b)

prefix_upper_bound-raise : (p : Bytes) → prefix_upper_bound p ≡ raise p
unfolding prefix_upper_bound raise from_last upper_loop put_front put_last
prefix_upper_bound-raise [] = refl
prefix_upper_bound-raise (b ∷ bs) =
    let rest = prefix_upper_bound-raise bs in
    let last = upper_loop-snoc (from_last bs) b in
    elim (Option-cases (upper_loop (from_last bs))) [
      | inl nothing ↦ ground (arith, last, nothing, rest)
      | inr (e, found) ↦ ground (arith, last, found, rest, from_last-snoc e b)
    ]

above_empty : (cs : Bytes) → is_lt (cmp cs []) ≡ false
unfolding cmp
above_empty [] = refl
above_empty (c ∷ cs) = refl

raise-in_bounds :
    (p key : Bytes)
    → All IsByte key
    → starts_with p key ≡ in_bounds key (included p) (upper_bound (raise p))
unfolding starts_with in_bounds above_lo below_hi upper_bound raise put_front cmp
raise-in_bounds [] [] h = refl
raise-in_bounds [] (c ∷ cs) h = refl
raise-in_bounds (b ∷ bs) [] h = refl
raise-in_bounds (b ∷ bs) (c ∷ cs) h =
    let rest = raise-in_bounds bs cs h.1 in
    elim (Option-cases (raise bs)) [
      | inl nothing ↦
          let there = rw nothing at rest in
          let full : c < 256 = h.0 in
          elim (Bool-cases (ltb b 255)) [
            | inl small ↦ rw (nothing, small) (grind (arith, above_empty cs, there))
            | inr big ↦ rw (nothing, big) (grind (arith, there))
          ]
      | inr (e, found) ↦ let there = rw found at rest in rw found (ground (arith, there))
    ]

-- A byte string is in the bounds that `scan_prefix` uses if and only if it begins with the prefix.
pub starts_with-in_bounds :
    (prefix key : Bytes)
    → All IsByte key
    → starts_with prefix key
      ≡ in_bounds key (included prefix) (upper_bound (prefix_upper_bound prefix))
starts_with-in_bounds prefix key h =
    rw (prefix_upper_bound-raise prefix) (raise-in_bounds prefix key h)
