-- ===== src/Base/Decimal.antt =====
-- `Display` of a u64 and `str::parse::<u64>`, on ASCII bytes.
use Prim.Native.Nat.{ℕ, zero, suc, ◌+◌, ◌-◌, ◌*◌, ◌/◌, ◌%◌, ◌^◌, ◌≤◌, ◌<◌}
use mathlib.Core.Path.{◌≡◌, refl, ap, ◌∙◌}
use mathlib.Core.Bool.{false, ◌&&◌}
use mathlib.Core.Option.{Option, none, some}
use mathlib.Core.Logic.{inl, inr}
use mathlib.Core.List.{[], ◌∷◌, ◌++◌}
use native.Mathlib.Omega.{arith}
use ferrum_db.Base.Tests.{ltb, leb, ◌==◌, if◌then◌else◌, Bool-cases, ltb→lt}
use ferrum_db.Base.Bytes.{Bytes}

-- The decimal digits; a round divides by ten, so the number itself is fuel enough.
unfoldable pub digits_loop : ℕ → ℕ → Bytes
digits_loop zero n = (b'0' + n % 10) ∷ []
digits_loop (suc fuel) n =
    let front = digits_loop fuel (n / 10) in
    if ltb n 10 then (b'0' + n % 10) ∷ [] else front ++ ((b'0' + n % 10) ∷ [])

unfoldable pub digits : ℕ → Bytes
digits n = digits_loop n n

-- One digit, with the overflow checks of the multiplication and the addition.
unfoldable pub parse_step : ℕ → ℕ → Option ℕ
parse_step acc c =
    if leb b'0' c && leb c b'9' && ltb (acc * 10 + (c - b'0')) (2 ^ 64)
    then some (acc * 10 + (c - b'0'))
    else none

unfoldable pub parse_after : (ℕ → Option ℕ) → Option ℕ → Option ℕ
parse_after next none = none
parse_after next (some acc) = next acc

unfoldable pub parse_digits : Bytes → ℕ → Option ℕ
parse_digits [] acc = some acc
parse_digits (c ∷ cs) acc = parse_after (parse_digits cs) (parse_step acc c)

unfoldable pub parse_unsigned : Bytes → Option ℕ
parse_unsigned [] = none
parse_unsigned (c ∷ cs) = parse_digits (c ∷ cs) 0

-- `parse::<u64>()`: a plus sign may stand in front, and no digits at all are an error.
unfoldable pub parse_u64 : Bytes → Option ℕ
parse_u64 [] = none
parse_u64 (c ∷ cs) = if c == b'+' then parse_unsigned cs else parse_unsigned (c ∷ cs)

parse_after_lem :
    (f g h : ℕ → Option ℕ)
    → ((a : ℕ) → f a ≡ parse_after g (h a))
    → (o : Option ℕ) → parse_after f o ≡ parse_after g (parse_after h o)
unfolding parse_after
parse_after_lem f g h e none = refl
parse_after_lem f g h e (some a) = e a

parse_digits-append :
    (xs ys : Bytes) (acc : ℕ)
    → parse_digits (xs ++ ys) acc ≡ parse_after (parse_digits ys) (parse_digits xs acc)
unfolding parse_digits parse_after
parse_digits-append [] ys acc = refl
parse_digits-append (x ∷ xs) ys acc =
    parse_after_lem (parse_digits (xs ++ ys)) (parse_digits ys) (parse_digits xs)
      (parse_digits-append xs ys) (parse_step acc x)

parse_step-digit :
    (acc d : ℕ) → d < 10 → acc * 10 + d < 2 ^ 64 → parse_step acc (b'0' + d) ≡ some (acc * 10 + d)
unfolding parse_step
parse_step-digit acc d h fits = ground arith

parse_digits-one :
    (acc d : ℕ)
    → d < 10
    → acc * 10 + d < 2 ^ 64
    → parse_digits ((b'0' + d) ∷ []) acc ≡ some (acc * 10 + d)
unfolding parse_digits parse_after
parse_digits-one acc d h fits = rw (parse_step-digit acc d h fits)

parse_digits-digits_loop :
    (fuel n : ℕ) → n ≤ fuel → n < 2 ^ 64 → parse_digits (digits_loop fuel n) 0 ≡ some n
unfolding digits_loop parse_after
parse_digits-digits_loop zero n h fits =
    parse_digits-one 0 (n % 10) (omega arith) (omega arith) ∙ ap some (omega arith)
parse_digits-digits_loop (suc fuel) n h fits = elim (Bool-cases (ltb n 10)) [
  | inl small ↦
      let less = ltb→lt n 10 small in
      rw small (parse_digits-one 0 (n % 10) (omega arith) (omega arith) ∙ ap some (omega arith))
  | inr large ↦
      let more : 10 ≤ n = ground arith in
      let front = parse_digits-digits_loop fuel (n / 10) (omega arith) (omega arith) in
      rw (large, parse_digits-append (digits_loop fuel (n / 10)) ((b'0' + n % 10) ∷ []) 0, front)
        (parse_digits-one (n / 10) (n % 10) (omega arith) (omega arith) ∙ ap some (omega arith))
]

digits_loop-digit :
    (fuel n : ℕ) → (d : ℕ) × (rest : Bytes) × (digits_loop fuel n ≡ (b'0' + d) ∷ rest) × (d < 10)
unfolding digits_loop
digits_loop-digit zero n = (n % 10, [], refl, omega arith)
digits_loop-digit (suc fuel) n = elim (Bool-cases (ltb n 10)) [
  | inl small ↦ (n % 10, [], rw small, omega arith)
  | inr large ↦
      let (d, rest, front, digit) = digits_loop-digit fuel (n / 10) in
      (d, rest ++ ((b'0' + n % 10) ∷ []), rw (large, front), digit)
]

-- Parsing reads back what `Display` writes, for every u64.
pub parse_u64-digits : (n : ℕ) → n < 2 ^ 64 → parse_u64 (digits n) ≡ some n
unfolding digits parse_u64 parse_unsigned
parse_u64-digits n fits =
    let (d, rest, first, digit) = digits_loop-digit n n in
    let read = parse_digits-digits_loop n n (omega arith) fits in
    let signless : (b'0' + d == b'+') ≡ false = ground arith in
    rw (first, signless) (rw first at read)
