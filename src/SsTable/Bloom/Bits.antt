-- ===== src/SsTable/Bloom/Bits.antt =====
-- Setting and testing single bits of a byte string.
use ferrum_db.Base.{
  ℕ, zero, suc, ◌*◌, ◌/◌, ◌%◌, ◌^◌, ◌<◌, ◌≡◌, ◌≢◌, refl, ◌∙◌, Bool, true, not, ◌&&◌, ◌||◌, none,
  some, length, get_elem?, set, All, ltb, ◌==◌, ==_iff, arith, length-set, get_elem?-bound,
  get_elem?-set_self, get_elem?-set_ne, get_elem?-lt, All-set, All-get_elem?, inl, inr, Bool-cases,
  Option-cases,
}
use ferrum_db.Base.Bytes.{Bytes, IsByte}
use ferrum_db.SsTable.Bloom.{set_bit, test_bit}
use Prim.Native.Nat.{bit_and, bit_or}

-- A test that passes on each number under a bound, and what that says of one of them.
passes_under : (ℕ → Bool) → ℕ → Bool
passes_under test zero = true
passes_under test (suc bound) = passes_under test bound && test bound

passes_under_lem :
    (test : ℕ → Bool) (bound i : ℕ) → passes_under test bound ≡ true → i < bound → test i ≡ true
unfolding passes_under
passes_under_lem test zero i all under = absurd (omega arith)
passes_under_lem test (suc bound) i all under =
    let earlier = passes_under_lem test bound i in grind arith

abbrev bit_at : ℕ → ℕ → Bool
bit_at b i = not (bit_and b (2 ^ i) == 0)

-- A bit that was set is found, a bit that was there stays, and the result is a byte.
abbrev or_keeps : ℕ → ℕ → ℕ → Bool
or_keeps b i j =
    bit_at (bit_or b (2 ^ i)) i
    && (not (bit_at b j) || bit_at (bit_or b (2 ^ i)) j)
    && ltb (bit_or b (2 ^ i)) 256

or_keeps_table : passes_under (λ b. passes_under (λ i. passes_under (or_keeps b i) 8) 8) 256 ≡ true
unfolding passes_under
or_keeps_table = refl

or_keeps_lem : (b i j : ℕ) → b < 256 → i < 8 → j < 8 → or_keeps b i j ≡ true
or_keeps_lem b i j hb hi hj =
    let row : ℕ → Bool = λ b. passes_under (λ i. passes_under (or_keeps b i) 8) 8 in
    let cells = passes_under_lem row 256 b or_keeps_table hb in
    let cell = passes_under_lem (λ i. passes_under (or_keeps b i) 8) 8 i cells hi in
    passes_under_lem (or_keeps b i) 8 j cell hj

set_bit-lem :
    (bits : Bytes) (p b : ℕ)
    → get_elem? bits (p / 8) ≡ some b
    → set_bit bits p ≡ set bits (p / 8) (bit_or b (2 ^ (p % 8)))
unfolding set_bit
set_bit-lem bits p b e = rw (e, set_bit)

test_bit-lem :
    (bits : Bytes) (p b : ℕ) → get_elem? bits (p / 8) ≡ some b → test_bit bits p ≡ bit_at b (p % 8)
unfolding test_bit
test_bit-lem bits p b e = rw (e, test_bit)

set_bit_out : (bits : Bytes) (p : ℕ) → get_elem? bits (p / 8) ≡ none → set_bit bits p ≡ bits
unfolding set_bit
set_bit_out bits p e = rw (e, set_bit)

pub length-set_bit : (bits : Bytes) (p : ℕ) → length (set_bit bits p) ≡ length bits
length-set_bit bits p = elim (Option-cases (get_elem? bits (p / 8))) [
  | inl out ↦ rw (set_bit_out bits p out)
  | inr (b, e) ↦ rw (set_bit-lem bits p b e) (length-set bits (p / 8) (bit_or b (2 ^ (p % 8))))
]

pub set_bit-IsByte : (bits : Bytes) (p : ℕ) → All IsByte bits → All IsByte (set_bit bits p)
set_bit-IsByte bits p h = elim (Option-cases (get_elem? bits (p / 8))) [
  | inl out ↦ rw (set_bit_out bits p out) h
  | inr (b, e) ↦ rw (set_bit-lem bits p b e) (
      All-set IsByte bits (p / 8) (bit_or b (2 ^ (p % 8))) h (
        ground (
          arith,
          or_keeps_lem b (p % 8) 0 (All-get_elem? IsByte bits (p / 8) b h e) (omega arith)
              (omega arith),
        )))
]

-- A position that was set tests true.
pub test_bit-set_bit_self :
    (bits : Bytes) (p : ℕ)
    → All IsByte bits
    → p < length bits * 8
    → test_bit (set_bit bits p) p ≡ true
test_bit-set_bit_self bits p h lt =
    let (b, e) = get_elem?-lt bits (p / 8) (omega arith) in
    let v = bit_or b (2 ^ (p % 8)) in
    rw
      (
        set_bit-lem bits p b e,
        test_bit-lem (set bits (p / 8) v) p v (get_elem?-set_self bits (p / 8) v (omega arith)),
      )
      (ground (
        arith,
        or_keeps_lem b (p % 8) 0 (All-get_elem? IsByte bits (p / 8) b h e) (omega arith)
            (omega arith),
      ))

test_bit_cong :
    (xs ys : Bytes) (q : ℕ)
    → get_elem? xs (q / 8) ≡ get_elem? ys (q / 8)
    → test_bit xs q ≡ test_bit ys q
unfolding test_bit
test_bit_cong xs ys q e = rw (e, test_bit)

-- A position that tested true still does after another was set.
pub test_bit-set_bit :
    (bits : Bytes) (p q : ℕ)
    → All IsByte bits
    → test_bit bits q ≡ true
    → test_bit (set_bit bits p) q ≡ true
test_bit-set_bit bits p q h set_q = elim (Option-cases (get_elem? bits (p / 8))) [
  | inl out ↦ rw (set_bit_out bits p out) set_q
  | inr (b, e) ↦
      let v = bit_or b (2 ^ (p % 8)) in
      rw (set_bit-lem bits p b e) (elim (Bool-cases (p / 8 == q / 8)) [
        | inl same ↦
            let at_q : p / 8 ≡ q / 8 = (==_iff (p / 8) (q / 8)).0 same in
            let found : get_elem? (set bits (p / 8) v) (q / 8) ≡ some v =
              rw (← at_q) (get_elem?-set_self bits (p / 8) v (get_elem?-bound bits (p / 8) b e)) in
            let before : bit_at b (q % 8) ≡ true =
              rw (test_bit-lem bits q b (rw (← at_q) e)) at set_q in
            rw (test_bit-lem (set bits (p / 8) v) q v found) (
              ground (
                arith,
                or_keeps_lem b (p % 8) (q % 8) (All-get_elem? IsByte bits (p / 8) b h e)
                    (omega arith) (omega arith),
              ))
        | inr other ↦
            let apart : p / 8 ≢ q / 8 = ground arith in
            test_bit_cong (set bits (p / 8) v) bits q
              (get_elem?-set_ne bits (p / 8) (q / 8) v apart)
            ∙ set_q
      ])
]
