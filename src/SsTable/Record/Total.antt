-- ===== src/SsTable/Record/Total.antt =====
-- The loops over the records of a block, in ferrumdb-core/src/sstable.rs, on any bytes.
use ferrum_db.Base.{
  ℕ, zero, suc, ◌-◌, ◌≤◌, some, [], ◌∷◌, length, length-drop, Option-cases, ltb, ◌==◌, arith,
  Bool-cases, Ordering-cases, inl, inr,
}
use ferrum_db.Base.Bytes.{Bytes, cmp}
use ferrum_db.Errors.{Result, ok, err, panic, ◌>>=◌, Answers}
use ferrum_db.Proto.{Codec}
use ferrum_db.Value.{value, from_proto, from_proto-Answers}
use ferrum_db.SsTable.Reader.{read_u8, read_u32, read_bytes, read_u8-cons, number, slice}
use ferrum_db.SsTable.Record.{
  decode_message, decode_value_bytes, decode_body, decode_record, found_entry, find_loop,
  find_in_block, decode_loop, type_value,
}
use Prim.{⊥}

-- An error, or a result with at most `n` bytes left to read.
abbrev Leaves : {A : Type 0} → ℕ → Result (A × Bytes) → Type 0
Leaves n (ok (a, rest)) = length rest ≤ n
Leaves n (err e) = Unit
Leaves n panic = ⊥

then-Answers :
    {A B : Type 0} (n : ℕ) (x : Result (A × Bytes)) (k : A × Bytes → Result B)
    → Leaves n x
    → ((a : A) (rest : Bytes) → length rest ≤ n → Answers (k (a, rest)))
    → Answers (x >>= k)
then-Answers n (ok (a, rest)) k fits h = h a rest fits
then-Answers n (err e) k fits h = tt
then-Answers n panic k fits h = fits

then-Leaves :
    {A B : Type 0} (n m : ℕ) (x : Result (A × Bytes)) (k : A × Bytes → Result (B × Bytes))
    → Leaves n x
    → ((a : A) (rest : Bytes) → length rest ≤ n → Leaves m (k (a, rest)))
    → Leaves m (x >>= k)
then-Leaves n m (ok (a, rest)) k fits h = h a rest fits
then-Leaves n m (err e) k fits h = tt
then-Leaves n m panic k fits h = fits

Answers-Leaves :
    {A B : Type 0} (n : ℕ) (x : Result A) (k : A → Result (B × Bytes))
    → Answers x
    → ((a : A) → Leaves n (k a))
    → Leaves n (x >>= k)
Answers-Leaves n (ok a) k fits h = h a
Answers-Leaves n (err e) k fits h = tt
Answers-Leaves n panic k fits h = fits

Answers-then :
    {A B : Type 0} (x : Result A) (k : A → Result B)
    → Answers x
    → ((a : A) → Answers (k a))
    → Answers (x >>= k)
Answers-then (ok a) k fits h = h a
Answers-then (err e) k fits h = tt
Answers-then panic k fits h = fits

read_u8-Leaves : (buf : Bytes) → Leaves (length buf) (read_u8 buf)
unfolding read_u8
read_u8-Leaves [] = tt
read_u8-Leaves (b ∷ buf) = rw (read_u8-cons b buf, Leaves) (omega arith)

-- A length takes four bytes off.
read_u32-Leaves : (buf : Bytes) → Leaves (length buf - 4) (read_u32 buf)
unfolding read_u32 number slice
read_u32-Leaves buf = elim (Bool-cases (ltb (length buf) 4)) [
  | inl short ↦ rw short tt
  | inr enough ↦ rw enough (omega (arith, length-drop 4 buf))
]

read_bytes-Leaves : (len : ℕ) (buf : Bytes) → Leaves (length buf) (read_bytes len buf)
unfolding read_bytes slice
read_bytes-Leaves len buf = elim (Bool-cases (ltb (length buf) len)) [
  | inl short ↦ rw short tt
  | inr enough ↦ rw enough (omega (arith, length-drop len buf))
]

module _ ⦃c : Codec⦄ where
  decode_value_bytes-Answers : (bytes : Bytes) → Answers (decode_value_bytes bytes)
  unfolding decode_value_bytes decode_message
  decode_value_bytes-Answers bytes = elim (Option-cases (c.decode_value bytes)) [
    | inl nothing ↦ rw nothing tt
    | inr (m, message) ↦
        rw message
          (Answers-then (from_proto m) (λ v. ok (value v)) (from_proto-Answers m) (λ v. tt))
  ]

  found_entry-Answers : (rec_type : ℕ) (bytes : Bytes) → Answers (found_entry rec_type bytes)
  unfolding found_entry
  found_entry-Answers rec_type bytes = elim (Bool-cases (rec_type == type_value)) [
    | inl is_value ↦ rw is_value (
        Answers-then (decode_value_bytes bytes) (λ e. ok (some e))
          (decode_value_bytes-Answers bytes) (λ e. tt))
    | inr other ↦ rw other tt
  ]

  decode_body-Leaves :
      (rec_type len : ℕ) (buf : Bytes) → Leaves (length buf) (decode_body rec_type len buf)
  unfolding decode_body
  decode_body-Leaves rec_type len buf = elim (Bool-cases (rec_type == type_value)) [
    | inl is_value ↦ rw is_value (
        then-Leaves (length buf) (length buf) (read_bytes len buf) _ (read_bytes-Leaves len buf)
          (λ bytes rest fits.
            Answers-Leaves (length buf) (decode_value_bytes bytes) (λ e. ok (e, rest))
              (decode_value_bytes-Answers bytes) (λ e. fits)))
    | inr other ↦ rw other (omega arith)
  ]

  -- A record takes four bytes off at least.
  decode_record-Leaves : (buf : Bytes) → Leaves (length buf - 4) (decode_record buf)
  unfolding decode_record
  decode_record-Leaves buf =
      let n = length buf - 4 in
      then-Leaves n n (read_u32 buf) _ (read_u32-Leaves buf) (λ len buf1 fits1.
        then-Leaves (length buf1) n (read_bytes len buf1) _ (read_bytes-Leaves len buf1)
          (λ key buf2 fits2.
            then-Leaves (length buf2) n (read_u8 buf2) _ (read_u8-Leaves buf2) (λ kind buf3 fits3.
              then-Leaves (length buf3 - 4) n (read_u32 buf3) _ (read_u32-Leaves buf3)
                (λ size buf4 fits4.
                  then-Leaves (length buf4) n (decode_body kind size buf4) _
                    (decode_body-Leaves kind size buf4) (λ e rest fits5. omega arith)))))

  find_loop-Answers :
      (fuel : ℕ) (buf target : Bytes) → length buf ≤ fuel → Answers (find_loop fuel buf target)
  unfolding find_loop
  find_loop-Answers zero [] target enough = tt
  find_loop-Answers (suc fuel) [] target enough = tt
  find_loop-Answers zero (b ∷ bs) target enough = elim enough [ ]
  find_loop-Answers (suc fuel) (b ∷ bs) target enough =
      let buf = b ∷ bs in
      then-Answers (length buf - 4) (read_u32 buf) _ (read_u32-Leaves buf) (λ len buf1 fits1.
        then-Answers (length buf1) (read_bytes len buf1) _ (read_bytes-Leaves len buf1)
          (λ key buf2 fits2.
            then-Answers (length buf2) (read_u8 buf2) _ (read_u8-Leaves buf2) (λ kind buf3 fits3.
              then-Answers (length buf3 - 4) (read_u32 buf3) _ (read_u32-Leaves buf3)
                (λ size buf4 fits4.
                  then-Answers (length buf4) (read_bytes size buf4) _ (read_bytes-Leaves size buf4)
                    (λ bytes rest fits5. elim (Ordering-cases (cmp key target)) [
                      | inl below ↦ rw below (find_loop-Answers fuel rest target (omega arith))
                      | inr (inl same) ↦ rw same (found_entry-Answers kind bytes)
                      | inr (inr above) ↦ rw above tt
                    ])))))

  decode_loop-Answers :
      (fuel : ℕ) (buf : Bytes) → length buf ≤ fuel → Answers (decode_loop fuel buf)
  unfolding decode_loop
  decode_loop-Answers zero [] enough = tt
  decode_loop-Answers (suc fuel) [] enough = tt
  decode_loop-Answers zero (b ∷ bs) enough = elim enough [ ]
  decode_loop-Answers (suc fuel) (b ∷ bs) enough =
      let buf = b ∷ bs in
      then-Answers (length buf - 4) (decode_record buf) _ (decode_record-Leaves buf)
        (λ first rest fits.
          Answers-then (decode_loop fuel rest) (λ more. ok (first ∷ more))
            (decode_loop-Answers fuel rest (omega arith)) (λ more. tt))

  -- On any bytes, damaged or not, the two loops over the records of a block come to an end with a
  -- result or an error, and neither panics, not in a slice of the readers either: the scan for a
  -- key, and the one that decodes all records. The fuel, the length of the block, is enough.
  pub find_in_block-Answers :
      (buf target : Bytes)
      → Answers (find_in_block buf target) × Answers (decode_loop (length buf) buf)
  unfolding find_in_block
  find_in_block-Answers buf target = (
    find_loop-Answers (length buf) buf target (omega arith),
    decode_loop-Answers (length buf) buf (omega arith),
  )
