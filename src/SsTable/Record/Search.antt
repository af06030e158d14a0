-- ===== src/SsTable/Record/Search.antt =====
-- `find_in_block` on a block of sorted records answers as a lookup among them.
use ferrum_db.Base.{
  ℕ, zero, suc, ◌≤◌, ◌<◌, ◌≡◌, refl, ◌∙◌, Option, none, some, List, [], ◌∷◌, ◌++◌, length, All,
  arith, length-append,
}
use ferrum_db.Base.Bytes.{Bytes, cmp, gt_of_lt, eq_of_cmp, cmp_refl, lt_of_gt}
use ferrum_db.BTreeMap.{get, IsSorted}
use ferrum_db.BTreeMap.Lookup.{get-below}
use ferrum_db.Base.Words.{u32_bytes}
use ferrum_db.Errors.{Result, ok}
use ferrum_db.Proto.{Codec}
use ferrum_db.Value.{Entry, value, tombstone}
use ferrum_db.SsTable.Reader.{read_u8-cons, read_u32-u32_bytes, read_bytes-append}
use ferrum_db.SsTable.Record.{
  encode_record, find_loop, find_in_block, found_entry, entry_bytes, IsRecord, records,
}
use ferrum_db.SsTable.Record.RoundTrip.{
  tag, encode_record_fields, length-encode_record, decode_value_bytes_lem,
}
use Prim.Native.Nat.Ordering.{lt, eq, gt}

module _ ⦃c : Codec⦄ where
  found_entry_lem :
      (k : Bytes) (e : Entry) → IsRecord (k, e) → found_entry (tag e) (entry_bytes e) ≡ ok (some e)
  unfolding found_entry tag
  found_entry_lem k (value v) h = rw (decode_value_bytes_lem v h.holds)
  found_entry_lem k tombstone h = refl

  -- What one round of the loop does, by the order of the record's key and the target.
  abbrev round : ℕ → Bytes → Entry → Bytes → Bytes → Result (Option Entry)
  round fuel k e rest target = elim (cmp k target) [
    | eq ↦ found_entry (tag e) (entry_bytes e)
    | gt ↦ ok none
    | lt ↦ find_loop fuel rest target
  ]

  find_loop-step :
      (fuel : ℕ) (buf : Bytes) (k : Bytes) (e : Entry) (rest target : Bytes)
      → buf
        ≡ u32_bytes (length k)
          ++ (k ++ (tag e ∷ (u32_bytes (length (entry_bytes e)) ++ (entry_bytes e ++ rest))))
      → 0 < length buf
      → IsRecord (k, e)
      → find_loop (suc fuel) buf target ≡ round fuel k e rest target
  unfolding find_loop
  find_loop-step fuel [] k e rest target fields pos h = elim pos [ ]
  find_loop-step fuel (b ∷ bs) k e rest target fields pos h = rw (
    fields,
    read_u32-u32_bytes (length k) _ h.key_fits,
    read_bytes-append k _,
    read_u8-cons,
    read_u32-u32_bytes (length (entry_bytes e)) _ h.bytes_fit,
    read_bytes-append (entry_bytes e) rest,
  )

  -- The round, as a lookup in the entries from this one on.
  round_lem :
      (fuel : ℕ) (k : Bytes) (e : Entry) (es : List (Bytes × Entry)) (target : Bytes)
      → IsRecord (k, e)
      → IsSorted ((k, e) ∷ es)
      → find_loop fuel (records es) target ≡ ok (get target es)
      → round fuel k e (records es) target ≡ ok (get target ((k, e) ∷ es))
  unfolding get
  round_lem fuel k e es target h sorted rest = ground (
    arith,
    gt_of_lt k target,
    lt_of_gt k target,
    eq_of_cmp k target,
    cmp_refl k,
    found_entry_lem k e h,
    λ (below : cmp target k ≡ lt). get-below target k es below sorted.0,
  )

  find_loop-records :
      (es : List (Bytes × Entry)) (fuel : ℕ) (target : Bytes)
      → All IsRecord es
      → IsSorted es
      → length (records es) ≤ fuel
      → find_loop fuel (records es) target ≡ ok (get target es)
  unfolding records
  find_loop-records [] zero target h sorted enough = unfold find_loop get in refl
  find_loop-records [] (suc fuel) target h sorted enough = unfold find_loop get in refl
  find_loop-records ((k, e) ∷ es) zero target h sorted enough =
      absurd
        (omega (arith, length-append (encode_record k e) (records es), length-encode_record k e))
  find_loop-records ((k, e) ∷ es) (suc fuel) target h sorted enough =
      let size = length-append (encode_record k e) (records es) in
      find_loop-step fuel (encode_record k e ++ records es) k e (records es) target
        (encode_record_fields k e (records es)) (omega (arith, size, length-encode_record k e)) h.0
      ∙ round_lem fuel k e es target h.0 sorted (
          find_loop-records es fuel target h.1 sorted.1
            (omega (arith, size, length-encode_record k e)))

  -- The scan of the records of sorted entries whose lengths fit a u32 answers what a lookup among
  -- the entries answers, a tombstone included.
  pub find_in_block-records :
      (es : List (Bytes × Entry)) (target : Bytes)
      → All IsRecord es
      → IsSorted es
      → find_in_block (records es) target ≡ ok (get target es)
  unfolding find_in_block
  find_in_block-records es target h sorted =
      find_loop-records es (length (records es)) target h sorted (omega arith)
