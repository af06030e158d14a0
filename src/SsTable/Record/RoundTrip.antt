-- ===== src/SsTable/Record/RoundTrip.antt =====
-- Records read back as they were written.
use ferrum_db.Base.{
  ℕ, zero, suc, ◌+◌, ◌≤◌, ◌<◌, ◌≡◌, refl, List, [], ◌∷◌, ◌++◌, length, All, arith, append_assoc,
  length-append,
}
use ferrum_db.Base.Bytes.{Bytes}
use ferrum_db.Base.Words.{u32_bytes}
use ferrum_db.Errors.{ok}
use ferrum_db.Proto.{Codec}
use ferrum_db.Value.{
  Value, Entry, value, tombstone, to_proto, IsEntry, from_proto-to_proto, to_proto-IsValueMessage,
}
use ferrum_db.SsTable.Reader.{read_u8-cons, read_u32-u32_bytes, read_bytes-append}
use ferrum_db.SsTable.Record.{
  encode_record, decode_value_bytes, decode_record, decode_loop, entry_bytes, IsRecord, records,
}

module _ ⦃c : Codec⦄ where
  -- `TYPE_VALUE` or `TYPE_TOMBSTONE`.
  unfoldable pub tag : Entry → ℕ
  tag (value v) = 0
  tag tombstone = 1

  -- A record followed by `rest`, field by field.
  pub encode_record_fields :
      (k : Bytes) (e : Entry) (rest : Bytes)
      → encode_record k e ++ rest
        ≡ u32_bytes (length k)
          ++ (k ++ (tag e ∷ (u32_bytes (length (entry_bytes e)) ++ (entry_bytes e ++ rest))))
  unfolding encode_record entry_bytes tag
  encode_record_fields k (value v) rest =
      let bytes = c.encode_value (to_proto v) in simp append_assoc
  encode_record_fields k tombstone rest = simp append_assoc

  pub length-encode_record :
      (k : Bytes) (e : Entry) → length (encode_record k e) ≡ 9 + length k + length (entry_bytes e)
  unfolding encode_record entry_bytes u32_bytes
  length-encode_record k (value v) =
      let bytes = c.encode_value (to_proto v) in
      omega (arith, length-append k (0 ∷ (u32_bytes (length bytes) ++ bytes)))
  length-encode_record k tombstone = omega (arith, length-append k (1 ∷ u32_bytes 0))

  pub decode_value_bytes_lem :
      (v : Value)
      → IsEntry c.is_utf8 (value v)
      → decode_value_bytes (entry_bytes (value v)) ≡ ok (value v)
  unfolding decode_value_bytes entry_bytes
  decode_value_bytes_lem v h = rw (
    c.decode-encode_value (to_proto v) (to_proto-IsValueMessage c.is_utf8 v h),
    from_proto-to_proto v,
  )

  -- `decode_record` reads back the key and the entry that `encode_record` wrote, where their
  -- lengths fit a u32, and leaves what follows them.
  pub decode_record-encode_record :
      (k : Bytes) (e : Entry) (rest : Bytes)
      → IsRecord (k, e)
      → decode_record (encode_record k e ++ rest) ≡ ok ((k, e), rest)
  unfolding decode_record tag
  decode_record-encode_record k (value v) rest h =
      let bytes = entry_bytes (value v) in
      rw (
        encode_record_fields k (value v) rest,
        read_u32-u32_bytes (length k) _ h.key_fits,
        read_bytes-append k _,
        read_u8-cons,
        read_u32-u32_bytes (length bytes) _ h.bytes_fit,
        read_bytes-append bytes rest,
        decode_value_bytes_lem v h.holds,
      )
  decode_record-encode_record k tombstone rest h =
      rw
        (
          encode_record_fields k tombstone rest,
          read_u32-u32_bytes (length k) _ h.key_fits,
          read_bytes-append k _,
          read_u8-cons,
          read_u32-u32_bytes (length (entry_bytes tombstone)) _ h.bytes_fit,
        )
        (unfold entry_bytes in refl)

  decode_loop-step :
      (fuel : ℕ) (buf rest : Bytes) (r : Bytes × Entry) (more : List (Bytes × Entry))
      → 0 < length buf
      → decode_record buf ≡ ok (r, rest)
      → decode_loop fuel rest ≡ ok more
      → decode_loop (suc fuel) buf ≡ ok (r ∷ more)
  unfolding decode_loop
  decode_loop-step fuel [] rest r more pos one others = elim pos [ ]
  decode_loop-step fuel (b ∷ bs) rest r more pos one others = rw (one, others)

  -- A block of records decodes to its entries, with its length for fuel.
  pub decode_loop-records :
      (es : List (Bytes × Entry)) (fuel : ℕ)
      → All IsRecord es
      → length (records es) ≤ fuel
      → decode_loop fuel (records es) ≡ ok es
  unfolding records
  decode_loop-records [] zero h enough = unfold decode_loop in refl
  decode_loop-records [] (suc fuel) h enough = unfold decode_loop in refl
  decode_loop-records ((k, e) ∷ es) zero h enough =
      absurd
        (omega (arith, length-append (encode_record k e) (records es), length-encode_record k e))
  decode_loop-records ((k, e) ∷ es) (suc fuel) h enough =
      let size = length-append (encode_record k e) (records es) in
      decode_loop-step fuel (encode_record k e ++ records es) (records es) (k, e) es
        (omega (arith, size, length-encode_record k e))
        (decode_record-encode_record k e (records es) h.0)
        (decode_loop-records es fuel h.1 (omega (arith, size, length-encode_record k e)))
