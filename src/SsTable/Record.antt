-- ===== src/SsTable/Record.antt =====
-- The record encoding of ferrumdb-core/src/sstable.rs: `encode_record`, `decode_record` and
-- `find_in_block`.
pub mod RoundTrip
pub mod Search
pub mod Total
use ferrum_db.Base.{
  ℕ, zero, suc, ◌^◌, ◌<◌, ◌≡◌, Option, none, some, List, [], ◌∷◌, ◌++◌, length, if◌then◌else◌, ◌==◌,
}
use ferrum_db.Base.Bytes.{Bytes, cmp}
use ferrum_db.Base.Words.{u32_bytes}
use ferrum_db.Errors.{Result, ok, err, panic, decode_error, malformed, ◌>>=◌}
use ferrum_db.Proto.{Codec, ValueMessage}
use ferrum_db.Value.{Entry, value, tombstone, to_proto, from_proto, IsEntry}
use ferrum_db.SsTable.Reader.{read_u8, read_u32, read_bytes}
use Prim.Native.Nat.Ordering.{lt, eq, gt}

abbrev pub type_value : ℕ
type_value = 0

abbrev pub type_tombstone : ℕ
type_tombstone = 1

module _ ⦃c : Codec⦄ where
  encode_body : Entry → Bytes
  encode_body (value v) =
      let bytes = c.encode_value (to_proto v) in type_value ∷ (u32_bytes (length bytes) ++ bytes)
  encode_body tombstone = type_tombstone ∷ u32_bytes 0

  -- `encode_record`: what it appends to `out`.
  unfoldable pub encode_record : Bytes → Entry → Bytes
  unfolding encode_body
  encode_record key entry = u32_bytes (length key) ++ (key ++ encode_body entry)

  decode_message : Option ValueMessage → Result Entry
  decode_message none = err (decode_error malformed)
  decode_message (some msg) = do v ← from_proto msg; ok (value v)

  -- `ValueMessage::decode`, then `Value::from_proto`.
  unfoldable pub decode_value_bytes : Bytes → Result Entry
  unfolding decode_message
  decode_value_bytes bytes = decode_message (c.decode_value bytes)

  decode_body : ℕ → ℕ → Bytes → Result (Entry × Bytes)
  decode_body rec_type val_len buf =
      if rec_type == type_value
      then (do
        (val_bytes, rest) ← read_bytes val_len buf
        entry ← decode_value_bytes val_bytes
        ok (entry, rest))
      else ok (tombstone, buf)

  -- `decode_record`, with what follows the record.
  unfoldable pub decode_record : Bytes → Result ((Bytes × Entry) × Bytes)
  unfolding decode_body
  decode_record buf = do
    (key_len, buf1) ← read_u32 buf
    (key, buf2) ← read_bytes key_len buf1
    (rec_type, buf3) ← read_u8 buf2
    (val_len, buf4) ← read_u32 buf3
    (entry, rest) ← decode_body rec_type val_len buf4
    ok ((key, entry), rest)

  found_entry : ℕ → Bytes → Result (Option Entry)
  found_entry rec_type val_bytes =
      if rec_type == type_value
      then (do entry ← decode_value_bytes val_bytes; ok (some entry))
      else ok (some tombstone)

  -- The `while` loop of `find_in_block`. A record is nine bytes at least, so the fuel, the length
  -- of the block, is enough.
  unfoldable pub find_loop : ℕ → Bytes → Bytes → Result (Option Entry)
  unfolding found_entry
  find_loop fuel [] target = ok none
  find_loop zero (b ∷ bs) target = panic
  find_loop (suc fuel) (b ∷ bs) target = do
    (key_len, buf1) ← read_u32 (b ∷ bs)
    (rec_key, buf2) ← read_bytes key_len buf1
    (rec_type, buf3) ← read_u8 buf2
    (val_len, buf4) ← read_u32 buf3
    (val_bytes, rest) ← read_bytes val_len buf4
    elim (cmp rec_key target) [
      | eq ↦ found_entry rec_type val_bytes
      | gt ↦ ok none
      | lt ↦ find_loop fuel rest target
    ]

  -- `find_in_block`
  unfoldable pub find_in_block : Bytes → Bytes → Result (Option Entry)
  find_in_block records key = find_loop (length records) records key

  -- The `while` loop of `read_all_entries` over one block.
  unfoldable pub decode_loop : ℕ → Bytes → Result (List (Bytes × Entry))
  decode_loop fuel [] = ok []
  decode_loop zero (b ∷ bs) = panic
  decode_loop (suc fuel) (b ∷ bs) = do
    (record', rest) ← decode_record (b ∷ bs)
    more ← decode_loop fuel rest
    ok (record' ∷ more)

  -- The bytes of an entry's value.
  unfoldable pub entry_bytes : Entry → Bytes
  entry_bytes (value v) = c.encode_value (to_proto v)
  entry_bytes tombstone = []

  -- A pair that a record can hold: lengths that fit a u32, and a value that the Rust type can hold.
  pub record IsRecord (e : Bytes × Entry) : Type 0 where
    pub key_fits : length e.0 < 2 ^ 32
    pub bytes_fit : length (entry_bytes e.1) < 2 ^ 32
    pub holds : IsEntry c.is_utf8 e.1

  -- The records of a run of entries, one after the other.
  unfoldable pub records : List (Bytes × Entry) → Bytes
  records [] = []
  records ((k, e) ∷ es) = encode_record k e ++ records es
