-- ===== src/SsTable/Table/Parse.antt =====
-- What `SsTable::open` of ferrumdb-core/src/sstable.rs reads out of the footer and of the index
-- region, and the search of the sparse index.
use ferrum_db.Base.{
  ℕ, zero, suc, Bool, true, false, ◌||◌, Option, none, some, List, [], ◌∷◌, take, drop,
  if◌then◌else◌, ◌==◌,
}
use ferrum_db.Base.Bytes.{Bytes, cmp, is_lt, is_gt}
use ferrum_db.Base.Words.{from_be}
use ferrum_db.Errors.{Result, ok, err, decode_error, bad_magic, unsupported_version, ◌>>=◌}
use ferrum_db.SsTable.Reader.{read_u32, read_u64, read_bytes}
use ferrum_db.SsTable.Bloom.{BloomFilter, maybe_contains}
use ferrum_db.SsTable.Table.{IndexEntry}
use ferrum_db.SsTable.Table.Build.{magic, version}
use Prim.Native.Nat.Ordering.{lt, eq, gt}

-- The fields of the footer that are used after its checks.
pub record Footer : Type 0 where
  pub index_offset : ℕ
  pub index_len : ℕ
  pub entry_count : ℕ

unfoldable pub parse_footer : Bytes → Result Footer
parse_footer footer = elim (cmp (take 4 (drop 20 footer)) magic) [
  | eq ↦
      let v = from_be 0 (take 4 (drop 24 footer)) in
      if v == version
      then ok (record {
        index_offset = from_be 0 (take 8 footer);
        index_len = from_be 0 (take 8 (drop 8 footer));
        entry_count = from_be 0 (take 4 (drop 16 footer));
      })
      else err (decode_error (unsupported_version v))
  | _ ↦ err (decode_error bad_magic)
]

-- One index entry off the front of the region.
unfoldable pub parse_entry : Bytes → Result (IndexEntry × Bytes)
parse_entry buf = do
  (key_len, buf1) ← read_u32 buf
  (first_key, buf2) ← read_bytes key_len buf1
  (block_offset, buf3) ← read_u64 buf2
  (block_len, rest) ← read_u32 buf3
  ok (record { first_key = first_key; block_offset = block_offset; block_len = block_len }, rest)

-- `for _ in 0..entry_count`
unfoldable pub parse_index : ℕ → Bytes → Result (List IndexEntry × Bytes)
parse_index zero buf = ok ([], buf)
parse_index (suc n) buf = do
  (e, rest) ← parse_entry buf
  (es, after) ← parse_index n rest
  ok (e ∷ es, after)

-- The key range and the bloom filter.
pub record Extras : Type 0 where
  pub min_key : Option Bytes
  pub max_key : Option Bytes
  pub bloom : Option BloomFilter

unfoldable pub read_extras : Bytes → Result Extras
read_extras buf = do
  (min_len, buf1) ← read_u32 buf
  (min, buf2) ← read_bytes min_len buf1
  (max_len, buf3) ← read_u32 buf2
  (max, buf4) ← read_bytes max_len buf3
  (k, buf5) ← read_u32 buf4
  (bits_len, buf6) ← read_u32 buf5
  (bits, rest) ← read_bytes bits_len buf6
  ok (record {
    min_key = some min;
    max_key = some max;
    bloom = some (record { bits = bits; k = k });
  })

-- Read where anything follows the index.
unfoldable pub parse_extras : Bytes → Result Extras
parse_extras [] = ok (record { min_key = none; max_key = none; bloom = none })
parse_extras (b ∷ bs) = read_extras (b ∷ bs)

-- Rust's `binary_search_by` on a sorted index: the position of the key, or where it would go.
pub data Position : Type 0 where
  found : ℕ → Position
  insert_at : ℕ → Position

unfoldable pub binary_search : Bytes → List IndexEntry → ℕ → Position
binary_search key [] i = insert_at i
binary_search key (e ∷ es) i = elim (cmp e.first_key key) [
  | lt ↦ binary_search key es (suc i)
  | eq ↦ found i
  | gt ↦ insert_at i
]

unfoldable pub block_at : Position → Option ℕ
block_at (found i) = some i
block_at (insert_at zero) = none
block_at (insert_at (suc i)) = some i

-- The block whose first key is the largest that is at most `key`.
unfoldable pub locate : Bytes → List IndexEntry → Option ℕ
locate key index = block_at (binary_search key index 0)

-- `key < min || key > max`, where the table has a range.
unfoldable pub outside : Option Bytes → Option Bytes → Bytes → Bool
outside (some min) (some max) key = is_lt (cmp key min) || is_gt (cmp key max)
outside (some min) none key = false
outside none max key = false

-- What the filter answers, where there is one.
unfoldable pub admitted : Option BloomFilter → Bytes → Result Bool
admitted none key = ok true
admitted (some f) key = maybe_contains f key
