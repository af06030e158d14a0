-- ===== src/SsTable/Table/Footer.antt =====
-- The footer and the sparse index that `flush` writes, as `SsTable::open` reads them back, of
-- ferrumdb-core/src/sstable.rs.
use ferrum_db.Base.{
  ℕ, ◌+◌, ◌^◌, ◌≤◌, ◌<◌, ◌≡◌, refl, List, [], ◌∷◌, ◌++◌, length, arith, length-append, append_assoc,
  All,
}
use ferrum_db.Base.Bytes.{Bytes, cmp}
use ferrum_db.Base.Words.{u32_bytes, u64_bytes, from_be, from_be-u32_bytes, from_be-u64_bytes}
use ferrum_db.Errors.{ok}
use ferrum_db.Proto.{Codec}
use ferrum_db.SsTable.Reader.{read_u32-u32_bytes, read_u64-u64_bytes, read_bytes-append}
use ferrum_db.SsTable.Record.{records}
use ferrum_db.SsTable.Table.{IndexEntry}
use ferrum_db.SsTable.Table.Build.{footer, index_bytes, sealed}
use ferrum_db.SsTable.Table.Parse.{parse_footer, parse_entry, parse_index}
use ferrum_db.SsTable.Table.Layout.{Group, blocks_file, blocks_index, index_entry}

-- An index entry whose numbers fit their fields.
pub record IsWritten (e : IndexEntry) : Type 0 where
  pub key_fits : length e.first_key < 2 ^ 32
  pub offset_fits : e.block_offset < 2 ^ 64
  pub len_fits : e.block_len < 2 ^ 32

pub parse_footer-footer :
    (index_offset index_len entry_count : ℕ)
    → index_offset < 2 ^ 64
    → index_len < 2 ^ 64
    → entry_count < 2 ^ 32
    → parse_footer (footer index_offset index_len entry_count)
      ≡ ok
          (record { index_offset = index_offset; index_len = index_len; entry_count = entry_count })
unfolding parse_footer footer u32_bytes u64_bytes cmp from_be
parse_footer-footer a b n ha hb hn =
    let ea = from_be-u64_bytes a ha in
    let eb = from_be-u64_bytes b hb in let en = from_be-u32_bytes n hn in cc

entry_bytes : IndexEntry → Bytes → Bytes
entry_bytes e rest =
    u32_bytes (length e.first_key)
    ++ (e.first_key ++ (u64_bytes e.block_offset ++ (u32_bytes e.block_len ++ rest)))

parse_entry_lem :
    (e : IndexEntry) (rest : Bytes) → IsWritten e → parse_entry (entry_bytes e rest) ≡ ok (e, rest)
unfolding parse_entry entry_bytes
parse_entry_lem e rest w = rw (
  read_u32-u32_bytes (length e.first_key) _ w.key_fits,
  read_bytes-append e.first_key _,
  read_u64-u64_bytes e.block_offset _ w.offset_fits,
  read_u32-u32_bytes e.block_len rest w.len_fits,
)

index_bytes-step :
    (e : IndexEntry) (es : List IndexEntry) (rest : Bytes)
    → index_bytes (e ∷ es) ++ rest ≡ entry_bytes e (index_bytes es ++ rest)
unfolding index_bytes entry_bytes
index_bytes-step e es rest = simp append_assoc

length-entry_bytes :
    (e : IndexEntry) (rest : Bytes)
    → length (entry_bytes e rest) ≡ 16 + length e.first_key + length rest
unfolding entry_bytes u32_bytes u64_bytes
length-entry_bytes e rest =
    let tail = u64_bytes e.block_offset ++ (u32_bytes e.block_len ++ rest) in
    omega (arith, length-append e.first_key tail)

length-index_bytes :
    (e : IndexEntry) (es : List IndexEntry)
    → length (index_bytes (e ∷ es)) ≡ 16 + length e.first_key + length (index_bytes es)
unfolding index_bytes entry_bytes
length-index_bytes e es = length-entry_bytes e (index_bytes es)

pub parse_index_lem :
    (es : List IndexEntry) (rest : Bytes)
    → All IsWritten es
    → parse_index (length es) (index_bytes es ++ rest) ≡ ok (es, rest)
unfolding parse_index index_bytes
parse_index_lem [] rest v = refl
parse_index_lem (e ∷ es) rest v = rw (
  index_bytes-step e es rest,
  parse_entry_lem e (index_bytes es ++ rest) v.0,
  parse_index_lem es rest v.1,
)

pub length-index_le : (es : List IndexEntry) → length es ≤ length (index_bytes es)
length-index_le [] = omega arith
length-index_le (e ∷ es) = omega (arith, length-index_le es, length-index_bytes e es)

module _ ⦃c : Codec⦄ where
  -- An entry is at least as long as its key, and the index at least as long as an entry of it.
  pub index-IsWritten :
      (gs : List Group) (offset : ℕ)
      → offset + length (blocks_file gs) < 2 ^ 32
      → length (index_bytes (blocks_index offset gs)) < 2 ^ 32
      → All IsWritten (blocks_index offset gs)
  unfolding blocks_index blocks_file
  index-IsWritten [] offset small short = tt
  index-IsWritten (g ∷ gs) offset small short =
      let block = sealed (records g) in
      let sum = length-append block (blocks_file gs) in
      let after = offset + length block in
      let size = length-index_bytes (index_entry offset g) (blocks_index after gs) in
      (
        record {
          key_fits = omega (arith, size);
          offset_fits = omega (arith, sum);
          len_fits = omega arith;
        },
        index-IsWritten gs after (omega (arith, sum)) (omega (arith, size)),
      )
