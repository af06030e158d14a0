-- ===== src/SsTable/Table/Build.antt =====
-- `SsTable::flush` of ferrumdb-core/src/sstable.rs.
use ferrum_db.Base.{ℕ, ◌%◌, Option, none, some, List, [], ◌∷◌, ◌++◌, length, leb, if◌then◌else◌}
use ferrum_db.Base.Bytes.{Bytes}
use ferrum_db.Base.Words.{u32_bytes, u64_bytes, u32_mod}
use ferrum_db.Proto.{Codec}
use ferrum_db.Value.{Entry}
use ferrum_db.Disk.{Disk, Exec, ◌>>◌, pure, create_dir_all, create_truncate, write_all, sync_all}
use ferrum_db.SsTable.Reader.{crc32}
use ferrum_db.SsTable.Bloom
use ferrum_db.SsTable.Bloom.{BloomFilter, add_all}
use ferrum_db.SsTable.Cache
use ferrum_db.SsTable.Record.{encode_record}
use ferrum_db.SsTable.Table.{IndexEntry, SsTable}

abbrev pub block_size : ℕ
block_size = 4096

-- b"FSST"
abbrev pub magic : Bytes
magic = b'F' ∷ b'S' ∷ b'S' ∷ b'T' ∷ []

abbrev pub version : ℕ
version = 3

abbrev pub footer_len : ℕ
footer_len = 28

abbrev pub block_cache_cap : ℕ
block_cache_cap = 32

-- The local variables of the loop over the entries.
pub record Build : Type 0 where
  pub file : Bytes
  pub index : List IndexEntry
  pub block : Bytes
  pub block_first_key : Option Bytes
  pub block_offset : ℕ
  pub min_key : Option Bytes
  pub max_key : Option Bytes
  pub keys : List Bytes

abbrev pub start : Build
start = record {
  file = [];
  index = [];
  block = [];
  block_first_key = none;
  block_offset = 0;
  min_key = none;
  max_key = none;
  keys = [];
}

-- `first_key.unwrap_or_default()`
abbrev pub or_default : Option Bytes → Bytes
or_default none = []
or_default (some k) = k

-- A block as it stands in the file: its records and their CRC.
unfoldable pub sealed : Bytes → Bytes
sealed block = block ++ u32_bytes (crc32 block)

-- `finalize_block`, with `block_first_key.take()`
unfoldable pub finalize_block : Build → Build
finalize_block b = record b {
  file = b.file ++ sealed b.block;
  index =
      b.index
      ++ (record {
        first_key = or_default b.block_first_key;
        block_offset = b.block_offset;
        block_len = length (sealed b.block) % u32_mod;
      }
          ∷ []);
  block = [];
  block_first_key = none;
}

-- `if min_key.is_none() { min_key = Some(key) }`
abbrev pub first_of_keys : Option Bytes → Bytes → Option Bytes
first_of_keys none key = some key
first_of_keys (some k) key = some k

unfoldable pub note_key : Bytes → Build → Build
note_key key b = record b {
  min_key = first_of_keys b.min_key key;
  max_key = some key;
  keys = b.keys ++ (key ∷ []);
}

-- `if block.is_empty() { … }`
unfoldable pub open_block : Bytes → Bytes → Build → Build
open_block [] key b = record b { block_first_key = some key; block_offset = length b.file }
open_block (x ∷ xs) key b = b

unfoldable pub end_block : Build → Build
end_block b = if leb block_size (length b.block) then finalize_block b else b

module _ ⦃c : Codec⦄ where
  -- One round of the loop.
  unfoldable pub add_entry : Bytes → Entry → Build → Build
  add_entry key entry b =
      let noted = note_key key b in
      let opened = open_block noted.block key noted in
      end_block (record opened { block = opened.block ++ encode_record key entry })

  unfoldable pub add_entries : List (Bytes × Entry) → Build → Build
  add_entries [] b = b
  add_entries ((k, e) ∷ es) b = add_entries es (add_entry k e b)

unfoldable pub flush_rest : Bytes → Build → Build
flush_rest [] b = b
flush_rest (x ∷ xs) b = finalize_block b

-- The trailing partial block.
unfoldable pub finish : Build → Build
finish b = flush_rest b.block b

unfoldable pub index_bytes : List IndexEntry → Bytes
index_bytes [] = []
index_bytes (e ∷ es) =
    u32_bytes (length e.first_key)
    ++ (e.first_key ++ (u64_bytes e.block_offset ++ (u32_bytes e.block_len ++ index_bytes es)))

unfoldable pub range_bytes : Option Bytes → Option Bytes → Bytes
range_bytes (some min) (some max) =
    u32_bytes (length min) ++ (min ++ (u32_bytes (length max) ++ max))
range_bytes (some min) none = []
range_bytes none max = []

unfoldable pub build_bloom : List Bytes → Option BloomFilter
build_bloom [] = none
build_bloom (key ∷ keys) = some (add_all (Bloom.new (length (key ∷ keys))) (key ∷ keys))

unfoldable pub bloom_bytes : Option BloomFilter → Bytes
bloom_bytes none = []
bloom_bytes (some f) = u32_bytes f.k ++ (u32_bytes (length f.bits) ++ f.bits)

-- The index region, the key range and the bloom filter included.
unfoldable pub region : Build → Bytes
region b =
    index_bytes b.index ++ (range_bytes b.min_key b.max_key ++ bloom_bytes (build_bloom b.keys))

unfoldable pub footer : ℕ → ℕ → ℕ → Bytes
footer index_offset index_len entry_count =
    u64_bytes index_offset
    ++ (u64_bytes index_len ++ (u32_bytes entry_count ++ (magic ++ u32_bytes version)))

-- The bytes that are written.
unfoldable pub image : Build → Bytes
image b = b.file ++ (region b ++ footer (length b.file) (length (region b)) (length b.index))

-- The table that `flush` returns.
unfoldable pub built : Bytes → Build → SsTable
built path b = record {
  path = path;
  index = b.index;
  min_key = b.min_key;
  max_key = b.max_key;
  bloom = build_bloom b.keys;
  cache = Cache.new block_cache_cap;
}

module _ ⦃c : Codec⦄ where
  unfoldable pub build : List (Bytes × Entry) → Build
  build entries = finish (add_entries entries start)

  -- `SsTable::flush`; `dir` is the path's parent.
  unfoldable pub flush : Bytes → Bytes → List (Bytes × Entry) → Exec Disk SsTable
  flush dir path entries = do
    create_dir_all dir
    create_truncate path
    write_all path (image (build entries))
    sync_all path
    pure (built path (build entries))
