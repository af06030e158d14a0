-- ===== src/SsTable/Table/Read.antt =====
-- `SsTable::open`, `get`, `read_all_entries` and what they call, of ferrumdb-core/src/sstable.rs.
use ferrum_db.Base.{
  ℕ, ◌-◌, Bool, false, Option, none, some, List, [], ◌∷◌, ◌++◌, length, take, drop, get_elem?, ltb,
  if◌then◌else◌, ◌==◌,
}
use ferrum_db.Base.Bytes.{Bytes}
use ferrum_db.Base.Words.{from_be}
use ferrum_db.Errors.{Result, ok, err, panic, decode_error, smaller_than_footer, crc_mismatch}
use ferrum_db.Proto.{Codec}
use ferrum_db.Value.{Entry}
use ferrum_db.Disk.{
  Disk, Exec, ◌>>=◌, ◌>>◌, pure, lift, open_existing, file_len, seek, read_exact, on_disk,
}
use ferrum_db.SsTable.Reader.{crc32}
use ferrum_db.SsTable.Bloom
use ferrum_db.SsTable.Cache
use ferrum_db.SsTable.Record.{find_in_block, decode_loop}
use ferrum_db.SsTable.Table.{IndexEntry, SsTable}
use ferrum_db.SsTable.Table.Build.{footer_len, block_cache_cap}
use ferrum_db.SsTable.Table.Parse.{
  Footer, parse_footer, parse_index, Extras, parse_extras, locate, outside, admitted,
}

-- The table that `open` returns.
unfoldable pub opened : Bytes → List IndexEntry → Extras → SsTable
opened path index extras = record {
  path = path;
  index = index;
  min_key = extras.min_key;
  max_key = extras.max_key;
  bloom = extras.bloom;
  cache = Cache.new block_cache_cap;
}

unfoldable pub load_index : Bytes → Footer → Exec Disk SsTable
load_index path f = do
  seek path f.index_offset
  buf ← read_exact path f.index_offset f.index_len
  (index, rest) ← lift (parse_index f.entry_count buf)
  extras ← lift (parse_extras rest)
  pure (opened path index extras)

-- `SsTable::open`. A buffer that cannot be allocated is not modelled.
unfoldable pub open_table : Bytes → Exec Disk SsTable
open_table path = do
  open_existing path
  len ← file_len path
  if ltb len footer_len then lift (err (decode_error smaller_than_footer)) else do
    seek path (len - footer_len)
    footer ← read_exact path (len - footer_len) footer_len
    fields ← lift (parse_footer footer)
    load_index path fields

-- The CRC check of `read_block_from_disk`; `block.len() - 4` panics on a shorter block.
unfoldable pub check_block : ℕ → Bytes → Result Bytes
check_block offset block =
    let split = length block - 4 in
    if ltb (length block) 4
    then panic
    else if crc32 (take split block) == from_be 0 (drop split block)
    then ok (take split block)
    else err (decode_error (crc_mismatch offset))

-- `read_block_from_disk`
unfoldable pub read_block_from_disk : Bytes → IndexEntry → Exec Disk Bytes
read_block_from_disk path e = do
  seek path e.block_offset
  block ← read_exact path e.block_offset e.block_len
  lift (check_block e.block_offset block)

-- `cache.borrow_mut().put(offset, records)`
unfoldable pub keep_block : ℕ → Bytes → Exec (SsTable × Disk) (Unit {0})
keep_block offset records s =
    (ok tt, (record s.0 { cache = Cache.put offset records s.0.cache }, s.1))

unfoldable pub read_and_keep : IndexEntry → Exec (SsTable × Disk) Bytes
read_and_keep e s =
    (do
      on_disk (open_existing s.0.path)
      records ← on_disk (read_block_from_disk s.0.path e)
      keep_block e.block_offset records
      pure records)
      s

unfoldable pub from_cache :
    Option Bytes × Cache.BlockCache → IndexEntry → Exec (SsTable × Disk) Bytes
from_cache (some b, c) e s = (ok b, (record s.0 { cache = c }, s.1))
from_cache (none, c) e s = read_and_keep e (record s.0 { cache = c }, s.1)

-- `SsTable::cached_block`
unfoldable pub cached_block : IndexEntry → Exec (SsTable × Disk) Bytes
cached_block e s = from_cache (Cache.get e.block_offset s.0.cache) e s

module _ ⦃c : Codec⦄ where
  -- The search of one block; `get_elem?` finds the entry that `locate` names.
  unfoldable pub search_block : Option IndexEntry → Bytes → Exec (SsTable × Disk) (Option Entry)
  search_block none key = pure none
  search_block (some e) key = do records ← cached_block e; lift (find_in_block records key)

  unfoldable pub search_index : Option ℕ → Bytes → Exec (SsTable × Disk) (Option Entry)
  search_index none key s = (ok none, s)
  search_index (some i) key s = search_block (get_elem? s.0.index i) key s

  -- `SsTable::get`
  unfoldable pub get : Bytes → Exec (SsTable × Disk) (Option Entry)
  get key s =
      let t = s.0 in
      if length t.index == 0
      then (ok none, s)
      else if outside t.min_key t.max_key key
      then (ok none, s)
      else (do
        maybe ← lift (admitted t.bloom key)
        if maybe then search_index (locate key t.index) key else pure none)
          s

  -- The loop of `read_all_entries` over the blocks.
  unfoldable pub read_blocks : Bytes → List IndexEntry → Exec Disk (List (Bytes × Entry))
  read_blocks path [] = pure []
  read_blocks path (e ∷ es) = do
    records ← read_block_from_disk path e
    here ← lift (decode_loop (length records) records)
    more ← read_blocks path es
    pure (here ++ more)

  -- `SsTable::read_all_entries`, which goes past the cache.
  unfoldable pub read_all_entries : SsTable → Exec Disk (List (Bytes × Entry))
  read_all_entries t =
      if length t.index == 0 then pure [] else do open_existing t.path; read_blocks t.path t.index

-- `SsTable::key_range`
unfoldable pub key_range : SsTable → Option (Bytes × Bytes)
key_range t = elim t.min_key [
  | none ↦ none
  | some min ↦ elim t.max_key [ none ↦ none | some max ↦ some (min, max) ]
]

-- `SsTable::might_contain`
unfoldable pub might_contain : SsTable → Bytes → Result Bool
might_contain t key = elim t.bloom [ none ↦ ok false | some f ↦ Bloom.maybe_contains f key ]

-- `SsTable::block_count`
unfoldable pub block_count : SsTable → ℕ
block_count t = length t.index

-- `SsTable::cached_blocks`
unfoldable pub cached_blocks : SsTable → ℕ
cached_blocks t = length t.cache.blocks
