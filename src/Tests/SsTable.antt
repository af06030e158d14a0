-- ===== src/Tests/SsTable.antt =====
-- Runs of a table on disk.
use ferrum_db.Base.{◌≡◌, ◌++◌, refl, All, some, List, [], ◌∷◌, length, arith}
use ferrum_db.Base.Bytes.{Bytes, cmp}
use ferrum_db.BTreeMap
use ferrum_db.BTreeMap.{IsSorted}
use ferrum_db.Errors.{ok}
use ferrum_db.Value.{to_proto, value, integer, tombstone}
use ferrum_db.Disk.{Disk}
use ferrum_db.SsTable.Bloom
use ferrum_db.SsTable.Bloom.{add_all}
use ferrum_db.SsTable.Bloom.Membership.{Admits, new-Admits, new-IsFilter, add_all-IsFilter}
use ferrum_db.SsTable.Cache
use ferrum_db.SsTable.Cache.{BlockCache}
use ferrum_db.SsTable.Table.Cached.{IsCoherent}
use ferrum_db.SsTable.Record
use ferrum_db.SsTable.Table.Build
use ferrum_db.Base.Words.{u32_bytes, u64_bytes}
use ferrum_db.SsTable.Record.{IsRecord, records, encode_record, decode_record, find_in_block}
use ferrum_db.SsTable.Record.RoundTrip.{decode_record-encode_record}
use ferrum_db.SsTable.Record.Search.{find_in_block-records}
use ferrum_db.SsTable.Table.{SsTable}
use ferrum_db.SsTable.Table.Build.{build, built, image, flush}
use ferrum_db.SsTable.Table.Read.{open_table, get, read_all_entries}
use ferrum_db.SsTable.Table.Layout.{Group, blocks_file, blocks_index, concat, IsBuilt}
use ferrum_db.SsTable.Table.Loop.{build-blocks}
use ferrum_db.SsTable.Table.Lookup.{Holds, get_lem, read_all_entries_lem}
use ferrum_db.SsTable.Table.Flushed.{flushed, flush-Holds}
use ferrum_db.SsTable.Table.Opened.{open_table-flush}
use ferrum_db.Tests.Codec.{sample_codec, encode_kind}
use ferrum_db.Tests.Samples.{entries, table_path, table_dir, disk_with, empty_disk}

pub entries-IsSorted : IsSorted entries
unfolding cmp
entries-IsSorted = ((refl, tt), (tt, tt))

pub entries-IsRecord : All (IsRecord ⦃c = sample_codec⦄) entries
unfolding sample_codec encode_kind Record.entry_bytes to_proto
entries-IsRecord = (
  record { key_fits = omega arith; bytes_fit = omega arith; holds = omega arith },
  (record { key_fits = omega arith; bytes_fit = omega arith; holds = tt }, tt),
)

new-Admits_example :
    All
      (Admits (add_all (Bloom.new 2) ((b'a' ∷ []) ∷ (b'b' ∷ []) ∷ [])))
      ((b'a' ∷ []) ∷ (b'b' ∷ []) ∷ [])
new-Admits_example = new-Admits 2 ((b'a' ∷ []) ∷ (b'b' ∷ []) ∷ [])

pub length-image : length (image (build ⦃c = sample_codec⦄ entries)) ≡ 97
unfolding image build Build.finish Build.add_entries Build.add_entry Build.note_key Build.open_block
    Build.end_block Build.flush_rest Build.finalize_block Build.sealed Build.region
    Build.index_bytes Build.range_bytes Build.build_bloom Build.bloom_bytes Build.footer u32_bytes
    u64_bytes encode_record Record.entry_bytes to_proto sample_codec encode_kind add_all Bloom.new
    Bloom.add Bloom.set_bits Bloom.set_bit Bloom.positions Bloom.positions_from Bloom.hash64
length-image = refl

-- The table that is built from the entries, on a disk that holds its file.
abbrev pub table : SsTable
table = built table_path (build ⦃c = sample_codec⦄ entries)

abbrev pub disk : Disk
disk = disk_with table_path (image (build ⦃c = sample_codec⦄ entries))

-- The table holds the entries, all in one block.
pub table-Holds : Holds ⦃c = sample_codec⦄ table disk (entries ∷ [])
unfolding build Build.finish Build.add_entries Build.add_entry Build.note_key Build.open_block
    Build.end_block Build.flush_rest Build.finalize_block Build.sealed u32_bytes encode_record
    Record.entry_bytes to_proto sample_codec encode_kind built image Build.build_bloom blocks_file
    blocks_index records BTreeMap.get cmp Cache.new Cache.find
table-Holds =
    let b = build ⦃c = sample_codec⦄ entries in
    let keys : List Bytes = (b'a' ∷ []) ∷ (b'b' ∷ []) ∷ [] in
    let f = Bloom.new 2 in
    record {
      tail =
          Build.region b ++ Build.footer (length b.file) (length (Build.region b)) (length b.index);
      nonempty = (omega arith, tt);
      sorted = ((refl, tt), (tt, tt));
      valid = entries-IsRecord;
      stored = refl;
      fits = omega arith;
      index = refl;
      least = refl;
      greatest = refl;
      filter = (add_all-IsFilter f keys (new-IsFilter 2), new-Admits 2 keys);
      coherent = λ j g e x at_j entry hit. cc;
    }

-- The key that was written answers its value, the other one its deletion.
get_lem_example :
    (cache : BlockCache) × (get ⦃c = sample_codec⦄ (b'a' ∷ []) (table, disk)
      ≡ (ok (some (value (integer 7))), (record table { cache = cache }, disk)))
    × IsCoherent ⦃c = sample_codec⦄ (entries ∷ []) cache
unfolding BTreeMap.get cmp
get_lem_example = get_lem ⦃c = sample_codec⦄ table disk (entries ∷ []) table-Holds refl (b'a' ∷ [])

read_all_entries_lem_example : read_all_entries ⦃c = sample_codec⦄ table disk ≡ (ok entries, disk)
read_all_entries_lem_example =
    read_all_entries_lem ⦃c = sample_codec⦄ table disk (entries ∷ []) table-Holds refl

flush-Holds_example :
    (t : SsTable) × (gs : List Group) × (flush ⦃c = sample_codec⦄ table_dir table_path entries
        empty_disk
      ≡ (ok t, flushed ⦃c = sample_codec⦄ table_dir table_path entries empty_disk))
    × Holds ⦃c = sample_codec⦄ t
        (flushed ⦃c = sample_codec⦄ table_dir table_path entries empty_disk)
        gs
    × (concat gs ≡ entries)
flush-Holds_example =
    flush-Holds ⦃c = sample_codec⦄ table_dir table_path entries empty_disk refl entries-IsSorted
      entries-IsRecord (omega (arith, length-image))

open_table-flush_example :
    open_table table_path (flush ⦃c = sample_codec⦄ table_dir table_path entries empty_disk).1
    ≡ flush ⦃c = sample_codec⦄ table_dir table_path entries empty_disk
open_table-flush_example =
    open_table-flush ⦃c = sample_codec⦄ table_dir table_path entries empty_disk refl
      (omega (arith, length-image))

build-blocks_example :
    (gs : List Group) × IsBuilt ⦃c = sample_codec⦄ (build ⦃c = sample_codec⦄ entries) gs []
    × (concat gs ≡ entries)
build-blocks_example = build-blocks ⦃c = sample_codec⦄ entries

decode_record-encode_record_example :
    decode_record ⦃c = sample_codec⦄
      (encode_record ⦃c = sample_codec⦄ (b'a' ∷ []) (value (integer 7)) ++ (9 ∷ []))
    ≡ ok ((b'a' ∷ [], value (integer 7)), 9 ∷ [])
decode_record-encode_record_example =
    decode_record-encode_record ⦃c = sample_codec⦄ (b'a' ∷ []) (value (integer 7)) (9 ∷ [])
      (entries-IsRecord.0)

find_in_block-records_example :
    find_in_block ⦃c = sample_codec⦄ (records ⦃c = sample_codec⦄ entries) (b'b' ∷ [])
    ≡ ok (some tombstone)
unfolding BTreeMap.get cmp
find_in_block-records_example =
    find_in_block-records ⦃c = sample_codec⦄ entries (b'b' ∷ []) entries-IsRecord entries-IsSorted
