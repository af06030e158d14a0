-- ===== src/Tests/Live.antt =====
-- A store with two tables and a committed write in its log, and that it is open.
use ferrum_db.Base.{ℕ, ◌≡◌, refl, ap, sym, ◌∙◌, All, true, Option, none, some, List, [], ◌∷◌, arith}
use ferrum_db.Base.Bytes.{Bytes, cmp}
use ferrum_db.Base.Decimal.{digits, digits_loop}
use ferrum_db.Base.Words.{u32_bytes, u64_bytes}
use ferrum_db.BTreeMap
use ferrum_db.BTreeMap.{BTreeMap, IsSorted}
use ferrum_db.Proto.{WalEntry}
use ferrum_db.Value.{Value, Entry, value, integer, bytes, to_proto, entry_footprint}
use ferrum_db.Disk.{Disk}
use ferrum_db.Wal.{commit_entry, create_put_entry}
use ferrum_db.Wal.Frames.{frames}
use ferrum_db.SsTable.Bloom
use ferrum_db.SsTable.Bloom.{add_all}
use ferrum_db.SsTable.Table.Build
use ferrum_db.Store.Compact.{is_value}
use ferrum_db.Store.Compact.Merged.{compacted, merge, runs}
use ferrum_db.SsTable.Record
use ferrum_db.SsTable.Record.{IsRecord}
use ferrum_db.SsTable.Table.{SsTable}
use ferrum_db.SsTable.Table.Build.{build, built, image}
use ferrum_db.SsTable.Table.Layout.{Group, concat}
use ferrum_db.SsTable.Table.Lookup.{Holds}
use ferrum_db.SsTable.Table.Flushed.{Holds-built}
use ferrum_db.Store.{Store}
use ferrum_db.Store.Files.{sstable_path, wal_path}
use ferrum_db.Store.Listing.{
  id_at-sstable_path, wal-NoTable, dir-NoTable, Listed, ids_in, with_some,
}
use ferrum_db.Store.Listing.Sort.{sort_desc, insert_desc}
use ferrum_db.Store.Saved.{IsSaved}
use ferrum_db.Store.Memtable.{total}
use ferrum_db.Store.Replay.Batches.{batch_entries, put_all, Replays-batch, Replays-empty}
use ferrum_db.Store.Valid.{IsOpen}
use ferrum_db.Store.Write.{log_entry, memtable_entry}
use ferrum_db.Store.Write.Flush.{Fits}
use ferrum_db.Tests.Codec.{sample_codec, encode_kind}
use ferrum_db.Tests.Samples.{entries, table_dir}
use ferrum_db.Tests.SsTable.{entries-IsSorted, entries-IsRecord, length-image}

abbrev pub newer : List (Bytes × Entry)
newer = (b'a' ∷ [], value (integer 8)) ∷ []

abbrev pub memtable : BTreeMap Entry
memtable = (b'c' ∷ [], value (integer 9)) ∷ []

-- The put of the memtable's entry, with its COMMIT.
abbrev pub log : List WalEntry
log = create_put_entry (b'c' ∷ []) (integer 9) 1 ∷ commit_entry 1 ∷ []

abbrev path : ℕ → Bytes
path id = sstable_path table_dir id

abbrev image_of : List (Bytes × Entry) → Bytes
image_of es = image (build ⦃c = sample_codec⦄ es)

abbrev table_of : ℕ → List (Bytes × Entry) → SsTable
table_of id es = built (path id) (build ⦃c = sample_codec⦄ es)

abbrev pub live : Store
live = record {
  memtable = memtable;
  memtable_bytes = 5;
  memtable_max_bytes = 6;
  wal = record { file_path = wal_path table_dir; file = true };
  sequence = 1;
  dir = table_dir;
  sstables = table_of 2 newer ∷ table_of 1 entries ∷ [];
  next_sstable_id = 3;
}

abbrev pub live_disk : Disk
live_disk = record {
  files =
      (path 1, image_of entries)
      ∷ (path 2, image_of newer)
      ∷ (wal_path table_dir, frames ⦃c = sample_codec⦄ log)
      ∷ [];
  dirs = (table_dir, tt) ∷ [];
  locks = [];
  faults = [];
}

newer-IsRecord : All (IsRecord ⦃c = sample_codec⦄) newer
unfolding sample_codec encode_kind Record.entry_bytes to_proto
newer-IsRecord =
    (record { key_fits = omega arith; bytes_fit = omega arith; holds = omega arith }, tt)

memtable-IsRecord : All (IsRecord ⦃c = sample_codec⦄) memtable
unfolding sample_codec encode_kind Record.entry_bytes to_proto
memtable-IsRecord =
    (record { key_fits = omega arith; bytes_fit = omega arith; holds = omega arith }, tt)

-- The writes that the tests commit.
abbrev pub one_put : BTreeMap (Option Value)
one_put = (b'a' ∷ [], some (bytes (1 ∷ []))) ∷ []

abbrev pub one_delete : BTreeMap (Option Value)
one_delete = (b'c' ∷ [], none) ∷ []

abbrev pub two_writes : BTreeMap (Option Value)
two_writes = (b'a' ∷ [], none) ∷ (b'd' ∷ [], some (integer 3)) ∷ []

abbrev pub batch : List (Bytes × Bytes)
batch = (b'd' ∷ [], 1 ∷ []) ∷ (b'a' ∷ [], 2 ∷ []) ∷ (b'd' ∷ [], 3 ∷ []) ∷ []

abbrev pub batch_writes : BTreeMap (Option Value)
batch_writes = (b'a' ∷ [], some (bytes (2 ∷ []))) ∷ (b'd' ∷ [], some (bytes (3 ∷ []))) ∷ []

-- The run can be flushed, and it can be merged with the two tables.
abbrev BothFit : List (Bytes × Entry) → Type 0
BothFit es =
    Fits ⦃c = sample_codec⦄ es × Fits ⦃c = sample_codec⦄ (compacted (es ∷ newer ∷ entries ∷ []))

pub all-Fits :
    Fits ⦃c = sample_codec⦄ newer
    × Fits ⦃c = sample_codec⦄ (compacted (newer ∷ entries ∷ []))
    × BothFit memtable
    × BothFit (put_all one_put memtable)
    × BothFit (put_all one_delete memtable)
    × BothFit (put_all two_writes memtable)
    × BothFit (put_all batch_writes memtable)
unfolding image build Build.finish Build.add_entries Build.add_entry Build.note_key Build.open_block
    Build.end_block Build.flush_rest Build.finalize_block Build.sealed Build.region
    Build.index_bytes Build.range_bytes Build.build_bloom Build.bloom_bytes Build.footer u32_bytes
    u64_bytes Record.encode_record Record.entry_bytes to_proto sample_codec encode_kind add_all
    Bloom.new Bloom.add Bloom.set_bits Bloom.set_bit Bloom.positions Bloom.positions_from
    Bloom.hash64 put_all memtable_entry compacted merge BTreeMap.insert_all BTreeMap.retain
    BTreeMap.insert is_value cmp
all-Fits = (
  omega arith,
  omega arith,
  (omega arith, omega arith),
  (omega arith, omega arith),
  (omega arith, omega arith),
  (omega arith, omega arith),
  (omega arith, omega arith),
)

pub first :
    (gs : List Group) × Holds ⦃c = sample_codec⦄ (table_of 1 entries) live_disk gs
    × (concat gs ≡ entries)
unfolding BTreeMap.get cmp sstable_path wal_path digits digits_loop
first =
    Holds-built ⦃c = sample_codec⦄ (path 1) entries live_disk entries-IsSorted entries-IsRecord
      (omega (arith, length-image)) refl

pub second :
    (gs : List Group) × Holds ⦃c = sample_codec⦄ (table_of 2 newer) live_disk gs
    × (concat gs ≡ newer)
unfolding BTreeMap.get cmp sstable_path wal_path digits digits_loop
second =
    Holds-built ⦃c = sample_codec⦄ (path 2) newer live_disk (tt, tt) newer-IsRecord (all-Fits.0)
      refl

-- The blocks of the two tables.
abbrev pub live_blocks : List (List Group)
live_blocks = second.0 ∷ first.0 ∷ []

pub live_blocks-runs : runs live_blocks ≡ newer ∷ entries ∷ []
live_blocks-runs = rw (second.2, first.2) refl

-- The directory of the two tables.
live-Listed : Listed table_dir live_disk.files (2 ∷ 1 ∷ [])
unfolding ids_in with_some sort_desc insert_desc
live-Listed =
    let first_at = id_at-sstable_path table_dir 1 (omega arith) in
    let second_at = id_at-sstable_path table_dir 2 (omega arith) in
    let log_at = wal-NoTable table_dir in
    (
      rw (first_at, second_at, log_at) refl,
      (
        λ id at.
            let e : some 1 ≡ some id = sym first_at ∙ at in
            let same : 1 ≡ id = cc in ap (sstable_path table_dir) same,
        (
          λ id at.
              let e : some 2 ≡ some id = sym second_at ∙ at in
              let same : 2 ≡ id = cc in ap (sstable_path table_dir) same,
          (λ id at. let wrong : none ≡ some id = sym log_at ∙ at in cc, tt),
        ),
      ),
    )

live-IsSaved : IsSaved ⦃c = sample_codec⦄ table_dir 3 live.sstables live_blocks live_disk
unfolding BTreeMap.get cmp sstable_path digits digits_loop built wal_path
live-IsSaved = record {
  ids = 2 ∷ 1 ∷ [];
  paths = refl;
  stored = (
    omega arith,
    rw (second.2) refl,
    rw (second.2) (all-Fits.0),
    (omega arith, rw (first.2) refl, rw (first.2) (omega (arith, length-image)), tt),
  );
  listed = live-Listed;
  no_dirs = (dir-NoTable table_dir, tt);
}

pub live-IsOpen : IsOpen ⦃c = sample_codec⦄ live live_disk live_blocks log
unfolding BTreeMap.get cmp sstable_path wal_path digits digits_loop total entry_footprint built
    create_put_entry batch_entries log_entry put_all memtable_entry BTreeMap.insert to_proto
live-IsOpen = record {
  works = refl;
  counted = record { sorted = (tt, tt); exact = refl };
  valid = memtable-IsRecord;
  holds = (second.1, (first.1, tt));
  saved = live-IsSaved;
  named = ((2, refl, omega arith), ((1, refl, omega arith), tt));
  wal_named = refl;
  is_log = refl;
  log_valid = (
    record {
      key_bytes = (omega arith, tt);
      value_holds = omega arith;
      sequence_fits = omega arith;
      timestamp_fits = omega arith;
    },
    (
      record {
        key_bytes = tt;
        value_holds = tt;
        sequence_fits = omega arith;
        timestamp_fits = omega arith;
      },
      tt,
    ),
  );
  closed = refl;
  replays =
      Replays-batch [] [] ((b'c' ∷ [], some (integer 9)) ∷ []) 0 (commit_entry 1) refl tt
        Replays-empty refl;
}
