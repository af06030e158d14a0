-- ===== src/Tests/Open.antt =====
-- Runs of `open_with_dir`, of the files' names and of the names of tables.
use ferrum_db.Base.{◌⊎◌, none, ◌≡◌, ◌≢◌, ◌≤◌, refl, some, List, [], ◌∷◌, ◌++◌, arith, length}
use ferrum_db.Base.Bytes.{Bytes, cmp, has_char, strip_prefix}
use ferrum_db.Base.Decimal.{digits, digits_loop}
use ferrum_db.BTreeMap
use ferrum_db.Errors.{ok}
use ferrum_db.Api
use ferrum_db.Disk.{Disk, pass, fail, join, open_existing}
use ferrum_db.Disk.Directory.{child}
use ferrum_db.Database.{Database, validate_name, is_invalid, create_table, table, delete_table}
use ferrum_db.Database.Names.{IsUnsafe, validate_name-child, validate_name-err}
use ferrum_db.SsTable.Table.{SsTable}
use ferrum_db.Store.{Store}
use ferrum_db.Store.Compact.{
  maybe_compact, max_sstables, compact, merged_values, merge_tables, install_merged, remove_old,
}
use ferrum_db.SsTable.Table.Read.{read_all_entries, read_blocks}
use ferrum_db.Store.Compact.Bounded.{maybe_compact-bounded}
use ferrum_db.Store.Files.{
  lock_path, sstable_path, wal_path, sstable_id, table_prefix, table_suffix, sstable_id-digits,
  is_same, and_then,
}
use ferrum_db.Store.Listing.{id_at, NoTable}
use ferrum_db.Store.Open.{open_with_dir}
use ferrum_db.Store.Open.Exclusive.{Refused, open_with_dir-Refused}
use ferrum_db.Tests.Codec.{sample_codec}
use ferrum_db.Tests.Samples.{table_dir, table_path, disk_with}
use ferrum_db.Store.Open.Fresh.{open_with_dir-IsOpen}
use ferrum_db.Store.Valid.{IsOpen}
use ferrum_db.Tests.SsTable
use ferrum_db.Tests.Live.{live, live_disk}

-- The directory is listed in its own order.
abbrev listed : List Bytes → List Bytes
listed names = names

-- A disk on which the table is open, and the second call of the operating system fails.
abbrev locked : Disk
locked = record live_disk { locks = (lock_path table_dir, tt) ∷ []; faults = pass ∷ fail 0 ∷ [] }

locked-held : BTreeMap.get (lock_path table_dir) locked.locks ≡ some tt
unfolding BTreeMap.get cmp lock_path
locked-held = refl

open_with_dir-Refused_example :
    Refused (open_with_dir ⦃c = sample_codec⦄ listed table_dir locked) locked.locks
open_with_dir-Refused_example =
    open_with_dir-Refused ⦃c = sample_codec⦄ listed table_dir locked locked-held

-- A disk that has another directory's file.
abbrev bare_disk : Disk
bare_disk = disk_with table_path (1 ∷ [])

elsewhere : NoTable table_dir table_path
unfolding id_at child strip_prefix and_then
elsewhere = refl

bare-absent :
    (BTreeMap.get (lock_path table_dir) bare_disk.files ≡ none)
    × (BTreeMap.get (wal_path table_dir) bare_disk.files ≡ none)
    × (BTreeMap.get (lock_path table_dir) bare_disk.locks ≡ none)
unfolding BTreeMap.get cmp lock_path wal_path
bare-absent = (refl, refl, refl)

open_with_dir-IsOpen_example :
    (t : Store) × (after : Disk) × (open_with_dir ⦃c = sample_codec⦄ listed table_dir bare_disk
      ≡ (ok t, after))
    × IsOpen ⦃c = sample_codec⦄ t after [] []
    × (t.memtable ≡ [])
    × (BTreeMap.get (lock_path table_dir) after.locks ≡ some tt)
open_with_dir-IsOpen_example =
    open_with_dir-IsOpen ⦃c = sample_codec⦄ listed table_dir bare_disk (λ names h. h) refl
      (bare-absent.2) (bare-absent.0) (bare-absent.1) (elsewhere, tt) tt

sstable_id-digits_example :
    sstable_id (table_prefix ++ ((b'4' ∷ b'2' ∷ []) ++ table_suffix)) ≡ some 42
unfolding digits digits_loop
sstable_id-digits_example = sstable_id-digits 42 (omega arith)

-- Nine tables without blocks, all of one file.
abbrev bare : SsTable
bare = record SsTable.table { path = sstable_path table_dir 1; index = [] }

abbrev crowded : Store
crowded = record live {
  sstables = bare ∷ bare ∷ bare ∷ bare ∷ bare ∷ bare ∷ bare ∷ bare ∷ bare ∷ [];
}

crowded-ok : (maybe_compact ⦃c = sample_codec⦄ (crowded, live_disk)).0 ≡ ok tt
unfolding maybe_compact compact merged_values merge_tables read_all_entries read_blocks
    open_existing install_merged remove_old BTreeMap.insert_all BTreeMap.retain BTreeMap.get cmp
    sstable_path wal_path digits digits_loop
crowded-ok = refl

maybe_compact-bounded_example :
    length (maybe_compact ⦃c = sample_codec⦄ (crowded, live_disk)).1.0.sstables ≤ max_sstables
maybe_compact-bounded_example =
    maybe_compact-bounded ⦃c = sample_codec⦄ (crowded, live_disk) crowded-ok

-- "users"
abbrev users : Bytes
users = b'u' ∷ b's' ∷ b'e' ∷ b'r' ∷ b's' ∷ []

validate_name-child_example :
    (child table_dir (join table_dir users) ≡ some users)
    × (users ≢ [])
    × (users ≢ b'.' ∷ [])
    × (users ≢ b'.' ∷ b'.' ∷ [])
unfolding validate_name is_invalid has_char is_same
validate_name-child_example = validate_name-child table_dir users refl

-- "../a"
abbrev outside : Bytes
outside = b'.' ∷ b'.' ∷ b'/' ∷ b'a' ∷ []

abbrev db : Database
db = record { root = table_dir; stores = [] }

validate_name-err_example :
    (IsUnsafe outside
      × (create_table ⦃c = sample_codec⦄ listed outside (db, live_disk)
          ≡ (Api.err (Api.invalid_table_name outside), (db, live_disk)))
      × (table ⦃c = sample_codec⦄ listed outside (db, live_disk)
          ≡ (Api.err (Api.invalid_table_name outside), (db, live_disk)))
      × (delete_table outside (db, live_disk)
          ≡ (Api.err (Api.invalid_table_name outside), (db, live_disk))))
    ⊎ (¬ IsUnsafe outside × (validate_name outside ≡ Api.ok tt))
validate_name-err_example = validate_name-err ⦃c = sample_codec⦄ listed outside (db, live_disk)
