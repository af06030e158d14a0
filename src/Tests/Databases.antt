-- ===== src/Tests/Databases.antt =====
-- Runs of a database with a table that is open.
use ferrum_db.Base.{none, ◌≡◌, ◌≢◌, refl, List, [], ◌∷◌, not, ◌&&◌, if◌then◌else◌, true, false}
use ferrum_db.Base.Bytes.{Bytes, cmp, has_char}
use ferrum_db.BTreeMap
use ferrum_db.Api
use ferrum_db.Disk.{Disk, join}
use ferrum_db.Database.{
  Database, validate_name, is_invalid, create_table, delete_table, path_exists, list_tables,
}
use ferrum_db.Database.Listed.{Ascends, has_name, list_tables-Ascends}
use ferrum_db.Disk.Directory.{is_dir, is_under}
use mathlib.Core.List.{reverse}
use mathlib.Core.List.Permᴰ
use ferrum_db.Database.Deleted.{create_table-delete_table}
use ferrum_db.Store.Valid.{view, IsOpen}
use ferrum_db.Store.Open.{empty_store}
use ferrum_db.Store.{Store}
use ferrum_db.Store.Files.{lock_path, wal_path, is_same}
use ferrum_db.Tests.Codec.{sample_codec}
use ferrum_db.Tests.Samples.{table_dir, table_path}

-- The root is listed in its own order.
abbrev listed : List Bytes → List Bytes
listed names = names

abbrev users : Bytes
users = b'u' ∷ b's' ∷ b'e' ∷ b'r' ∷ b's' ∷ []

-- A table that is open and has written to its log, and a file of another table.
abbrev users_dir : Bytes
users_dir = join table_dir users

abbrev users_store : Store
users_store = empty_store users_dir (record { file_path = wal_path users_dir; file = true })

abbrev users_disk : Disk
users_disk = record {
  files = (lock_path users_dir, []) ∷ (wal_path users_dir, 1 ∷ 2 ∷ []) ∷ (table_path, 1 ∷ []) ∷ [];
  dirs = (table_dir, tt) ∷ (users_dir, tt) ∷ [];
  locks = (lock_path users_dir, tt) ∷ [];
  faults = [];
}

abbrev users_open : Database × Disk
users_open = (record { root = table_dir; stores = (users, users_store) ∷ [] }, users_disk)

create_table-delete_table_example :
    (other : Database) × (after : Disk) × (t : Store) × (end : Disk) × (delete_table users
        users_open
      ≡ (Api.ok tt, (other, after)))
    × (path_exists users_dir after ≡ false)
    × ((q : Bytes)
        → BTreeMap.get q after.files
          ≡ (if is_under users_dir q then none else BTreeMap.get q users_disk.files))
    × ((q : Bytes) → q ≢ users → BTreeMap.get q other.stores ≡ BTreeMap.get q users_open.0.stores)
    × (create_table ⦃c = sample_codec⦄ listed users (other, after)
        ≡ (Api.ok tt, (record other { stores = BTreeMap.insert users t other.stores }, end)))
    × IsOpen ⦃c = sample_codec⦄ t end [] []
    × ((q : Bytes) → view t [] q ≡ none)
unfolding validate_name is_invalid has_char is_same BTreeMap.get cmp wal_path lock_path
create_table-delete_table_example =
    create_table-delete_table ⦃c = sample_codec⦄ listed users users_open (λ names h. h) refl refl
      refl refl refl

-- The root is listed backwards.
list_tables-Ascends_example :
    (names : List Bytes) × (list_tables ⦃c = sample_codec⦄ reverse users_open.0 users_disk
      ≡ (Api.ok names, users_disk))
    × Ascends names
    × ((n : Bytes)
        → has_name n names
          ≡ is_dir (join table_dir n) users_disk
            && (not (has_char b'/' n) && sample_codec.is_utf8 n))
unfolding BTreeMap.get cmp sample_codec
list_tables-Ascends_example =
    list_tables-Ascends ⦃c = sample_codec⦄ reverse Permᴰ.reverse users_open.0 users_disk refl refl
