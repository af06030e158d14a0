-- ===== src/Store/Open.antt =====
-- `Store::open_with_dir` and `load_sstables` of ferrumdb-core/src/store.rs. `order` is the order in
-- which the file system lists a directory.
pub mod Exclusive
pub mod Order
pub mod Fresh
pub mod Found
pub mod Again
pub mod Remains
pub mod Reopen
pub mod Torn
pub mod Failed
use ferrum_db.Base.{
  ℕ, suc, ◌+◌, ◌^◌, max, Bool, Option, none, some, List, [], ◌∷◌, ◌++◌, map, ltb, if◌then◌else◌,
}
use ferrum_db.Base.Bytes.{Bytes}
use ferrum_db.BTreeMap
use ferrum_db.Errors
use ferrum_db.Wal
use ferrum_db.Errors.{Result, ok, err, panic, io_error, table_is_open}
use ferrum_db.Proto.{Codec}
use ferrum_db.Disk.{
  Disk, Exec, ◌>>=◌, ◌>>◌, pure, lift, on_disk, join, create_dir_all, open_create, flock, unlock,
}
use ferrum_db.Disk.Directory.{read_dir, next_entry}
use ferrum_db.Wal.{with_path}
use ferrum_db.SsTable.Table.{SsTable}
use ferrum_db.SsTable.Table.Read.{open_table}
use ferrum_db.Store.{Store, increment}
use ferrum_db.Store.Files.{sstable_id, wal_path, lock_path}
use ferrum_db.Store.Replay.{replay_wal}

abbrev pub default_memtable_max_bytes : ℕ
default_memtable_max_bytes = 4194304

-- `found.iter().map(|(id, _)| *id + 1).max()`
unfoldable pub max_after : Option ℕ → List (ℕ × SsTable) → Result (Option ℕ)
max_after best [] = ok best
max_after best ((id, t) ∷ found) =
    Errors.◌>>=◌ (increment id)
      (λ next. max_after (elim best [ none ↦ some next | some b ↦ some (max b next) ]) found)

-- `.unwrap_or(1)`
abbrev pub or_one : Option ℕ → ℕ
or_one none = 1
or_one (some n) = n

-- `sort_by_key(|(id, _)| Reverse(*id))`, a stable sort.
unfoldable pub insert_newest : ℕ → SsTable → List (ℕ × SsTable) → List (ℕ × SsTable)
insert_newest id t [] = (id, t) ∷ []
insert_newest id t ((j, u) ∷ found) =
    let rest = insert_newest id t found in
    if ltb id j then (j, u) ∷ rest else (id, t) ∷ (j, u) ∷ found

unfoldable pub newest_first : List (ℕ × SsTable) → List (ℕ × SsTable)
newest_first [] = []
newest_first ((id, t) ∷ found) = insert_newest id t (newest_first found)

unfoldable pub found_tables : List (ℕ × SsTable) → List SsTable
found_tables [] = []
found_tables ((id, t) ∷ found) = t ∷ found_tables found

unfoldable pub install_found : List (ℕ × SsTable) → Exec (Store × Disk) (Unit {0})
install_found found s =
    (do
      next ← lift (max_after none found)
      λ t. (
        ok tt,
        (
          record t.0 {
            next_sstable_id = or_one next;
            sstables = found_tables (newest_first found);
          },
          t.1,
        ),
      ))
      s

-- `map_err` of a failed `flock`.
unfoldable pub lock_failed : Bytes → Result (Unit {0}) → Result (Unit {0})
lock_failed path (ok u) = ok u
lock_failed path (err e) = err (io_error (table_is_open path))
lock_failed path panic = panic

unfoldable pub lock_table : Bytes → Exec Disk (Unit {0})
lock_table path d = let (r, after) = flock path d in (lock_failed path r, after)

-- The store that `open_with_dir` starts from.
abbrev pub empty_store : Bytes → Wal.Wal → Store
empty_store dir wal = record {
  memtable = [];
  memtable_bytes = 0;
  memtable_max_bytes = default_memtable_max_bytes;
  wal = wal;
  sequence = 0;
  dir = dir;
  sstables = [];
  next_sstable_id = 1;
}

-- Where opening has failed, the lock's file is dropped; otherwise the store keeps it.
unfoldable pub or_unlock : Bytes → Result (Unit {0}) × (Store × Disk) → Result Store × Disk
or_unlock path (ok u, (s, d)) = (ok s, d)
or_unlock path (err e, (s, d)) = (err e, unlock path d)
or_unlock path (panic, (s, d)) = (panic, unlock path d)

module _ ⦃c : Codec⦄ where
  unfoldable pub load_entry : Option ℕ → Bytes → Exec Disk (List (ℕ × SsTable))
  load_entry none path = pure []
  load_entry (some id) path = do t ← open_table path; pure ((id, t) ∷ [])

  -- The loop over the directory.
  unfoldable pub load_entries : Bytes → List Bytes → Exec Disk (List (ℕ × SsTable))
  load_entries dir [] = do next_entry; pure []
  load_entries dir (name ∷ names) = do
    next_entry
    one ← load_entry (sstable_id name) (join dir name)
    rest ← load_entries dir names
    pure (one ++ rest)

  unfoldable pub load_listed : Result (List Bytes) → Exec (Store × Disk) (Unit {0})
  load_listed (ok names) s =
      (do found ← on_disk (load_entries s.0.dir names); install_found found) s
  load_listed (err e) s = (ok tt, s)
  load_listed panic s = (panic, s)

  module _ (order : List Bytes → List Bytes) where
    -- `Store::load_sstables`
    unfoldable pub load_sstables : Exec (Store × Disk) (Unit {0})
    load_sstables s = let (listed, d) = read_dir s.0.dir order s.1 in load_listed listed (s.0, d)

    unfoldable pub open_locked : Bytes → Disk → Result Store × Disk
    open_locked dir d =
        let (wal, after) = with_path (wal_path dir) d in
        or_unlock (lock_path dir) ((load_sstables >> replay_wal) (empty_store dir wal, after))

    -- `Store::open_with_dir`
    unfoldable pub open_with_dir : Bytes → Exec Disk Store
    open_with_dir dir = do
      create_dir_all dir
      open_create (lock_path dir)
      lock_table (lock_path dir)
      open_locked dir

    -- `Store::open_table`, with "./data/" before the name.
    unfoldable pub open_named : Bytes → Exec Disk Store
    open_named name = open_with_dir (b'.' ∷ b'/' ∷ b'd' ∷ b'a' ∷ b't' ∷ b'a' ∷ b'/' ∷ name)
