-- ===== src/Store/Open/Fresh.antt =====
-- Opening a directory without tables and without a log.
use ferrum_db.Base.{
  false, ◌≡◌, refl, ap, ◌∙◌, sym, none, some, List, [], ◌∷◌, ◌++◌, All, All-append, Option-cases,
  inl, inr, arith,
}
use ferrum_db.Base.Bytes.{Bytes}
use ferrum_db.BTreeMap
use ferrum_db.BTreeMap.{BTreeMap}
use ferrum_db.BTreeMap.Lookup
use ferrum_db.BTreeMap.Entries.{All-insert}
use ferrum_db.Errors.{ok}
use ferrum_db.Proto.{Codec}
use ferrum_db.Disk.{Disk, put_file, flock}
use ferrum_db.Disk.Directory.{child, children, read_dir, next_entry}
use ferrum_db.Disk.Healthy.{create_dir_all-healthy, stat-healthy, open_create-healthy_new}
use ferrum_db.Wal.{Wal, parent, before_last_slash, with_path, read_file, read_for_recovery}
use ferrum_db.Wal.Frames.{frames}
use ferrum_db.Store.{Store}
use ferrum_db.Store.Files.{sstable_id, and_then, wal_path, lock_path, lock_path-ne-wal_path}
use ferrum_db.Store.Memtable.{total}
use ferrum_db.Store.Replay.{replay_wal, replay_entries, replay}
use ferrum_db.Store.Replay.Batches.{Replays-empty}
use ferrum_db.Store.Valid.{IsOpen}
use ferrum_db.Store.Write.{on_wal, after_insert}
use ferrum_db.Store.Listing.{id_at, NoTable, Listed-none, dir-NoTable, lock-NoTable}
use ferrum_db.Store.Open.{
  open_with_dir, open_locked, load_sstables, load_listed, load_entries, load_entry, install_found,
  newest_first, found_tables, max_after, lock_table, lock_failed, or_unlock, empty_store,
}

pub flock-healthy :
    (path : Bytes) (d : Disk)
    → d.faults ≡ []
    → BTreeMap.get path d.locks ≡ none
    → flock path d ≡ (ok tt, record d { locks = BTreeMap.insert path tt d.locks })
unfolding flock
flock-healthy path d healthy free = ground (arith, healthy, free)

pub read_dir-healthy :
    (order : List Bytes → List Bytes) (dir : Bytes) (d : Disk)
    → d.faults ≡ []
    → BTreeMap.get dir d.dirs ≡ some tt
    → read_dir dir order d ≡ (ok (order (children dir d.files ++ children dir d.dirs)), d)
unfolding read_dir
read_dir-healthy order dir d healthy there = ground (arith, healthy, there)

pub next_entry-healthy : (d : Disk) → d.faults ≡ [] → next_entry d ≡ (ok tt, d)
unfolding next_entry
next_entry-healthy d healthy = rw healthy refl

module _ ⦃c : Codec⦄ where
  load_entries-none :
      (dir : Bytes) (names : List Bytes) (d : Disk)
      → d.faults ≡ []
      → All (λ name. sstable_id name ≡ none) names
      → load_entries dir names d ≡ (ok [], d)
  unfolding load_entries load_entry
  load_entries-none dir [] d healthy h = rw (next_entry-healthy d healthy) refl
  load_entries-none dir (name ∷ names) d healthy (other, h) =
      rw (next_entry-healthy d healthy, other, load_entries-none dir names d healthy h) refl

  pub read_for_recovery-missing :
      (w : Wal) (d : Disk)
      → d.faults ≡ []
      → BTreeMap.get w.file_path d.files ≡ none
      → read_for_recovery (w, d) ≡ (ok [], (w, d))
  unfolding read_for_recovery read_file
  read_for_recovery-missing w d healthy absent =
      ground (arith, stat-healthy w.file_path d healthy, absent)

  replay_wal-missing :
      (s : Store) (d : Disk)
      → d.faults ≡ []
      → BTreeMap.get s.wal.file_path d.files ≡ none
      → replay_wal (s, d) ≡ (ok tt, (s, d))
  unfolding replay_wal replay_entries replay on_wal after_insert
  replay_wal-missing s d healthy absent = rw (read_for_recovery-missing s.wal d healthy absent) refl

  load_sstables-none :
      (order : List Bytes → List Bytes) (s : Store) (d : Disk)
      → d.faults ≡ []
      → BTreeMap.get s.dir d.dirs ≡ some tt
      → All
          (λ name. sstable_id name ≡ none)
          (order (children s.dir d.files ++ children s.dir d.dirs))
      → load_sstables order (s, d) ≡ (ok tt, (record s { next_sstable_id = 1; sstables = [] }, d))
  unfolding load_sstables load_listed install_found newest_first found_tables max_after
  load_sstables-none order s d healthy there none_found =
      rw
        (
          read_dir-healthy order s.dir d healthy there,
          load_entries-none s.dir (order (children s.dir d.files ++ children s.dir d.dirs)) d
              healthy none_found,
        )
        refl

All-children :
    {V : Type 0} (dir : Bytes) (m : BTreeMap V)
    → All (λ p. NoTable dir p.0) m
    → All (λ name. sstable_id name ≡ none) (children dir m)
unfolding children and_then id_at
All-children dir [] h = tt
All-children dir ((q, v) ∷ m) (other, h) = elim (Option-cases (child dir q)) [
  | inl outside ↦ rw (outside, children, All) (All-children dir m h)
  | inr (name, inside) ↦
      rw (inside, children, All) (rw (id_at, inside) at other, All-children dir m h)
]

before_last_slash-wal :
    (dir : Bytes)
    → before_last_slash (dir ++ (b'/' ∷ b'w' ∷ b'a' ∷ b'l' ∷ b'.' ∷ b'l' ∷ b'o' ∷ b'g' ∷ []))
      ≡ some dir
unfolding before_last_slash
before_last_slash-wal [] = refl
before_last_slash-wal (c ∷ cs) = rw (before_last_slash-wal cs) refl

pub parent-wal_path : (dir : Bytes) → parent (wal_path dir) ≡ dir
unfolding parent wal_path
parent-wal_path dir = rw (parent, before_last_slash-wal dir) refl

module _ ⦃c : Codec⦄ (order : List Bytes → List Bytes) (dir : Bytes) where
  -- Behind the lock, with no table and no log there, the store is the empty one.
  open_locked-fresh :
      (d : Disk)
      → d.faults ≡ []
      → BTreeMap.get (wal_path dir) d.files ≡ none
      → All
          (λ name. sstable_id name ≡ none)
          (order (children dir d.files ++ children dir (BTreeMap.insert dir tt d.dirs)))
      → open_locked order dir d ≡ (
        ok (empty_store dir (record { file_path = wal_path dir; file = false })),
        record d { dirs = BTreeMap.insert dir tt d.dirs },
      )
  unfolding open_locked with_path or_unlock
  open_locked-fresh d healthy absent none_found =
      let made : Disk = record d { dirs = BTreeMap.insert dir tt d.dirs } in
      let s = empty_store dir (record { file_path = wal_path dir; file = false }) in
      rw
        (
          parent-wal_path dir,
          create_dir_all-healthy dir d healthy,
          load_sstables-none order s made healthy (Lookup.get-insert_self dir tt d.dirs) none_found,
          replay_wal-missing s made healthy absent,
        )
        refl

  -- On a working disk, `open_with_dir` of a directory whose lock is free and that holds no table,
  -- no log and no lock file yet succeeds: the store is empty and open, and the lock is held. The
  -- file system lists no table where there is none.
  pub open_with_dir-IsOpen :
      (d : Disk)
      → ((names : List Bytes)
          → All (λ name. sstable_id name ≡ none) names
          → All (λ name. sstable_id name ≡ none) (order names))
      → d.faults ≡ []
      → BTreeMap.get (lock_path dir) d.locks ≡ none
      → BTreeMap.get (lock_path dir) d.files ≡ none
      → BTreeMap.get (wal_path dir) d.files ≡ none
      → All (λ p. NoTable dir p.0) d.files
      → All (λ p. NoTable dir p.0) d.dirs
      → (t : Store) × (after : Disk) × (open_with_dir order dir d ≡ (ok t, after))
        × IsOpen t after [] []
        × (t.memtable ≡ [])
        × (BTreeMap.get (lock_path dir) after.locks ≡ some tt)
  unfolding open_with_dir lock_table lock_failed total frames
  open_with_dir-IsOpen d keeps healthy free unlocked absent no_files no_dirs =
      let lock = lock_path dir in
      let made : Disk = record d { dirs = BTreeMap.insert dir tt d.dirs } in
      let marked = put_file lock [] made in
      let held : Disk = record marked { locks = BTreeMap.insert lock tt d.locks } in
      let no_log : BTreeMap.get (wal_path dir) held.files ≡ none =
        Lookup.get-insert_ne (wal_path dir) lock [] d.files (λ e. lock_path-ne-wal_path dir (sym e))
        ∙ absent in
      let files = All-insert (λ p. NoTable dir p.0) lock [] d.files (lock-NoTable dir) no_files in
      let dirs =
        All-insert (λ p. NoTable dir p.0) dir tt (BTreeMap.insert dir tt d.dirs) (dir-NoTable dir)
          (All-insert (λ p. NoTable dir p.0) dir tt d.dirs (dir-NoTable dir) no_dirs) in
      let names = keeps _ (
        All-append (λ name. sstable_id name ≡ none) (children dir held.files) _
          (All-children dir held.files files) (All-children dir _ dirs)) in
      (
        empty_store dir (record { file_path = wal_path dir; file = false }),
        record held { dirs = BTreeMap.insert dir tt held.dirs },
        rw
            (
              create_dir_all-healthy dir d healthy,
              open_create-healthy_new lock made healthy unlocked,
              flock-healthy lock marked healthy free,
              open_locked-fresh held healthy no_log names,
            )
            refl,
        record {
          works = healthy;
          counted = record { sorted = tt; exact = refl };
          valid = tt;
          holds = tt;
          saved = record {
            ids = [];
            paths = refl;
            stored = tt;
            listed = Listed-none dir held.files files;
            no_dirs = dirs;
          };
          named = tt;
          wal_named = refl;
          is_log = ap (λ o. elim o [ none ↦ [] | some b ↦ b ]) no_log;
          log_valid = tt;
          closed = refl;
          replays = Replays-empty;
        },
        refl,
        Lookup.get-insert_self lock tt d.locks,
      )
