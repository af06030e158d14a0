-- ===== src/Store/Open/Remains.antt =====
-- Opening the directory of a store again: `open_with_dir` of ferrumdb-core/src/store.rs behind a
-- lock that is free.
use ferrum_db.Base.{ℕ, false, ◌^◌, ◌<◌, ◌≡◌, refl, ap, ◌∙◌, sym, none, List, [], map, All}
use ferrum_db.Base.Bytes.{Bytes}
use ferrum_db.BTreeMap
use ferrum_db.BTreeMap.{BTreeMap, IsSorted}
use ferrum_db.BTreeMap.Lookup
use ferrum_db.BTreeMap.Lookup.{or_else}
use ferrum_db.Errors.{ok}
use ferrum_db.Proto.{WalEntry, Codec, IsWalEntry}
use ferrum_db.Value.{Entry}
use ferrum_db.Disk.{Disk}
use ferrum_db.Disk.Healthy.{create_dir_all-healthy}
use ferrum_db.Disk.Kept.{Kept-others}
use ferrum_db.Wal.{Wal, with_path}
use ferrum_db.SsTable.Record.{IsRecord}
use ferrum_db.SsTable.Table.{SsTable}
use ferrum_db.SsTable.Table.Layout.{Group}
use ferrum_db.Store.{Store}
use ferrum_db.Store.Files.{wal_path, lock_path, lock_path-ne-wal_path, sstable_path-ne-lock_path}
use ferrum_db.Store.Lookup.{newest, AllHold}
use ferrum_db.Store.Listing.{lock-NoTable}
use ferrum_db.Store.Saved.{IsSaved, IsSaved-dir, IsSaved-other, IsSaved-wal, Stored-top}
use ferrum_db.Store.Valid.{IsOpen, AllHold-others}
use ferrum_db.Store.Compact.Merged.{runs}
use ferrum_db.Store.Compact.Files.{wal-apart}
use ferrum_db.Store.Replay.Batches.{IsClosed, Replays, with_memtable}
use ferrum_db.Store.Open.{
  open_with_dir, open_locked, lock_table, lock_failed, or_unlock, empty_store,
}
use ferrum_db.Store.Open.Fresh.{flock-healthy, parent-wal_path}
use ferrum_db.Store.Open.Found.{table_at, load_sstables-found}
use mathlib.Core.List.{Permᴰ}
use ferrum_db.Store.Open.Again.{Recovers, reloaded, replay_wal_lem, made_lock}

module _ ⦃c : Codec⦄ where
  pub IsSaved-locks :
      (dir : Bytes) (next : ℕ) (ts : List SsTable) (gss : List (List Group)) (d : Disk)
      (locks : BTreeMap (Unit {0}))
      → IsSaved dir next ts gss d
      → IsSaved dir next ts gss (record d { locks = locks })
  IsSaved-locks dir next ts gss d locks h = record {
    ids = h.ids;
    paths = h.paths;
    stored = h.stored;
    listed = h.listed;
    no_dirs = h.no_dirs;
  }

  -- What a store that is no longer open has left in its directory: its tables, and a log that gives
  -- its memtable `m` back. No one holds the lock.
  pub record Remains (dir : Bytes) (d : Disk) (gss : List (List Group)) (es : List WalEntry)
      (m : BTreeMap Entry) : Type 0 where
    pub works : d.faults ≡ []
    pub free : BTreeMap.get (lock_path dir) d.locks ≡ none
    pub next : ℕ
    pub tables : List SsTable
    pub fits : next < 2 ^ 64
    pub saved : IsSaved dir next tables gss d
    pub holds : AllHold tables d gss
    pub recovers :
        (e : Disk)
        → e.faults ≡ []
        → BTreeMap.get (wal_path dir) e.files ≡ BTreeMap.get (wal_path dir) d.files
        → Recovers (wal_path dir) e es
    pub log_valid : All (IsWalEntry c.is_utf8) es
    pub closed : IsClosed es []
    pub replays : Replays es m
    pub sorted : IsSorted m
    pub valid : All IsRecord m

  module _ (order : List Bytes → List Bytes)
      (permutes : (names : List Bytes) → Permᴰ (order names) names) (dir : Bytes)
      (gss : List (List Group)) (es : List WalEntry) (m : BTreeMap Entry) where
    -- Behind the lock.
    open_locked-found :
        (d e : Disk)
        → (h : Remains dir d gss es m) → e.faults ≡ []
        → IsSaved dir h.next h.tables gss e
        → BTreeMap.get (wal_path dir) e.files ≡ BTreeMap.get (wal_path dir) d.files
        → (t : Store) × (after : Disk) × (other : List (List Group)) × (open_locked order dir e
            ≡ (ok t, after))
          × (t.memtable ≡ m)
          × ((q : Bytes) → newest q other ≡ newest q gss)
          × (runs other ≡ runs gss)
          × IsOpen t after other es
    unfolding open_locked with_path or_unlock
    open_locked-found d e h healthy saved same =
        let log = wal_path dir in
        let made : Disk = record e { dirs = BTreeMap.insert dir tt e.dirs } in
        let w : Wal = record { file_path = log; file = false } in
        let there = Lookup.get-insert_self dir tt e.dirs in
        let kept = IsSaved-dir dir h.next h.tables gss e saved in
        let (n, loaded, below) =
          load_sstables-found made order (empty_store dir w) h.next h.tables gss permutes healthy
            there h.fits kept in
        let ts = map (table_at dir made) kept.ids in
        let (other, holds, stored, paths, named, shows, runs_same) =
          reloaded dir d made h.next n kept.ids h.tables gss healthy kept.stored h.holds below in
        let s = record (empty_store dir w) { next_sstable_id = n; sstables = ts } in
        let (handle, after, found, is_log, only) = h.recovers made healthy same w refl in
        let (last, replayed) = replay_wal_lem s made after es m handle found h.replays refl refl in
        (
          with_memtable (record s { wal = record w { file = handle } }) m last,
          after,
          other,
          rw (parent-wal_path dir, create_dir_all-healthy dir e healthy, loaded, replayed) refl,
          refl,
          shows,
          runs_same,
          record {
            works = only.works;
            counted = record { sorted = h.sorted; exact = refl };
            valid = h.valid;
            holds =
                AllHold-others log ts made after other (Kept-others log made after only)
                  (wal-apart dir n log ts refl named) holds;
            saved = IsSaved-wal dir log n ts other made after refl only (record {
              ids = kept.ids;
              paths = paths;
              stored = Stored-top dir h.next n made.files kept.ids other below stored;
              listed = kept.listed;
              no_dirs = kept.no_dirs;
            });
            named = named;
            wal_named = refl;
            is_log = is_log;
            log_valid = h.log_valid;
            closed = h.closed;
            replays = h.replays;
          },
        )

    -- Opening the directory gives a store with the memtable and the tables that were left.
    pub open_with_dir-Remains :
        (d : Disk)
        → Remains dir d gss es m
        → (t : Store) × (after : Disk) × (other : List (List Group)) × (open_with_dir order dir d
            ≡ (ok t, after))
          × (t.memtable ≡ m)
          × ((q : Bytes) → newest q other ≡ newest q gss)
          × (runs other ≡ runs gss)
          × IsOpen t after other es
    unfolding open_with_dir lock_table lock_failed
    open_with_dir-Remains d h =
        let lock = lock_path dir in
        let made : Disk = record d { dirs = BTreeMap.insert dir tt d.dirs } in
        let (marked, created, only, same) = made_lock lock made h.works in
        let held : Disk = record marked { locks = BTreeMap.insert lock tt marked.locks } in
        let saved =
          IsSaved-locks dir h.next h.tables gss marked (BTreeMap.insert lock tt marked.locks) (
            IsSaved-other dir lock h.next h.tables gss made marked (lock-NoTable dir)
              (sstable_path-ne-lock_path dir) only
              (IsSaved-dir dir h.next h.tables gss d h.saved)) in
        let log =
          Kept-others lock made marked only (wal_path dir)
            (λ e. lock_path-ne-wal_path dir (sym e)) in
        let (t, after, other, opened, memtable, shows, runs_same, is_open) =
          open_locked-found d held h only.works saved log in
        (
          t,
          after,
          other,
          rw
              (
                create_dir_all-healthy dir d h.works,
                created,
                flock-healthy lock marked only.works (ap (BTreeMap.get lock) same ∙ h.free),
              )
              opened,
          memtable,
          shows,
          runs_same,
          is_open,
        )
