-- ===== src/Store/Open/Reopen.antt =====
-- What `open_with_dir` of ferrumdb-core/src/store.rs shows after the process that had the store
-- open has ended.
use ferrum_db.Base.{
  ◌+◌, ◌^◌, ◌<◌, ◌≡◌, refl, ap, ap₂, ◌∙◌, sym, Option, none, some, List, [], ◌∷◌, length, take,
  take_all, arith, length-append, Option-cases, inl, inr,
}
use ferrum_db.Base.Bytes.{Bytes}
use ferrum_db.BTreeMap
use ferrum_db.BTreeMap.{BTreeMap, IsSorted}
use ferrum_db.BTreeMap.Lookup.{or_else}
use ferrum_db.Errors.{ok}
use ferrum_db.Proto.{WalEntry, Codec}
use ferrum_db.Disk.{Disk, contents}
use ferrum_db.Disk.Kept.{Kept-refl}
use ferrum_db.Wal.{frame}
use ferrum_db.Wal.Frames.{frames, length-frame}
use ferrum_db.Wal.Append.{IsLog-file}
use ferrum_db.Wal.Recovery.{recovered}
use ferrum_db.SsTable.Table.Layout.{Group}
use ferrum_db.Store.{Store}
use ferrum_db.Store.Files.{wal_path, lock_path}
use ferrum_db.Store.Lookup.{seen}
use ferrum_db.SsTable.Table.Size.{weight}
use ferrum_db.Store.Room.{used, runs_weight}
use ferrum_db.Store.Valid.{IsOpen, AllHold-others, view}
use ferrum_db.Store.Compact.Files.{wal-apart}
use ferrum_db.Store.Replay.Durable.{whole-closed}
use ferrum_db.Store.Open.{open_with_dir}
use ferrum_db.Store.Open.Fresh.{read_for_recovery-missing}
use ferrum_db.Store.Open.Again.{Recovers}
use ferrum_db.Store.Open.Remains.{Remains, IsSaved-locks, open_with_dir-Remains}
use mathlib.Core.List.{Permᴰ}

contents_found : (o : Option Bytes) (b : Bytes) → o ≡ some b → elim o [ none ↦ [] | some x ↦ x ] ≡ b
contents_found o b h = rw h refl

module _ ⦃c : Codec⦄ where
  frames-empty : (log : List WalEntry) → [] ≡ frames log → log ≡ []
  unfolding frames
  frames-empty [] h = refl
  frames-empty (e ∷ log) h =
      absurd (omega (arith, ap length h, length-append (frame e) (frames log), length-frame e))

  -- The whole log of an open store is read back.
  IsOpen-Recovers :
      (s : Store) (d : Disk) (gss : List (List Group)) (log : List WalEntry) (e : Disk)
      → IsOpen s d gss log
      → length (frames log) < 2 ^ 64
      → e.faults ≡ []
      → BTreeMap.get (wal_path s.dir) e.files ≡ BTreeMap.get (wal_path s.dir) d.files
      → Recovers (wal_path s.dir) e log
  unfolding frames
  IsOpen-Recovers s d gss log e h fits healthy same w named =
      let path = wal_path s.dir in
      let written : contents path d ≡ frames log = rw (← h.wal_named) h.is_log in
      elim (Option-cases (BTreeMap.get path d.files)) [
        | inl absent ↦
            let empty : log ≡ [] = frames-empty log (rw (contents, absent) at written) in
            let missing : BTreeMap.get w.file_path e.files ≡ none = rw named (same ∙ absent) in
            (
              w.file,
              e,
              rw (read_for_recovery-missing w e healthy missing, empty) refl,
              rw (contents, missing, empty) refl,
              Kept-refl w.file_path e healthy,
            )
        | inr (file, there) ↦
            let size = length (frames log) in
            let is_log : file ≡ frames log = sym (contents_found _ file there) ∙ written in
            let found : BTreeMap.get w.file_path e.files ≡ some (take size (frames log)) =
              ap (λ p. BTreeMap.get p e.files) named
              ∙ (same
                  ∙ (there ∙ ap some (is_log ∙ sym (take_all (frames log) size (omega arith))))) in
            let (handle, after, done, kept, only) =
              recovered w e healthy log size h.log_valid fits (omega arith) found in
            let all = whole-closed log h.closed in
            (
              handle,
              after,
              done ∙ ap (λ x. (ok x, (record w { file = handle }, after))) all,
              IsLog-file w after log (kept ∙ ap (λ x. some (frames x)) all),
              only,
            )
      ]

  module _ (order : List Bytes → List Bytes)
      (permutes : (names : List Bytes) → Permᴰ (order names) names) (s : Store) (d : Disk)
      (gss : List (List Group)) (log : List WalEntry) (locks : BTreeMap (Unit {0}))
      (h : IsOpen s d gss log) (free : BTreeMap.get (lock_path s.dir) locks ≡ none)
      (fits : s.next_sstable_id < 2 ^ 64) where
    -- On a working disk, an open store is left and its directory is opened again by another process
    -- once the lock is free, in whatever order the file system lists it: `open_with_dir` succeeds,
    -- the new store is open on the same log, takes the same room, and shows a reader what the old
    -- one showed. The next id and the log's length are below 2^64.
    pub open_with_dir-view :
        length (frames log) < 2 ^ 64
        → (t : Store) × (after : Disk) × (other : List (List Group)) × (open_with_dir order s.dir
              (record d { locks = locks })
            ≡ (ok t, after))
          × ((q : Bytes) → view t other q ≡ view s gss q)
          × IsOpen t after other log
          × (used t other ≡ used s gss)
    open_with_dir-view small =
        let e : Disk = record d { locks = locks } in
        let left : Remains s.dir e gss log s.memtable = record {
          works = h.works;
          free = free;
          next = s.next_sstable_id;
          tables = s.sstables;
          fits = fits;
          saved = IsSaved-locks s.dir s.next_sstable_id s.sstables gss d locks h.saved;
          holds =
              AllHold-others s.wal.file_path s.sstables d e gss (λ q apart. refl)
                (wal-apart s.dir s.next_sstable_id s.wal.file_path s.sstables h.wal_named h.named)
                h.holds;
          recovers = λ u healthy same. IsOpen-Recovers s d gss log u h small healthy same;
          log_valid = h.log_valid;
          closed = h.closed;
          replays = h.replays;
          sorted = h.counted.sorted;
          valid = h.valid;
        } in
        let (t, after, other, opened, memtable, shows, runs_same, is_open) =
          open_with_dir-Remains order permutes s.dir gss log s.memtable e left in
        (
          t,
          after,
          other,
          opened,
          λ q. ap₂ (λ m o. seen (or_else (BTreeMap.get q m) o)) memtable (shows q),
          is_open,
          ap₂ (λ m ess. weight m + runs_weight ess) memtable runs_same,
        )
