-- ===== src/Store/Open/Torn.antt =====
-- What `open_with_dir` of ferrumdb-core/src/store.rs shows after the process that had the store
-- open has ended in the middle of a commit.
use ferrum_db.Base.{
  ℕ, ◌+◌, ◌^◌, ◌≤◌, ◌<◌, ◌≡◌, ap, ap₂, ◌∙◌, sym, Option, none, some, List, [], All, length, take,
  leb, arith, Bool-cases, inl, inr, if◌then◌else◌,
}
use ferrum_db.Base.Bytes.{Bytes}
use ferrum_db.BTreeMap
use ferrum_db.BTreeMap.{BTreeMap, IsSorted}
use ferrum_db.BTreeMap.Lookup
use ferrum_db.BTreeMap.Lookup.{or_else}
use ferrum_db.Errors.{ok}
use ferrum_db.Proto.{WalEntry, Codec, IsWalEntry}
use ferrum_db.Value.{Value, Entry}
use ferrum_db.Disk.{Disk, put_file}
use ferrum_db.Disk.Kept.{Kept-others, Kept-put_file}
use ferrum_db.Wal.Frames.{frames, whole}
use ferrum_db.Wal.Append.{IsLog-file}
use ferrum_db.Wal.Committed.{committed}
use ferrum_db.Wal.Recovery.{recovered}
use ferrum_db.SsTable.Record.{IsRecord}
use ferrum_db.SsTable.Table.Layout.{Group}
use ferrum_db.Store.{Store}
use ferrum_db.Store.Files.{lock_path}
use ferrum_db.Store.Lookup.{newest, seen}
use ferrum_db.Store.Saved.{IsSaved-wal}
use ferrum_db.SsTable.Table.Size.{weight}
use ferrum_db.Store.Room.{used, runs_weight}
use ferrum_db.Store.Valid.{IsOpen, AllHold-others, view}
use ferrum_db.Store.Compact.Files.{wal-apart}
use ferrum_db.Store.Replay.Batches.{put_all, IsClosed, Replays}
use ferrum_db.Store.Replay.Durable.{torn_batch}
use ferrum_db.Store.Write.Batch.{IsWrite, overlay, get-put_all, batch_weight, weight-put_all_le}
use ferrum_db.Store.Write.Commit.{batch_log, batch_log-IsWalEntry, applied-IsOpen, seen-written}
use ferrum_db.Store.Open.{open_with_dir}
use ferrum_db.Store.Open.Remains.{Remains, IsSaved-locks, open_with_dir-Remains}
use mathlib.Core.List.{Permᴰ}

-- The disk after the process has ended, with the log's file as it was left.
abbrev pub ended : Store → Bytes → BTreeMap (Unit {0}) → Disk → Disk
ended s file locks d = record (put_file s.wal.file_path file d) { locks = locks }

module _ ⦃c : Codec⦄ where
  module _ (order : List Bytes → List Bytes)
      (permutes : (names : List Bytes) → Permᴰ (order names) names) (s : Store) (d : Disk)
      (gss : List (List Group)) (log : List WalEntry) (locks : BTreeMap (Unit {0}))
      (h : IsOpen s d gss log) (free : BTreeMap.get (lock_path s.dir) locks ≡ none)
      (fits : s.next_sstable_id < 2 ^ 64) where
    -- What is left where the log's file is cut at `n`.
    torn-Remains :
        (es kept : List WalEntry) (m : BTreeMap Entry) (n : ℕ)
        → All (IsWalEntry c.is_utf8) es
        → length (frames es) < 2 ^ 64
        → n ≤ length (frames es)
        → committed (whole n es) ≡ kept
        → All (IsWalEntry c.is_utf8) kept
        → IsClosed kept []
        → Replays kept m
        → IsSorted m
        → All IsRecord m
        → Remains s.dir (ended s (take n (frames es)) locks d) gss kept m
    torn-Remains es kept m n valid small le survives log_valid closed replays sorted records =
        let file = take n (frames es) in
        let torn = put_file s.wal.file_path file d in
        let cut = Kept-put_file s.wal.file_path file d h.works in
        record {
          works = h.works;
          free = free;
          next = s.next_sstable_id;
          tables = s.sstables;
          fits = fits;
          saved = IsSaved-locks s.dir s.next_sstable_id s.sstables gss torn locks (
              IsSaved-wal s.dir s.wal.file_path s.next_sstable_id s.sstables gss d torn h.wal_named
                cut h.saved);
          holds =
              AllHold-others s.wal.file_path s.sstables d (ended s file locks d) gss
                (Kept-others s.wal.file_path d torn cut)
                (wal-apart s.dir s.next_sstable_id s.wal.file_path s.sstables h.wal_named h.named)
                h.holds;
          recovers = λ u healthy same w named.
              let found : BTreeMap.get w.file_path u.files ≡ some file =
                ap (λ p. BTreeMap.get p u.files) named
                ∙ (same
                    ∙ (ap (λ p. BTreeMap.get p torn.files) (sym h.wal_named)
                        ∙ Lookup.get-insert_self s.wal.file_path file d.files)) in
              let (handle, after, done, there, only) =
                recovered w u healthy es n valid small le found in
              (
                handle,
                after,
                done ∙ ap (λ x. (ok x, (record w { file = handle }, after))) survives,
                IsLog-file w after kept (there ∙ ap (λ x. some (frames x)) survives),
                only,
              );
          log_valid = log_valid;
          closed = closed;
          replays = replays;
          sorted = sorted;
          valid = records;
        }

    -- On a working disk, the process ends while it writes a batch and its COMMIT to the log of an
    -- open store, and any prefix of these bytes is in the file. `open_with_dir`, once the lock is
    -- free, succeeds: the new store is open, takes the old one's room and at most the batch's, and
    -- shows all writes of the batch if the prefix is all of it, and otherwise what the old store
    -- showed. The batch has ascending keys and values that the Rust types hold, the file system
    -- lists a directory in any order, and the counters and the log's length are below 2^64.
    pub open_with_dir-torn :
        (ps : BTreeMap (Option Value)) (n : ℕ)
        → IsSorted ps
        → All IsWrite ps
        → s.sequence + length ps < 2 ^ 64
        → length (frames (batch_log s ps log)) < 2 ^ 64
        → length (frames log) ≤ n
        → n ≤ length (frames (batch_log s ps log))
        → (t : Store) × (after : Disk) × (other : List (List Group)) × (rest : List WalEntry)
          × (open_with_dir order s.dir (ended s (take n (frames (batch_log s ps log))) locks d)
              ≡ (ok t, after))
          × ((q : Bytes)
              → view t other q ≡ (
                  if leb (length (frames (batch_log s ps log))) n
                  then overlay (BTreeMap.get q ps) (view s gss q)
                  else view s gss q))
          × IsOpen t after other rest
          × (used t other ≤ used s gss + batch_weight ps)
    open_with_dir-torn ps n ascends writes numbered small synced le =
        let es = batch_log s ps log in
        let all = frames es in
        let path = s.wal.file_path in
        let torn = ended s (take n all) locks d in
        let valid = batch_log-IsWalEntry ps s log h.log_valid writes numbered in
        let survives = torn_batch ps s log n h.closed synced in
        elim (Bool-cases (leb (length all) n)) [
          | inl complete ↦
              let whole_log : committed (whole n es) ≡ es = rw complete at survives in
              let a =
                applied-IsOpen ps s d (put_file path all d) gss log h writes numbered
                  (Kept-put_file path all d h.works)
                  (IsLog-file s.wal (put_file path all d) es
                    (Lookup.get-insert_self path all d.files)) in
              let (t, after, other, opened, memtable, shows, runs_same, is_open) =
                open_with_dir-Remains order permutes s.dir gss es (put_all ps s.memtable) torn (
                  torn-Remains es es (put_all ps s.memtable) n valid small le whole_log valid
                    a.closed a.replays a.counted.sorted a.valid) in
              (
                t,
                after,
                other,
                es,
                opened,
                rw complete (λ q.
                    ap₂ (λ m o. seen (or_else (BTreeMap.get q m) o)) memtable (shows q)
                    ∙ (ap (λ o. seen (or_else o (newest q gss)))
                          (get-put_all q ps s.memtable ascends)
                        ∙ seen-written (BTreeMap.get q ps) (BTreeMap.get q s.memtable)
                            (newest q gss))),
                is_open,
                omega (
                  arith,
                  ap weight memtable,
                  ap runs_weight runs_same,
                  weight-put_all_le ps s.memtable,
                ),
              )
          | inr cut ↦
              let old_log : committed (whole n es) ≡ log = rw cut at survives in
              let (t, after, other, opened, memtable, shows, runs_same, is_open) =
                open_with_dir-Remains order permutes s.dir gss log s.memtable torn (
                  torn-Remains es log s.memtable n valid small le old_log h.log_valid h.closed
                    h.replays h.counted.sorted h.valid) in
              (
                t,
                after,
                other,
                log,
                opened,
                rw cut (λ q. ap₂ (λ m o. seen (or_else (BTreeMap.get q m) o)) memtable (shows q)),
                is_open,
                omega (arith, ap weight memtable, ap runs_weight runs_same),
              )
        ]
