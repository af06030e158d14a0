-- ===== src/Store/Open/Failed.antt =====
-- What `open_with_dir` of ferrumdb-core/src/store.rs shows after a commit whose log failed.
use ferrum_db.Base.{
  ℕ, ◌+◌, ◌^◌, ◌≤◌, ◌<◌, ◌≡◌, ◌⊎◌, ap, ◌∙◌, sym, subst, Option, none, List, [], ◌∷◌, ◌++◌, All,
  length, take, leb, arith, Bool-cases, inl, inr, length-append,
}
use ferrum_db.Base.Bytes.{Bytes}
use ferrum_db.BTreeMap
use ferrum_db.BTreeMap.{BTreeMap, IsSorted}
use ferrum_db.Errors.{ok, err, AppError}
use ferrum_db.Proto.{WalEntry, Codec}
use ferrum_db.Value.{Value}
use ferrum_db.Disk.{Disk, Fault, contents}
use ferrum_db.Wal.Frames.{frames, frames-append}
use ferrum_db.Wal.Partial.{Wrote, take_behind}
use ferrum_db.SsTable.Table.Layout.{Group}
use ferrum_db.Store.{Store}
use ferrum_db.Store.Files.{lock_path}
use ferrum_db.Store.Valid.{IsOpen, view}
use ferrum_db.Store.Open.{open_with_dir}
use ferrum_db.Store.Open.Reopen.{open_with_dir-view}
use ferrum_db.Store.Open.Torn.{ended, open_with_dir-torn}
use ferrum_db.Store.Write.{commit_pending}
use ferrum_db.Store.Write.Batch.{IsWrite, overlay}
use ferrum_db.Store.Write.Commit.{batch_log}
use ferrum_db.Store.Write.Failed.{SameData, log_batch, commit_pending-err}
use ferrum_db.Store.Write.Partial.{log_batch-Logs}
use mathlib.Core.List.{Permᴰ}

module _ ⦃c : Codec⦄ where
  -- The reader's map after all writes of the batch or none.
  abbrev pub AllOrNone :
      BTreeMap (Option Value) → (Bytes → Option Value) → (Bytes → Option Value) → Type 0
  AllOrNone ps m n =
      ((q : Bytes) → n q ≡ m q) ⊎ ((q : Bytes) → n q ≡ overlay (BTreeMap.get q ps) (m q))

  module _ (order : List Bytes → List Bytes)
      (permutes : (names : List Bytes) → Permᴰ (order names) names) (s : Store) (d : Disk)
      (gss : List (List Group)) (log : List WalEntry) (locks : BTreeMap (Unit {0}))
      (h : IsOpen s d gss log) (free : BTreeMap.get (lock_path s.dir) locks ≡ none)
      (fits : s.next_sstable_id < 2 ^ 64) where
    -- A batch of which the log has any first bytes.
    partly-logged :
        (ps : BTreeMap (Option Value)) (n : ℕ) (left : Disk)
        → IsSorted ps
        → All IsWrite ps
        → s.sequence + length ps < 2 ^ 64
        → length (frames (batch_log s ps log)) < 2 ^ 64
        → n ≤ length (frames (batch_log s ps []))
        → Wrote s.wal.file_path
            (contents s.wal.file_path d ++ take n (frames (batch_log s ps [])))
            d
            left
        → (t : Store) × (after : Disk) × (other : List (List Group)) × (rest : List WalEntry)
          × (open_with_dir order s.dir (record left { faults = []; locks = locks }) ≡ (ok t, after))
          × AllOrNone ps (view s gss) (view t other)
          × IsOpen t after other rest
    partly-logged ps n left sorted writes numbered small le (dirs, inl (same, e)) =
        let batch = frames (batch_log s ps []) in
        let as_before : record left { faults = []; locks = locks } ≡ record d { locks = locks } =
          ap (λ f. record left { files = f; faults = []; locks = locks }) same
          ∙ (ap (λ x. record d { dirs = x; faults = []; locks = locks }) dirs
              ∙ ap (λ f. record d { faults = f; locks = locks }) (sym h.works)) in
        let (t, after, other, opens, shows, opened, _) =
          open_with_dir-view order permutes s d gss log locks h free fits (
            omega (
              arith,
              small,
              ap length (frames-append log (batch_log s ps [])),
              length-append (frames log) batch,
            )) in
        (t, after, other, log, ap (open_with_dir order s.dir) as_before ∙ opens, inl shows, opened)
    partly-logged ps n left sorted writes numbered small le (dirs, inr made) =
        let batch = frames (batch_log s ps []) in
        let all = frames (batch_log s ps log) in
        let path = s.wal.file_path in
        let cut = length (frames log) + n in
        let joined : all ≡ frames log ++ batch = frames-append log (batch_log s ps []) in
        let counted = ap length joined ∙ length-append (frames log) batch in
        let part : contents path d ++ take n batch ≡ take cut all =
          ap (λ b. b ++ take n batch) h.is_log
          ∙ sym (ap (take cut) joined ∙ take_behind (frames log) batch n) in
        let as_torn : record left { faults = []; locks = locks } ≡ ended s (take cut all) locks d =
          ap (λ f. record left { files = f; faults = []; locks = locks })
            (made ∙ ap (λ b. BTreeMap.insert path b d.files) part)
          ∙ (ap (λ x. record (ended s (take cut all) locks d) { dirs = x; faults = [] }) dirs
              ∙ ap (λ f. record (ended s (take cut all) locks d) { faults = f }) (sym h.works)) in
        let (t, after, other, rest, opens, shows, opened, _) =
          open_with_dir-torn order permutes s d gss log locks h free fits ps cut sorted writes
            numbered small (omega arith) (omega (arith, counted, le)) in
        (
          t,
          after,
          other,
          rest,
          ap (open_with_dir order s.dir) as_torn ∙ opens,
          elim (Bool-cases (leb (length all) cut)) [
            | inl complete ↦ inr (rw complete at shows)
            | inr partial ↦ inl (rw partial at shows)
          ],
          opened,
        )

    -- An open store of a working disk, and a batch of which an append or the COMMIT then fails,
    -- whatever calls of the operating system fail. `commit` ends with that error, and the store in
    -- memory is as before but for the log's handle and the sequence number. Where the process ends
    -- then and the directory is opened again on a working disk, once the lock is free, the new
    -- store is open and shows all writes of the batch or none of them. The batch is not empty and
    -- has ascending keys and values that the Rust types hold, the file system lists a directory in
    -- any order, and the counters and the length of the log with the batch are below 2^64.
    pub commit_pending-AllOrNone :
        (p : Bytes × Option Value) (ps : BTreeMap (Option Value)) (faults : List Fault)
        (e : AppError)
        → IsSorted (p ∷ ps)
        → All IsWrite (p ∷ ps)
        → s.sequence + length (p ∷ ps) < 2 ^ 64
        → length (frames (batch_log s (p ∷ ps) log)) < 2 ^ 64
        → (log_batch (p ∷ ps) (s, record d { faults = faults })).0 ≡ err e
        → (u : Store) × (left : Disk) × (t : Store) × (after : Disk) × (other : List (List Group))
          × (rest : List WalEntry) × (commit_pending (p ∷ ps) (s, record d { faults = faults })
              ≡ (err e, (u, left)))
          × SameData s u
          × (u.wal.file_path ≡ s.wal.file_path)
          × (open_with_dir order s.dir (record left { faults = []; locks = locks }) ≡ (ok t, after))
          × AllOrNone (p ∷ ps) (view s gss) (view t other)
          × IsOpen t after other rest
    commit_pending-AllOrNone p ps faults e sorted writes numbered small failed =
        let x = log_batch (p ∷ ps) (s, record d { faults = faults }) in
        let (stops, same) = commit_pending-err p ps s (record d { faults = faults }) e failed in
        let l = log_batch-Logs (p ∷ ps) (s, record d { faults = faults }) in
        let (t, after, other, rest, opens, shows, opened) =
          partly-logged (p ∷ ps) l.n x.1.1 sorted writes numbered small l.le l.wrote in
        (
          x.1.0,
          x.1.1,
          t,
          after,
          other,
          rest,
          stops ∙ ap (λ r. (r, x.1)) failed,
          subst (λ y. SameData s y.1.0) stops same,
          l.path,
          opens,
          shows,
          opened,
        )
