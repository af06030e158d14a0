-- ===== src/Store/Replay/Durable.antt =====
-- What a store reads back from its log after a crash.
use ferrum_db.Base.{
  ℕ, ◌+◌, ◌-◌, ◌^◌, ◌<◌, ◌≤◌, ◌≡◌, refl, ap, ◌∙◌, sym, Option, none, some, List, [], ◌∷◌, ◌++◌, All,
  length, take, leb, arith, append_assoc, length-append, append-nil, leb→le, Bool-cases, inl, inr,
  take_all, if◌then◌else◌,
}
use ferrum_db.Base.Bytes.{Bytes}
use ferrum_db.BTreeMap
use ferrum_db.BTreeMap.{BTreeMap, IsSorted}
use ferrum_db.Errors.{ok}
use ferrum_db.Proto.{WalEntry, Codec}
use ferrum_db.Value.{Value, Entry}
use ferrum_db.Disk.{Disk}
use ferrum_db.Wal.{frame, read_for_recovery, commit_entry, create_put_entry, create_delete_entry}
use ferrum_db.Wal.Frames.{frames, whole, whole_all}
use ferrum_db.Wal.Committed.{committed, is_commit, committed-append_commit, committed-whole}
use ferrum_db.Wal.Recovery.{read_for_recovery-cut}
use ferrum_db.SsTable.Table.Layout.{Group}
use ferrum_db.Store.{Store}
use ferrum_db.Store.Valid.{IsOpen}
use ferrum_db.Store.Write.Batch.{IsWrite}
use ferrum_db.Store.Write.Commit.{batch_log, batch_log-IsWalEntry}
use ferrum_db.Store.Write.{on_wal, after_insert, log_entry}
use ferrum_db.Store.Replay.{replay_wal, replay_entries}
use ferrum_db.Store.Replay.Batches.{
  IsClosed, Replays, Replays-batch, batch_entries, put_all, Operation-cases,
}

-- A closed log is all committed, whatever uncommitted writes follow.
committed-closed :
    (xs ys pending : List WalEntry)
    → IsClosed xs pending
    → committed ys ≡ []
    → committed (xs ++ ys) ≡ xs
unfolding committed is_commit
committed-closed [] ys pending closed loose = loose
committed-closed (e ∷ []) ys pending closed loose = elim (Operation-cases e.operation) [
  | inl writes ↦
      absurd (omega (arith, length-append pending (e ∷ []), ap length (rw writes at closed)))
  | inr (inl deletes) ↦
      absurd (omega (arith, length-append pending (e ∷ []), ap length (rw deletes at closed)))
  | inr (inr ends) ↦ rw (loose, ends) refl
]
committed-closed (e ∷ f ∷ xs) ys pending closed loose = elim (Operation-cases e.operation) [
  | inl writes ↦
      rw (committed-closed (f ∷ xs) ys (pending ++ (e ∷ [])) (rw writes at closed) loose) refl
  | inr (inl deletes) ↦
      rw (committed-closed (f ∷ xs) ys (pending ++ (e ∷ [])) (rw deletes at closed) loose) refl
  | inr (inr ends) ↦ rw (committed-closed (f ∷ xs) ys [] (rw ends at closed) loose) refl
]

committed-batch : (ps : BTreeMap (Option Value)) (n : ℕ) → committed (batch_entries n ps) ≡ []
unfolding committed is_commit batch_entries log_entry create_put_entry create_delete_entry
committed-batch [] n = refl
committed-batch ((k, none) ∷ ps) n = rw (committed-batch ps (n + 1)) refl
committed-batch ((k, some v) ∷ ps) n = rw (committed-batch ps (n + 1)) refl

module _ ⦃c : Codec⦄ where
  -- Without its last byte, a log is one entry short.
  whole-snoc :
      (n : ℕ) (xs : List WalEntry) (e : WalEntry)
      → n < length (frames (xs ++ (e ∷ [])))
      → whole n (xs ++ (e ∷ [])) ≡ whole n xs
  unfolding whole frames
  whole-snoc n [] e h = ground (arith, length-append (frame e) [], append-nil (frame e))
  whole-snoc n (x ∷ xs) e h = ground (
    arith,
    length-append (frame x) (frames (xs ++ (e ∷ []))),
    whole-snoc (n - length (frame x)) xs e,
  )

  -- Replaying the log of `w` succeeds, gives the memtable `m`, and leaves the log with `log`.
  abbrev pub Restores : Store → Disk → BTreeMap Entry → List WalEntry → Type 0
  Restores w d m log =
      let r = replay_wal (w, d) in
      (r.0 ≡ ok tt)
      × (r.1.0.memtable ≡ m)
      × (BTreeMap.get w.wal.file_path r.1.1.files ≡ some (frames log))

  replay_wal-Restores :
      (es : List WalEntry) (m : BTreeMap Entry) (w : Store) (d : Disk)
      → (read_for_recovery (w.wal, d)).0 ≡ ok es
      → BTreeMap.get w.wal.file_path (read_for_recovery (w.wal, d)).1.1.files ≡ some (frames es)
      → Replays es m
      → w.memtable ≡ []
      → w.memtable_bytes ≡ 0
      → Restores w d m es
  unfolding replay_wal replay_entries on_wal after_insert
  replay_wal-Restores es m w d found kept replays empty counted =
      let after = (read_for_recovery (w.wal, d)).1.0 in
      let (last, replayed) = replays (record w { wal = after }) empty counted in
      rw (found, replayed) (refl, refl, kept)

  -- What is committed in a log that was cut within a batch: all of the batch or none of it.
  pub torn_batch :
      (ps : BTreeMap (Option Value)) (s : Store) (log : List WalEntry) (n : ℕ)
      → IsClosed log []
      → length (frames log) ≤ n
      → committed (whole n (batch_log s ps log))
        ≡ (if leb (length (frames (batch_log s ps log))) n then batch_log s ps log else log)
  unfolding is_commit
  torn_batch ps s log n closed synced =
      let es = batch_log s ps log in
      let last = commit_entry (s.sequence + length ps) in
      let batch = batch_entries s.sequence ps in
      let split : es ≡ (log ++ batch) ++ (last ∷ []) = sym (append_assoc log batch (last ∷ [])) in
      let unclosed = committed-closed log batch [] closed (committed-batch ps s.sequence) in
      elim (Bool-cases (leb (length (frames es)) n)) [
        | inl complete ↦ rw complete (
            ap committed (whole_all n es (leb→le (length (frames es)) n complete))
            ∙ (ap committed split ∙ (committed-append_commit (log ++ batch) last refl ∙ sym split)))
        | inr cut ↦
            let less : n < length (frames ((log ++ batch) ++ (last ∷ []))) =
              rw (← split) (ground (arith, cut)) in
            let reached : length (frames (committed (log ++ batch))) ≤ n = rw unclosed synced in
            rw cut (
              ap (λ x. committed (whole n x)) split
              ∙ (ap committed (whole-snoc n (log ++ batch) last less)
                  ∙ (committed-whole (log ++ batch) n reached ∙ unclosed)))
      ]

  -- All of a closed log is committed.
  pub whole-closed :
      (log : List WalEntry) → IsClosed log [] → committed (whole (length (frames log)) log) ≡ log
  unfolding committed
  whole-closed log closed =
      ap committed (whole_all (length (frames log)) log (omega arith))
      ∙ (ap committed (sym (append-nil log)) ∙ committed-closed log [] [] closed refl)

  -- A crash while the batch `ps` is written to the log of an open store leaves any prefix of its
  -- bytes behind the old ones. On a working disk, `replay_wal` of that log over an empty memtable
  -- succeeds and gives the memtable with the whole batch if the prefix is all of it, and otherwise
  -- the memtable from before, and it cuts the log back to that. The batch has entries that the log
  -- can hold, and the log is shorter than 2^64 bytes.
  replay_wal-torn :
      (ps : BTreeMap (Option Value)) (s : Store) (d : Disk) (gss : List (List Group))
      (log : List WalEntry) (n : ℕ) (w : Store) (torn : Disk)
      → IsOpen s d gss log
      → All IsWrite ps
      → s.sequence + length ps < 2 ^ 64
      → length (frames (batch_log s ps log)) < 2 ^ 64
      → length (frames log) ≤ n
      → n ≤ length (frames (batch_log s ps log))
      → torn.faults ≡ []
      → BTreeMap.get w.wal.file_path torn.files ≡ some (take n (frames (batch_log s ps log)))
      → w.memtable ≡ []
      → w.memtable_bytes ≡ 0
      → if leb (length (frames (batch_log s ps log))) n
        then Restores w torn (put_all ps s.memtable) (batch_log s ps log)
        else Restores w torn s.memtable log
  replay_wal-torn ps s d gss log n w torn h writes numbered fits synced le healthy found empty
        counted =
      let es = batch_log s ps log in
      let last = commit_entry (s.sequence + length ps) in
      let valid = batch_log-IsWalEntry ps s log h.log_valid writes numbered in
      let (returned, kept) = read_for_recovery-cut w.wal torn healthy es n valid fits le found in
      let survives = torn_batch ps s log n h.closed synced in
      elim (Bool-cases (leb (length (frames es)) n)) [
        | inl complete ↦
            let whole_log : committed (whole n es) ≡ es = rw complete at survives in
            rw complete (
              replay_wal-Restores es (put_all ps s.memtable) w torn (returned ∙ ap ok whole_log)
                (kept ∙ ap (λ x. some (frames x)) whole_log)
                (Replays-batch log s.memtable ps s.sequence last h.closed h.counted.sorted h.replays
                  refl)
                empty counted)
        | inr cut ↦
            let old_log : committed (whole n es) ≡ log = rw cut at survives in
            rw cut (
              replay_wal-Restores log s.memtable w torn (returned ∙ ap ok old_log)
                (kept ∙ ap (λ x. some (frames x)) old_log) h.replays empty counted)
      ]

  -- The log of an open store, where its file is there and shorter than 2^64 bytes, is enough to
  -- start again: `replay_wal` over an empty memtable succeeds, gives the store's memtable, and
  -- leaves the log with the same entries.
  replay_wal-IsOpen :
      (s : Store) (d : Disk) (gss : List (List Group)) (log : List WalEntry) (w : Store)
      (file : Bytes)
      → IsOpen s d gss log
      → length (frames log) < 2 ^ 64
      → BTreeMap.get s.wal.file_path d.files ≡ some file
      → w.wal.file_path ≡ s.wal.file_path
      → w.memtable ≡ []
      → w.memtable_bytes ≡ 0
      → Restores w d s.memtable log
  replay_wal-IsOpen s d gss log w file h fits there same empty counted =
      let size = length (frames log) in
      let is_log : file ≡ frames log =
        sym (ap (λ o. elim o [ none ↦ [] | some b ↦ b ]) there) ∙ h.is_log in
      let found : BTreeMap.get w.wal.file_path d.files ≡ some (take size (frames log)) =
        ap (λ p. BTreeMap.get p d.files) same
        ∙ (there ∙ ap some (is_log ∙ sym (take_all (frames log) size (omega arith)))) in
      let (returned, kept) =
        read_for_recovery-cut w.wal d h.works log size h.log_valid fits (omega arith) found in
      let all = whole-closed log h.closed in
      replay_wal-Restores log s.memtable w d (returned ∙ ap ok all)
        (kept ∙ ap (λ x. some (frames x)) all) h.replays empty counted
