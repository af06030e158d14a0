-- ===== src/Store/Write/Commit.antt =====
-- `commit`, `set_value` and `delete_value` keep the store open and write what they say.
use ferrum_db.Base.{
  ℕ, ◌+◌, ◌^◌, ◌<◌, ◌≡◌, refl, ap, ◌∙◌, true, Option, none, some, List, [], ◌∷◌, ◌++◌, All,
  All-append, length, arith, append_assoc,
}
use ferrum_db.Base.Bytes.{Bytes}
use ferrum_db.BTreeMap
use ferrum_db.BTreeMap.{BTreeMap, IsSorted}
use ferrum_db.BTreeMap.Lookup.{or_else}
use ferrum_db.Errors.{ok}
use ferrum_db.Proto.{WalEntry, Codec, IsWalEntry}
use ferrum_db.Value.{Value, Entry}
use ferrum_db.Disk.{Disk}
use ferrum_db.Disk.Kept.{Kept, Kept-trans, Kept-others}
use ferrum_db.Wal.{commit_entry}
use ferrum_db.Wal.Append.{IsLog, IsLog-file, write_commit_lem}
use ferrum_db.SsTable.Table.Layout.{Group}
use ferrum_db.Store.{Store, resolve}
use ferrum_db.Store.Lookup.{newest, seen}
use ferrum_db.Store.Saved.{IsSaved-wal}
use ferrum_db.Store.Room.{Grows}
use ferrum_db.Store.Valid.{IsOpen, AllHold-others, view}
use ferrum_db.Store.Compact.Files.{wal-apart}
use ferrum_db.Store.Compact.Merged.{compacted, runs}
use ferrum_db.Store.Replay.Batches.{
  batch_entries, put_all, put_all-IsSorted, with_memtable, Replays-batch, IsClosed-append,
  IsClosed-batch,
}
use ferrum_db.Store.Write.{memtable_entry, current_sequence, commit_pending, commit, on_wal}
use ferrum_db.Store.Transaction.{Transaction}
use ferrum_db.Store.Write.Flush.{Fits, maybe_flush-IsOpen}
use ferrum_db.Store.Write.Batch.{
  overlay, written, get-put_all, insert_pending_lem, append_pending_lem, IsWrite, All-put_all,
  batch_entries-IsWalEntry, batch_weight, weight-put_all_le,
}

-- The log and the store after the entries of a batch are in the log and in the memtable.
abbrev pub batch_log : Store → BTreeMap (Option Value) → List WalEntry → List WalEntry
batch_log s ps log =
    log ++ (batch_entries s.sequence ps ++ (commit_entry (s.sequence + length ps) ∷ []))

abbrev pub applied : Store → BTreeMap (Option Value) → Store
applied s ps =
    with_memtable (record s { wal = record s.wal { file = true } }) (put_all ps s.memtable)
      (s.sequence + length ps)

pub seen-written :
    (o : Option (Option Value)) (old below : Option Entry)
    → seen (or_else (written o old) below) ≡ overlay o (seen (or_else old below))
unfolding memtable_entry resolve
seen-written none old below = refl
seen-written (some none) old below = refl
seen-written (some (some v)) old below = refl

module _ ⦃c : Codec⦄ where
  commit_entry-IsWalEntry : (n : ℕ) → n < 2 ^ 64 → IsWalEntry c.is_utf8 (commit_entry n)
  commit_entry-IsWalEntry n fits = record {
    key_bytes = tt;
    value_holds = tt;
    sequence_fits = fits;
    timestamp_fits = omega arith;
  }

  pub batch_log-IsWalEntry :
      (ps : BTreeMap (Option Value)) (s : Store) (log : List WalEntry)
      → All (IsWalEntry c.is_utf8) log
      → All IsWrite ps
      → s.sequence + length ps < 2 ^ 64
      → All (IsWalEntry c.is_utf8) (batch_log s ps log)
  batch_log-IsWalEntry ps s log valid writes fits =
      let last = commit_entry (s.sequence + length ps) in
      let batch = batch_entries s.sequence ps in
      All-append (IsWalEntry c.is_utf8) log (batch ++ (last ∷ [])) valid (
        All-append (IsWalEntry c.is_utf8) batch (last ∷ [])
          (batch_entries-IsWalEntry ps s.sequence writes fits)
          (commit_entry-IsWalEntry (s.sequence + length ps) fits, tt))

  pub applied-IsOpen :
      (ps : BTreeMap (Option Value)) (s : Store) (d after : Disk) (gss : List (List Group))
      (log : List WalEntry)
      → IsOpen s d gss log
      → All IsWrite ps
      → s.sequence + length ps < 2 ^ 64
      → Kept s.wal.file_path d after
      → IsLog s.wal after (batch_log s ps log)
      → IsOpen (applied s ps) after gss (batch_log s ps log)
  applied-IsOpen ps s d after gss log h writes fits kept is_log =
      let wal = s.wal.file_path in
      let n = s.sequence in
      let last = commit_entry (n + length ps) in
      let batch = batch_entries n ps in
      let apart = wal-apart s.dir s.next_sstable_id wal s.sstables h.wal_named h.named in
      record {
        works = kept.works;
        counted = record { sorted = put_all-IsSorted ps s.memtable h.counted.sorted; exact = refl };
        valid = All-put_all ps s.memtable writes h.valid;
        holds =
            AllHold-others wal s.sstables d after gss (Kept-others wal d after kept) apart h.holds;
        saved =
            IsSaved-wal s.dir wal s.next_sstable_id s.sstables gss d after h.wal_named kept h.saved;
        named = h.named;
        wal_named = h.wal_named;
        is_log = is_log;
        log_valid = batch_log-IsWalEntry ps s log h.log_valid writes fits;
        closed =
            IsClosed-append log (batch ++ (last ∷ [])) [] h.closed
              (IsClosed-batch ps n last [] refl);
        replays = Replays-batch log s.memtable ps n last h.closed h.counted.sorted h.replays refl;
      }

  -- What a commit needs: writes that the log and a record can hold, numbers that fit a u64, and files
  -- whose offsets fit a u32.
  pub record CanCommit (s : Store) (gss : List (List Group)) (ps : BTreeMap (Option Value))
      : Type 0 where
    pub sorted : IsSorted ps
    pub writes : All IsWrite ps
    pub numbered : s.sequence + length ps < 2 ^ 64
    pub named : s.next_sstable_id + 2 < 2 ^ 64
    pub flushes : Fits (put_all ps s.memtable)
    pub compacts : Fits (compacted (put_all ps s.memtable ∷ runs gss))

  commit_pending-IsOpen :
      (ps : BTreeMap (Option Value)) (s : Store) (d : Disk) (gss : List (List Group))
      (log : List WalEntry)
      → IsOpen s d gss log
      → CanCommit s gss ps
      → (t : Store) × (after : Disk) × (other : List (List Group)) × (rest : List WalEntry)
        × (commit_pending ps (s, d) ≡ (ok tt, (t, after)))
        × ((q : Bytes) → view t other q ≡ overlay (BTreeMap.get q ps) (view s gss q))
        × IsOpen t after other rest
        × Grows s t gss other (batch_weight ps) 2 (length ps)
  unfolding commit_pending on_wal current_sequence
  commit_pending-IsOpen [] s d gss log h can = (
    s,
    d,
    gss,
    log,
    refl,
    λ q. unfold BTreeMap.get in refl,
    h,
    record { room = omega arith; ids = omega arith; numbers = omega arith },
  )
  commit_pending-IsOpen (p ∷ ps) s d gss log h can =
      let (file, middle, appended, is_batch, first) =
        append_pending_lem (p ∷ ps) s d log h.works h.is_log can.numbered in
      let n = s.sequence + length (p ∷ ps) in
      let batch = batch_entries s.sequence (p ∷ ps) in
      let w = record s.wal { file = file } in
      let (end, marked, stored, second) =
        write_commit_lem n w middle (log ++ batch) first.works is_batch in
      let kept = Kept-trans s.wal.file_path d middle end first second in
      let is_log : IsLog s.wal end (batch_log s (p ∷ ps) log) =
        rw (← append_assoc log batch (commit_entry n ∷ []))
          (IsLog-file s.wal end ((log ++ batch) ++ (commit_entry n ∷ [])) stored) in
      let opened = applied-IsOpen (p ∷ ps) s d end gss log h can.writes can.numbered kept is_log in
      let u = record s { wal = record s.wal { file = true }; sequence = n } in
      let inserted =
        insert_pending_lem (p ∷ ps) u end
          (record { sorted = h.counted.sorted; exact = h.counted.exact }) in
      let (t, after, other, rest, done, shows, kept_open, grows) =
        maybe_flush-IsOpen (applied s (p ∷ ps)) end gss (batch_log s (p ∷ ps) log) opened can.named
          can.flushes can.compacts in
      (
        t,
        after,
        other,
        rest,
        rw (appended, marked, inserted, done) refl,
        λ q.
            shows q
            ∙ (ap (λ o. seen (or_else o (newest q gss)))
                  (get-put_all q (p ∷ ps) s.memtable can.sorted)
                ∙ seen-written (BTreeMap.get q (p ∷ ps)) (BTreeMap.get q s.memtable)
                    (newest q gss)),
        kept_open,
        record {
          room = omega (arith, grows.room, weight-put_all_le (p ∷ ps) s.memtable);
          ids = grows.ids;
          numbers = omega (arith, grows.numbers);
        },
      )

  -- On a working disk, `commit` of a transaction on an open store, with room for it in the numbers
  -- and in a file, succeeds and leaves an open store: each key that the transaction wrote then
  -- reads as written, `None` after a delete, and every other key as before. The store then holds at
  -- most as many bytes more as the batch weighs, has numbered each write and taken at most two ids.
  pub commit-IsOpen :
      (tx : Transaction) (d : Disk) (gss : List (List Group)) (log : List WalEntry)
      → IsOpen tx.store d gss log
      → CanCommit tx.store gss tx.pending
      → (t : Store) × (after : Disk) × (other : List (List Group)) × (rest : List WalEntry)
        × (commit tx d ≡ (ok tt, (t, after)))
        × ((q : Bytes) → view t other q ≡ overlay (BTreeMap.get q tx.pending) (view tx.store gss q))
        × IsOpen t after other rest
        × Grows tx.store t gss other (batch_weight tx.pending) 2 (length tx.pending)
  unfolding commit
  commit-IsOpen tx d gss log h can = commit_pending-IsOpen tx.pending tx.store d gss log h can
