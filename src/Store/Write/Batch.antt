-- ===== src/Store/Write/Batch.antt =====
-- The two loops of `commit` on a disk that works.
use ferrum_db.Base.{
  ℕ, Bool, true, ◌+◌, ◌^◌, ◌≤◌, ◌<◌, ◌≡◌, refl, ap, Option, none, some, List, [], ◌∷◌, ◌++◌, All,
  length, arith, append_assoc, append-nil,
}
use ferrum_db.Base.Bytes.{Bytes, IsByte, eq_of_cmp}
use ferrum_db.BTreeMap.{BTreeMap, IsSorted, insert, get}
use ferrum_db.BTreeMap.Lookup.{get-insert, get-Above}
use ferrum_db.BTreeMap.Order.{insert-IsSorted}
use ferrum_db.BTreeMap.Entries.{All-insert}
use ferrum_db.Errors.{ok}
use ferrum_db.Proto.{WalEntry, Codec, IsWalEntry}
use ferrum_db.Value.{Value, Entry, to_proto-IsValueMessage}
use ferrum_db.Disk.{Disk}
use ferrum_db.Disk.Kept.{Kept, Kept-refl, Kept-trans}
use ferrum_db.Wal.{create_put_entry, create_delete_entry}
use ferrum_db.Wal.Append.{IsLog, IsLog-file, append_lem}
use ferrum_db.SsTable.Record.{IsRecord}
use ferrum_db.Store.{Store, increment-fits}
use ferrum_db.Store.Memtable.{IsCounted, memtable_insert-total}
use ferrum_db.Store.Replay.Batches.{batch_entries, put_all, with_memtable}
use ferrum_db.SsTable.Table.Size.{weight}
use ferrum_db.Store.Room.{weight-insert_le}
use ferrum_db.Store.Write.{
  on_wal, bump, insert_entry, after_insert, log_entry, memtable_entry, append_pending,
  insert_pending,
}

-- What a reader sees where a batch wrote `o` and saw `old` before.
abbrev pub overlay : Option (Option Value) → Option Value → Option Value
overlay none old = old
overlay (some v) old = v

abbrev pub written : Option (Option Value) → Option Entry → Option Entry
written none old = old
written (some v) old = some (memtable_entry v)

-- The last write of a batch to a key stands in the memtable.
pub get-put_all :
    (q : Bytes) (ps : BTreeMap (Option Value)) (m : BTreeMap Entry)
    → IsSorted ps
    → get q (put_all ps m) ≡ written (get q ps) (get q m)
unfolding put_all get
get-put_all q [] m s = refl
get-put_all q ((k, v) ∷ ps) m s = ground (
  arith,
  get-put_all q ps (insert k (memtable_entry v) m) s.1,
  get-insert q k (memtable_entry v) m,
  eq_of_cmp q k,
  get-Above q ps,
  s.0,
)

-- The second loop puts the batch into the memtable.
pub insert_pending_lem :
    (ps : BTreeMap (Option Value)) (s : Store) (d : Disk)
    → IsCounted s
    → insert_pending ps (s, d) ≡ (ok tt, (with_memtable s (put_all ps s.memtable) s.sequence, d))
unfolding insert_pending put_all insert_entry after_insert
insert_pending_lem [] s d h = ap (λ n. (ok tt, (record s { memtable_bytes = n }, d))) h.exact
insert_pending_lem ((k, v) ∷ ps) s d h =
    let e = memtable_entry v in
    let m = insert k e s.memtable in
    rw (memtable_insert-total k e s h) (
      insert_pending_lem ps (with_memtable s m s.sequence) d
        (record { sorted = insert-IsSorted k e s.memtable h.sorted; exact = refl }))

module _ ⦃c : Codec⦄ where
  -- The first loop appends the batch to the log and numbers its entries.
  pub append_pending_lem :
      (ps : BTreeMap (Option Value)) (s : Store) (d : Disk) (log : List WalEntry)
      → d.faults ≡ []
      → IsLog s.wal d log
      → s.sequence + length ps < 2 ^ 64
      → (file : Bool) × (after : Disk) × (append_pending ps (s, d) ≡ (
        ok tt,
        (record s { wal = record s.wal { file = file }; sequence = s.sequence + length ps }, after),
      ))
        × IsLog s.wal after (log ++ batch_entries s.sequence ps)
        × Kept s.wal.file_path d after
  unfolding append_pending bump on_wal batch_entries
  append_pending_lem [] s d log healthy holds fits = (
    s.wal.file,
    d,
    ap (λ n. (ok tt, (record s { sequence = n }, d))) (omega arith),
    rw (append-nil log) holds,
    Kept-refl s.wal.file_path d healthy,
  )
  append_pending_lem ((k, v) ∷ ps) s d log healthy holds fits =
      let n = s.sequence + 1 in
      let e = log_entry k v n in
      let (middle, done, stored, first) = append_lem e s.wal d log healthy holds in
      let t = record s { wal = record s.wal { file = true }; sequence = n } in
      let (file, after, rest, all, second) =
        append_pending_lem ps t middle (log ++ (e ∷ [])) first.works
          (IsLog-file s.wal middle (log ++ (e ∷ [])) stored) (omega arith) in
      let counted : n + length ps ≡ s.sequence + length ((k, v) ∷ ps) = omega arith in
      (
        file,
        after,
        rw (increment-fits s.sequence (omega arith), done, rest, counted) refl,
        rw (← append_assoc log (e ∷ []) (batch_entries n ps)) all,
        Kept-trans s.wal.file_path d middle after first second,
      )

  -- A write that the log and a table's record can hold.
  pub record IsWrite (p : Bytes × Option Value) : Type 0 where
    pub key_bytes : All IsByte p.0
    pub holds : IsRecord (p.0, memtable_entry p.1)

  pub All-put_all :
      (ps : BTreeMap (Option Value)) (m : BTreeMap Entry)
      → All IsWrite ps
      → All IsRecord m
      → All IsRecord (put_all ps m)
  unfolding put_all
  All-put_all [] m h valid = valid
  All-put_all ((k, v) ∷ ps) m (w, h) valid =
      let e = memtable_entry v in
      All-put_all ps (insert k e m) h (All-insert IsRecord k e m w.holds valid)

  log_entry-IsWalEntry :
      (k : Bytes) (v : Option Value) (n : ℕ)
      → IsWrite (k, v)
      → n < 2 ^ 64
      → IsWalEntry c.is_utf8 (log_entry k v n)
  unfolding log_entry create_put_entry create_delete_entry memtable_entry
  log_entry-IsWalEntry k none n w fits = record {
    key_bytes = w.key_bytes;
    value_holds = tt;
    sequence_fits = fits;
    timestamp_fits = omega arith;
  }
  log_entry-IsWalEntry k (some v) n w fits = record {
    key_bytes = w.key_bytes;
    value_holds = to_proto-IsValueMessage c.is_utf8 v w.holds.holds;
    sequence_fits = fits;
    timestamp_fits = omega arith;
  }

  pub batch_entries-IsWalEntry :
      (ps : BTreeMap (Option Value)) (n : ℕ)
      → All IsWrite ps
      → n + length ps < 2 ^ 64
      → All (IsWalEntry c.is_utf8) (batch_entries n ps)
  unfolding batch_entries
  batch_entries-IsWalEntry [] n h fits = tt
  batch_entries-IsWalEntry ((k, v) ∷ ps) n (w, h) fits = (
    log_entry-IsWalEntry k v (n + 1) w (omega arith),
    batch_entries-IsWalEntry ps (n + 1) h (omega arith),
  )

  -- The room that the writes of a batch take.
  unfoldable pub batch_weight : BTreeMap (Option Value) → ℕ
  batch_weight [] = 0
  batch_weight ((k, v) ∷ ps) = weight ((k, memtable_entry v) ∷ []) + batch_weight ps

  pub weight-put_all_le :
      (ps : BTreeMap (Option Value)) (m : BTreeMap Entry)
      → weight (put_all ps m) ≤ weight m + batch_weight ps
  unfolding put_all batch_weight
  weight-put_all_le [] m = omega arith
  weight-put_all_le ((k, v) ∷ ps) m =
      let e = memtable_entry v in
      omega (arith, weight-put_all_le ps (insert k e m), weight-insert_le k e m)
