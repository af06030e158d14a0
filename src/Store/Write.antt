-- ===== src/Store/Write.antt =====
-- The writes of ferrumdb-core/src/store.rs: `set_value`, `delete_value`, `Transaction::commit` and
-- the flush that they may cause. The texts that `set_value` and `delete_value` return on success
-- are left out.
pub mod Flush
pub mod Batch
pub mod Commit
pub mod Single
pub mod Failed
pub mod Partial
use ferrum_db.Base.{ℕ, ◌+◌, Option, none, some, List, [], ◌∷◌, leb, if◌then◌else◌}
use ferrum_db.Base.Bytes.{Bytes}
use ferrum_db.BTreeMap.{BTreeMap}
use ferrum_db.Errors.{Result, ok, err, panic}
use ferrum_db.Proto.{WalEntry, Codec}
use ferrum_db.Value.{Value, Entry, value, tombstone}
use ferrum_db.Disk.{Disk, Exec, ◌>>=◌, ◌>>◌, pure, lift, on_disk}
use ferrum_db.Wal.{Wal, create_put_entry, create_delete_entry, append, write_commit, clear}
use ferrum_db.SsTable.Table.{SsTable}
use ferrum_db.SsTable.Table.Build
use ferrum_db.Store.{Store, increment, memtable_insert}
use ferrum_db.Store.Files.{sstable_path}
use ferrum_db.Store.Compact.{maybe_compact}
use ferrum_db.Store.Transaction.{Transaction}

-- A call of the store's log.
unfoldable pub on_wal : {A : Type 0} → Exec (Wal × Disk) A → Exec (Store × Disk) A
on_wal m s = let (r, t) = m (s.0.wal, s.1) in (r, (record s.0 { wal = t.0 }, t.1))

-- `self.sequence += 1`, with the new value.
unfoldable pub bump : Exec (Store × Disk) ℕ
bump s =
    (do next ← lift (increment s.0.sequence); λ u. (ok next, (record u.0 { sequence = next }, u.1)))
      s

unfoldable pub current_sequence : Exec (Store × Disk) ℕ
current_sequence s = (ok s.0.sequence, s)

unfoldable pub after_insert : Result Store → Exec (Store × Disk) (Unit {0})
after_insert (ok t) s = (ok tt, (t, s.1))
after_insert (err e) s = (err e, s)
after_insert panic s = (panic, s)

-- A call of `memtable_insert`.
unfoldable pub insert_entry : Bytes → Entry → Exec (Store × Disk) (Unit {0})
insert_entry key e s = after_insert (memtable_insert key e s.0) s

unfoldable pub install_flushed : SsTable → Exec (Store × Disk) (Unit {0})
install_flushed t s =
    (do
      next ← lift (increment s.0.next_sstable_id)
      λ u. (
        ok tt,
        (
          record u.0 {
            next_sstable_id = next;
            sstables = t ∷ u.0.sstables;
            memtable = [];
            memtable_bytes = 0;
          },
          u.1,
        ),
      ))
      s

-- The entry of the log, and of the memtable, for a buffered write.
unfoldable pub log_entry : Bytes → Option Value → ℕ → WalEntry
log_entry key (some v) sequence = create_put_entry key v sequence
log_entry key none sequence = create_delete_entry key sequence

unfoldable pub memtable_entry : Option Value → Entry
memtable_entry (some v) = value v
memtable_entry none = tombstone

-- The second loop of `commit`.
unfoldable pub insert_pending : BTreeMap (Option Value) → Exec (Store × Disk) (Unit {0})
insert_pending [] = pure tt
insert_pending ((key, v) ∷ pending) = do insert_entry key (memtable_entry v); insert_pending pending

module _ ⦃c : Codec⦄ where
  unfoldable pub flush_entries : BTreeMap Entry → Exec (Store × Disk) (Unit {0})
  flush_entries [] s = (ok tt, s)
  flush_entries (e ∷ entries) s =
      (do
        t ← on_disk (Build.flush s.0.dir (sstable_path s.0.dir s.0.next_sstable_id) (e ∷ entries))
        install_flushed t
        on_wal clear
        maybe_compact)
        s

  -- `Store::flush`
  unfoldable pub flush : Exec (Store × Disk) (Unit {0})
  flush s = flush_entries s.0.memtable s

  -- `Store::maybe_flush`
  unfoldable pub maybe_flush : Exec (Store × Disk) (Unit {0})
  maybe_flush s = if leb s.0.memtable_max_bytes s.0.memtable_bytes then flush s else (ok tt, s)

  -- `Store::set_value`
  unfoldable pub set_value : Bytes → Value → Exec (Store × Disk) (Unit {0})
  set_value key v = do
    sequence ← bump
    on_wal (append (create_put_entry key v sequence))
    on_wal (write_commit sequence)
    insert_entry key (value v)
    maybe_flush

  -- `Store::delete_value`
  unfoldable pub delete_value : Bytes → Exec (Store × Disk) (Unit {0})
  delete_value key = do
    sequence ← bump
    on_wal (append (create_delete_entry key sequence))
    on_wal (write_commit sequence)
    insert_entry key tombstone
    maybe_flush

  -- The first loop of `commit`.
  unfoldable pub append_pending : BTreeMap (Option Value) → Exec (Store × Disk) (Unit {0})
  append_pending [] = pure tt
  append_pending ((key, v) ∷ pending) = do
    sequence ← bump
    on_wal (append (log_entry key v sequence))
    append_pending pending

  unfoldable pub commit_pending : BTreeMap (Option Value) → Exec (Store × Disk) (Unit {0})
  commit_pending [] = pure tt
  commit_pending (p ∷ pending) = do
    append_pending (p ∷ pending)
    sequence ← current_sequence
    on_wal (write_commit sequence)
    insert_pending (p ∷ pending)
    maybe_flush

  -- `Transaction::commit`, with the store that it leaves.
  unfoldable pub commit : Transaction → Disk → Result (Unit {0}) × (Store × Disk)
  commit tx d = commit_pending tx.pending (tx.store, d)
