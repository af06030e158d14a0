-- ===== src/Store/Replay.antt =====
-- `Store::replay_wal` of ferrumdb-core/src/store.rs.
pub mod Batches
pub mod Durable
use ferrum_db.Base.{ℕ, max, Option, none, some, List, [], ◌∷◌, ◌++◌}
use ferrum_db.Errors.{Result, ok, ◌>>=◌}
use ferrum_db.Errors
use ferrum_db.Proto.{WalEntry, ValueMessage, Operation, put, delete, commit, Codec}
use ferrum_db.Value.{value, tombstone, from_proto}
use ferrum_db.Disk.{Disk, Exec}
use ferrum_db.Disk
use ferrum_db.Wal.{read_for_recovery}
use ferrum_db.Store.{Store, memtable_insert}
use ferrum_db.Store.Write.{on_wal, after_insert}

-- `if let Some(value_msg) = &e.value { … }`
unfoldable pub replay_put : Option ValueMessage → WalEntry → Store → Result Store
replay_put none e s = ok s
replay_put (some m) e s = do v ← from_proto m; memtable_insert e.key (value v) s

unfoldable pub replay_one : Operation → WalEntry → Store → Result Store
replay_one put e s = replay_put e.value e s
replay_one delete e s = memtable_insert e.key tombstone s
replay_one commit e s = ok s

-- `self.sequence = self.sequence.max(…)`
unfoldable pub note_sequence : ℕ → Store → Store
note_sequence n s = record s { sequence = max s.sequence n }

-- `for e in &pending { … }`
unfoldable pub replay_pending : List WalEntry → Store → Result Store
replay_pending [] s = ok s
replay_pending (e ∷ es) s = do
  t ← replay_one e.operation e s
  replay_pending es (note_sequence e.sequence t)

-- The loop over the recovered entries.
unfoldable pub replay : List WalEntry → List WalEntry → Store → Result Store
replay [] pending s = ok s
replay (e ∷ es) pending s = elim e.operation [
  | put ↦ replay es (pending ++ (e ∷ [])) s
  | delete ↦ replay es (pending ++ (e ∷ [])) s
  | commit ↦ replay_pending pending s >>= λ t. replay es [] (note_sequence e.sequence t)
]

module _ ⦃c : Codec⦄ where
  unfoldable pub replay_entries : List WalEntry → Exec (Store × Disk) (Unit {0})
  replay_entries es s = after_insert (replay es [] s.0) s

  -- `Store::replay_wal`. What an error leaves is not kept: `open_with_dir` drops the store.
  unfoldable pub replay_wal : Exec (Store × Disk) (Unit {0})
  replay_wal = Disk.◌>>=◌ (on_wal read_for_recovery) replay_entries
