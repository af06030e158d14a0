-- ===== src/Store/Session.antt =====
-- What a program does with a store of ferrumdb-core/src/store.rs, call after call and process after
-- process: the steps of the code, and what they do to the map that a reader sees.
pub mod Reads
pub mod Acts
pub mod Refines
use ferrum_db.Base.{
  ℕ, ◌+◌, ◌^◌, ◌≤◌, ◌<◌, ◌≡◌, ◌⊎◌, Option, none, List, [], ◌∷◌, ◌++◌, length, take, All,
}
use ferrum_db.Base.Bytes.{Bytes}
use ferrum_db.BTreeMap
use ferrum_db.BTreeMap.{BTreeMap, IsSorted}
use ferrum_db.Errors.{ok}
use ferrum_db.Proto.{WalEntry, Codec}
use ferrum_db.Value.{Value}
use ferrum_db.Disk.{Disk, contents}
use ferrum_db.Wal.Frames.{frames}
use ferrum_db.SsTable.Table.Layout.{Group}
use ferrum_db.Store.{Store, get_value}
use ferrum_db.Store.Files.{lock_path}
use ferrum_db.Store.Room.{used}
use ferrum_db.Store.Valid.{IsOpen, view}
use ferrum_db.Store.Open.{open_with_dir}
use ferrum_db.Store.Open.Torn.{ended}
use ferrum_db.Store.Transaction.{Transaction}
use ferrum_db.Store.Write.{commit, flush}
use ferrum_db.Store.Write.Batch.{IsWrite, overlay, batch_weight}
use ferrum_db.Store.Write.Commit.{batch_log}

-- A read and its answer, a commit, a flush, an end of the process with a new one, and an end within
-- the write of a batch to the log.
pub data Act : Type 0 where
  reads : Bytes → Option Value → Act
  commits : BTreeMap (Option Value) → Act
  flushes : Act
  reopens : Act
  crashes : BTreeMap (Option Value) → Act

-- The map that a reader sees.
abbrev pub View : Type 0
View = Bytes → Option Value

-- What an act does to the map. A crash leaves all of the batch or nothing of it.
abbrev pub Becomes : Act → View → View → Type 0
Becomes (reads q v) m n = (m q ≡ v) × ((k : Bytes) → n k ≡ m k)
Becomes (commits ps) m n = (k : Bytes) → n k ≡ overlay (BTreeMap.get k ps) (m k)
Becomes flushes m n = (k : Bytes) → n k ≡ m k
Becomes reopens m n = (k : Bytes) → n k ≡ m k
Becomes (crashes ps) m n =
    ((k : Bytes) → n k ≡ m k) ⊎ ((k : Bytes) → n k ≡ overlay (BTreeMap.get k ps) (m k))

-- The maps that a list of acts can go through.
pub data Trace : View → List Act → View → Type 0 where
  stays : {m : View} → Trace m [] m
  goes :
      {m n k : View} {a : Act} {acts : List Act}
      → Becomes a m n
      → Trace n acts k
      → Trace m (a ∷ acts) k

-- A batch that a caller can commit: a `BTreeMap` of values that the Rust types hold, with room in
-- the counters.
pub record IsBatch ⦃c : Codec⦄ (s : Store) (ps : BTreeMap (Option Value)) : Type 0 where
  pub sorted : IsSorted ps
  pub writes : All IsWrite ps
  pub numbered : s.sequence + length ps < 2 ^ 64
  pub named : s.next_sstable_id + 2 < 2 ^ 64

module _ ⦃c : Codec⦄ where
  -- The log's file with a batch and its COMMIT behind what is there.
  abbrev pub whole_file : Store → Disk → BTreeMap (Option Value) → Bytes
  whole_file s d ps = contents s.wal.file_path d ++ frames (batch_log s ps [])

module _ ⦃c : Codec⦄ (order : List Bytes → List Bytes) where
  -- One act as the code does it. A new process finds the lock free.
  pub data Step : Store × Disk → Act → Store × Disk → Type 0 where
    asked :
        (q : Bytes) (v : Option Value) {x y : Store × Disk}
        → get_value q x ≡ (ok v, y)
        → Step x (reads q v) y
    committed :
        (ps : BTreeMap (Option Value)) {s : Store} {d : Disk} {y : Store × Disk}
        → IsBatch s ps
        → commit (record { store = s; pending = ps }) d ≡ (ok tt, y)
        → Step (s, d) (commits ps) y
    emptied :
        {s : Store} {d : Disk} {y : Store × Disk}
        → s.next_sstable_id + 2 < 2 ^ 64
        → flush (s, d) ≡ (ok tt, y)
        → Step (s, d) flushes y
    reopened :
        (locks : BTreeMap (Unit {0})) {s t : Store} {d after : Disk}
        → BTreeMap.get (lock_path s.dir) locks ≡ none
        → s.next_sstable_id < 2 ^ 64
        → length (contents s.wal.file_path d) < 2 ^ 64
        → open_with_dir order s.dir (record d { locks = locks }) ≡ (ok t, after)
        → Step (s, d) reopens (t, after)
    crashed :
        (ps : BTreeMap (Option Value)) (n : ℕ) (locks : BTreeMap (Unit {0})) {s t : Store}
        {d after : Disk}
        → IsBatch s ps
        → BTreeMap.get (lock_path s.dir) locks ≡ none
        → length (whole_file s d ps) < 2 ^ 64
        → length (contents s.wal.file_path d) ≤ n
        → n ≤ length (whole_file s d ps)
        → open_with_dir order s.dir (ended s (take n (whole_file s d ps)) locks d) ≡ (ok t, after)
        → Step (s, d) (crashes ps) (t, after)

  pub data Runs : Store × Disk → List Act → Store × Disk → Type 0 where
    rests : {x : Store × Disk} → Runs x [] x
    then :
        {x y z : Store × Disk} {a : Act} {acts : List Act}
        → Step x a y
        → Runs y acts z
        → Runs x (a ∷ acts) z

module _ ⦃c : Codec⦄ where
  -- The bytes that an act adds at most.
  unfoldable pub cost : Act → ℕ
  cost (reads q v) = 0
  cost (commits ps) = batch_weight ps
  cost flushes = 0
  cost reopens = 0
  cost (crashes ps) = batch_weight ps

  unfoldable pub costs : List Act → ℕ
  costs [] = 0
  costs (a ∷ acts) = cost a + costs acts

  -- The store is open, shows the map, and takes at most `bytes`.
  abbrev pub Shows : Store × Disk → View → ℕ → Type 0
  Shows x m bytes =
      (gss : List (List Group)) × (log : List WalEntry) × IsOpen x.0 x.1 gss log
      × ((q : Bytes) → view x.0 gss q ≡ m q)
      × (used x.0 gss ≤ bytes)
