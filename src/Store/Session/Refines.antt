-- ===== src/Store/Session/Refines.antt =====
-- The steps of ferrumdb-core/src/store.rs do to the map that a reader sees what the acts say.
use ferrum_db.Base.{ℕ, ◌+◌, ◌*◌, ◌^◌, ◌<◌, Option, List, [], ◌∷◌, length, map, All, arith}
use ferrum_db.Base.Bytes.{Bytes}
use ferrum_db.BTreeMap.{BTreeMap, IsSorted}
use ferrum_db.Proto.{WalEntry, Codec}
use ferrum_db.Value.{Value}
use ferrum_db.Disk.{Disk}
use ferrum_db.SsTable.Table.Layout.{Group}
use ferrum_db.Store.{Store}
use ferrum_db.Store.Room.{used}
use ferrum_db.Store.Valid.{IsOpen}
use ferrum_db.Store.Write.Batch.{IsWrite}
use ferrum_db.Store.Write.Commit.{commit-IsOpen}
use ferrum_db.Store.Session.{Act, View, Becomes, Trace, IsBatch, Step, Runs, cost, costs, Shows}
use mathlib.Core.List.{Permᴰ}
use ferrum_db.Store.Session.Acts.{
  read-Becomes, commit-Becomes, flush-Becomes, reopen-Becomes, crash-Becomes, IsBatch-CanCommit,
}

-- The batches' numbers of writes.
unfoldable pub writes_in : List (BTreeMap (Option Value)) → ℕ
writes_in [] = 0
writes_in (ps ∷ batches) = length ps + writes_in batches

module _ ⦃c : Codec⦄ where
  module _ (order : List Bytes → List Bytes)
      (permutes : (names : List Bytes) → Permᴰ (order names) names) where
    -- One step of the code is one act on the map.
    step-Becomes :
        (x y : Store × Disk) (a : Act) (m : View) (bytes : ℕ)
        → Step order x a y
        → Shows x m bytes
        → bytes + cost a + 53 < 2 ^ 32
        → (n : View) × Becomes a m n × Shows y n (bytes + cost a)
    unfolding cost
    step-Becomes x y a m bytes (Step.asked q v done) shows fits =
        read-Becomes order permutes q v x y m bytes done shows
    step-Becomes x y a m bytes (Step.committed ps {s = s} {d = d} batch done) shows fits =
        commit-Becomes order permutes ps s d y m bytes batch done shows fits
    step-Becomes x y a m bytes (Step.emptied {s = s} {d = d} numbered done) shows fits =
        flush-Becomes order permutes s d y m bytes numbered done shows (omega arith)
    step-Becomes x y a m bytes
          (Step.reopened locks {s = s} {t = t} {d = d} {after = after} free named small done) shows
          fits =
        reopen-Becomes order permutes locks s t d after m bytes free named small done shows
    step-Becomes x y a m bytes
          (Step.crashed ps n locks {s = s} {t = t} {d = d} {after = after} batch free small synced
            le done)
          shows fits =
        crash-Becomes order permutes ps n locks s t d after m bytes batch free small synced le done
          shows

    -- An open store on a working disk, and any run of calls that succeed from then on: reads,
    -- commits, flushes, ends of the process between two calls or while a batch is written to the
    -- log, and new processes that open the directory again. Every read answers from the map that
    -- the acts before it make of the one that the store showed, where a commit writes all of its
    -- batch, a crash all of its batch or nothing of it, and no other act changes the map; at the
    -- end the store is open again and shows that map. The batches have ascending keys and values
    -- that the Rust types hold, the file system lists a directory in any order, a new process finds
    -- the lock free, the sequence numbers and the log's length stay below 2^64, each commit and
    -- each flush has two more ids below 2^64, and what the store holds and what is written weigh
    -- together less than 2^32 - 53 bytes.
    pub runs-Trace :
        (x y : Store × Disk) (acts : List Act) (m : View) (bytes : ℕ)
        → Runs order x acts y
        → Shows x m bytes
        → bytes + costs acts + 53 < 2 ^ 32
        → (n : View) × Trace m acts n × Shows y n (bytes + costs acts)
    unfolding costs
    runs-Trace x y acts m bytes Runs.rests (gss, log, h, shows, room) fits =
        (m, Trace.stays, (gss, log, h, shows, omega arith))
    runs-Trace x y acts m bytes (Runs.then {y = u} {a = a} {acts = rest} step run) shows fits =
        let (n, becomes, now) = step-Becomes x u a m bytes step shows (omega arith) in
        let (k, trace, end) = runs-Trace u y rest n (bytes + cost a) run now (omega arith) in
        let (hss, log, h, kept, room) = end in
        (k, Trace.goes becomes trace, (hss, log, h, kept, omega arith))

  -- From an open store on a working disk, with room for the batches in the sequence numbers, in the
  -- ids and in the bytes (2^32 - 53 in all), no commit in a list of batches fails. The batches have
  -- ascending keys and values that the Rust types hold.
  pub commits-Runs :
      (order : List Bytes → List Bytes) (batches : List (BTreeMap (Option Value))) (s : Store)
      (d : Disk) (gss : List (List Group)) (log : List WalEntry)
      → IsOpen s d gss log
      → All (λ ps. IsSorted ps × All IsWrite ps) batches
      → used s gss + costs (map Act.commits batches) + 53 < 2 ^ 32
      → s.sequence + writes_in batches < 2 ^ 64
      → s.next_sstable_id + 2 * length batches < 2 ^ 64
      → (y : Store × Disk) × Runs order (s, d) (map Act.commits batches) y
  unfolding costs cost writes_in
  commits-Runs order [] s d gss log h valid fits numbered named = ((s, d), Runs.rests)
  commits-Runs order (ps ∷ batches) s d gss log h ((sorted, writes), valid) fits numbered named =
      let batch : IsBatch s ps = record {
        sorted = sorted;
        writes = writes;
        numbered = omega arith;
        named = omega arith;
      } in
      let (t, after, other, rest, ran, now, opened, grows) =
        commit-IsOpen (record { store = s; pending = ps }) d gss log h
          (IsBatch-CanCommit s gss ps batch (omega arith)) in
      let (y, runs_on) =
        commits-Runs order batches t after other rest opened valid (omega (arith, grows.room))
          (omega (arith, grows.numbers)) (omega (arith, grows.ids)) in
      (y, Runs.then (Step.committed ps batch ran) runs_on)
