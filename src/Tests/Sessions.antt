-- ===== src/Tests/Sessions.antt =====
-- Runs of whole sessions on a store with two tables: opening its directory again, and commits.
use ferrum_db.Base.{
  ◌+◌, ◌≤◌, ◌<◌, ◌^◌, ◌≡◌, refl, ap, ◌∙◌, Option, none, some, List, [], ◌∷◌, length, map, take, leb,
  arith, if◌then◌else◌,
}
use ferrum_db.Base.Bytes.{Bytes, cmp}
use ferrum_db.BTreeMap
use ferrum_db.BTreeMap.{BTreeMap, IsSorted}
use ferrum_db.Errors
use ferrum_db.Value.{integer}
use ferrum_db.Disk.{pass, fail, write_all}
use ferrum_db.Wal.{append, writer, write_commit}
use ferrum_db.Store.{increment}
use ferrum_db.Store.Write.{append_pending, bump, on_wal, current_sequence, commit_pending}
use ferrum_db.Store.Write.Failed.{SameData, log_batch}
use ferrum_db.Store.Open.Failed.{AllOrNone, commit_pending-AllOrNone}
use ferrum_db.Errors.{ok, Answers}
use ferrum_db.Proto.{WalEntry}
use ferrum_db.Value.{Value, bytes, to_proto}
use ferrum_db.Disk.{Disk}
use ferrum_db.Wal.Frames.{frames}
use ferrum_db.SsTable.Record
use ferrum_db.SsTable.Record.{find_in_block, decode_loop}
use ferrum_db.SsTable.Record.Total.{find_in_block-Answers}
use ferrum_db.SsTable.Table.Layout.{Group}
use ferrum_db.SsTable.Table.Size.{weight, keys_size, values_size}
use ferrum_db.Store.{Store}
use ferrum_db.Store.Files.{lock_path}
use ferrum_db.Store.Room.{used, runs_weight, weight-compacted_le}
use ferrum_db.Store.Compact.Merged.{compacted, runs}
use ferrum_db.Store.Write.Flush.{flush-IsOpen}
use ferrum_db.Store.Session.Acts.{weight-Fits}
use ferrum_db.Store.Valid.{IsOpen, view}
use ferrum_db.Store.Open.{open_with_dir}
use ferrum_db.Store.Open.Reopen.{open_with_dir-view}
use ferrum_db.Store.Open.Torn.{ended, open_with_dir-torn}
use ferrum_db.Store.Write.{memtable_entry, log_entry}
use ferrum_db.Store.Write.Batch.{overlay, batch_weight}
use ferrum_db.Store.Write.Commit.{batch_log, commit-IsOpen}
use ferrum_db.Store.Session.{Act, View, Trace, Step, Runs, Shows, cost, costs}
use ferrum_db.Store.Session.Reads.{get_value-IsOpen}
use ferrum_db.Store.Session.Refines.{runs-Trace, commits-Runs, writes_in}
use ferrum_db.Tests.Codec.{sample_codec, encode_kind, encode_entry}
use ferrum_db.Tests.Samples.{table_dir, entries}
use ferrum_db.Tests.Live.{
  live, live_disk, live_blocks, live_blocks-runs, live-IsOpen, log, memtable, newer, one_put,
  two_writes,
}
use ferrum_db.Tests.Writes.{one_put-CanCommit, two_writes-CanCommit}
use ferrum_db.Base.Words.{u64_bytes}
use ferrum_db.Wal.{frame, create_put_entry, create_delete_entry}
use ferrum_db.Store.Replay.Batches.{batch_entries}
use mathlib.Core.List.{reverse}
use mathlib.Core.List.Permᴰ

-- The directory is listed backwards.
abbrev listed : List Bytes → List Bytes
listed names = reverse names

live-free : BTreeMap.get (lock_path live.dir) live_disk.locks ≡ none
unfolding BTreeMap.get
live-free = refl

length-logs :
    (length (frames ⦃c = sample_codec⦄ log) ≡ 29)
    × (length (frames ⦃c = sample_codec⦄ (batch_log live two_writes log)) ≡ 72)
unfolding sample_codec encode_entry frame frames u64_bytes create_put_entry create_delete_entry
    to_proto encode_kind batch_entries log_entry
length-logs = (refl, refl)

open_with_dir-view_example :
    (t : Store) × (after : Disk) × (other : List (List Group)) × (open_with_dir ⦃c = sample_codec⦄
        listed table_dir live_disk
      ≡ (ok t, after))
    × ((q : Bytes) → view t other q ≡ view live live_blocks q)
    × IsOpen ⦃c = sample_codec⦄ t after other log
    × (used ⦃c = sample_codec⦄ t other ≡ used ⦃c = sample_codec⦄ live live_blocks)
open_with_dir-view_example =
    open_with_dir-view ⦃c = sample_codec⦄ listed Permᴰ.reverse live live_disk live_blocks log []
      live-IsOpen live-free (omega arith) (omega (arith, length-logs.0))

open_with_dir-torn_example :
    (t : Store) × (after : Disk) × (other : List (List Group)) × (rest : List WalEntry)
    × (open_with_dir ⦃c = sample_codec⦄ listed table_dir (
          ended live
            (take 50 (frames ⦃c = sample_codec⦄ (batch_log live two_writes log)))
            []
            live_disk)
        ≡ (ok t, after))
    × ((q : Bytes)
        → view t other q ≡ (
            if leb (length (frames ⦃c = sample_codec⦄ (batch_log live two_writes log))) 50
            then overlay (BTreeMap.get q two_writes) (view live live_blocks q)
            else view live live_blocks q))
    × IsOpen ⦃c = sample_codec⦄ t after other rest
    × (used ⦃c = sample_codec⦄ t other
        ≤ used ⦃c = sample_codec⦄ live live_blocks + batch_weight ⦃c = sample_codec⦄ two_writes)
open_with_dir-torn_example =
    open_with_dir-torn ⦃c = sample_codec⦄ listed Permᴰ.reverse live live_disk live_blocks log []
      live-IsOpen live-free (omega arith) two_writes 50 (two_writes-CanCommit.sorted)
      (two_writes-CanCommit.writes) (omega arith) (omega (arith, length-logs.1))
      (omega (arith, length-logs.0)) (omega (arith, length-logs.1))

-- Two bytes of a record, and then nothing.
find_in_block-Answers_example :
    Answers (find_in_block ⦃c = sample_codec⦄ (0 ∷ 9 ∷ []) (b'a' ∷ []))
    × Answers (decode_loop ⦃c = sample_codec⦄ 2 (0 ∷ 9 ∷ []))
find_in_block-Answers_example = find_in_block-Answers ⦃c = sample_codec⦄ (0 ∷ 9 ∷ []) (b'a' ∷ [])

live-weighs :
    weight ⦃c = sample_codec⦄ memtable + runs_weight ⦃c = sample_codec⦄ (newer ∷ entries ∷ [])
    ≤ 1000
unfolding runs_weight weight keys_size values_size sample_codec encode_kind Record.entry_bytes
    to_proto
live-weighs = omega arith

live-used : used ⦃c = sample_codec⦄ live live_blocks ≤ 1000
live-used = omega (arith, ap (runs_weight ⦃c = sample_codec⦄) live_blocks-runs, live-weighs)

writes-weigh :
    (batch_weight ⦃c = sample_codec⦄ one_put ≤ 1000)
    × (batch_weight ⦃c = sample_codec⦄ two_writes ≤ 1000)
unfolding batch_weight weight keys_size values_size sample_codec encode_kind Record.entry_bytes
    to_proto memtable_entry
writes-weigh = (omega arith, omega arith)

-- Two commits.
abbrev batches : List (BTreeMap (Option Value))
batches = one_put ∷ two_writes ∷ []

commits-Runs_example :
    (y : Store × Disk) × Runs ⦃c = sample_codec⦄ listed
      (live, live_disk)
      (map Act.commits batches)
      y
unfolding costs cost writes_in
commits-Runs_example =
    commits-Runs ⦃c = sample_codec⦄ listed batches live live_disk live_blocks log live-IsOpen
      (
        (one_put-CanCommit.sorted, one_put-CanCommit.writes),
        ((two_writes-CanCommit.sorted, two_writes-CanCommit.writes), tt),
      )
      (omega (arith, live-used, writes-weigh)) (omega arith) (omega arith)

-- A commit, a flush, and a read of what was written.
abbrev acts : List Act
acts = Act.commits one_put ∷ Act.flushes ∷ Act.reads (b'a' ∷ []) (some (bytes (1 ∷ []))) ∷ []

acts_weigh : costs ⦃c = sample_codec⦄ acts ≤ 1000
unfolding costs cost
acts_weigh = omega (arith, writes-weigh)

put_there :
    (o : Option Value) → overlay (BTreeMap.get (b'a' ∷ []) one_put) o ≡ some (bytes (1 ∷ []))
unfolding BTreeMap.get cmp
put_there o = refl

session : (y : Store × Disk) × Runs ⦃c = sample_codec⦄ listed (live, live_disk) acts y
unfolding runs_weight
session =
    let (t, after, other, rest, ran, now, opened, grows) =
      commit-IsOpen ⦃c = sample_codec⦄ (record { store = live; pending = one_put }) live_disk
        live_blocks log live-IsOpen one_put-CanCommit in
    let merged = compacted (t.memtable ∷ runs other) in
    let few : t.next_sstable_id + 2 < 2 ^ 64 = omega (arith, grows.ids) in
    let (u, end, last, left, flushed, empty, kept, is_open, _) =
      flush-IsOpen ⦃c = sample_codec⦄ t after other rest opened few
        (weight-Fits ⦃c = sample_codec⦄ t.memtable
          (omega (arith, grows.room, live-used, writes-weigh)))
        (weight-Fits ⦃c = sample_codec⦄ merged (
          omega (
            arith,
            grows.room,
            live-used,
            writes-weigh,
            weight-compacted_le ⦃c = sample_codec⦄ (t.memtable ∷ runs other),
          ))) in
    let key : Bytes = b'a' ∷ [] in
    let (tables, found, _) = get_value-IsOpen ⦃c = sample_codec⦄ key u end last left is_open in
    let shown = kept key ∙ (now key ∙ put_there (view live live_blocks key)) in
    let y : Store × Disk = (record u { sstables = tables }, end) in
    (
      y,
      Runs.then
          (Step.committed one_put
            (record {
              sorted = one_put-CanCommit.sorted;
              writes = one_put-CanCommit.writes;
              numbered = omega arith;
              named = omega arith;
            })
            ran)
          (Runs.then (Step.emptied few flushed) (
            Runs.then (Step.asked key (some (bytes (1 ∷ []))) (found ∙ ap (λ v. (ok v, y)) shown))
              Runs.rests)),
    )

runs-Trace_example :
    (n : View) × Trace (view live live_blocks) acts n
    × Shows ⦃c = sample_codec⦄ (session.0) n (1000 + costs ⦃c = sample_codec⦄ acts)
runs-Trace_example =
    runs-Trace ⦃c = sample_codec⦄ listed Permᴰ.reverse (live, live_disk) (session.0) acts
      (view live live_blocks) 1000 (session.1) (live_blocks, log, live-IsOpen, λ q. refl, live-used)
      (omega (arith, acts_weigh))

-- The write of the COMMIT fails: the log is opened already, and each entry takes one call.
abbrev failing : Disk
failing = record live_disk { faults = pass ∷ pass ∷ fail 4 ∷ [] }

failing-err :
    (log_batch ⦃c = sample_codec⦄ two_writes (live, failing)).0
    ≡ Errors.err (Errors.io_error Errors.os)
unfolding append_pending bump on_wal append writer current_sequence write_commit write_all increment
failing-err = refl

commit_pending-AllOrNone_example :
    (u : Store) × (left : Disk) × (t : Store) × (after : Disk) × (other : List (List Group))
    × (rest : List WalEntry) × (commit_pending ⦃c = sample_codec⦄ two_writes (live, failing)
        ≡ (Errors.err (Errors.io_error Errors.os), (u, left)))
    × SameData live u
    × (u.wal.file_path ≡ live.wal.file_path)
    × (open_with_dir ⦃c = sample_codec⦄ listed table_dir (record left { faults = []; locks = [] })
        ≡ (ok t, after))
    × AllOrNone ⦃c = sample_codec⦄ two_writes (view live live_blocks) (view t other)
    × IsOpen ⦃c = sample_codec⦄ t after other rest
commit_pending-AllOrNone_example =
    commit_pending-AllOrNone ⦃c = sample_codec⦄ listed Permᴰ.reverse live live_disk live_blocks log
      [] live-IsOpen live-free (omega arith) (b'a' ∷ [], none) ((b'd' ∷ [], some (integer 3)) ∷ [])
      failing.faults (Errors.io_error Errors.os) (two_writes-CanCommit.sorted)
      (two_writes-CanCommit.writes) (omega arith) (omega (arith, length-logs.1)) failing-err
