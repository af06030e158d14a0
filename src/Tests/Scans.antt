-- ===== src/Tests/Scans.antt =====
-- A run of the scans of a table handle.
use ferrum_db.Base.{
  ◌≡◌, refl, All, true, Option, none, some, List, [], ◌∷◌, Ordering, arith, if◌then◌else◌,
}
use ferrum_db.Base.Bytes.{Bytes, IsByte, cmp}
use ferrum_db.BTreeMap
use ferrum_db.BTreeMap.{BTreeMap, IsSorted}
use ferrum_db.Proto.{WalEntry}
use ferrum_db.Value.{Value, Entry, value, bytes, to_proto, entry_footprint}
use ferrum_db.Disk.{Disk}
use ferrum_db.Api.{ok}
use ferrum_db.Wal.{create_put_entry, commit_entry}
use ferrum_db.Wal.Frames.{frames}
use ferrum_db.SsTable.Record
use ferrum_db.Store.{Store, resolve}
use ferrum_db.Store.Files.{wal_path}
use ferrum_db.Store.Lookup.{newest, seen}
use ferrum_db.BTreeMap.Lookup.{or_else}
use Prim.Native.Nat.Ordering.{lt, eq, gt}
use ferrum_db.Store.Memtable.{total}
use ferrum_db.Store.Replay.Batches.{batch_entries, put_all, Replays-batch, Replays-empty}
use ferrum_db.Store.Listing.{Listed-none, wal-NoTable}
use ferrum_db.Store.Valid.{IsOpen, view}
use ferrum_db.Store.Write.{log_entry, memtable_entry}
use ferrum_db.Table.Handle.{Pairs, get, scan_prefix}
use ferrum_db.Table.Handle.Scans.{IsBytes, scan_prefix-get}
use ferrum_db.Table.Prefix.{starts_with}
use ferrum_db.Tests.Codec.{sample_codec, encode_kind}
use ferrum_db.Tests.Samples.{table_dir, disk_with}

abbrev first_key : Bytes
first_key = b'a' ∷ []

abbrev second_key : Bytes
second_key = b'b' ∷ b'a' ∷ []

abbrev writes : BTreeMap (Option Value)
writes = (first_key, some (bytes (1 ∷ []))) ∷ (second_key, some (bytes (2 ∷ []))) ∷ []

abbrev memtable : BTreeMap Entry
memtable = (first_key, value (bytes (1 ∷ []))) ∷ (second_key, value (bytes (2 ∷ []))) ∷ []

abbrev log : List WalEntry
log =
    create_put_entry first_key (bytes (1 ∷ [])) 1
    ∷ create_put_entry second_key (bytes (2 ∷ [])) 2
    ∷ commit_entry 2
    ∷ []

-- A store of two keys, written in one batch.
abbrev handled : Store
handled = record {
  memtable = memtable;
  memtable_bytes = 5;
  memtable_max_bytes = 4096;
  wal = record { file_path = wal_path table_dir; file = true };
  sequence = 2;
  dir = table_dir;
  sstables = [];
  next_sstable_id = 1;
}

abbrev handled_disk : Disk
handled_disk = disk_with (wal_path table_dir) (frames ⦃c = sample_codec⦄ log)

handled-IsOpen : IsOpen ⦃c = sample_codec⦄ handled handled_disk [] log
unfolding BTreeMap.get cmp wal_path total entry_footprint create_put_entry batch_entries log_entry
    put_all memtable_entry BTreeMap.insert to_proto sample_codec encode_kind Record.entry_bytes
handled-IsOpen = record {
  works = refl;
  counted = record { sorted = ((refl, tt), (tt, tt)); exact = refl };
  valid = (
    record { key_fits = omega arith; bytes_fit = omega arith; holds = (omega arith, tt) },
    (record { key_fits = omega arith; bytes_fit = omega arith; holds = (omega arith, tt) }, tt),
  );
  holds = tt;
  saved = record {
    ids = [];
    paths = refl;
    stored = tt;
    listed = Listed-none table_dir handled_disk.files (wal-NoTable table_dir, tt);
    no_dirs = tt;
  };
  named = tt;
  wal_named = refl;
  is_log = refl;
  log_valid = (
    record {
      key_bytes = (omega arith, tt);
      value_holds = (omega arith, tt);
      sequence_fits = omega arith;
      timestamp_fits = omega arith;
    },
    (
      record {
        key_bytes = (omega arith, (omega arith, tt));
        value_holds = (omega arith, tt);
        sequence_fits = omega arith;
        timestamp_fits = omega arith;
      },
      (
        record {
          key_bytes = tt;
          value_holds = tt;
          sequence_fits = omega arith;
          timestamp_fits = omega arith;
        },
        tt,
      ),
    ),
  );
  closed = refl;
  replays = Replays-batch [] [] writes 0 (commit_entry 2) refl tt Replays-empty refl;
}

-- A lookup among the two values, by what its two comparisons answer.
among-IsBytes :
    (a b : Ordering) (v : Value)
    → seen (
        or_else
          (elim a [
            | eq ↦ some (value (bytes (1 ∷ [])))
            | _ ↦ elim b [ eq ↦ some (value (bytes (2 ∷ []))) | _ ↦ none ]
          ])
          none)
      ≡ some v
    → IsBytes v
unfolding resolve
among-IsBytes eq b v e = (1 ∷ [], cc)
among-IsBytes lt eq v e = (2 ∷ [], cc)
among-IsBytes lt lt v e = cc
among-IsBytes lt gt v e = cc
among-IsBytes gt eq v e = (2 ∷ [], cc)
among-IsBytes gt lt v e = cc
among-IsBytes gt gt v e = cc

handled-IsBytes : (q : Bytes) (v : Value) → view handled [] q ≡ some v → IsBytes v
unfolding BTreeMap.get newest
handled-IsBytes q v e = among-IsBytes (cmp q first_key) (cmp q second_key) v e

scan_prefix-get_example :
    (out : Pairs) × (scan_prefix ⦃c = sample_codec⦄ (b'b' ∷ []) (handled, handled_disk)
      ≡ (ok out, (handled, handled_disk)))
    × IsSorted out
    × ((q : Bytes)
        → All IsByte q
        → ok (BTreeMap.get q out) ≡ (
            if starts_with (b'b' ∷ []) q
            then (get ⦃c = sample_codec⦄ q (handled, handled_disk)).0
            else ok none))
scan_prefix-get_example =
    scan_prefix-get ⦃c = sample_codec⦄ (b'b' ∷ []) handled handled_disk [] log handled-IsOpen
      handled-IsBytes (omega arith, tt)
