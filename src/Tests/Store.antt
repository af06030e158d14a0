-- ===== src/Tests/Store.antt =====
-- Runs of the store and of the bounds of a scan.
use ferrum_db.Base.{map, ◌≡◌, refl, false, none, some, List, [], ◌∷◌, arith, if◌then◌else◌}
use ferrum_db.Base.Bytes.{Bytes, cmp}
use ferrum_db.BTreeMap
use ferrum_db.BTreeMap.{BTreeMap, IsSorted}
use ferrum_db.BTreeMap.Lookup.{or_else}
use ferrum_db.Errors.{ok}
use ferrum_db.Value.{Value, Entry, value, integer, tombstone, entry_footprint}
use ferrum_db.SsTable.Table.{SsTable}
use ferrum_db.Store.{Store, memtable_insert, get_value, resolve}
use ferrum_db.Store.Bounds.{
  included, excluded, unbounded, in_bounds, max_below_lo, min_above_hi, range_overlaps,
  range_overlaps-in_bounds,
}
use ferrum_db.Store.Memtable.{IsCounted, total, memtable_insert-IsCounted}
use ferrum_db.Store.Lookup.{newest, seen, AllHold, get_value_lem}
use ferrum_db.Store.Scan.{scan_range, range_panics}
use ferrum_db.Store.Scan.View.{scan_range_lem}
use ferrum_db.Store.Inserted.{get_value-memtable_insert}
use ferrum_db.Store.Transaction.{begin_transaction, rollback}
use ferrum_db.Store.Transaction
use ferrum_db.Store.Transaction.Reads.{put, delete, buffer, last_write, get_value-buffer}
use ferrum_db.Table.{upper_loop, from_last, prefix_upper_bound, upper_bound}
use ferrum_db.Table.Prefix.{starts_with, starts_with-in_bounds}
use ferrum_db.Tests.Codec.{sample_codec}
use ferrum_db.Tests.Samples.{entries, wal, table_dir}
use ferrum_db.Tests.SsTable.{table, disk, table-Holds}

-- A memtable that shadows one key of the table below it.
abbrev newer : BTreeMap Entry
newer = (b'b' ∷ [], value (integer 8)) ∷ []

abbrev store : Store
store = record {
  memtable = newer;
  memtable_bytes = 5;
  memtable_max_bytes = 4096;
  wal = wal;
  sequence = 1;
  dir = table_dir;
  sstables = table ∷ [];
  next_sstable_id = 2;
}

store-IsCounted : IsCounted store
unfolding total entry_footprint
store-IsCounted = record { sorted = (tt, tt); exact = refl }

memtable_insert-IsCounted_example :
    (t : Store) × (memtable_insert (b'b' ∷ []) tombstone store ≡ ok t)
    × (t ≡ record store {
      memtable_bytes = t.memtable_bytes;
      memtable = (b'b' ∷ [], tombstone) ∷ [];
    })
    × IsCounted t
unfolding BTreeMap.insert cmp
memtable_insert-IsCounted_example =
    memtable_insert-IsCounted (b'b' ∷ []) tombstone store store-IsCounted

-- The key in the table answers through the memtable that lacks it.
get_value_lem_example :
    (after : List SsTable) × (get_value ⦃c = sample_codec⦄ (b'a' ∷ []) (store, disk)
      ≡ (ok (some (integer 7)), (record store { sstables = after }, disk)))
    × AllHold ⦃c = sample_codec⦄ after disk ((entries ∷ []) ∷ [])
    × (map (λ t. t.path) after ≡ map (λ t. t.path) store.sstables)
unfolding BTreeMap.get cmp newest resolve
get_value_lem_example =
    get_value_lem ⦃c = sample_codec⦄ (b'a' ∷ []) store disk ((entries ∷ []) ∷ []) refl
      (table-Holds, tt)

scan_range_lem_example :
    (out : BTreeMap Value) × (scan_range ⦃c = sample_codec⦄
        (included (b'b' ∷ []))
        unbounded
        (store, disk)
      ≡ (ok out, (store, disk)))
    × IsSorted out
    × ((q : Bytes)
        → BTreeMap.get q out ≡ (
            if in_bounds q (included (b'b' ∷ [])) unbounded
            then seen (or_else (BTreeMap.get q newer) (newest q ((entries ∷ []) ∷ [])))
            else none))
unfolding range_panics
scan_range_lem_example =
    scan_range_lem ⦃c = sample_codec⦄ (included (b'b' ∷ [])) unbounded store disk
      ((entries ∷ []) ∷ []) refl (tt, tt) (table-Holds, tt) refl

-- A table from "a" to "c" has nothing above "d".
range_overlaps-in_bounds_example : in_bounds (b'b' ∷ []) (included (b'd' ∷ [])) unbounded ≡ false
unfolding range_overlaps cmp max_below_lo min_above_hi
range_overlaps-in_bounds_example =
    range_overlaps-in_bounds (b'a' ∷ []) (b'c' ∷ []) (b'b' ∷ []) (included (b'd' ∷ [])) unbounded
      refl refl refl

-- The prefix "a" followed by 255.
starts_with-in_bounds_example :
    starts_with (97 ∷ 255 ∷ []) (97 ∷ 255 ∷ 0 ∷ [])
    ≡ in_bounds (97 ∷ 255 ∷ 0 ∷ []) (included (97 ∷ 255 ∷ [])) (excluded (98 ∷ []))
unfolding prefix_upper_bound upper_bound upper_loop from_last
starts_with-in_bounds_example =
    starts_with-in_bounds (97 ∷ 255 ∷ []) (97 ∷ 255 ∷ 0 ∷ [])
      (omega arith, (omega arith, (omega arith, tt)))

get_value-memtable_insert_example :
    (t : Store) × (memtable_insert (b'a' ∷ []) tombstone store ≡ ok t)
    × ((get_value ⦃c = sample_codec⦄ (b'a' ∷ []) (t, disk)).0 ≡ ok none)
unfolding cmp resolve
get_value-memtable_insert_example =
    get_value-memtable_insert ⦃c = sample_codec⦄ (b'a' ∷ []) tombstone store disk
      ((entries ∷ []) ∷ []) (b'a' ∷ []) refl store-IsCounted (table-Holds, tt)

-- A put that a later delete undoes.
get_value-buffer_example :
    ((Transaction.get_value ⦃c = sample_codec⦄ (b'x' ∷ []) (
      buffer (delete (b'x' ∷ []) ∷ put (b'x' ∷ []) (integer 1) ∷ []) (begin_transaction store),
      disk,
    )).0
      ≡ ok none)
    × (rollback
          (buffer (delete (b'x' ∷ []) ∷ put (b'x' ∷ []) (integer 1) ∷ []) (begin_transaction store))
        ≡ store)
unfolding last_write cmp
get_value-buffer_example =
    get_value-buffer ⦃c = sample_codec⦄ (delete (b'x' ∷ []) ∷ put (b'x' ∷ []) (integer 1) ∷ [])
      store disk (b'x' ∷ [])
