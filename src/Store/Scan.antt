-- ===== src/Store/Scan.antt =====
-- `Store::scan_range` of ferrumdb-core/src/store.rs.
pub mod Merge
pub mod View
use ferrum_db.Base.{
  ◌≡◌, Bool, true, false, not, ◌&&◌, Option, none, some, List, [], ◌∷◌, if◌then◌else◌,
}
use ferrum_db.Base.Bytes.{Bytes, cmp, is_lt, is_gt}
use ferrum_db.BTreeMap.{BTreeMap}
use ferrum_db.BTreeMap
use ferrum_db.Errors.{Result, ok, panic}
use ferrum_db.Proto.{Codec}
use ferrum_db.Value.{Value, Entry, value, tombstone}
use ferrum_db.Disk.{Disk, Exec, ◌>>=◌, pure, lift, on_disk}
use ferrum_db.SsTable.Table.{SsTable}
use ferrum_db.SsTable.Table.Read.{key_range, read_all_entries}
use ferrum_db.Store.{Store}
use ferrum_db.Store.Bounds.{Bound, unbounded, included, excluded, in_bounds, range_overlaps}

-- The inner loop: the entries in the bounds go into the merge.
unfoldable pub insert_in_bounds :
    Bound → Bound → List (Bytes × Entry) → BTreeMap Entry → BTreeMap Entry
insert_in_bounds lo hi [] m = m
insert_in_bounds lo hi ((k, e) ∷ es) m =
    insert_in_bounds lo hi es (if in_bounds k lo hi then BTreeMap.insert k e m else m)

-- `if let Some((min, max)) = sst.key_range() && !range_overlaps(min, max, lo, hi)`
unfoldable pub skips : Bound → Bound → Option (Bytes × Bytes) → Bool
skips lo hi none = false
skips lo hi (some (min, max)) = not (range_overlaps min max lo hi)

-- Where `BTreeMap::range` panics by its documentation: the start is above the end, or they are
-- equal and both excluded.
unfoldable pub range_panics : Bound → Bound → Bool
range_panics unbounded hi = false
range_panics (included a) unbounded = false
range_panics (included a) (included b) = is_gt (cmp a b)
range_panics (included a) (excluded b) = is_gt (cmp a b)
range_panics (excluded a) unbounded = false
range_panics (excluded a) (included b) = is_gt (cmp a b)
range_panics (excluded a) (excluded b) = not (is_lt (cmp a b))

-- `self.data.range((lo, hi))`, put into the merge.
unfoldable pub insert_range :
    Bound → Bound → BTreeMap Entry → BTreeMap Entry → Result (BTreeMap Entry)
insert_range lo hi memtable m =
    if range_panics lo hi
    then panic
    else ok (BTreeMap.insert_all (BTreeMap.retain (λ k e. in_bounds k lo hi) memtable) m)

-- The final `filter_map`.
unfoldable pub keep_value : Bytes → Entry → List (Bytes × Value) → List (Bytes × Value)
keep_value k (value v) rest = (k, v) ∷ rest
keep_value k tombstone rest = rest

unfoldable pub values : BTreeMap Entry → List (Bytes × Value)
values [] = []
values ((k, e) ∷ m) = keep_value k e (values m)

module _ ⦃c : Codec⦄ where
  -- One round of the loop over the tables.
  unfoldable pub scan_table : Bound → Bound → SsTable → BTreeMap Entry → Exec Disk (BTreeMap Entry)
  scan_table lo hi t m =
      if skips lo hi (key_range t)
      then pure m
      else do entries ← read_all_entries t; pure (insert_in_bounds lo hi entries m)

  -- The loop over `sstables.iter().rev()`: the tables behind the first one come before it.
  unfoldable pub scan_tables :
      Bound → Bound → List SsTable → BTreeMap Entry → Exec Disk (BTreeMap Entry)
  scan_tables lo hi [] m = pure m
  scan_tables lo hi (t ∷ ts) m = do older ← scan_tables lo hi ts m; scan_table lo hi t older

  -- `Store::scan_range`
  unfoldable pub scan_range : Bound → Bound → Exec (Store × Disk) (List (Bytes × Value))
  scan_range lo hi s =
      (do
        m ← on_disk (scan_tables lo hi s.0.sstables [])
        merged ← lift (insert_range lo hi s.0.memtable m)
        pure (values merged))
        s
