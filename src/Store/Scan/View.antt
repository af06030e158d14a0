-- ===== src/Store/Scan/View.antt =====
-- What `scan_range` returns.
use ferrum_db.Base.{◌≡◌, refl, ◌∙◌, false, none, List, [], ◌∷◌, arith, if◌then◌else◌}
use ferrum_db.Base.Bytes.{Bytes, eq_of_cmp}
use ferrum_db.BTreeMap.{BTreeMap, IsSorted, Above, get, insert_all, retain}
use ferrum_db.BTreeMap.Lookup.{or_else, get-Above}
use ferrum_db.BTreeMap.Order.{insert_all-IsSorted}
use ferrum_db.Errors.{ok}
use ferrum_db.Proto.{Codec}
use ferrum_db.Value.{Value, Entry, value, tombstone}
use ferrum_db.Disk.{Disk}
use ferrum_db.SsTable.Table.Layout.{Group}
use ferrum_db.Store.{Store, resolve}
use ferrum_db.Store.Bounds.{Bound, in_bounds}
use ferrum_db.Store.Lookup.{newest, seen, AllHold}
use ferrum_db.Store.Scan.{values, keep_value, insert_range, range_panics, scan_range}
use ferrum_db.Store.Scan.Merge.{get-insert_range, scan_tables_lem}

Above-values : (k : Bytes) (m : BTreeMap Entry) → Above k m → Above k (values m)
unfolding values keep_value
Above-values k [] h = tt
Above-values k ((j, value v) ∷ m) h = (h.0, Above-values k m h.1)
Above-values k ((j, tombstone) ∷ m) h = Above-values k m h.1

values-IsSorted : (m : BTreeMap Entry) → IsSorted m → IsSorted (values m)
unfolding values keep_value
values-IsSorted [] s = tt
values-IsSorted ((k, value v) ∷ m) s = (Above-values k m s.0, values-IsSorted m s.1)
values-IsSorted ((k, tombstone) ∷ m) s = values-IsSorted m s.1

get-values : (q : Bytes) (m : BTreeMap Entry) → IsSorted m → get q (values m) ≡ seen (get q m)
unfolding values keep_value get resolve
get-values q [] s = refl
get-values q ((k, value v) ∷ m) s = ground (arith, get-values q m s.1)
get-values q ((k, tombstone) ∷ m) s =
    ground (arith, get-values q m s.1, eq_of_cmp q k, get-Above q m, s.0)

module _ ⦃c : Codec⦄ (lo hi : Bound) where
  -- On a working disk, with bounds that `BTreeMap::range` accepts and a memtable whose keys ascend,
  -- `scan_range` returns pairs in ascending order of their keys, each key once: a key in the bounds
  -- with the value that a reader sees there, no key that has none, and no key outside. It leaves
  -- the store and the disk as they are.
  pub scan_range_lem :
      (s : Store) (d : Disk) (gss : List (List Group))
      → d.faults ≡ []
      → IsSorted s.memtable
      → AllHold s.sstables d gss
      → range_panics lo hi ≡ false
      → (out : BTreeMap Value) × (scan_range lo hi (s, d) ≡ (ok out, (s, d)))
        × IsSorted out
        × ((q : Bytes)
            → get q out ≡ (
                if in_bounds q lo hi
                then seen (or_else (get q s.memtable) (newest q gss))
                else none))
  unfolding scan_range insert_range
  scan_range_lem s d gss healthy sorted holds fine =
      let (m, scanned, m_sorted, m_get) =
        scan_tables_lem lo hi s.sstables d gss [] holds healthy tt in
      let all = insert_all (retain (λ k e. in_bounds k lo hi) s.memtable) m in
      let all_sorted =
        insert_all-IsSorted (retain (λ k e. in_bounds k lo hi) s.memtable) m m_sorted in
      (
        values all,
        rw (scanned, fine),
        values-IsSorted all all_sorted,
        λ q.
            let a = m_get q in
            let b = get-insert_range lo hi q s.memtable m sorted in
            let nil = get-Above q (let e : BTreeMap Entry = [] in e) tt in
            get-values q all all_sorted ∙ ground (arith, a, b, nil),
      )
