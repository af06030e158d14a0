-- ===== src/Store/Scan/Merge.antt =====
-- What the merge of `scan_range` holds, table by table.
use ferrum_db.Base.{
  ◌≡◌, refl, Bool, true, Option, none, List, [], ◌∷◌, arith, if◌then◌else◌, inl, inr, Bool-cases,
  Option-cases,
}
use ferrum_db.Base.Bytes.{Bytes}
use ferrum_db.BTreeMap.{BTreeMap, IsSorted, get, insert, insert_all, retain}
use ferrum_db.BTreeMap.Lookup.{or_else, get-insert_all, get-retain}
use ferrum_db.BTreeMap.Order.{retain-IsSorted, insert_all-IsSorted}
use ferrum_db.Errors.{ok}
use ferrum_db.Proto.{Codec}
use ferrum_db.Value.{Entry}
use ferrum_db.Disk.{Disk}
use ferrum_db.SsTable.Table.{SsTable}
use ferrum_db.SsTable.Table.Read.{key_range}
use ferrum_db.SsTable.Table.Parse.{outside}
use ferrum_db.SsTable.Table.Layout.{Group, concat}
use ferrum_db.SsTable.Table.Range.{outside-get}
use ferrum_db.SsTable.Table.Lookup.{Holds, read_all_entries_lem}
use ferrum_db.Store.Bounds.{Bound, in_bounds, range_overlaps-in_bounds}
use ferrum_db.Store.Lookup.{newest, AllHold}
use ferrum_db.Store.Scan.{insert_in_bounds, skips, scan_table, scan_tables}

-- `o` in the bounds, `p` elsewhere.
abbrev pub within : Bound → Bound → Bytes → Option Entry → Option Entry → Option Entry
within lo hi q o p = if in_bounds q lo hi then or_else o p else p

module _ (lo hi : Bound) where
  insert_in_bounds-retain :
      (es : List (Bytes × Entry)) (m : BTreeMap Entry)
      → insert_in_bounds lo hi es m ≡ insert_all (retain (λ k e. in_bounds k lo hi) es) m
  unfolding insert_in_bounds insert_all retain
  insert_in_bounds-retain [] m = refl
  insert_in_bounds-retain ((k, e) ∷ es) m = elim (Bool-cases (in_bounds k lo hi)) [
    | inl inside ↦ rw inside (insert_in_bounds-retain es (insert k e m))
    | inr out ↦ rw out (insert_in_bounds-retain es m)
  ]

  -- What the entries of a sorted run in the bounds add to a merge.
  pub get-insert_range :
      (q : Bytes) (es : List (Bytes × Entry)) (m : BTreeMap Entry)
      → IsSorted es
      → get q (insert_all (retain (λ k e. in_bounds k lo hi) es) m)
        ≡ within lo hi q (get q es) (get q m)
  get-insert_range q es m s =
      let f : Bytes → Entry → Bool = λ k e. in_bounds k lo hi in
      ground (arith, get-insert_all q (retain f es) m (retain-IsSorted f es s), get-retain f q es s)

  skips-outside :
      (t : SsTable) (q : Bytes)
      → skips lo hi (key_range t) ≡ true
      → in_bounds q lo hi ≡ true
      → outside t.min_key t.max_key q ≡ true
  unfolding skips key_range outside
  skips-outside t q skip inside = elim (Option-cases t.min_key) [
    | inl no_min ↦ cc (rw no_min at skip)
    | inr (min, at_min) ↦ elim (Option-cases t.max_key) [
      | inl no_max ↦ cc (rw (at_min, no_max) at skip)
      | inr (max, at_max) ↦
          let apart = rw (at_min, at_max) at skip in
          rw (at_min, at_max) (ground (arith, range_overlaps-in_bounds min max q lo hi))
    ]
  ]

  module _ ⦃c : Codec⦄ where
    -- A table that the scan skips holds no key in the bounds.
    skips-get :
        (t : SsTable) (d : Disk) (gs : List Group) (q : Bytes)
        → Holds t d gs
        → skips lo hi (key_range t) ≡ true
        → in_bounds q lo hi ≡ true
        → get q (concat gs) ≡ none
    skips-get t d gs q h skip inside =
        let out = skips-outside t q skip inside in
        outside-get (concat gs) q h.sorted (rw (h.least, h.greatest) at out)

    scan_table_lem :
        (t : SsTable) (d : Disk) (gs : List Group) (m : BTreeMap Entry)
        → Holds t d gs
        → d.faults ≡ []
        → IsSorted m
        → (merged : BTreeMap Entry) × (scan_table lo hi t m d ≡ (ok merged, d))
          × IsSorted merged
          × ((q : Bytes) → get q merged ≡ within lo hi q (get q (concat gs)) (get q m))
    unfolding scan_table
    scan_table_lem t d gs m h healthy sorted = elim (Bool-cases (skips lo hi (key_range t))) [
      | inl skip ↦ (
        m,
        rw skip,
        sorted,
        λ q. let absent = skips-get t d gs q h skip in ground (arith, absent),
      )
      | inr reads ↦
          let f : Bytes → Entry → Bool = λ k e. in_bounds k lo hi in
          let same = insert_in_bounds-retain (concat gs) m in
          (
            insert_in_bounds lo hi (concat gs) m,
            rw (reads, read_all_entries_lem t d gs h healthy),
            rw same (insert_all-IsSorted (retain f (concat gs)) m sorted),
            λ q. rw same (get-insert_range q (concat gs) m h.sorted),
          )
    ]

    -- The loop over the tables, on a disk that works: under each key in the bounds the merge has
    -- what the newest table that has the key says of it.
    pub scan_tables_lem :
        (ts : List SsTable) (d : Disk) (gss : List (List Group)) (m : BTreeMap Entry)
        → AllHold ts d gss
        → d.faults ≡ []
        → IsSorted m
        → (merged : BTreeMap Entry) × (scan_tables lo hi ts m d ≡ (ok merged, d))
          × IsSorted merged
          × ((q : Bytes) → get q merged ≡ within lo hi q (newest q gss) (get q m))
    unfolding scan_tables newest
    scan_tables_lem [] d [] m h healthy sorted = (m, refl, sorted, λ q. ground arith)
    scan_tables_lem [] d (gs ∷ gss) m h healthy sorted = absurd h
    scan_tables_lem (t ∷ ts) d [] m h healthy sorted = absurd h
    scan_tables_lem (t ∷ ts) d (gs ∷ gss) m (h, hs) healthy sorted =
        let (older, before, older_sorted, older_get) =
          scan_tables_lem ts d gss m hs healthy sorted in
        let (merged, now, merged_sorted, merged_get) =
          scan_table_lem t d gs older h healthy older_sorted in
        (
          merged,
          rw (before, now),
          merged_sorted,
          λ q. let a = older_get q in let b = merged_get q in ground arith,
        )
