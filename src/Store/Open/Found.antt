-- ===== src/Store/Open/Found.antt =====
-- `load_sstables` of ferrumdb-core/src/store.rs on the directory of an open store: it finds the
-- store's tables again.
use ferrum_db.Base.{
  ℕ, ◌+◌, ◌^◌, ◌<◌, ◌≡◌, refl, ap, ap₂, ◌∙◌, some, List, [], ◌∷◌, ◌++◌, map, All, All-append,
  All-imp, append-nil, ltb, length, arith, Option-cases, Bool-cases, inl, inr,
}
use ferrum_db.Base.Bytes.{Bytes}
use ferrum_db.BTreeMap
use ferrum_db.BTreeMap.{BTreeMap}
use ferrum_db.Errors.{ok, err, panic}
use ferrum_db.Proto.{Codec}
use ferrum_db.Disk.{Disk}
use ferrum_db.Disk.Directory.{children}
use ferrum_db.SsTable.Table.{SsTable}
use ferrum_db.SsTable.Table.Build.{build, built, image}
use ferrum_db.SsTable.Table.Layout.{Group, concat}
use ferrum_db.SsTable.Table.Read.{open_table}
use ferrum_db.SsTable.Table.Opened.{open_table-image}
use ferrum_db.Store.{Store}
use ferrum_db.Store.Files.{sstable_id, sstable_path}
use ferrum_db.Store.Listing.{with_some, ids_in, table_ids, table_ids-children}
use ferrum_db.Store.Listing.Sort.{insert_desc, sort_desc, All-sort_desc, sort_desc-All, Below-All}
use ferrum_db.Store.Saved.{IsSaved, Stored, Stored-Below}
use ferrum_db.Store.Open.{
  load_sstables, load_listed, load_entries, load_entry, insert_newest, newest_first, found_tables,
}
use ferrum_db.Store.Open.Order.{install_found-fresh}
use ferrum_db.Store.Open.Fresh.{read_dir-healthy, next_entry-healthy}
use mathlib.Core.List.{Permᴰ}
use mathlib.Core.List.Permᴰ
use ferrum_db.Store.Listing.Names.{
  IsNamed, All-Perm, table_ids-append, table_ids-Perm, children-IsNamed, NoTable-IsCanonical,
}

module _ ⦃c : Codec⦄ (dir : Bytes) (d : Disk) where
  -- The table that `SsTable::open` gives for an id.
  unfoldable pub table_at : ℕ → SsTable
  table_at id = elim (open_table (sstable_path dir id) d).0 [
    | ok t ↦ t
    | err e ↦ built [] (build [])
    | panic ↦ built [] (build [])
  ]

  abbrev pub Opens : ℕ → Type 0
  Opens id = open_table (sstable_path dir id) d ≡ (ok (table_at id), d)

  abbrev found_at : List ℕ → List (ℕ × SsTable)
  found_at = map (λ id. (id, table_at id))

  pub Opens-image :
      (id : ℕ) (es : Group)
      → d.faults ≡ []
      → BTreeMap.get (sstable_path dir id) d.files ≡ some (image (build es))
      → length (image (build es)) < 2 ^ 32
      → Opens id × (table_at id ≡ built (sstable_path dir id) (build es))
  unfolding table_at
  Opens-image id es healthy found small =
      let e = open_table-image (sstable_path dir id) es d healthy found small in
      (rw (table_at, e) refl, rw (table_at, e) refl)

  -- The loop over the directory, where every file with an id opens.
  load_entries-found :
      (names : List Bytes)
      → d.faults ≡ []
      → All (IsNamed dir) names
      → All Opens (table_ids names)
      → load_entries dir names d ≡ (ok (found_at (table_ids names)), d)
  unfolding load_entries load_entry table_ids with_some
  load_entries-found [] healthy named opens = rw (next_entry-healthy d healthy) refl
  load_entries-found (name ∷ names) healthy (named, rest) opens =
      elim (Option-cases (sstable_id name)) [
        | inl other ↦
            rw
              (
                next_entry-healthy d healthy,
                other,
                load_entries-found names healthy rest (rw (other, table_ids) at opens),
              )
              refl
        | inr (id, has_id) ↦
            let (now, later) : Opens id × All Opens (table_ids names) =
              rw (table_ids, has_id, All) at opens in
            rw
              (
                next_entry-healthy d healthy,
                has_id,
                named id has_id,
                now,
                load_entries-found names healthy rest later,
              )
              refl
      ]

  insert_newest-found :
      (a : ℕ) (l : List ℕ) → insert_newest a (table_at a) (found_at l) ≡ found_at (insert_desc a l)
  unfolding insert_newest insert_desc
  insert_newest-found a [] = refl
  insert_newest-found a (j ∷ l) = elim (Bool-cases (ltb a j)) [
    | inl older ↦ rw (older, insert_newest, insert_desc, insert_newest-found a l) refl
    | inr newer ↦ rw (newer, insert_desc) refl
  ]

  newest_first-found : (l : List ℕ) → newest_first (found_at l) ≡ found_at (sort_desc l)
  unfolding newest_first sort_desc
  newest_first-found [] = refl
  newest_first-found (a ∷ l) = rw (newest_first-found l) (insert_newest-found a (sort_desc l))

  found_tables-found : (l : List ℕ) → found_tables (found_at l) ≡ map table_at l
  unfolding found_tables
  found_tables-found [] = refl
  found_tables-found (a ∷ l) = ap (◌∷◌ (table_at a)) (found_tables-found l)

  found-All : (P : ℕ → Type 0) (l : List ℕ) → All P l → All (λ p. P p.0) (found_at l)
  found-All P [] h = tt
  found-All P (a ∷ l) (h, hs) = (h, found-All P l hs)

  All-found : (P : ℕ → Type 0) (l : List ℕ) → All (λ p. P p.0) (found_at l) → All P l
  All-found P [] h = tt
  All-found P (a ∷ l) (h, hs) = (h, All-found P l hs)

  -- Every id of a saved table opens.
  Stored-Opens :
      (top : ℕ) (ids : List ℕ) (gss : List (List Group))
      → d.faults ≡ []
      → Stored dir top d.files ids gss
      → All Opens ids
  Stored-Opens top [] gss healthy h = tt
  Stored-Opens top (id ∷ ids) [] healthy h = absurd h
  Stored-Opens top (id ∷ ids) (gs ∷ gss) healthy (less, there, small, h) =
      ((Opens-image id (concat gs) healthy there small).0, Stored-Opens id ids gss healthy h)

-- In whatever order the directory is listed, loading finds the saved tables, the newest first.
pub load_sstables-found :
    ⦃c : Codec⦄ (d : Disk) (order : List Bytes → List Bytes) (s : Store) (next : ℕ)
    (ts : List SsTable) (gss : List (List Group))
    → ((names : List Bytes) → Permᴰ (order names) names)
    → d.faults ≡ []
    → BTreeMap.get s.dir d.dirs ≡ some tt
    → next < 2 ^ 64
    → (h : IsSaved s.dir next ts gss d)
    → (n : ℕ) × (load_sstables order (s, d)
        ≡ (ok tt, (record s { next_sstable_id = n; sstables = map (table_at s.dir d) h.ids }, d)))
      × All (λ id. id < n) h.ids
unfolding load_sstables load_listed
load_sstables-found d order s next ts gss permutes healthy there fits h =
    let names = children s.dir d.files ++ children s.dir d.dirs in
    let listing = order names in
    let (dirs, no_ids) = NoTable-IsCanonical s.dir d.dirs h.no_dirs in
    let named : All (IsNamed s.dir) listing =
      All-Perm (IsNamed s.dir) (Permᴰ.symm (permutes names)) (
        All-append (IsNamed s.dir) (children s.dir d.files) (children s.dir d.dirs)
          (children-IsNamed s.dir d.files (h.listed.1)) (children-IsNamed s.dir d.dirs dirs)) in
    let here : table_ids names ≡ ids_in s.dir d.files =
      table_ids-append (children s.dir d.files) (children s.dir d.dirs)
      ∙ (ap₂ ◌++◌ (table_ids-children s.dir d.files) (table_ids-children s.dir d.dirs ∙ no_ids)
          ∙ append-nil (ids_in s.dir d.files)) in
    let sorted : sort_desc (table_ids listing) ≡ h.ids =
      table_ids-Perm (permutes names) ∙ (ap sort_desc here ∙ h.listed.0) in
    let opens : All (Opens s.dir d) (table_ids listing) =
      All-sort_desc (Opens s.dir d) (table_ids listing)
        (rw sorted (Stored-Opens s.dir d next h.ids gss healthy h.stored)) in
    let below = Below-All next h.ids (Stored-Below s.dir next d.files h.ids gss h.stored) in
    let small : All (λ id. id + 1 < 2 ^ 64) (table_ids listing) =
      All-sort_desc (λ id. id + 1 < 2 ^ 64) (table_ids listing)
        (rw sorted (
          All-imp {P = λ id. id < next} {Q = λ id. id + 1 < 2 ^ 64} (λ id less. omega arith) h.ids
            below)) in
    let (n, done, above, _, _, _) =
      install_found-fresh (found_at s.dir d (table_ids listing)) s d
        (found-All s.dir d (λ id. id + 1 < 2 ^ 64) (table_ids listing) small) in
    let kept : found_tables (newest_first (found_at s.dir d (table_ids listing)))
        ≡ map (table_at s.dir d) h.ids =
      ap found_tables (newest_first-found s.dir d (table_ids listing))
      ∙ (found_tables-found s.dir d (sort_desc (table_ids listing))
          ∙ ap (map (table_at s.dir d)) sorted) in
    (
      n,
      rw
          (
            read_dir-healthy order s.dir d healthy there,
            load_entries-found s.dir d listing healthy named opens,
            done,
            kept,
          )
          refl,
      rw (← sorted) (
          sort_desc-All (λ id. id < n) (table_ids listing)
            (All-found s.dir d (λ id. id < n) (table_ids listing) above)),
    )
