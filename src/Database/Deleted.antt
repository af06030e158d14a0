-- ===== src/Database/Deleted.antt =====
-- What `delete_table` of ferrumdb/src/database.rs leaves, and the table that is created after it.
use ferrum_db.Base.{
  ◌≡◌, ◌≢◌, refl, ap, ◌∙◌, sym, true, false, not, none, some, List, [], ◌∷◌, All, arith, inl, inr,
  Bool-cases, Option-cases, if◌then◌else◌,
}
use ferrum_db.Base.Bytes.{Bytes, strip_prefix, eq_of_cmp, cmp_refl}
use ferrum_db.BTreeMap
use ferrum_db.BTreeMap.{BTreeMap}
use ferrum_db.BTreeMap.Lookup
use ferrum_db.BTreeMap.Entries.{All-remove}
use ferrum_db.Errors
use ferrum_db.Proto.{Codec}
use ferrum_db.Disk.{Disk, join}
use ferrum_db.Disk.Directory.{
  is_dir, is_under, remove_dir_all, child, join-append, strip_prefix-append,
}
use ferrum_db.Api.{ok, converted}
use ferrum_db.Store.{Store}
use ferrum_db.Store.Files.{sstable_id, and_then, lock_path, wal_path}
use ferrum_db.Store.Listing.{id_at, NoTable}
use ferrum_db.Store.Valid.{IsOpen, view}
use ferrum_db.Store.Lookup.{newest}
use ferrum_db.Store.Open.Fresh.{open_with_dir-IsOpen}
use ferrum_db.Database.{
  Database, validate_name, path_exists, delete_table, delete_found, close_store, create_table,
  create_missing, open_store, install_store,
}

module _ (path : Bytes) where
  -- What a map keeps where all that lies in the directory is removed.
  abbrev outside {ℓ} : {V : Type ℓ} → BTreeMap V → BTreeMap V
  outside m = BTreeMap.retain (λ q v. not (is_under path q)) m

  outside-All : {V : Type 0} (m : BTreeMap V) → All (λ p. is_under path p.0 ≡ false) (outside m)
  unfolding BTreeMap.retain
  outside-All [] = tt
  outside-All ((q, v) ∷ m) = elim (Bool-cases (is_under path q)) [
    | inl under ↦ rw (under, BTreeMap.retain) (outside-All m)
    | inr out ↦ rw (out, BTreeMap.retain, All) (out, outside-All m)
  ]

  get-outside :
      {V : Type 0} (q : Bytes) (m : BTreeMap V)
      → BTreeMap.get q (outside m) ≡ (if is_under path q then none else BTreeMap.get q m)
  unfolding BTreeMap.get BTreeMap.retain
  get-outside q [] = ground arith
  get-outside q ((j, v) ∷ m) = ground (arith, get-outside q m, eq_of_cmp q j)

  outside-NoTable : (q : Bytes) → is_under path q ≡ false → NoTable path q
  unfolding id_at child is_under and_then
  outside-NoTable q out = elim (Option-cases (strip_prefix (join path []) q)) [
    | inl apart ↦ rw (apart, child, id_at) refl
    | inr (name, inside) ↦ let wrong = rw (inside, is_under) at out in cc
  ]

  All-NoTable :
      {V : Type 0} (m : BTreeMap V)
      → All (λ p. is_under path p.0 ≡ false) m
      → All (λ p. NoTable path p.0) m
  All-NoTable [] h = tt
  All-NoTable ((q, v) ∷ m) (out, h) = (outside-NoTable q out, All-NoTable m h)

  join-is_under : (name : Bytes) → is_under path (join path name) ≡ true
  unfolding is_under
  join-is_under name =
      rw (join-append path name, is_under, strip_prefix-append (join path []) name) refl

  lock-is_under : is_under path (lock_path path) ≡ true
  unfolding lock_path
  lock-is_under = join-is_under _

  wal-is_under : is_under path (wal_path path) ≡ true
  unfolding wal_path
  wal-is_under = join-is_under _

  -- The disk without the directory.
  abbrev removed : Disk → Disk
  removed d = record d { files = outside d.files; dirs = BTreeMap.remove path (outside d.dirs) }

  remove_dir_all-healthy :
      (d : Disk)
      → d.faults ≡ []
      → is_dir path d ≡ true
      → remove_dir_all path d ≡ (Errors.ok tt, removed d)
  unfolding remove_dir_all
  remove_dir_all-healthy d healthy there = rw (healthy, there) refl

-- Of a table that is open, the store is in its directory; of one that is not, the lock is free.
abbrev IsOwned : Bytes → Bytes → Database × Disk → Type 0
IsOwned path name s = elim (BTreeMap.get name s.0.stores) [
  | none ↦ BTreeMap.get (lock_path path) s.1.locks ≡ none
  | some t ↦ t.dir ≡ path
]

close_store_lem :
    (path name : Bytes) (s : Database × Disk)
    → IsOwned path name s
    → (stores : BTreeMap Store) × (locks : BTreeMap (Unit {0})) × (close_store name
          (BTreeMap.get name s.0.stores)
          s
        ≡ (ok tt, (record s.0 { stores = stores }, record s.1 { locks = locks })))
      × (BTreeMap.get name stores ≡ none)
      × ((q : Bytes) → q ≢ name → BTreeMap.get q stores ≡ BTreeMap.get q s.0.stores)
      × (BTreeMap.get (lock_path path) locks ≡ none)
unfolding close_store
close_store_lem path name s owned = elim (Option-cases (BTreeMap.get name s.0.stores)) [
  | inl closed ↦
      let free = rw (closed, IsOwned) at owned in
      (s.0.stores, s.1.locks, rw closed refl, closed, λ q apart. refl, free)
  | inr (t, opened) ↦
      let same : t.dir ≡ path = rw (opened, IsOwned) at owned in
      (
        BTreeMap.remove name s.0.stores,
        BTreeMap.remove (lock_path t.dir) s.1.locks,
        rw opened refl,
        Lookup.get-remove name name s.0.stores ∙ rw (cmp_refl name) refl,
        λ q apart. Lookup.get-remove_ne q name s.0.stores apart,
        ap (λ p. BTreeMap.get (lock_path p) (BTreeMap.remove (lock_path t.dir) s.1.locks))
              (sym same)
            ∙ (Lookup.get-remove (lock_path t.dir) (lock_path t.dir) s.1.locks
                ∙ rw (cmp_refl (lock_path t.dir)) refl),
      )
]

path_exists-removed :
    (path : Bytes) (d : Disk)
    → BTreeMap.get path d.files ≡ none
    → path_exists path (removed path d) ≡ false
path_exists-removed path d no_file =
    let no_dir : BTreeMap.get path (BTreeMap.remove path (outside path d.dirs)) ≡ none =
      Lookup.get-remove path path (outside path d.dirs) ∙ rw (cmp_refl path) refl in
    ground (arith, get-outside path path d.files, no_file, no_dir)

module _ ⦃c : Codec⦄ (order : List Bytes → List Bytes) (name : Bytes) (s : Database × Disk) where
  -- On a working disk, `delete_table` of a valid name whose directory is there, and not a file,
  -- succeeds: the directory and all files in it are gone, every other file and every other open
  -- store is as before. `create_table` of the name then succeeds and gives an open store that shows
  -- nothing. A store that is open under the name is in that directory, and otherwise the
  -- directory's lock is free; the file system lists no table where there is none.
  pub create_table-delete_table :
      ((names : List Bytes)
        → All (λ n. sstable_id n ≡ none) names
        → All (λ n. sstable_id n ≡ none) (order names))
      → validate_name name ≡ ok tt
      → s.1.faults ≡ []
      → is_dir (join s.0.root name) s.1 ≡ true
      → BTreeMap.get (join s.0.root name) s.1.files ≡ none
      → IsOwned (join s.0.root name) name s
      → (db : Database) × (after : Disk) × (t : Store) × (end : Disk) × (delete_table name s
          ≡ (ok tt, (db, after)))
        × (path_exists (join s.0.root name) after ≡ false)
        × ((q : Bytes)
            → BTreeMap.get q after.files
              ≡ (if is_under (join s.0.root name) q then none else BTreeMap.get q s.1.files))
        × ((q : Bytes) → q ≢ name → BTreeMap.get q db.stores ≡ BTreeMap.get q s.0.stores)
        × (create_table order name (db, after)
            ≡ (ok tt, (record db { stores = BTreeMap.insert name t db.stores }, end)))
        × IsOpen t end [] []
        × ((q : Bytes) → view t [] q ≡ none)
  unfolding delete_table delete_found create_table create_missing open_store install_store converted
      BTreeMap.get newest
  create_table-delete_table keeps valid healthy there no_file owned =
      let path = join s.0.root name in
      let (stores, locks, closed, gone, others, free) = close_store_lem path name s owned in
      let db : Database = record s.0 { stores = stores } in
      let after : Disk = removed path (record s.1 { locks = locks }) in
      let absent = path_exists-removed path s.1 no_file in
      let no_files = outside-All path s.1.files in
      let none_at : (q : Bytes) → is_under path q ≡ true → BTreeMap.get q after.files ≡ none =
        λ q under. get-outside path q s.1.files ∙ rw under refl in
      let (t, end, ran, opened, empty, held) =
        open_with_dir-IsOpen order path after keeps healthy free
          (none_at (lock_path path) (lock-is_under path))
          (none_at (wal_path path) (wal-is_under path)) (All-NoTable path after.files no_files)
          (All-remove (λ p. NoTable path p.0) path (outside path s.1.dirs)
            (All-NoTable path (outside path s.1.dirs) (outside-All path s.1.dirs))) in
      (
        db,
        after,
        t,
        end,
        rw
            (
              valid,
              delete_found,
              no_file,
              there,
              closed,
              remove_dir_all-healthy path (record s.1 { locks = locks }) healthy there,
            )
            refl,
        absent,
        λ q. get-outside path q s.1.files,
        others,
        rw (valid, absent, ran) refl,
        opened,
        λ q. rw (empty, BTreeMap.get, newest) refl,
      )
