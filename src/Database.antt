-- ===== src/Database.antt =====
-- `Database` of ferrumdb/src/database.rs. The map of open stores is ordered here, and `order` is the
-- order in which the file system lists a directory. A handle is the name under which its store
-- stands in the map.
pub mod Names
pub mod Deleted
pub mod Listed
use ferrum_db.Base.{
  ℕ, Bool, true, false, ◌||◌, ◌&&◌, Option, none, some, List, [], ◌∷◌, ◌==◌, if◌then◌else◌,
}
use ferrum_db.Base.Bytes.{Bytes, has_char, cmp, is_lt}
use ferrum_db.BTreeMap.{BTreeMap}
use ferrum_db.BTreeMap
use ferrum_db.Errors
use ferrum_db.Proto.{Codec}
use ferrum_db.Disk.{Disk, Exec, join, exists, create_dir_all, unlock, on_disk}
use ferrum_db.Disk.Directory.{is_dir, remove_dir_all, read_dir, next_entry}
use ferrum_db.Disk
use ferrum_db.Api.{
  Result, ok, err, panic, Error, invalid_table_name, table_exists, table_not_found, Call, ◌>>=◌,
  ◌>>◌, pure, lift, core, converted,
}
use ferrum_db.Store.{Store}
use ferrum_db.Store.Files.{lock_path, is_same}
use ferrum_db.Store.Open.{open_with_dir}

pub record Database : Type 0 where
  pub root : Bytes
  pub stores : BTreeMap Store

abbrev pub is_empty : Bytes → Bool
is_empty [] = true
is_empty (x ∷ xs) = false

unfoldable pub is_invalid : Bytes → Bool
is_invalid name =
    is_empty name
    || has_char b'/' name
    || has_char b'\\' name
    || is_same name (b'.' ∷ [])
    || is_same name (b'.' ∷ b'.' ∷ [])

-- `validate_name`
unfoldable pub validate_name : Bytes → Result (Unit {0})
validate_name name = if is_invalid name then err (invalid_table_name name) else ok tt

-- `path.exists()`
abbrev pub path_exists : Bytes → Disk → Bool
path_exists path d = exists path d || is_dir path d

-- `sort` on names, which no directory has twice.
unfoldable pub insert_name : Bytes → List Bytes → List Bytes
insert_name n [] = n ∷ []
insert_name n (m ∷ names) =
    let rest = insert_name n names in if is_lt (cmp m n) then m ∷ rest else n ∷ m ∷ names

unfoldable pub sort : List Bytes → List Bytes
sort [] = []
sort (n ∷ names) = insert_name n (sort names)

-- `Database::open`
unfoldable pub open_database : Bytes → Call Disk Database
open_database dir = do core (create_dir_all dir); pure (record { root = dir; stores = [] })

unfoldable pub install_store : Bytes → Store → Call (Database × Disk) (Unit {0})
install_store name t s = (ok tt, (record s.0 { stores = BTreeMap.insert name t s.0.stores }, s.1))

-- `self.open.remove(name)`, which drops the store and so its lock.
unfoldable pub close_store : Bytes → Option Store → Call (Database × Disk) (Unit {0})
close_store name none s = (ok tt, s)
close_store name (some t) s =
    (ok tt, (record s.0 { stores = BTreeMap.remove name s.0.stores }, unlock (lock_path t.dir) s.1))

-- `Database::delete_table`
unfoldable pub delete_found : Bytes → Call (Database × Disk) (Unit {0})
delete_found name s =
    if path_exists (join s.0.root name) s.1
    then (do
      close_store name (BTreeMap.get name s.0.stores)
      core (on_disk (remove_dir_all (join s.0.root name))))
        s
    else (err (table_not_found name), s)

unfoldable pub delete_table : Bytes → Call (Database × Disk) (Unit {0})
delete_table name = do lift (validate_name name); delete_found name

module _ ⦃c : Codec⦄ where
  -- The loop of `list_tables`.
  unfoldable pub list_entries : Bytes → List Bytes → Call Disk (List Bytes)
  list_entries root [] = do core next_entry; pure []
  list_entries root (name ∷ names) = do
    core next_entry
    rest ← list_entries root names
    λ d. (ok (if is_dir (join root name) d && c.is_utf8 name then name ∷ rest else rest), d)

  module _ (order : List Bytes → List Bytes) where
    -- `Database::list_tables`
    unfoldable pub list_tables : Database → Call Disk (List Bytes)
    list_tables db = do
      listed ← core (read_dir db.root order)
      names ← list_entries db.root listed
      pure (sort names)

    -- `Database::open_store`
    unfoldable pub open_store : Bytes → Call (Database × Disk) (Unit {0})
    open_store name s =
        (do t ← core (on_disk (open_with_dir order (join s.0.root name))); install_store name t) s

    -- `Database::create_table`
    unfoldable pub create_missing : Bytes → Call (Database × Disk) (Unit {0})
    create_missing name s =
        if path_exists (join s.0.root name) s.1
        then (err (table_exists name), s)
        else open_store name s

    unfoldable pub create_table : Bytes → Call (Database × Disk) (Unit {0})
    create_table name = do lift (validate_name name); create_missing name

    unfoldable pub open_missing : Bytes → Option Store → Call (Database × Disk) (Unit {0})
    open_missing name none = open_store name
    open_missing name (some t) = pure tt

    -- `Database::table`
    unfoldable pub table : Bytes → Call (Database × Disk) Bytes
    table name = do
      lift (validate_name name)
      λ s. open_missing name (BTreeMap.get name s.0.stores) s
      pure name
