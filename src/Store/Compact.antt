-- ===== src/Store/Compact.antt =====
-- `Store::compact` of ferrumdb-core/src/store.rs.
pub mod Merged
pub mod Bounded
pub mod Removed
pub mod Files
use ferrum_db.Base.{ℕ, ◌+◌, Bool, true, false, List, [], ◌∷◌, length, map, ltb, if◌then◌else◌}
use ferrum_db.Base.Bytes.{Bytes}
use ferrum_db.BTreeMap.{BTreeMap}
use ferrum_db.BTreeMap
use ferrum_db.Errors.{ok}
use ferrum_db.Proto.{Codec}
use ferrum_db.Value.{Entry, value, tombstone}
use ferrum_db.Disk.{Disk, Exec, ◌>>=◌, ◌>>◌, pure, lift, on_disk, remove_file}
use ferrum_db.SsTable.Table.{SsTable}
use ferrum_db.SsTable.Table.Build
use ferrum_db.Store.{Store, increment}
use ferrum_db.Store.Files.{sstable_path}
use ferrum_db.SsTable.Table.Read.{read_all_entries}

-- `matches!(entry, Entry::Value(_))`
unfoldable pub is_value : Bytes → Entry → Bool
is_value key (value v) = true
is_value key tombstone = false

unfoldable pub install_compacted : SsTable → Exec (Store × Disk) (Unit {0})
install_compacted t s =
    (do
      next ← lift (increment s.0.next_sstable_id)
      λ u. (ok tt, (record u.0 { sstables = t ∷ []; next_sstable_id = next }, u.1)))
      s

-- `let _ = std::fs::remove_file(path)` for each path.
unfoldable pub remove_files : List Bytes → Disk → Disk
remove_files [] d = d
remove_files (path ∷ paths) d = remove_files paths (remove_file path d).1

unfoldable pub remove_old : List Bytes → Exec (Store × Disk) (Unit {0})
remove_old paths s = (ok tt, (s.0, remove_files paths s.1))

abbrev pub paths_of : List SsTable → List Bytes
paths_of = map (λ t. t.path)

abbrev pub max_sstables : ℕ
max_sstables = 8

module _ ⦃c : Codec⦄ where
  -- The loop over `sstables.iter().rev()`: the tables behind the first one come before it.
  unfoldable pub merge_tables : List SsTable → Exec Disk (BTreeMap Entry)
  merge_tables [] = pure []
  merge_tables (t ∷ ts) = do
    older ← merge_tables ts
    entries ← read_all_entries t
    pure (BTreeMap.insert_all entries older)

  -- The merge without its tombstones.
  unfoldable pub merged_values : List SsTable → Exec Disk (BTreeMap Entry)
  merged_values ts = do merged ← merge_tables ts; pure (BTreeMap.retain is_value merged)

  -- `if merged.is_empty() { … } else { … }`
  unfoldable pub install_merged : BTreeMap Entry → Exec (Store × Disk) (Unit {0})
  install_merged [] s = (ok tt, (record s.0 { sstables = [] }, s.1))
  install_merged (e ∷ merged) s =
      (do
        t ← on_disk (Build.flush s.0.dir (sstable_path s.0.dir s.0.next_sstable_id) (e ∷ merged))
        install_compacted t)
        s

  -- `Store::compact`
  unfoldable pub compact : Exec (Store × Disk) (Unit {0})
  compact s =
      if ltb (length s.0.sstables) 2
      then (ok tt, s)
      else (do
        merged ← on_disk (merged_values s.0.sstables)
        install_merged merged
        remove_old (paths_of s.0.sstables))
          s

  -- `Store::maybe_compact`
  unfoldable pub maybe_compact : Exec (Store × Disk) (Unit {0})
  maybe_compact s = if ltb max_sstables (length s.0.sstables) then compact s else (ok tt, s)
