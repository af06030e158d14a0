-- ===== src/Store/Compact/Files.antt =====
-- `compact` keeps the store open and what a reader sees.
use ferrum_db.Base.{
  ℕ, ◌+◌, ◌^◌, ◌≤◌, ◌<◌, ◌≡◌, ◌≢◌, refl, ap, ◌∙◌, sym, Option, none, some, List, [], ◌∷◌, All,
  length, ltb, arith, Bool-cases, inl, inr,
}
use ferrum_db.Base.Bytes.{Bytes}
use ferrum_db.BTreeMap
use ferrum_db.BTreeMap.{BTreeMap, IsSorted}
use ferrum_db.BTreeMap.Lookup
use ferrum_db.BTreeMap.Lookup.{or_else}
use ferrum_db.Errors.{ok}
use ferrum_db.Proto.{WalEntry, Codec}
use ferrum_db.Value.{Entry}
use ferrum_db.Disk.{Disk, put_file}
use ferrum_db.SsTable.Record.{IsRecord}
use ferrum_db.SsTable.Table.{SsTable}
use ferrum_db.SsTable.Table.Build.{image, build, built}
use ferrum_db.SsTable.Table.Layout.{Group, concat}
use ferrum_db.SsTable.Table.Flushed.{flushed, flush_lem, Holds-built}
use ferrum_db.Store.{Store, increment-fits}
use ferrum_db.Store.Files.{sstable_path, wal_path, sstable_path_injective, sstable_path-ne-wal_path}
use ferrum_db.Store.Lookup.{newest, seen}
use ferrum_db.SsTable.Table.Size.{weight}
use ferrum_db.Store.Room.{Grows, Grows-refl, runs_weight, weight-compacted_le}
use ferrum_db.Store.Valid.{IsNamed, IsOpen, IsOpen-tables}
use ferrum_db.Store.Compact.{
  compact, install_merged, install_compacted, remove_files, remove_old, paths_of,
}
use ferrum_db.Store.Compact.Removed.{
  remove_all, remove_files_lem, get-remove_all, IsSaved-emptied, IsSaved-replaced,
}
use ferrum_db.Store.Compact.Merged.{compacted, runs, merged_values-compacted}

pub or_else-none : (o : Option Entry) → or_else o none ≡ o
or_else-none none = refl
or_else-none (some e) = refl

module _ ⦃c : Codec⦄ where
  -- The file of a new table.
  pub flushed-others :
      (dir path : Bytes) (es : Group) (d : Disk) (q : Bytes)
      → q ≢ path
      → BTreeMap.get q (flushed dir path es d).files ≡ BTreeMap.get q d.files
  flushed-others dir path es d q h =
      ap (BTreeMap.get q) (Lookup.insert_twice path [] (image (build es)) d.files)
      ∙ Lookup.get-insert_ne q path (image (build es)) d.files h

  pub flushed-stored :
      (dir path : Bytes) (es : Group) (d : Disk)
      → BTreeMap.get path (flushed dir path es d).files ≡ some (image (build es))
  flushed-stored dir path es d =
      let made : Disk = record d { dirs = BTreeMap.insert dir tt d.dirs } in
      Lookup.get-insert_self path (image (build es)) (put_file path [] made).files

  pub built_path : (path : Bytes) (es : Group) → (built path (build es)).path ≡ path
  unfolding built
  built_path path es = refl

  -- An id that was not given out names no table's file.
  pub named-apart :
      (dir : Bytes) (next : ℕ) (ts : List SsTable)
      → next < 2 ^ 64
      → All (IsNamed dir next) ts
      → All (λ t. t.path ≢ sstable_path dir next) ts
  named-apart dir next [] fits h = tt
  named-apart dir next (t ∷ ts) fits ((id, named, less), h) = (
    λ same.
        let equal = sstable_path_injective dir id next (omega arith) fits (sym named ∙ same) in
        omega arith,
    named-apart dir next ts fits h,
  )

  paths-apart :
      (q : Bytes) (ts : List SsTable) → All (λ t. t.path ≢ q) ts → All (λ p. q ≢ p) (paths_of ts)
  paths-apart q [] h = tt
  paths-apart q (t ∷ ts) (other, h) = (λ e. other (sym e), paths-apart q ts h)

  pub wal-apart :
      (dir : Bytes) (next : ℕ) (path : Bytes) (ts : List SsTable)
      → path ≡ wal_path dir
      → All (IsNamed dir next) ts
      → All (λ t. t.path ≢ path) ts
  wal-apart dir next path [] e h = tt
  wal-apart dir next path (t ∷ ts) e ((id, named, less), h) = (
    λ same. sstable_path-ne-wal_path dir id (sym named ∙ (same ∙ e)),
    wal-apart dir next path ts e h,
  )

  -- The state after a compaction that has merged the runs to `m`.
  installed :
      (s : Store) (d : Disk) (gss : List (List Group)) (log : List WalEntry) (m : BTreeMap Entry)
      → IsOpen s d gss log
      → s.next_sstable_id + 1 < 2 ^ 64
      → IsSorted m
      → All IsRecord m
      → length (image (build m)) < 2 ^ 32
      → weight m ≤ runs_weight (runs gss)
      → (t : Store) × (after : Disk) × (other : List (List Group)) × (install_merged m (s, d)
          ≡ (ok tt, (t, after)))
        × (t.memtable ≡ s.memtable)
        × ((q : Bytes) → newest q other ≡ BTreeMap.get q m)
        × IsOpen t (remove_files (paths_of s.sstables) after) other log
        × Grows s t gss other 0 1 0
  unfolding install_merged install_compacted newest runs_weight
  installed s d gss log [] h fits sorted valid small lighter =
      let apart =
        wal-apart s.dir s.next_sstable_id s.wal.file_path s.sstables h.wal_named h.named in
      let paths = paths_of s.sstables in
      let same =
        get-remove_all paths d.files s.wal.file_path
          (paths-apart s.wal.file_path s.sstables apart) in
      (
        record s { sstables = [] },
        d,
        [],
        refl,
        refl,
        λ q. unfold BTreeMap.get in refl,
        rw (remove_files_lem paths d h.works) (
            IsOpen-tables s d (record d { files = remove_all paths d.files }) gss [] log []
              s.next_sstable_id h h.works same tt
              (IsSaved-emptied s.dir s.next_sstable_id s.sstables gss (omega arith) d h.saved) tt),
        record { room = omega arith; ids = omega arith; numbers = omega arith },
      )
  installed s d gss log (x ∷ m) h fits sorted valid small lighter =
      let es = x ∷ m in
      let path = sstable_path s.dir s.next_sstable_id in
      let paths = paths_of s.sstables in
      let after = flushed s.dir path es d in
      let left : Disk = record after { files = remove_all paths after.files } in
      let apart =
        paths-apart path s.sstables
          (named-apart s.dir s.next_sstable_id s.sstables (omega arith) h.named) in
      let wal_apart =
        wal-apart s.dir s.next_sstable_id s.wal.file_path s.sstables h.wal_named h.named in
      let stored = get-remove_all paths after.files path apart ∙ flushed-stored s.dir path es d in
      let (gs, holds, all) = Holds-built path es left sorted valid small stored in
      let same_wal =
        get-remove_all paths after.files s.wal.file_path
          (paths-apart s.wal.file_path s.sstables wal_apart)
        ∙ flushed-others s.dir path es d s.wal.file_path
            (λ e. sstable_path-ne-wal_path s.dir s.next_sstable_id (sym e ∙ h.wal_named)) in
      let t = built path (build es) in
      let next = s.next_sstable_id + 1 in
      (
        record s { sstables = t ∷ []; next_sstable_id = next },
        after,
        gs ∷ [],
        rw (flush_lem s.dir path es d h.works, increment-fits s.next_sstable_id fits) refl,
        refl,
        λ q. or_else-none (BTreeMap.get q (concat gs)) ∙ ap (BTreeMap.get q) all,
        rw (remove_files_lem paths after h.works) (
            IsOpen-tables s d left gss (gs ∷ []) log (t ∷ []) next h h.works same_wal (holds, tt)
              (IsSaved-replaced s.dir s.next_sstable_id s.sstables gss (omega arith) t gs es d
                (built_path path es) all small apart h.saved)
              ((s.next_sstable_id, built_path path es, omega arith), tt)),
        record {
          room = omega (arith, ap weight all, lighter);
          ids = omega arith;
          numbers = omega arith;
        },
      )

  -- On a working disk, with one more id that fits a u64 and a merged table whose file is shorter
  -- than 2^32 bytes, `compact` of an open store succeeds and leaves an open store with the same
  -- memtable and log, in whose tables every key reads as before, with no more bytes and at most one
  -- new id.
  pub compact-IsOpen :
      (s : Store) (d : Disk) (gss : List (List Group)) (log : List WalEntry)
      → IsOpen s d gss log
      → s.next_sstable_id + 1 < 2 ^ 64
      → length (image (build (compacted (runs gss)))) < 2 ^ 32
      → (t : Store) × (after : Disk) × (other : List (List Group)) × (compact (s, d)
          ≡ (ok tt, (t, after)))
        × (t.memtable ≡ s.memtable)
        × ((q : Bytes) → seen (newest q other) ≡ seen (newest q gss))
        × IsOpen t after other log
        × Grows s t gss other 0 1 0
  unfolding compact remove_old
  compact-IsOpen s d gss log h fits small = elim (Bool-cases (ltb (length s.sstables) 2)) [
    | inl few ↦ (s, d, gss, rw few refl, refl, λ q. refl, h, Grows-refl s gss 1)
    | inr many ↦
        let (merged, sorted, valid, shows) =
          merged_values-compacted d h.works s.sstables gss h.holds in
        let (t, after, other, done, same, new, opened, grows) =
          installed s d gss log (compacted (runs gss)) h fits sorted valid small
            (weight-compacted_le (runs gss)) in
        (
          t,
          remove_files (paths_of s.sstables) after,
          other,
          rw (many, merged, done) refl,
          same,
          λ q. ap seen (new q) ∙ (shows q).1,
          opened,
          grows,
        )
  ]
