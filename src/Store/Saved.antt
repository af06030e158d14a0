-- ===== src/Store/Saved.antt =====
-- The tables of an open store of ferrumdb-core/src/store.rs as files: what is enough to find them
-- again.
use ferrum_db.Base.{
  ℕ, ◌+◌, ◌^◌, ◌<◌, ◌≡◌, ◌≢◌, ap, ap₂, ◌∙◌, sym, some, List, [], ◌∷◌, All, map, length, arith,
}
use ferrum_db.Base.Bytes.{Bytes}
use ferrum_db.BTreeMap
use ferrum_db.BTreeMap.{BTreeMap}
use ferrum_db.BTreeMap.Lookup
use ferrum_db.BTreeMap.Entries.{All-insert}
use ferrum_db.Proto.{Codec}
use ferrum_db.Disk.{Disk}
use ferrum_db.Disk.Kept.{Kept, Kept-others, Written-keeps}
use ferrum_db.SsTable.Table.{SsTable}
use ferrum_db.SsTable.Table.Build.{image, build}
use ferrum_db.SsTable.Table.Layout.{Group, concat}
use ferrum_db.SsTable.Table.Flushed.{flushed}
use ferrum_db.Store.Files.{sstable_path, sstable_path_injective, wal_path, sstable_path-ne-wal_path}
use ferrum_db.Store.Compact.{paths_of}
use ferrum_db.Store.Listing.{NoTable, Listed, dir-NoTable, wal-NoTable}
use ferrum_db.Store.Listing.Change.{Listed-insert_other, Listed-insert_new}
use ferrum_db.Store.Listing.Sort.{Below}

module _ ⦃c : Codec⦄ where
  -- Under each id, below `top` and descending, the file that `flush` wrote for the entries.
  abbrev pub Stored : Bytes → ℕ → BTreeMap Bytes → List ℕ → List (List Group) → Type 0
  Stored dir top files [] [] = Unit
  Stored dir top files [] (gs ∷ gss) = ⊥
  Stored dir top files (id ∷ ids) [] = ⊥
  Stored dir top files (id ∷ ids) (gs ∷ gss) =
      (id < top)
      × (BTreeMap.get (sstable_path dir id) files ≡ some (image (build (concat gs))))
      × (length (image (build (concat gs))) < 2 ^ 32)
      × Stored dir id files ids gss

  -- The tables `ts`, the newest first, are files of `dir` with ids below `next`, and `dir` shows no
  -- other table.
  pub record IsSaved (dir : Bytes) (next : ℕ) (ts : List SsTable) (gss : List (List Group))
      (d : Disk) : Type 0 where
    pub ids : List ℕ
    pub paths : paths_of ts ≡ map (sstable_path dir) ids
    pub stored : Stored dir next d.files ids gss
    pub listed : Listed dir d.files ids
    pub no_dirs : All (λ p. NoTable dir p.0) d.dirs

  pub Stored-Below :
      (dir : Bytes) (top : ℕ) (files : BTreeMap Bytes) (ids : List ℕ) (gss : List (List Group))
      → Stored dir top files ids gss
      → Below top ids
  Stored-Below dir top files [] gss h = tt
  Stored-Below dir top files (id ∷ ids) [] h = absurd h
  Stored-Below dir top files (id ∷ ids) (gs ∷ gss) (less, there, fits, h) =
      (less, Stored-Below dir id files ids gss h)

  -- Under another bound.
  pub Stored-top :
      (dir : Bytes) (top next : ℕ) (files : BTreeMap Bytes) (ids : List ℕ) (gss : List (List Group))
      → All (λ id. id < next) ids
      → Stored dir top files ids gss
      → Stored dir next files ids gss
  Stored-top dir top next files [] [] below h = tt
  Stored-top dir top next files [] (gs ∷ gss) below h = absurd h
  Stored-top dir top next files (id ∷ ids) [] below h = absurd h
  Stored-top dir top next files (id ∷ ids) (gs ∷ gss) (fits, below) (less, there, small, h) =
      (fits, there, small, h)

  Stored-same :
      (dir : Bytes) (top : ℕ) (files other : BTreeMap Bytes) (ids : List ℕ)
      (gss : List (List Group))
      → ((id : ℕ)
          → id < top
          → BTreeMap.get (sstable_path dir id) other ≡ BTreeMap.get (sstable_path dir id) files)
      → Stored dir top files ids gss
      → Stored dir top other ids gss
  Stored-same dir top files other [] [] same h = tt
  Stored-same dir top files other [] (gs ∷ gss) same h = absurd h
  Stored-same dir top files other (id ∷ ids) [] same h = absurd h
  Stored-same dir top files other (id ∷ ids) (gs ∷ gss) same (less, there, fits, h) = (
    less,
    same id less ∙ there,
    fits,
    Stored-same dir id files other ids gss (λ i below. same i (omega arith)) h,
  )

  -- Another file of the directory may change, and directories may be made.
  pub IsSaved-other :
      (dir path : Bytes) (next : ℕ) (ts : List SsTable) (gss : List (List Group)) (d after : Disk)
      → NoTable dir path
      → ((id : ℕ) → sstable_path dir id ≢ path)
      → Kept path d after
      → IsSaved dir next ts gss d
      → IsSaved dir next ts gss after
  IsSaved-other dir path next ts gss d after other apart k h = record {
    ids = h.ids;
    paths = h.paths;
    stored =
        Stored-same dir next d.files after.files h.ids gss
          (λ id less. Kept-others path d after k (sstable_path dir id) (apart id)) h.stored;
    listed =
        Written-keeps (λ m. Listed dir m h.ids)
          (λ b l listed. Listed-insert_other dir path b l h.ids other listed) k.written h.listed;
    no_dirs = rw k.dirs h.no_dirs;
  }

  -- The log's file may change.
  pub IsSaved-wal :
      (dir path : Bytes) (next : ℕ) (ts : List SsTable) (gss : List (List Group)) (d after : Disk)
      → path ≡ wal_path dir
      → Kept path d after
      → IsSaved dir next ts gss d
      → IsSaved dir next ts gss after
  IsSaved-wal dir path next ts gss d after e =
      IsSaved-other dir path next ts gss d after (rw e (wal-NoTable dir))
        (λ id same. sstable_path-ne-wal_path dir id (same ∙ e))

  pub IsSaved-dir :
      (dir : Bytes) (next : ℕ) (ts : List SsTable) (gss : List (List Group)) (d : Disk)
      → IsSaved dir next ts gss d
      → IsSaved dir next ts gss (record d { dirs = BTreeMap.insert dir tt d.dirs })
  IsSaved-dir dir next ts gss d h = record {
    ids = h.ids;
    paths = h.paths;
    stored = h.stored;
    listed = h.listed;
    no_dirs = All-insert (λ p. NoTable dir p.0) dir tt d.dirs (dir-NoTable dir) h.no_dirs;
  }

  -- The directory shows the new table of a flush too.
  pub flushed-Listed :
      (dir : Bytes) (next : ℕ) (ts : List SsTable) (gss : List (List Group)) (es : Group) (d : Disk)
      → next < 2 ^ 64
      → (h : IsSaved dir next ts gss d)
      → Listed dir (flushed dir (sstable_path dir next) es d).files (next ∷ h.ids)
  flushed-Listed dir next ts gss es d fits h =
      let file = image (build es) in
      rw (Lookup.insert_twice (sstable_path dir next) [] file d.files) (
        Listed-insert_new dir next file d.files h.ids fits
          (Stored-Below dir next d.files h.ids gss h.stored) h.listed)

  -- The new table of a flush, with the next id.
  pub IsSaved-flushed :
      (dir : Bytes) (next : ℕ) (ts : List SsTable) (t : SsTable) (gss : List (List Group))
      (es : Group) (gs : List Group) (d : Disk)
      → next < 2 ^ 64
      → t.path ≡ sstable_path dir next
      → concat gs ≡ es
      → length (image (build es)) < 2 ^ 32
      → IsSaved dir next ts gss d
      → IsSaved dir (next + 1) (t ∷ ts) (gs ∷ gss) (flushed dir (sstable_path dir next) es d)
  IsSaved-flushed dir next ts t gss es gs d fits path all small h =
      let name = sstable_path dir next in
      let file = image (build es) in
      let once = Lookup.insert_twice name [] file d.files in
      record {
        ids = next ∷ h.ids;
        paths = ap₂ ◌∷◌ path h.paths;
        stored = (
          omega arith,
          ap (BTreeMap.get name) once
              ∙ (Lookup.get-insert_self name file d.files
                  ∙ ap (λ x. some (image (build x))) (sym all)),
          rw all small,
          Stored-same dir next d.files (flushed dir name es d).files h.ids gss
              (λ id less.
                ap (BTreeMap.get (sstable_path dir id)) once
                ∙ Lookup.get-insert_ne (sstable_path dir id) name file d.files (λ e.
                  let equal = sstable_path_injective dir id next (omega arith) fits e in
                  omega arith))
              h.stored,
        );
        listed = flushed-Listed dir next ts gss es d fits h;
        no_dirs = (IsSaved-dir dir next ts gss d h).no_dirs;
      }
