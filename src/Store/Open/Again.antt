-- ===== src/Store/Open/Again.antt =====
-- The parts of opening a directory again: the tables that are found, the log that is replayed and
-- the lock's file, of ferrumdb-core/src/store.rs.
use ferrum_db.Base.{
  ℕ, Bool, ◌<◌, ◌≡◌, refl, ap, ap₂, ◌∙◌, List, [], ◌∷◌, map, All, Option-cases, inl, inr,
}
use ferrum_db.Base.Bytes.{Bytes}
use ferrum_db.BTreeMap
use ferrum_db.BTreeMap.{BTreeMap, IsSorted}
use ferrum_db.BTreeMap.Lookup.{or_else}
use ferrum_db.Errors.{ok}
use ferrum_db.Proto.{WalEntry, Codec}
use ferrum_db.Value.{Entry}
use ferrum_db.Disk.{Disk, open_create, put_file}
use ferrum_db.Disk.Healthy.{open_create-healthy, open_create-healthy_new}
use ferrum_db.Disk.Kept.{Kept, Kept-refl, Kept-put_file}
use ferrum_db.Wal.{Wal, read_for_recovery}
use ferrum_db.Wal.Append.{IsLog}
use ferrum_db.SsTable.Table.{SsTable}
use ferrum_db.SsTable.Table.Layout.{Group, concat}
use ferrum_db.SsTable.Table.Flushed.{Holds-built}
use ferrum_db.Store.{Store}
use ferrum_db.Store.Files.{sstable_path}
use ferrum_db.Store.Lookup.{newest, AllHold}
use ferrum_db.Store.Saved.{Stored}
use ferrum_db.Store.Valid.{IsNamed}
use ferrum_db.Store.Compact.{paths_of}
use ferrum_db.Store.Compact.Merged.{runs}
use ferrum_db.Store.Compact.Files.{built_path}
use ferrum_db.Store.Replay.{replay_wal, replay_entries}
use ferrum_db.Store.Replay.Batches.{Replays, with_memtable}
use ferrum_db.Store.Write.{on_wal, after_insert}
use ferrum_db.Store.Open.Found.{table_at, Opens-image}

module _ ⦃c : Codec⦄ where
  -- The tables that loading finds hold what the files were written for.
  pub reloaded :
      (dir : Bytes) (d e : Disk) (top next : ℕ) (ids : List ℕ) (ts : List SsTable)
      (gss : List (List Group))
      → e.faults ≡ []
      → Stored dir top e.files ids gss
      → AllHold ts d gss
      → All (λ id. id < next) ids
      → (other : List (List Group)) × AllHold (map (table_at dir e) ids) e other
        × Stored dir top e.files ids other
        × (paths_of (map (table_at dir e) ids) ≡ map (sstable_path dir) ids)
        × All (IsNamed dir next) (map (table_at dir e) ids)
        × ((q : Bytes) → newest q other ≡ newest q gss)
        × (runs other ≡ runs gss)
  unfolding newest
  reloaded dir d e top next [] ts [] healthy h holds below = ([], tt, tt, refl, tt, λ q. refl, refl)
  reloaded dir d e top next [] ts (gs ∷ gss) healthy h holds below = absurd h
  reloaded dir d e top next (id ∷ ids) ts [] healthy h holds below = absurd h
  reloaded dir d e top next (id ∷ ids) [] (gs ∷ gss) healthy h holds below = absurd holds
  reloaded dir d e top next (id ∷ ids) (t ∷ ts) (gs ∷ gss) healthy (less, there, small, h)
        (hold, holds) (fits, below) =
      let (other, rest, stored, paths, named, same, runs_same) =
        reloaded dir d e id next ids ts gss healthy h holds below in
      let path = sstable_path dir id in
      let es = concat gs in
      let (opens, table) = Opens-image dir e id es healthy there small in
      let (fs, found, all) = Holds-built path es e hold.sorted hold.valid small there in
      let at : (table_at dir e id).path ≡ path = ap (λ u. u.path) table ∙ built_path path es in
      (
        fs ∷ other,
        (rw table found, rest),
        (less, rw all there, rw all small, stored),
        ap₂ ◌∷◌ at paths,
        ((id, at, fits), named),
        λ q. ap₂ or_else (ap (BTreeMap.get q) all) (same q),
        ap₂ ◌∷◌ all runs_same,
      )

  -- The log's file gives the entries `es` back.
  abbrev pub Recovers : Bytes → Disk → List WalEntry → Type 0
  Recovers path d es =
      (w : Wal)
      → w.file_path ≡ path
      → (handle : Bool) × (after : Disk) × (read_for_recovery (w, d)
          ≡ (ok es, (record w { file = handle }, after)))
        × IsLog w after es
        × Kept w.file_path d after

  pub replay_wal_lem :
      (w : Store) (d after : Disk) (es : List WalEntry) (m : BTreeMap Entry) (handle : Bool)
      → read_for_recovery (w.wal, d) ≡ (ok es, (record w.wal { file = handle }, after))
      → Replays es m
      → w.memtable ≡ []
      → w.memtable_bytes ≡ 0
      → (last : ℕ) × (replay_wal (w, d) ≡ (
        ok tt,
        (with_memtable (record w { wal = record w.wal { file = handle } }) m last, after),
      ))
  unfolding replay_wal replay_entries on_wal after_insert
  replay_wal_lem w d after es m handle found replays empty counted =
      let (last, replayed) =
        replays (record w { wal = record w.wal { file = handle } }) empty counted in
      (last, rw (found, replayed) refl)

  -- The lock's file, made or there.
  pub made_lock :
      (path : Bytes) (d : Disk)
      → d.faults ≡ []
      → (e : Disk) × (open_create path d ≡ (ok tt, e)) × Kept path d e × (e.locks ≡ d.locks)
  made_lock path d healthy = elim (Option-cases (BTreeMap.get path d.files)) [
    | inl absent ↦ (
      put_file path [] d,
      open_create-healthy_new path d healthy absent,
      Kept-put_file path [] d healthy,
      refl,
    )
    | inr (b, found) ↦
        (d, open_create-healthy path d healthy b found, Kept-refl path d healthy, refl)
  ]
