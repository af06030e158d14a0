-- ===== src/Store/Compact/Removed.antt =====
-- What removing the merged tables' files leaves of the directory.
use ferrum_db.Base.{
  ℕ, ◌+◌, ◌^◌, ◌≤◌, ◌<◌, ◌≡◌, ◌≢◌, refl, ap, ◌∙◌, sym, some, List, [], ◌∷◌, All, map, length, arith,
  Option-cases, inl, inr,
}
use ferrum_db.Base.Bytes.{Bytes}
use ferrum_db.BTreeMap
use ferrum_db.BTreeMap.{BTreeMap}
use ferrum_db.BTreeMap.Lookup
use ferrum_db.Proto.{Codec}
use ferrum_db.Disk.{Disk, remove_file}
use ferrum_db.Disk.Healthy.{remove_file-healthy, remove_file-healthy_missing}
use ferrum_db.SsTable.Table.{SsTable}
use ferrum_db.SsTable.Table.Layout.{Group, concat}
use ferrum_db.SsTable.Table.Build.{image, build}
use ferrum_db.SsTable.Table.Flushed.{flushed}
use ferrum_db.Store.Files.{sstable_path}
use ferrum_db.Store.Compact.{remove_files, paths_of}
use ferrum_db.Store.Listing.{Listed}
use ferrum_db.Store.Listing.Change.{Listed-remove}
use ferrum_db.Store.Listing.Sort.{Below, without_all, without, without_all-rest, without_all_self}
use ferrum_db.Store.Saved.{IsSaved, Stored-Below, flushed-Listed, IsSaved-dir}

-- The files without those at the paths.
unfoldable pub remove_all : List Bytes → BTreeMap Bytes → BTreeMap Bytes
remove_all [] m = m
remove_all (p ∷ paths) m = remove_all paths (BTreeMap.remove p m)

remove_file_lem :
    (p : Bytes) (d : Disk)
    → d.faults ≡ []
    → (remove_file p d).1 ≡ record d { files = BTreeMap.remove p d.files }
remove_file_lem p d healthy = elim (Option-cases (BTreeMap.get p d.files)) [
  | inl absent ↦
      rw (remove_file-healthy_missing p d healthy absent)
        (ap (λ m. record d { files = m }) (sym (Lookup.remove_missing p d.files absent)))
  | inr (b, found) ↦ rw (remove_file-healthy p d healthy b found) refl
]

-- Removing files, present or not.
pub remove_files_lem :
    (paths : List Bytes) (d : Disk)
    → d.faults ≡ []
    → remove_files paths d ≡ record d { files = remove_all paths d.files }
unfolding remove_files remove_all
remove_files_lem [] d h = refl
remove_files_lem (p ∷ paths) d h =
    rw (remove_file_lem p d h)
      (remove_files_lem paths (record d { files = BTreeMap.remove p d.files }) h)

pub get-remove_all :
    (paths : List Bytes) (m : BTreeMap Bytes) (q : Bytes)
    → All (λ p. q ≢ p) paths
    → BTreeMap.get q (remove_all paths m) ≡ BTreeMap.get q m
unfolding remove_all
get-remove_all [] m q apart = refl
get-remove_all (p ∷ paths) m q (other, apart) =
    get-remove_all paths (BTreeMap.remove p m) q apart ∙ Lookup.get-remove_ne q p m other

pub Listed-remove_all :
    (dir : Bytes) (top : ℕ) (ids : List ℕ) (m : BTreeMap Bytes) (l : List ℕ)
    → top ≤ 2 ^ 64
    → Below top ids
    → Listed dir m l
    → Listed dir (remove_all (map (sstable_path dir) ids) m) (without_all ids l)
unfolding remove_all without_all
Listed-remove_all dir top [] m l fits below h = h
Listed-remove_all dir top (id ∷ ids) m l fits (less, below) h =
    Listed-remove_all dir id ids (BTreeMap.remove (sstable_path dir id) m) (without id l)
      (omega arith) below (Listed-remove dir id m l (omega arith) h)

module _ ⦃c : Codec⦄ (dir : Bytes) (next : ℕ) (ts : List SsTable) (gss : List (List Group))
    (fits : next < 2 ^ 64) where
  -- Nothing is left of the old tables.
  pub IsSaved-emptied :
      (d : Disk)
      → IsSaved dir next ts gss d
      → IsSaved dir next [] [] (record d { files = remove_all (paths_of ts) d.files })
  IsSaved-emptied d h =
      let below = Stored-Below dir next d.files h.ids gss h.stored in
      record {
        ids = [];
        paths = refl;
        stored = tt;
        listed =
            rw (h.paths, ← without_all_self next h.ids below)
              (Listed-remove_all dir next h.ids d.files h.ids (omega arith) below h.listed);
        no_dirs = h.no_dirs;
      }

  -- Only the new table is left.
  pub IsSaved-replaced :
      (t : SsTable) (gs : List Group) (es : Group) (d : Disk)
      → t.path ≡ sstable_path dir next
      → concat gs ≡ es
      → length (image (build es)) < 2 ^ 32
      → All (λ p. sstable_path dir next ≢ p) (paths_of ts)
      → IsSaved dir next ts gss d
      → IsSaved dir
          (next + 1)
          (t ∷ [])
          (gs ∷ [])
          (record (flushed dir (sstable_path dir next) es d) {
            files = remove_all (paths_of ts) (flushed dir (sstable_path dir next) es d).files;
          })
  IsSaved-replaced t gs es d path all small apart h =
      let name = sstable_path dir next in
      let after = flushed dir name es d in
      let below = Stored-Below dir next d.files h.ids gss h.stored in
      let stored =
        Lookup.get-insert_self name (image (build es)) (BTreeMap.insert name [] d.files) in
      record {
        ids = next ∷ [];
        paths = ap (λ p. p ∷ []) path;
        stored = (
          omega arith,
          get-remove_all (paths_of ts) after.files name apart
              ∙ (stored ∙ ap (λ x. some (image (build x))) (sym all)),
          rw all small,
          tt,
        );
        listed =
            rw (h.paths, ← without_all-rest next h.ids below)
              (Listed-remove_all dir next h.ids after.files (next ∷ h.ids) (omega arith) below
                (flushed-Listed dir next ts gss es d fits h));
        no_dirs = (IsSaved-dir dir next ts gss d h).no_dirs;
      }
