-- ===== src/Disk/Directory.antt =====
-- Directories of `std::fs`: listing one and removing one.
use ferrum_db.Base.{
  ◌≡◌, refl, ap, ==_refl, ℕ, ◌-◌, Bool, true, false, not, ◌&&◌, ltb, Option, none, some, List, [],
  ◌∷◌, ◌++◌, if◌then◌else◌,
}
use ferrum_db.Base.Bytes.{Bytes, strip_prefix, has_char}
use ferrum_db.BTreeMap
use ferrum_db.BTreeMap.{BTreeMap}
use ferrum_db.Errors.{ok, err, io_error, os}
use ferrum_db.Disk.{Disk, Exec, syscall, join}

abbrev pub is_dir : Bytes → Disk → Bool
is_dir path d = elim (BTreeMap.get path d.dirs) [ none ↦ false | some u ↦ true ]

-- The next entry of a directory, or its end.
unfoldable pub next_entry : Exec Disk (Unit {0})
unfolding syscall
next_entry = syscall (λ d. (ok tt, d)) (λ n d. d)

module _ (path : Bytes) where
  -- The names of what stands directly in the directory `path`.
  unfoldable pub child : Bytes → Option Bytes
  child q = elim (strip_prefix (join path []) q) [
    | none ↦ none
    | some name ↦ if has_char b'/' name then none else some name
  ]

  unfoldable pub children {ℓ} : {V : Type ℓ} → BTreeMap V → List Bytes
  unfolding child
  children [] = []
  children ((q, v) ∷ m) =
      let rest = children m in elim (child q) [ none ↦ rest | some name ↦ name ∷ rest ]

  -- `read_dir`, in the order that the file system chooses; a missing directory is an error.
  unfoldable pub read_dir : (List Bytes → List Bytes) → Exec Disk (List Bytes)
  unfolding syscall
  read_dir order =
      syscall
        (λ d. (
          elim (BTreeMap.get path d.dirs) [
            | none ↦ err (io_error os)
            | some u ↦ ok (order (children d.files ++ children d.dirs))
          ],
          d,
        ))
        (λ n d. d)

  -- Whether the file or directory `q` lies in the directory `path`, at any depth.
  unfoldable pub is_under : Bytes → Bool
  is_under q = elim (strip_prefix (join path []) q) [ none ↦ false | some name ↦ true ]

  drop_under : ℕ → BTreeMap Bytes → BTreeMap Bytes
  drop_under n [] = []
  drop_under n ((q, file) ∷ files) =
      if is_under q && ltb 0 n then drop_under (n - 1) files else (q, file) ∷ drop_under n files

  -- `remove_dir_all`; a failure leaves some of the files removed.
  unfoldable pub remove_dir_all : Exec Disk (Unit {0})
  unfolding syscall drop_under
  remove_dir_all =
      syscall
        (λ d.
          if is_dir path d
          then (
            ok tt,
            record d {
              files = BTreeMap.retain (λ q v. not (is_under q)) d.files;
              dirs = BTreeMap.remove path (BTreeMap.retain (λ q v. not (is_under q)) d.dirs);
            },
          )
          else (err (io_error os), d))
        (λ n d. record d { files = drop_under n d.files })

pub strip_prefix-append : (p s : Bytes) → strip_prefix p (p ++ s) ≡ some s
unfolding strip_prefix
strip_prefix-append [] s = refl
strip_prefix-append (x ∷ p) s = rw (==_refl x) (strip_prefix-append p s)

pub join-append : (dir name : Bytes) → join dir name ≡ join dir [] ++ name
join-append [] name = refl
join-append (x ∷ dir) name = ap (◌∷◌ x) (join-append dir name)

-- A name without a separator stands directly in its directory.
pub child-join :
    (dir name : Bytes) → has_char b'/' name ≡ false → child dir (join dir name) ≡ some name
unfolding child
child-join dir name h =
    rw (join-append dir name, child, strip_prefix-append (join dir []) name, h) refl
