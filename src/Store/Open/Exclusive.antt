-- ===== src/Store/Open/Exclusive.antt =====
-- A table whose lock is held cannot be opened again.
use ferrum_db.Base.{
  ℕ, ◌⊎◌, ◌≡◌, ◌≢◌, refl, ap, ◌∙◌, Bool-cases, some, List, [], ◌∷◌, inl, inr, arith,
}
use ferrum_db.Base.Bytes.{Bytes}
use ferrum_db.BTreeMap
use ferrum_db.BTreeMap.{BTreeMap}
use ferrum_db.Errors.{Result, ok, err, panic, io_error, os}
use ferrum_db.Proto.{Codec}
use ferrum_db.Disk.{Disk, Exec, Fault, pass, fail, ◌>>◌, exists, create_dir_all, open_create, flock}
use ferrum_db.Store.{Store}
use ferrum_db.Store.Files.{lock_path}
use ferrum_db.Store.Open.{lock_failed, lock_table, open_locked, open_with_dir}

-- The call has failed and the locks are as they were.
abbrev pub Refused : Result Store × Disk → BTreeMap (Unit {0}) → Type 0
Refused x locks = ((s : Store) → x.0 ≢ ok s) × (x.1.locks ≡ locks)

then-Refused :
    (x : Result (Unit {0}) × Disk) (k : Exec Disk Store) (d : Disk)
    → x.1.locks ≡ d.locks
    → ((e : Disk) → e.locks ≡ d.locks → Refused (k e) d.locks)
    → Refused (((λ _. x) >> k) d) d.locks
then-Refused (ok u, e) k d same h = h e same
then-Refused (err w, e) k d same h = (λ s equal. cc, same)
then-Refused (panic, e) k d same h = (λ s equal. cc, same)

-- The faults of a disk: none, one that passes, or one that fails.
Faults-cases :
    (fs : List Fault)
    → (fs ≡ [])
      ⊎ ((rest : List Fault) × (fs ≡ pass ∷ rest))
      ⊎ ((n : ℕ) × (rest : List Fault) × (fs ≡ fail n ∷ rest))
Faults-cases [] = inl refl
Faults-cases (pass ∷ fs) = inr (inl (fs, refl))
Faults-cases (fail n ∷ fs) = inr (inr (n, fs, refl))

create_dir_all-locks : (path : Bytes) (d : Disk) → (create_dir_all path d).1.locks ≡ d.locks
unfolding create_dir_all
create_dir_all-locks path d = elim (Faults-cases d.faults) [
  | inl healthy ↦ rw healthy refl
  | inr (inl (rest, passes)) ↦ rw passes refl
  | inr (inr (n, rest, fails)) ↦ rw fails refl
]

open_create-locks : (path : Bytes) (d : Disk) → (open_create path d).1.locks ≡ d.locks
unfolding open_create
open_create-locks path d = elim (Bool-cases (exists path d)) [
  | inl there ↦ elim (Faults-cases d.faults) [
    | inl healthy ↦ rw (healthy, there) refl
    | inr (inl (rest, passes)) ↦ rw (passes, there) refl
    | inr (inr (n, rest, fails)) ↦ rw fails refl
  ]
  | inr absent ↦ elim (Faults-cases d.faults) [
    | inl healthy ↦ rw (healthy, absent) refl
    | inr (inl (rest, passes)) ↦ rw (passes, absent) refl
    | inr (inr (n, rest, fails)) ↦ rw fails refl
  ]
]

flock-held :
    (path : Bytes) (d : Disk)
    → BTreeMap.get path d.locks ≡ some tt
    → ((flock path d).0 ≡ err (io_error os)) × ((flock path d).1.locks ≡ d.locks)
unfolding flock
flock-held path d held = ground (arith, held, Faults-cases d.faults)

module _ ⦃c : Codec⦄ (order : List Bytes → List Bytes) (dir : Bytes) where
  -- Where the lock of a directory is held, `open_with_dir` of it opens no store, whatever calls of
  -- the operating system fail, and no lock changes hands.
  pub open_with_dir-Refused :
      (d : Disk)
      → BTreeMap.get (lock_path dir) d.locks ≡ some tt
      → Refused (open_with_dir order dir d) d.locks
  unfolding open_with_dir lock_table lock_failed
  open_with_dir-Refused d held =
      let path = lock_path dir in
      let locking : (e : Disk)
          → e.locks ≡ d.locks
          → Refused ((lock_table path >> open_locked order dir) e) d.locks =
        λ e same.
          let (refused, locks) = flock-held path e (ap (BTreeMap.get path) same ∙ held) in
          rw refused (λ s equal. cc, locks ∙ same) in
      then-Refused (create_dir_all dir d)
        (open_create path >> (lock_table path >> open_locked order dir)) d
        (create_dir_all-locks dir d)
        (λ e same. rw (← same) (
          then-Refused (open_create path e) (lock_table path >> open_locked order dir) e
            (open_create-locks path e) (λ f kept. rw same (locking f (kept ∙ same)))))
