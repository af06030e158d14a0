-- ===== src/Disk.antt =====
-- `std::fs` as the program uses it: files by path, directories, held locks, and the failures that
-- the environment chooses. Each call takes the next entry of `faults`; `fail n` makes it fail
-- after the first `n` bytes of what it writes, and past the end of the list every call succeeds.
pub mod Healthy
pub mod Kept
pub mod Directory
use ferrum_db.Base.{
  ℕ, ◌+◌, ◌-◌, ◌≤◌, ◌≡◌, Bool, true, false, not, ◌&&◌, ltb, Option, none, some, List, [], ◌∷◌, ◌++◌,
  length, take, drop, replicate, leb, if◌then◌else◌, ◌==◌,
}
use ferrum_db.Base.Bytes.{Bytes}
use ferrum_db.BTreeMap.{BTreeMap}
use ferrum_db.BTreeMap
use ferrum_db.Errors.{Result, ok, err, panic, AppError, io_error, os}

pub data Fault : Type 0 where
  pass : Fault
  fail : ℕ → Fault

pub record Disk : Type 0 where
  pub files : BTreeMap Bytes
  pub dirs : BTreeMap (Unit {0})
  pub locks : BTreeMap (Unit {0})
  pub faults : List Fault

-- A computation on a state that may fail; what it wrote before an error stays written.
abbrev pub Exec : Type 0 → Type 0 → Type 0
Exec S A = S → Result A × S

abbrev continue : {S A B : Type 0} → Result A → (A → Exec S B) → Exec S B
continue (ok a) f s = f a s
continue (err e) f s = (err e, s)
continue panic f s = (panic, s)

infixl 5 ◌>>=◌ ◌>>◌
abbrev pub ◌>>=◌ : {S A B : Type 0} → Exec S A → (A → Exec S B) → Exec S B
◌>>=◌ m f s = let (r, s') = m s in continue r f s'

abbrev pub ◌>>◌ : {S B : Type 0} → Exec S (Unit {0}) → Exec S B → Exec S B
m >> k = m >>= λ _. k

abbrev pub pure : {S A : Type 0} → A → Exec S A
pure a s = (ok a, s)

abbrev pub lift : {S A : Type 0} → Result A → Exec S A
lift r s = (r, s)

-- A call of the file system from a state that is kept beside the disk.
abbrev pub on_disk : {S A : Type 0} → Exec Disk A → Exec (S × Disk) A
on_disk m s = let (r, d) = m s.1 in (r, (s.0, d))

-- A call of the operating system under the next fault: `act` is its effect, `part n` what a
-- failure after `n` bytes leaves.
with_fault : {A : Type 0} → List Fault → (Disk → Result A × Disk) → (ℕ → Disk → Disk) → Exec Disk A
with_fault [] act part d = act d
with_fault (pass ∷ fs) act part d = act (record d { faults = fs })
with_fault (fail n ∷ fs) act part d = (err (io_error os), part n (record d { faults = fs }))

pub syscall : {A : Type 0} → (Disk → Result A × Disk) → (ℕ → Disk → Disk) → Exec Disk A
unfolding with_fault
syscall act part d = with_fault d.faults act part d

abbrev pub contents : Bytes → Disk → Bytes
contents path d = elim (BTreeMap.get path d.files) [ none ↦ [] | some b ↦ b ]

abbrev pub exists : Bytes → Disk → Bool
exists path d = elim (BTreeMap.get path d.files) [ none ↦ false | some b ↦ true ]

abbrev pub put_file : Bytes → Bytes → Disk → Disk
put_file path b d = record d { files = BTreeMap.insert path b d.files }

-- `dir.join(name)`
abbrev pub join : Bytes → Bytes → Bytes
join dir name = dir ++ (b'/' ∷ name)

-- A call whose failure counts as the answer `false`.
abbrev or_false : Result Bool × Disk → Result Bool × Disk
or_false (ok b, d) = (ok b, d)
or_false (err e, d) = (ok false, d)
or_false (panic, d) = (panic, d)

module _ (path : Bytes) where
  -- `Path::exists`
  unfoldable pub stat : Exec Disk Bool
  unfolding syscall
  stat d = or_false (syscall (λ u. (ok (exists path u), u)) (λ n u. u) d)

  -- `create_dir_all`
  unfoldable pub create_dir_all : Exec Disk (Unit {0})
  unfolding syscall
  create_dir_all =
      syscall (λ d. (ok tt, record d { dirs = BTreeMap.insert path tt d.dirs })) (λ n d. d)

  -- `OpenOptions::new().create(true).append(true).open(path)`, and with `write` for `append`
  unfoldable pub open_create : Exec Disk (Unit {0})
  unfolding syscall
  open_create = syscall (λ d. (ok tt, if exists path d then d else put_file path [] d)) (λ n d. d)

  -- `File::create(path)`, and `OpenOptions` with `create`, `write` and `truncate`
  unfoldable pub create_truncate : Exec Disk (Unit {0})
  unfolding syscall
  create_truncate = syscall (λ d. (ok tt, put_file path [] d)) (λ n d. d)

  -- `File::open(path)`, and `OpenOptions` with `write` alone
  unfoldable pub open_existing : Exec Disk (Unit {0})
  unfolding syscall
  open_existing = syscall (λ d. (if exists path d then ok tt else err (io_error os), d)) (λ n d. d)

  -- `write_all` at the end of the file
  unfoldable pub write_all : Bytes → Exec Disk (Unit {0})
  unfolding syscall
  write_all b =
      syscall (λ d. (ok tt, put_file path (contents path d ++ b) d))
        (λ n d. put_file path (contents path d ++ take n b) d)

  -- `sync_all`, `seek` and `metadata` leave what the program can read as it is.
  unfoldable pub sync_all : Exec Disk (Unit {0})
  unfolding syscall
  sync_all = syscall (λ d. (ok tt, d)) (λ n d. d)

  unfoldable pub seek : ℕ → Exec Disk (Unit {0})
  unfolding syscall
  seek offset = syscall (λ d. (ok tt, d)) (λ n d. d)

  unfoldable pub file_len : Exec Disk ℕ
  unfolding syscall
  file_len = syscall (λ d. (ok (length (contents path d)), d)) (λ n d. d)

  unfoldable pub read_to_end : Exec Disk Bytes
  unfolding syscall
  read_to_end = syscall (λ d. (ok (contents path d), d)) (λ n d. d)

  -- `read_exact` of `len` bytes from `offset`: the end of the file before that is an error.
  unfoldable pub read_exact : ℕ → ℕ → Exec Disk Bytes
  unfolding syscall
  read_exact offset len =
      syscall
        (λ d.
          let file = contents path d in
          (
            (if leb (offset + len) (length file)
                then ok (take len (drop offset file))
                else err (io_error os)),
            d,
          ))
        (λ n d. d)

  -- `set_len`
  unfoldable pub set_len : ℕ → Exec Disk (Unit {0})
  unfolding syscall
  set_len n =
      syscall
        (λ d.
          let file = contents path d in
          (ok tt, put_file path (take n file ++ replicate (n - length file) 0) d))
        (λ _ d. d)

  -- `remove_file`
  unfoldable pub remove_file : Exec Disk (Unit {0})
  unfolding syscall
  remove_file =
      syscall
        (λ d.
          if exists path d
          then (ok tt, record d { files = BTreeMap.remove path d.files })
          else (err (io_error os), d))
        (λ n d. d)

  -- `flock` with `LOCK_EX | LOCK_NB` on the open file `path`; closing the file releases the lock.
  unfoldable pub flock : Exec Disk (Unit {0})
  unfolding syscall
  flock =
      syscall
        (λ d. elim (BTreeMap.get path d.locks) [
          | none ↦ (ok tt, record d { locks = BTreeMap.insert path tt d.locks })
          | some u ↦ (err (io_error os), d)
        ])
        (λ n d. d)

  abbrev pub unlock : Disk → Disk
  unlock d = record d { locks = BTreeMap.remove path d.locks }
