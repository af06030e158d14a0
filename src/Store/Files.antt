-- ===== src/Store/Files.antt =====
-- The files of a table's directory, of ferrumdb-core/src/store.rs.
use ferrum_db.Base.{
  ℕ, ◌^◌, ◌<◌, ◌≡◌, ◌≢◌, refl, ap, ◌∙◌, sym, Bool, true, false, Option, none, some, [], ◌∷◌, ◌++◌,
  length, if◌then◌else◌, ◌==◌, ==_refl, arith, length-append, drop, drop-append,
}
use ferrum_db.Base.Bytes.{Bytes, strip_prefix}
use ferrum_db.Base.Decimal.{digits, parse_u64, parse_u64-digits}
use ferrum_db.Disk.{join}

-- "sstable_"
abbrev pub table_prefix : Bytes
table_prefix = b's' ∷ b's' ∷ b't' ∷ b'a' ∷ b'b' ∷ b'l' ∷ b'e' ∷ b'_' ∷ []

-- ".sst"
abbrev pub table_suffix : Bytes
table_suffix = b'.' ∷ b's' ∷ b's' ∷ b't' ∷ []

-- `dir.join(format!("sstable_{}.sst", id))`
unfoldable pub sstable_path : Bytes → ℕ → Bytes
sstable_path dir id = join dir (table_prefix ++ (digits id ++ table_suffix))

-- `dir.join("wal.log")`
unfoldable pub wal_path : Bytes → Bytes
wal_path dir = join dir (b'w' ∷ b'a' ∷ b'l' ∷ b'.' ∷ b'l' ∷ b'o' ∷ b'g' ∷ [])

-- `dir.join("LOCK")`
unfoldable pub lock_path : Bytes → Bytes
lock_path dir = join dir (b'L' ∷ b'O' ∷ b'C' ∷ b'K' ∷ [])

-- `strip_suffix`, here of a suffix that is not empty
unfoldable pub is_same : Bytes → Bytes → Bool
is_same [] [] = true
is_same [] (y ∷ ys) = false
is_same (x ∷ xs) [] = false
is_same (x ∷ xs) (y ∷ ys) = let rest = is_same xs ys in if x == y then rest else false

unfoldable pub prepend : ℕ → Option Bytes → Option Bytes
prepend c none = none
prepend c (some rest) = some (c ∷ rest)

unfoldable pub strip_suffix : Bytes → Bytes → Option Bytes
strip_suffix suffix [] = if is_same suffix [] then some [] else none
strip_suffix suffix (c ∷ cs) =
    let rest = prepend c (strip_suffix suffix cs) in
    if is_same suffix (c ∷ cs) then some [] else rest

unfoldable pub and_then : {A : Type 0} → Option A → (A → Option ℕ) → Option ℕ
and_then none f = none
and_then (some a) f = f a

-- `sstable_id_from_path`, on the path's file name; a name that is not UTF-8 does not have this form.
unfoldable pub sstable_id : Bytes → Option ℕ
sstable_id name =
    and_then (strip_prefix table_prefix name)
      (λ rest. and_then (strip_suffix table_suffix rest) parse_u64)

is_same-length : (xs ys : Bytes) → length xs ≢ length ys → is_same xs ys ≡ false
unfolding is_same
is_same-length [] [] h = absurd (h refl)
is_same-length [] (y ∷ ys) h = refl
is_same-length (x ∷ xs) [] h = refl
is_same-length (x ∷ xs) (y ∷ ys) h = let rest = is_same-length xs ys (omega arith) in ground arith

is_same_refl : (xs : Bytes) → is_same xs xs ≡ true
unfolding is_same
is_same_refl [] = refl
is_same_refl (x ∷ xs) = rw (==_refl x) (is_same_refl xs)

strip_suffix_self : (suffix : Bytes) → strip_suffix suffix suffix ≡ some []
unfolding strip_suffix
strip_suffix_self [] = unfold is_same in refl
strip_suffix_self (c ∷ cs) = rw (is_same_refl (c ∷ cs))

strip_suffix-append : (suffix xs : Bytes) → strip_suffix suffix (xs ++ suffix) ≡ some xs
unfolding strip_suffix prepend
strip_suffix-append suffix [] = strip_suffix_self suffix
strip_suffix-append suffix (x ∷ xs) =
    let longer =
      is_same-length suffix (x ∷ (xs ++ suffix)) (omega (arith, length-append xs suffix)) in
    rw (longer, strip_suffix-append suffix xs)

-- The id, below 2^64, is read back off the name that `flush` and `compact` give to a table's file.
pub sstable_id-digits :
    (id : ℕ) → id < 2 ^ 64 → sstable_id (table_prefix ++ (digits id ++ table_suffix)) ≡ some id
unfolding sstable_id and_then strip_prefix
sstable_id-digits id fits =
    rw (strip_suffix-append table_suffix (digits id)) (parse_u64-digits id fits)

join_injective : (dir a b : Bytes) → join dir a ≡ join dir b → a ≡ b
join_injective dir a b e =
    let same = ap (drop (length dir)) e in
    let split = λ (x : Bytes). drop-append dir (b'/' ∷ x) (length dir) refl in
    ap (drop 1) (sym (split a) ∙ (same ∙ split b))

-- Two tables have two files, and neither is the log.
pub sstable_path_injective :
    (dir : Bytes) (i j : ℕ)
    → i < 2 ^ 64
    → j < 2 ^ 64
    → sstable_path dir i ≡ sstable_path dir j
    → i ≡ j
unfolding sstable_path
sstable_path_injective dir i j hi hj e =
    let names = ap sstable_id (join_injective dir _ _ e) in
    let found : some i ≡ some j = sym (sstable_id-digits i hi) ∙ (names ∙ sstable_id-digits j hj) in
    cc

pub sstable_path-ne-wal_path : (dir : Bytes) (i : ℕ) → sstable_path dir i ≢ wal_path dir
unfolding sstable_path wal_path
sstable_path-ne-wal_path dir i e = let names = join_injective dir _ _ e in cc

pub lock_path-ne-wal_path : (dir : Bytes) → lock_path dir ≢ wal_path dir
unfolding lock_path wal_path
lock_path-ne-wal_path dir e = let names = join_injective dir _ _ e in cc

pub sstable_path-ne-lock_path : (dir : Bytes) (i : ℕ) → sstable_path dir i ≢ lock_path dir
unfolding sstable_path lock_path
sstable_path-ne-lock_path dir i e = let names = join_injective dir _ _ e in cc
