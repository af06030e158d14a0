-- ===== src/Store/Listing.antt =====
-- The files of tables in a directory, as `load_sstables` of ferrumdb-core/src/store.rs finds them:
-- their ids, and what a change of one file makes of these.
pub mod Sort
pub mod Change
pub mod Names
use ferrum_db.Base.{
  ℕ, ◌^◌, ◌≤◌, ◌<◌, ◌≡◌, ◌≢◌, refl, ap, ◌∙◌, sym, subst, Bool, true, false, Option, none, some,
  List, [], ◌∷◌, ◌++◌, All, length, ◌==◌, if◌then◌else◌, arith, Option-cases, Ordering-cases,
  Bool-cases, inl, inr, length-append, suc, zero, ◌%◌, ◌/◌, ◌+◌,
}
use ferrum_db.Base.Bytes.{Bytes, strip_prefix, has_char, cmp, eq_of_cmp, cmp_refl}
use ferrum_db.Base.Decimal.{digits, digits_loop}
use ferrum_db.BTreeMap
use ferrum_db.BTreeMap.{BTreeMap}
use ferrum_db.BTreeMap.Entries.{All-insert}
use ferrum_db.Disk.{join}
use ferrum_db.Disk.Directory.{child, child-join, children}
use ferrum_db.Store.Files.{
  and_then, sstable_id, sstable_id-digits, sstable_path, wal_path, lock_path, table_prefix,
  table_suffix, sstable_path_injective,
}
use ferrum_db.Store.Listing.Sort.{
  insert_desc, insert_desc_comm, insert_desc_top, sort_desc, without, sort_desc-without, Below,
  Below-All, Below-AtMost, All-sort_desc,
}

-- The id of the table whose file `q` stands directly in the directory.
unfoldable pub id_at : Bytes → Bytes → Option ℕ
id_at dir q = and_then (child dir q) sstable_id

-- `path` is not the path of a table's file in `dir`.
abbrev pub NoTable : Bytes → Bytes → Type 0
NoTable dir path = id_at dir path ≡ none

-- The id in front, where there is one.
unfoldable pub with_some : Option ℕ → List ℕ → List ℕ
with_some none ids = ids
with_some (some id) ids = id ∷ ids

unfoldable pub ids_in {ℓ} : {V : Type ℓ} → Bytes → BTreeMap V → List ℕ
ids_in dir [] = []
ids_in dir ((q, v) ∷ m) = with_some (id_at dir q) (ids_in dir m)

-- The ids among the names of a directory.
unfoldable pub table_ids : List Bytes → List ℕ
table_ids [] = []
table_ids (name ∷ names) = with_some (sstable_id name) (table_ids names)

pub table_ids-children :
    {V : Type 0} (dir : Bytes) (m : BTreeMap V) → table_ids (children dir m) ≡ ids_in dir m
unfolding ids_in children id_at and_then table_ids with_some
table_ids-children dir [] = refl
table_ids-children dir ((q, v) ∷ m) = elim (Option-cases (child dir q)) [
  | inl outside ↦ rw (outside, children, ids_in, id_at) (table_ids-children dir m)
  | inr (name, inside) ↦
      rw (inside, children, ids_in, id_at, table_ids, table_ids-children dir m) refl
]

-- A table's file has the name that `flush` gives it.
abbrev pub IsCanonical : Bytes → Bytes → Type 0
IsCanonical dir q = (id : ℕ) → id_at dir q ≡ some id → q ≡ sstable_path dir id

-- The tables' files in the directory are those of the ids, from the highest to the lowest.
abbrev pub Listed : Bytes → BTreeMap Bytes → List ℕ → Type 0
Listed dir m ids = (sort_desc (ids_in dir m) ≡ ids) × All (λ p. IsCanonical dir p.0) m

has_char-append :
    (c : ℕ) (xs ys : Bytes)
    → has_char c xs ≡ false
    → has_char c ys ≡ false
    → has_char c (xs ++ ys) ≡ false
unfolding has_char
has_char-append c [] ys h g = g
has_char-append c (x ∷ xs) ys h g = ground (arith, has_char-append c xs ys)

has_char-digits_loop : (fuel n : ℕ) → has_char b'/' (digits_loop fuel n) ≡ false
unfolding digits_loop has_char
has_char-digits_loop zero n = ground arith
has_char-digits_loop (suc fuel) n = ground (
  arith,
  has_char-digits_loop fuel (n / 10),
  has_char-append b'/' (digits_loop fuel (n / 10)) ((b'0' + n % 10) ∷ []),
)

pub id_at-sstable_path :
    (dir : Bytes) (id : ℕ) → id < 2 ^ 64 → id_at dir (sstable_path dir id) ≡ some id
unfolding id_at and_then sstable_path has_char digits
id_at-sstable_path dir id fits =
    let name = table_prefix ++ (digits id ++ table_suffix) in
    let plain : has_char b'/' name ≡ false =
      has_char-append b'/' (digits id) table_suffix (has_char-digits_loop id id) refl in
    rw (child-join dir name plain) (sstable_id-digits id fits)

pub wal-NoTable : (dir : Bytes) → NoTable dir (wal_path dir)
unfolding wal_path sstable_id strip_prefix and_then id_at has_char
wal-NoTable dir =
    rw (child-join dir (b'w' ∷ b'a' ∷ b'l' ∷ b'.' ∷ b'l' ∷ b'o' ∷ b'g' ∷ []) refl) refl

pub lock-NoTable : (dir : Bytes) → NoTable dir (lock_path dir)
unfolding lock_path sstable_id strip_prefix and_then id_at has_char
lock-NoTable dir = rw (child-join dir (b'L' ∷ b'O' ∷ b'C' ∷ b'K' ∷ []) refl) refl

strip_prefix-long : (p s r : Bytes) → strip_prefix p s ≡ some r → length p ≤ length s
unfolding strip_prefix
strip_prefix-long [] s r h = omega arith
strip_prefix-long (x ∷ p) [] r h = cc
strip_prefix-long (x ∷ p) (y ∷ s) r h = ground (arith, strip_prefix-long p s r)

-- The directory itself.
pub dir-NoTable : (dir : Bytes) → NoTable dir dir
unfolding id_at child and_then
dir-NoTable dir = elim (Option-cases (strip_prefix (join dir []) dir)) [
  | inl outside ↦ rw (id_at, child, outside) refl
  | inr (r, inside) ↦
      absurd
        (omega (arith, strip_prefix-long (join dir []) dir r inside, length-append dir (b'/' ∷ [])))
]

-- A directory without tables.
pub Listed-none :
    (dir : Bytes) (m : BTreeMap Bytes) → All (λ p. NoTable dir p.0) m → Listed dir m []
unfolding ids_in with_some sort_desc
Listed-none dir [] h = (refl, tt)
Listed-none dir ((q, b) ∷ m) (other, h) =
    let (empty, canonical) = Listed-none dir m h in
    (
      rw (ids_in, other) empty,
      (λ id at. let wrong : none ≡ some id = sym other ∙ at in cc, canonical),
    )
