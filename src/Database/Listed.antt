-- ===== src/Database/Listed.antt =====
-- What `list_tables` of ferrumdb/src/database.rs lists.
use ferrum_db.Base.{
  ◌≡◌, refl, ap, ◌∙◌, sym, subst, Bool, true, false, not, ◌||◌, ◌&&◌, Option, none, some, List, [],
  ◌∷◌, ◌++◌, arith, inl, inr, Bool-cases, Option-cases, Ordering, if◌then◌else◌,
}
use ferrum_db.Base.Bytes.{Bytes, cmp, cmp_refl, eq_of_cmp, gt_of_lt, is_lt, has_char}
use ferrum_db.BTreeMap
use ferrum_db.BTreeMap.{BTreeMap}
use ferrum_db.Proto.{Codec}
use ferrum_db.Disk.{Disk, join}
use ferrum_db.Disk.Directory.{is_dir, child, children, join-append, strip_prefix-append}
use ferrum_db.Store.Listing.Names.{child-some}
use ferrum_db.Store.Open.Fresh.{read_dir-healthy, next_entry-healthy}
use ferrum_db.Api.{ok, converted}
use ferrum_db.Database.{Database, insert_name, sort, list_entries, list_tables}
use mathlib.Core.List.{Permᴰ}
use Prim.Native.Nat.Ordering.{lt, eq, gt}

abbrev is_eq : Ordering → Bool
is_eq lt = false
is_eq eq = true
is_eq gt = false

-- Whether the name is in the list.
unfoldable pub has_name : Bytes → List Bytes → Bool
has_name n [] = false
has_name n (m ∷ names) = is_eq (cmp n m) || has_name n names

-- No name is above the next one.
abbrev pub Ascends : List Bytes → Type 0
Ascends [] = Unit
Ascends (n ∷ []) = Unit
Ascends (n ∷ m ∷ names) = (is_lt (cmp m n) ≡ false) × Ascends (m ∷ names)

has_name-Perm : (n : Bytes) {k l : List Bytes} → Permᴰ k l → has_name n k ≡ has_name n l
unfolding has_name
has_name-Perm n Permᴰ.nil = refl
has_name-Perm n (Permᴰ.cons e p) = rw (e, has_name-Perm n p) refl
has_name-Perm n (Permᴰ.swap e f) = rw (e, f) ground arith
has_name-Perm n (Permᴰ.trans p q) = has_name-Perm n p ∙ has_name-Perm n q

has_name-append :
    (n : Bytes) (k l : List Bytes) → has_name n (k ++ l) ≡ has_name n k || has_name n l
unfolding has_name
has_name-append n [] l = refl
has_name-append n (m ∷ k) l = ground (arith, has_name-append n k l)

has_name-insert_name :
    (n m : Bytes) (names : List Bytes)
    → has_name n (insert_name m names) ≡ is_eq (cmp n m) || has_name n names
unfolding has_name insert_name
has_name-insert_name n m [] = refl
has_name-insert_name n m (k ∷ names) = ground (arith, has_name-insert_name n m names)

has_name-sort : (n : Bytes) (names : List Bytes) → has_name n (sort names) ≡ has_name n names
unfolding has_name sort
has_name-sort n [] = refl
has_name-sort n (m ∷ names) =
    has_name-insert_name n m (sort names) ∙ rw (has_name-sort n names) refl

lt_asym : (m n : Bytes) → is_lt (cmp m n) ≡ true → is_lt (cmp n m) ≡ false
lt_asym m n h = ground (arith, h, gt_of_lt m n)

insert_name-Ascends :
    (n : Bytes) (names : List Bytes) → Ascends names → Ascends (insert_name n names)
unfolding insert_name
insert_name-Ascends n [] h = tt
insert_name-Ascends n (m ∷ []) h = elim (Bool-cases (is_lt (cmp m n))) [
  | inl below ↦ rw (below, insert_name) (lt_asym m n below, tt)
  | inr above ↦ rw (above, insert_name) (above, tt)
]
insert_name-Ascends n (m ∷ k ∷ names) (le, h) = elim (Bool-cases (is_lt (cmp m n))) [
  | inl below ↦
      let rest = insert_name-Ascends n (k ∷ names) h in
      elim (Bool-cases (is_lt (cmp k n))) [
        | inl lower ↦ rw (below, lower, insert_name) (le, rw (lower, insert_name) at rest)
        | inr upper ↦ rw (below, upper, insert_name) (lt_asym m n below, (upper, h))
      ]
  | inr above ↦ rw (above, insert_name) (above, (le, h))
]

sort-Ascends : (names : List Bytes) → Ascends (sort names)
unfolding sort
sort-Ascends [] = tt
sort-Ascends (n ∷ names) = insert_name-Ascends n (sort names) (sort-Ascends names)

child-join_any :
    (dir n : Bytes) → child dir (join dir n) ≡ (if has_char b'/' n then none else some n)
unfolding child
child-join_any dir n = rw (join-append dir n, child, strip_prefix-append (join dir []) n) refl

eq_of_is_eq : (a b : Bytes) → is_eq (cmp a b) ≡ true → a ≡ b
eq_of_is_eq a b h = ground (arith, h, eq_of_cmp a b)

-- The name of a path in front of a list, where it is in the directory.
abbrev named : Option Bytes → List Bytes → List Bytes
named o names = elim o [ none ↦ names | some name ↦ name ∷ names ]

has_name-named :
    (dir n q : Bytes) (names : List Bytes)
    → has_name n (named (child dir q) names)
      ≡ (is_eq (cmp (join dir n) q) && not (has_char b'/' n)) || has_name n names
unfolding has_name
has_name-named dir n q names = elim (Bool-cases (is_eq (cmp (join dir n) q))) [
  | inl same ↦
      subst
        (λ p.
          has_name n (named (child dir p) names)
          ≡ (is_eq (cmp (join dir n) p) && not (has_char b'/' n)) || has_name n names)
        (eq_of_is_eq (join dir n) q same)
        (rw (child-join_any dir n, cmp_refl (join dir n)) (ground (arith, cmp_refl n)))
  | inr apart ↦ elim (Option-cases (child dir q)) [
    | inl outside ↦ rw (outside, apart) refl
    | inr (name, inside) ↦ elim (Bool-cases (is_eq (cmp n name))) [
      | inl equal ↦
          let e : join dir n ≡ q =
            ap (join dir) (eq_of_is_eq n name equal) ∙ sym (child-some dir q name inside) in
          let itself = rw (e, cmp_refl q) at apart in cc
      | inr other ↦ rw (inside, apart, has_name, other) refl
    ]
  ]
]

abbrev is_there : {V : Type 0} → Option V → Bool
is_there o = elim o [ none ↦ false | some v ↦ true ]

-- A directory has the name if its path is there.
has_name-children :
    {V : Type 0} (dir n : Bytes) (m : BTreeMap V)
    → has_name n (children dir m) ≡ is_there (BTreeMap.get (join dir n) m) && not (has_char b'/' n)
unfolding children BTreeMap.get has_name
has_name-children dir n [] = refl
has_name-children dir n ((q, v) ∷ m) =
    has_name-named dir n q (children dir m) ∙ ground (arith, has_name-children dir n m)

module _ ⦃c : Codec⦄ where
  -- A name that stands for a table.
  abbrev is_table : Bytes → Disk → Bytes → Bool
  is_table root d n = is_dir (join root n) d && c.is_utf8 n

  unfoldable tables_of : Bytes → Disk → List Bytes → List Bytes
  tables_of root d [] = []
  tables_of root d (n ∷ names) =
      let rest = tables_of root d names in if is_table root d n then n ∷ rest else rest

  list_entries_lem :
      (root : Bytes) (names : List Bytes) (d : Disk)
      → d.faults ≡ []
      → list_entries root names d ≡ (ok (tables_of root d names), d)
  unfolding list_entries tables_of converted
  list_entries_lem root [] d healthy = rw (next_entry-healthy d healthy) refl
  list_entries_lem root (n ∷ names) d healthy =
      rw (next_entry-healthy d healthy, list_entries_lem root names d healthy) refl

  has_name-tables_of :
      (root n : Bytes) (names : List Bytes) (d : Disk)
      → has_name n (tables_of root d names) ≡ has_name n names && is_table root d n
  unfolding has_name tables_of
  has_name-tables_of root n [] d = refl
  has_name-tables_of root n (m ∷ names) d =
      let rest = tables_of root d names in
      let kept = has_name-tables_of root n names d in
      elim (Bool-cases (is_eq (cmp n m))) [
        | inl same ↦
            subst
              (λ p.
                has_name n (if is_table root d p then p ∷ rest else rest)
                ≡ (is_eq (cmp n p) || has_name n names) && is_table root d n)
              (eq_of_is_eq n m same)
              (elim (Bool-cases (is_table root d n)) [
                | inl kind ↦ rw (kind, cmp_refl n, has_name) refl
                | inr unkind ↦ rw (unkind, cmp_refl n, has_name) (kept ∙ rw unkind (ground arith))
              ])
        | inr other ↦ elim (Bool-cases (is_table root d m)) [
          | inl kind ↦ rw (kind, other, has_name) kept
          | inr unkind ↦ rw (unkind, other, has_name) kept
        ]
      ]

  -- On a working disk whose root directory is there, `list_tables` lists in ascending order the
  -- names of the root's directories that are valid UTF-8, and no other, in whatever order the file
  -- system lists the root; it leaves the disk as it is.
  pub list_tables-Ascends :
      (order : List Bytes → List Bytes)
      → ((names : List Bytes) → Permᴰ (order names) names)
      → (db : Database) (d : Disk) → d.faults ≡ []
      → BTreeMap.get db.root d.dirs ≡ some tt
      → (names : List Bytes) × (list_tables order db d ≡ (ok names, d))
        × Ascends names
        × ((n : Bytes)
            → has_name n names
              ≡ is_dir (join db.root n) d && (not (has_char b'/' n) && c.is_utf8 n))
  unfolding list_tables converted
  list_tables-Ascends order permutes db d healthy there =
      let inside = children db.root d.files ++ children db.root d.dirs in
      let tables = tables_of db.root d (order inside) in
      (
        sort tables,
        rw
            (
              read_dir-healthy order db.root d healthy there,
              list_entries_lem db.root (order inside) d healthy,
            )
            refl,
        sort-Ascends tables,
        λ n.
            has_name-sort n tables
            ∙ (has_name-tables_of db.root n (order inside) d
                ∙ rw
                    (
                      has_name-Perm n (permutes inside),
                      has_name-append n (children db.root d.files) (children db.root d.dirs),
                      has_name-children db.root n d.files,
                      has_name-children db.root n d.dirs,
                    )
                    (ground arith)),
      )
