-- ===== src/Database/Names.antt =====
-- Table names stay inside the root directory.
use ferrum_db.Base.{
  ℕ, ◌==◌, ◌++◌, ◌⊎◌, ◌≡◌, ◌≢◌, refl, ap, ◌∙◌, sym, true, false, some, List, [], ◌∷◌, arith, inl,
  inr, Bool-cases,
}
use ferrum_db.Base.Bytes.{Bytes, has_char}
use ferrum_db.Disk.{Disk, join}
use ferrum_db.Disk.Directory.{child, child-join}
use ferrum_db.Proto.{Codec}
use ferrum_db.Api.{ok, err, invalid_table_name}
use ferrum_db.Database.{
  Database, is_empty, is_invalid, validate_name, create_table, table, delete_table,
}
use ferrum_db.Store.Files.{is_same}

validate_name-ok : (name : Bytes) → validate_name name ≡ ok tt → is_invalid name ≡ false
unfolding validate_name
validate_name-ok name h = elim (Bool-cases (is_invalid name)) [
  | inl bad ↦ let wrong = rw bad at h in cc
  | inr good ↦ good
]

-- The directory of a name that `validate_name` accepts stands directly in the root, under that
-- name, and the name is not empty, not `.` and not `..`.
pub validate_name-child :
    (root name : Bytes)
    → validate_name name ≡ ok tt
    → (child root (join root name) ≡ some name)
      × (name ≢ [])
      × (name ≢ b'.' ∷ [])
      × (name ≢ b'.' ∷ b'.' ∷ [])
unfolding child is_invalid is_same has_char
validate_name-child root name h =
    let good = validate_name-ok name h in
    let separator : has_char b'/' name ≡ false = ground (arith, good) in
    (
      child-join root name separator,
      λ e. let wrong : true ≡ false = sym (ap is_invalid e) ∙ good in cc,
      λ e. let wrong : true ≡ false = sym (ap is_invalid e) ∙ good in cc,
      λ e. let wrong : true ≡ false = sym (ap is_invalid e) ∙ good in cc,
    )

-- The character stands somewhere in the name.
abbrev pub Contains : ℕ → Bytes → Type 0
Contains c name = (before : Bytes) × (after : Bytes) × (name ≡ before ++ (c ∷ after))

-- A name that could lead out of the root, or to the root itself: it is empty, has a slash or a
-- backslash, or is `.` or `..`.
abbrev pub IsUnsafe : Bytes → Type 0
IsUnsafe name =
    (name ≡ [])
    ⊎ Contains b'/' name
    ⊎ Contains b'\\' name
    ⊎ (name ≡ b'.' ∷ [])
    ⊎ (name ≡ b'.' ∷ b'.' ∷ [])

has_char-Contains : (c : ℕ) (name : Bytes) → has_char c name ≡ true → Contains c name
unfolding has_char
has_char-Contains c [] h = cc
has_char-Contains c (x ∷ xs) h = elim (Bool-cases (x == c)) [
  | inl same ↦ ([], xs, ap (λ y. y ∷ xs) (ground (arith, same)))
  | inr other ↦
      let (before, after, e) = has_char-Contains c xs (rw (has_char, other) at h) in
      (x ∷ before, after, ap (◌∷◌ x) e)
]

has_char-found : (c : ℕ) (before after : Bytes) → has_char c (before ++ (c ∷ after)) ≡ true
unfolding has_char
has_char-found c [] after = ground arith
has_char-found c (x ∷ before) after = ground (arith, has_char-found c before after)

eq_of_is_same : (xs ys : Bytes) → is_same xs ys ≡ true → xs ≡ ys
unfolding is_same
eq_of_is_same [] [] h = refl
eq_of_is_same [] (y ∷ ys) h = cc
eq_of_is_same (x ∷ xs) [] h = cc
eq_of_is_same (x ∷ xs) (y ∷ ys) h = ground (arith, h, eq_of_is_same xs ys)

eq_of_is_empty : (name : Bytes) → is_empty name ≡ true → name ≡ []
eq_of_is_empty [] h = refl
eq_of_is_empty (x ∷ xs) h = cc

is_invalid-IsUnsafe : (name : Bytes) → is_invalid name ≡ true → IsUnsafe name
unfolding is_invalid
is_invalid-IsUnsafe name h = elim (Bool-cases (is_empty name)) [
  | inl empty ↦ inl (eq_of_is_empty name empty)
  | inr some_char ↦ elim (Bool-cases (has_char b'/' name)) [
    | inl slash ↦ inr (inl (has_char-Contains b'/' name slash))
    | inr plain ↦ elim (Bool-cases (has_char b'\\' name)) [
      | inl backslash ↦ inr (inr (inl (has_char-Contains b'\\' name backslash)))
      | inr simple ↦ elim (Bool-cases (is_same name (b'.' ∷ []))) [
        | inl here ↦ inr (inr (inr (inl (eq_of_is_same name (b'.' ∷ []) here))))
        | inr other ↦
            let up : is_same name (b'.' ∷ b'.' ∷ []) ≡ true =
              ground (arith, h, some_char, plain, simple, other) in
            inr (inr (inr (inr (eq_of_is_same name (b'.' ∷ b'.' ∷ []) up))))
      ]
    ]
  ]
]

IsUnsafe-is_invalid : (name : Bytes) → IsUnsafe name → is_invalid name ≡ true
unfolding is_invalid has_char is_same
IsUnsafe-is_invalid name (inl e) = rw e refl
IsUnsafe-is_invalid name (inr (inl (before, after, e))) =
    let found = ap (has_char b'/') e ∙ has_char-found b'/' before after in ground (arith, found)
IsUnsafe-is_invalid name (inr (inr (inl (before, after, e)))) =
    let found = ap (has_char b'\\') e ∙ has_char-found b'\\' before after in ground (arith, found)
IsUnsafe-is_invalid name (inr (inr (inr (inl e)))) = rw e refl
IsUnsafe-is_invalid name (inr (inr (inr (inr e)))) = rw e refl

module _ ⦃c : Codec⦄ where
  -- A name that is empty, has a slash or a backslash in it, or is `.` or `..`, is refused by
  -- `create_table`, `table` and `delete_table`, which then leave the database and the disk as they
  -- are; every other name passes `validate_name`.
  pub validate_name-err :
      (order : List Bytes → List Bytes) (name : Bytes) (s : Database × Disk)
      → (IsUnsafe name
          × (create_table order name s ≡ (err (invalid_table_name name), s))
          × (table order name s ≡ (err (invalid_table_name name), s))
          × (delete_table name s ≡ (err (invalid_table_name name), s)))
        ⊎ (¬ IsUnsafe name × (validate_name name ≡ ok tt))
  unfolding create_table table delete_table validate_name
  validate_name-err order name s = elim (Bool-cases (is_invalid name)) [
    | inl bad ↦ inl (is_invalid-IsUnsafe name bad, rw bad refl, rw bad refl, rw bad refl)
    | inr good ↦ inr (
      λ unsafe. let wrong : true ≡ false = sym (IsUnsafe-is_invalid name unsafe) ∙ good in cc,
      rw good refl,
    )
  ]
