-- ===== src/Store/Listing/Names.antt =====
-- The names that a directory of tables is listed with, in any order.
use ferrum_db.Base.{
  ℕ, ◌≡◌, refl, ap, ◌∙◌, sym, subst, Option, none, some, List, [], ◌∷◌, ◌++◌, All, arith,
  Option-cases, Bool-cases, inl, inr,
}
use ferrum_db.Base.Bytes.{Bytes, strip_prefix, has_char}
use ferrum_db.BTreeMap.{BTreeMap}
use ferrum_db.Disk.{join}
use ferrum_db.Disk.Directory.{child, children, join-append}
use ferrum_db.Store.Files.{sstable_id, sstable_path, and_then}
use ferrum_db.Store.Listing.{id_at, NoTable, with_some, ids_in, table_ids, IsCanonical}
use ferrum_db.Store.Listing.Sort.{insert_desc, insert_desc_comm, sort_desc}
use mathlib.Core.List.{Permᴰ}

pub All-Perm : {A : Type 0} (P : A → Type 0) {k l : List A} → Permᴰ k l → All P k → All P l
All-Perm P Permᴰ.nil h = tt
All-Perm P (Permᴰ.cons e p) (h, hs) = (subst P e h, All-Perm P p hs)
All-Perm P (Permᴰ.swap e f) (h, (g, hs)) = (subst P f g, (subst P e h, hs))
All-Perm P (Permᴰ.trans p q) h = All-Perm P q (All-Perm P p h)

pub table_ids-append : (xs ys : List Bytes) → table_ids (xs ++ ys) ≡ table_ids xs ++ table_ids ys
unfolding table_ids with_some
table_ids-append [] ys = refl
table_ids-append (x ∷ xs) ys = elim (Option-cases (sstable_id x)) [
  | inl other ↦ rw (other, table_ids) (table_ids-append xs ys)
  | inr (id, named) ↦ rw (named, table_ids, table_ids-append xs ys) refl
]

with_some-sort_desc :
    (o : Option ℕ) (k l : List ℕ)
    → sort_desc k ≡ sort_desc l
    → sort_desc (with_some o k) ≡ sort_desc (with_some o l)
unfolding with_some sort_desc
with_some-sort_desc none k l h = h
with_some-sort_desc (some id) k l h = ap (insert_desc id) h

with_some_comm :
    (o p : Option ℕ) (l : List ℕ)
    → sort_desc (with_some o (with_some p l)) ≡ sort_desc (with_some p (with_some o l))
unfolding with_some sort_desc
with_some_comm none p l = refl
with_some_comm (some i) none l = refl
with_some_comm (some i) (some j) l = insert_desc_comm i j (sort_desc l)

-- The order of the listing does not matter for the sorted ids.
pub table_ids-Perm :
    {xs ys : List Bytes} → Permᴰ xs ys → sort_desc (table_ids xs) ≡ sort_desc (table_ids ys)
unfolding table_ids
table_ids-Perm Permᴰ.nil = refl
table_ids-Perm (Permᴰ.cons {b = b} {l₁ = k} {l₂ = l} e p) =
    rw e (with_some-sort_desc (sstable_id b) (table_ids k) (table_ids l) (table_ids-Perm p))
table_ids-Perm (Permᴰ.swap {a = a} {b = b} {l = l} e f) =
    rw (← e, ← f) (with_some_comm (sstable_id a) (sstable_id b) (table_ids l))
table_ids-Perm (Permᴰ.trans p q) = table_ids-Perm p ∙ table_ids-Perm q

strip_prefix-some : (p s r : Bytes) → strip_prefix p s ≡ some r → s ≡ p ++ r
unfolding strip_prefix
strip_prefix-some [] s r h = cc
strip_prefix-some (x ∷ p) [] r h = cc
strip_prefix-some (x ∷ p) (y ∷ s) r h = ground (arith, strip_prefix-some p s r)

pub child-some : (dir q name : Bytes) → child dir q ≡ some name → q ≡ join dir name
unfolding child
child-some dir q name h = elim (Option-cases (strip_prefix (join dir []) q)) [
  | inl outside ↦ let wrong : none ≡ some name = rw (child, outside) at h in cc
  | inr (r, inside) ↦ elim (Bool-cases (has_char b'/' r)) [
    | inl deeper ↦ let wrong : none ≡ some name = rw (child, inside, deeper) at h in cc
    | inr plain ↦
        let e : some r ≡ some name = rw (child, inside, plain) at h in
        let same : r ≡ name = cc in
        strip_prefix-some (join dir []) q r inside ∙ (sym (join-append dir r) ∙ ap (join dir) same)
  ]
]

-- The names with an id are those of the tables' files.
abbrev pub IsNamed : Bytes → Bytes → Type 0
IsNamed dir name = (id : ℕ) → sstable_id name ≡ some id → join dir name ≡ sstable_path dir id

pub children-IsNamed :
    {V : Type 0} (dir : Bytes) (m : BTreeMap V)
    → All (λ p. IsCanonical dir p.0) m
    → All (IsNamed dir) (children dir m)
unfolding children id_at and_then
children-IsNamed dir [] h = tt
children-IsNamed dir ((q, v) ∷ m) (canonical, h) = elim (Option-cases (child dir q)) [
  | inl outside ↦ rw (outside, children, All) (children-IsNamed dir m h)
  | inr (name, inside) ↦
      rw (inside, children, All)
        (
          λ id named. sym (child-some dir q name inside) ∙ canonical id (rw (id_at, inside) named),
          children-IsNamed dir m h,
        )
]

pub NoTable-IsCanonical :
    {V : Type 0} (dir : Bytes) (m : BTreeMap V)
    → All (λ p. NoTable dir p.0) m
    → All (λ p. IsCanonical dir p.0) m × (ids_in dir m ≡ [])
unfolding ids_in with_some
NoTable-IsCanonical dir [] h = (tt, refl)
NoTable-IsCanonical dir ((q, v) ∷ m) (other, h) =
    let (canonical, empty) = NoTable-IsCanonical dir m h in
    (
      (λ id at. let wrong : none ≡ some id = sym other ∙ at in cc, canonical),
      rw (ids_in, other) empty,
    )
