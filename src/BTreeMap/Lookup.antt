-- ===== src/BTreeMap/Lookup.antt =====
-- What `get` finds after each operation on a map.
use ferrum_db.Base.{
  ◌≡◌, ◌≢◌, ◌∙◌, refl, Bool, Option, none, some, List, [], ◌∷◌, ◌++◌, arith, if◌then◌else◌,
  Ordering-cases, inl, inr,
}
use ferrum_db.Base.Bytes.{Bytes, cmp, ◌≺◌, cmp_refl, eq_of_cmp, lt_of_gt, gt_of_lt, cmp_trans}
use ferrum_db.BTreeMap.{BTreeMap, get, insert, remove, retain, insert_all, Above, IsSorted}
use Prim.Native.Nat.Ordering.{eq}

-- The value of the first option that has one.
abbrev pub or_else {ℓ} : {V : Type ℓ} → Option V → Option V → Option V
or_else (some v) o = some v
or_else none o = o

-- A value that passes the test.
abbrev pub keep_if {ℓ} : {V : Type ℓ} → (V → Bool) → Option V → Option V
keep_if f none = none
keep_if f (some v) = if f v then some v else none

module _ {ℓ} {V : Type ℓ} where
  pub get-insert :
      (q k : Bytes) (v : V) (m : BTreeMap V)
      → get q (insert k v m) ≡ elim (cmp q k) [ eq ↦ some v | _ ↦ get q m ]
  unfolding get insert
  get-insert q k v [] = refl
  get-insert q k v ((j, w) ∷ m) = ground (
    arith,
    get-insert q k v m,
    eq_of_cmp q k,
    eq_of_cmp q j,
    eq_of_cmp k j,
    cmp_refl q,
    lt_of_gt k j,
    gt_of_lt k j,
  )

  pub get-insert_self : (k : Bytes) (v : V) (m : BTreeMap V) → get k (insert k v m) ≡ some v
  get-insert_self k v m = get-insert k k v m ∙ rw (cmp_refl k)

  pub get-insert_ne :
      (q k : Bytes) (v : V) (m : BTreeMap V) → q ≢ k → get q (insert k v m) ≡ get q m
  get-insert_ne q k v m h = get-insert q k v m ∙ ground (arith, eq_of_cmp q k)

  pub get-remove :
      (q k : Bytes) (m : BTreeMap V)
      → get q (remove k m) ≡ elim (cmp q k) [ eq ↦ none | _ ↦ get q m ]
  unfolding get remove
  get-remove q k [] = ground arith
  get-remove q k ((j, w) ∷ m) =
      ground (arith, get-remove q k m, eq_of_cmp q k, eq_of_cmp q j, eq_of_cmp k j, cmp_refl q)

  pub get-remove_ne : (q k : Bytes) (m : BTreeMap V) → q ≢ k → get q (remove k m) ≡ get q m
  get-remove_ne q k m h = get-remove q k m ∙ ground (arith, eq_of_cmp q k)

  pub get-Above : (k : Bytes) (m : BTreeMap V) → Above k m → get k m ≡ none
  unfolding get
  get-Above k [] h = refl
  get-Above k ((j, v) ∷ m) h = ground (arith, get-Above k m)

  pub Above-trans : (j k : Bytes) (m : BTreeMap V) → j ≺ k → Above k m → Above j m
  Above-trans j k [] p h = tt
  Above-trans j k ((i, v) ∷ m) p h = (cmp_trans j k i p h.0, Above-trans j k m p h.1)

  pub get-below : (q k : Bytes) (m : BTreeMap V) → q ≺ k → Above k m → get q m ≡ none
  get-below q k m p h = get-Above q m (Above-trans q k m p h)

  pub get-retain :
      (f : Bytes → V → Bool) (q : Bytes) (m : BTreeMap V)
      → IsSorted m
      → get q (retain f m) ≡ keep_if (f q) (get q m)
  unfolding get retain
  get-retain f q [] s = refl
  get-retain f q ((k, v) ∷ m) s =
      ground (arith, get-retain f q m s.1, eq_of_cmp q k, get-Above q m, s.0)

  pub get-insert_all :
      (q : Bytes) (es : List (Bytes × V)) (m : BTreeMap V)
      → IsSorted es
      → get q (insert_all es m) ≡ or_else (get q es) (get q m)
  unfolding insert_all get
  get-insert_all q [] m s = refl
  get-insert_all q ((k, v) ∷ es) m s = ground (
    arith,
    get-insert_all q es (insert k v m) s.1,
    get-insert q k v m,
    eq_of_cmp q k,
    get-Above q es,
    s.0,
  )

  pub get-append : (q : Bytes) (m n : BTreeMap V) → get q (m ++ n) ≡ or_else (get q m) (get q n)
  unfolding get
  get-append q [] n = refl
  get-append q ((k, v) ∷ m) n = ground (arith, get-append q m n)

  -- A key that is inserted again.
  pub insert_twice :
      (q : Bytes) (u v : V) (m : BTreeMap V) → insert q v (insert q u m) ≡ insert q v m
  unfolding insert
  insert_twice q u v [] = rw (insert, cmp_refl q) refl
  insert_twice q u v ((j, w) ∷ m) = elim (Ordering-cases (cmp q j)) [
    | inl below ↦ rw (below, insert, cmp_refl q) refl
    | inr (inl same) ↦ rw (same, insert, cmp_refl q) refl
    | inr (inr above) ↦ rw (above, insert, above, insert_twice q u v m) refl
  ]

  -- A key that is not there.
  pub remove_missing : (q : Bytes) (m : BTreeMap V) → get q m ≡ none → remove q m ≡ m
  unfolding get remove
  remove_missing q [] h = refl
  remove_missing q ((j, v) ∷ m) h = ground (arith, remove_missing q m)
