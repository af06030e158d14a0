-- ===== src/BTreeMap/Entries.antt =====
-- A property of all entries of a map, under each operation.
use ferrum_db.Base.{Bool, List, [], ◌∷◌, All, Ordering-cases, Bool-cases, inl, inr}
use ferrum_db.Base.Bytes.{Bytes, cmp}
use ferrum_db.BTreeMap.{BTreeMap, insert, remove, retain, insert_all}

module _ {ℓ κ} {V : Type ℓ} (P : Bytes × V → Type κ) where
  pub All-insert : (k : Bytes) (v : V) (m : BTreeMap V) → P (k, v) → All P m → All P (insert k v m)
  unfolding insert
  All-insert k v [] p h = (p, tt)
  All-insert k v ((j, w) ∷ m) p (q, h) = elim (Ordering-cases (cmp k j)) [
    | inl below ↦ rw (below, All) (p, (q, h))
    | inr (inl same) ↦ rw (same, All) (p, h)
    | inr (inr above) ↦ rw (above, All) (q, All-insert k v m p h)
  ]

  pub All-insert_all :
      (es : List (Bytes × V)) (m : BTreeMap V) → All P es → All P m → All P (insert_all es m)
  unfolding insert_all
  All-insert_all [] m h g = g
  All-insert_all ((k, v) ∷ es) m (p, h) g =
      All-insert_all es (insert k v m) h (All-insert k v m p g)

  pub All-retain : (f : Bytes → V → Bool) (m : BTreeMap V) → All P m → All P (retain f m)
  unfolding retain
  All-retain f [] h = tt
  All-retain f ((k, v) ∷ m) (p, h) = elim (Bool-cases (f k v)) [
    | inl kept ↦ rw (kept, All) (p, All-retain f m h)
    | inr dropped ↦ rw (dropped, All) (All-retain f m h)
  ]

  pub All-remove : (q : Bytes) (m : BTreeMap V) → All P m → All P (remove q m)
  unfolding remove
  All-remove q [] h = tt
  All-remove q ((j, w) ∷ m) (p, h) = elim (Ordering-cases (cmp q j)) [
    | inl below ↦ rw (below, remove, All) (p, All-remove q m h)
    | inr (inl same) ↦ rw (same, remove) (All-remove q m h)
    | inr (inr above) ↦ rw (above, remove, All) (p, All-remove q m h)
  ]
