-- ===== src/BTreeMap/Order.antt =====
-- The operations keep a map sorted, and a sorted map is determined by its lookups.
use ferrum_db.Base.{
  ◌≡◌, ◌≢◌, ◌++◌, refl, Bool, none, some, List, [], ◌∷◌, arith, Ordering-cases, inl, inr,
}
use ferrum_db.Base.Bytes.{Bytes, cmp, ◌≺◌, cmp_refl, eq_of_cmp, lt_of_gt, gt_of_lt}
use ferrum_db.BTreeMap.{BTreeMap, get, insert, retain, insert_all, Above, IsSorted}
use ferrum_db.BTreeMap.Lookup.{Above-trans, get-Above, get-below}
use Prim.Native.Nat.Ordering.{eq, gt}

module _ {ℓ} {V : Type ℓ} where
  Above-insert : (j k : Bytes) (v : V) (m : BTreeMap V) → j ≺ k → Above j m → Above j (insert k v m)
  unfolding insert
  Above-insert j k v [] p h = (p, tt)
  Above-insert j k v ((i, w) ∷ m) p h = ground (arith, Above-insert j k v m p)

  pub insert-IsSorted : (k : Bytes) (v : V) (m : BTreeMap V) → IsSorted m → IsSorted (insert k v m)
  unfolding insert
  insert-IsSorted k v [] s = (tt, tt)
  insert-IsSorted k v ((j, w) ∷ m) s = ground (
    arith,
    insert-IsSorted k v m,
    Above-insert j k v m,
    Above-trans k j m,
    lt_of_gt k j,
    eq_of_cmp k j,
  )

  Above-retain :
      (f : Bytes → V → Bool) (k : Bytes) (m : BTreeMap V) → Above k m → Above k (retain f m)
  unfolding retain
  Above-retain f k [] h = tt
  Above-retain f k ((j, v) ∷ m) h = ground (arith, Above-retain f k m)

  pub retain-IsSorted : (f : Bytes → V → Bool) (m : BTreeMap V) → IsSorted m → IsSorted (retain f m)
  unfolding retain
  retain-IsSorted f [] s = tt
  retain-IsSorted f ((k, v) ∷ m) s = ground (arith, retain-IsSorted f m, Above-retain f k m)

  pub insert_all-IsSorted :
      (es : List (Bytes × V)) (m : BTreeMap V) → IsSorted m → IsSorted (insert_all es m)
  unfolding insert_all
  insert_all-IsSorted [] m s = s
  insert_all-IsSorted ((k, v) ∷ es) m s =
      insert_all-IsSorted es (insert k v m) (insert-IsSorted k v m s)

  tail_ext :
      (k : Bytes) (v w : V) (m n : BTreeMap V) (q : Bytes)
      → Above k m
      → Above k n
      → get q ((k, v) ∷ m) ≡ get q ((k, w) ∷ n)
      → get q m ≡ get q n
  unfolding get
  tail_ext k v w m n q hm hn h = ground (arith, eq_of_cmp q k, get-Above k m hm, get-Above k n hn)

  -- Two sorted maps that agree on every key are the same list.
  pub map_ext :
      (m n : BTreeMap V) → IsSorted m → IsSorted n → ((q : Bytes) → get q m ≡ get q n) → m ≡ n
  unfolding get
  map_ext [] [] s t h = refl
  map_ext [] ((j, w) ∷ n) s t h = ground (arith, h j, cmp_refl j)
  map_ext ((k, v) ∷ m) [] s t h = ground (arith, h k, cmp_refl k)
  map_ext ((k, v) ∷ m) ((j, w) ∷ n) s t h = elim (Ordering-cases (cmp k j)) [
    | inl below ↦ ground (arith, h k, cmp_refl k, get-below k j n below t.0)
    | inr (inl same) ↦ ground (
      arith,
      eq_of_cmp k j same,
      h k,
      cmp_refl k,
      map_ext m n s.1 t.1 (λ q.
          tail_ext k v w m n q s.0 (rw (← eq_of_cmp k j same) at t.0)
            (rw (← eq_of_cmp k j same) at (h q))),
    )
    | inr (inr above) ↦
        ground
          (arith, h j, cmp_refl j, get-below j k m (lt_of_gt k j above) s.0, lt_of_gt k j above)
  ]

  pub Above-left : (k : Bytes) (m n : BTreeMap V) → Above k (m ++ n) → Above k m
  Above-left k [] n h = tt
  Above-left k ((j, v) ∷ m) n h = (h.0, Above-left k m n h.1)

  pub Above-right : (k : Bytes) (m n : BTreeMap V) → Above k (m ++ n) → Above k n
  Above-right k [] n h = h
  Above-right k ((j, v) ∷ m) n h = Above-right k m n h.1

  pub IsSorted-left : (m n : BTreeMap V) → IsSorted (m ++ n) → IsSorted m
  IsSorted-left [] n s = tt
  IsSorted-left ((k, v) ∷ m) n s = (Above-left k m n s.0, IsSorted-left m n s.1)

  pub IsSorted-right : (m n : BTreeMap V) → IsSorted (m ++ n) → IsSorted n
  IsSorted-right [] n s = s
  IsSorted-right ((k, v) ∷ m) n s = IsSorted-right m n s.1

  -- A key at or above the first key of `n` is in no map that goes before `n`.
  pub get-left_none :
      (q k : Bytes) (v : V) (m n : BTreeMap V)
      → IsSorted (m ++ ((k, v) ∷ n))
      → cmp k q ≢ gt
      → get q m ≡ none
  unfolding get
  get-left_none q k v [] n s h = refl
  get-left_none q k v ((j, w) ∷ m) n s h =
      let less = (Above-right j m ((k, v) ∷ n) s.0).0 in
      ground (arith, get-left_none q k v m n s.1 h, eq_of_cmp q j, gt_of_lt j k less)

  pub get-first_below :
      (q k : Bytes) (v : V) (m : BTreeMap V) → q ≺ k → Above k m → get q ((k, v) ∷ m) ≡ none
  unfolding get
  get-first_below q k v m p h = ground (arith, get-below q k m p h)

  pub get-first :
      (q k : Bytes) (v : V) (m : BTreeMap V) → cmp k q ≡ eq → get q ((k, v) ∷ m) ≡ some v
  unfolding get
  get-first q k v m p = ground (arith, eq_of_cmp k q p, cmp_refl k)
