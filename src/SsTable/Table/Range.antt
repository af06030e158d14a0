-- ===== src/SsTable/Table/Range.antt =====
-- Why `get` may skip a table: the key range and the bloom filter of a sorted run of entries.
use ferrum_db.Base.{
  ◌≡◌, ◌≢◌, refl, true, none, some, [], ◌∷◌, All, arith, ◌⊎◌, inl, inr, Ordering-cases,
  Option-cases, ◌||◌,
}
use ferrum_db.Base.Bytes.{Bytes, cmp, ◌≺◌, is_lt, is_gt, cmp_refl, eq_of_cmp, cmp_trans}
use ferrum_db.BTreeMap
use ferrum_db.BTreeMap.{IsSorted, Above}
use ferrum_db.BTreeMap.Order.{get-first_below}
use ferrum_db.Value.{Entry}
use ferrum_db.SsTable.Bloom.{BloomFilter}
use ferrum_db.SsTable.Bloom.Membership.{Admits}
use ferrum_db.SsTable.Table.Parse.{outside}
use ferrum_db.SsTable.Table.Layout.{Group, first_key}
use ferrum_db.SsTable.Table.Loop.{keys_of, last_key}
use Prim.Native.Nat.Ordering.{lt, gt}

-- A key of the run is at most its last key.
get_last :
    (es : Group) (k max q : Bytes) (e : Entry)
    → IsSorted es
    → Above k es
    → last_key (some k) es ≡ some max
    → (q ≡ k) ⊎ (BTreeMap.get q es ≡ some e)
    → cmp q max ≢ gt
unfolding BTreeMap.get
get_last [] k max q e s h last (inl same) =
    let m : k ≡ max = cc in rw (same, m, cmp_refl max) (λ p. cc)
get_last [] k max q e s h last (inr found) = cc
get_last ((j, f) ∷ es) k max q e s h last (inl same) = λ p.
    let least = get_last es j max j e s.1 s.0 last (inl refl) in
    -- `k` is below `j`, which is at most the last key
    elim (Ordering-cases (cmp j max)) [
      | inl below ↦ let lower : cmp q max ≡ lt = rw same (cmp_trans k j max h.0 below) in cc
      | inr (inl at) ↦
          let here : j ≡ max = eq_of_cmp j max at in
          let lower : cmp q max ≡ lt = rw (same, ← here) h.0 in cc
      | inr (inr above) ↦ least above
    ]
get_last ((j, f) ∷ es) k max q e s h last (inr found) = elim (Ordering-cases (cmp q j)) [
  | inl below ↦ get_last es j max q e s.1 s.0 last (inr (ground arith))
  | inr (inl at) ↦ get_last es j max q e s.1 s.0 last (inl (eq_of_cmp q j at))
  | inr (inr above) ↦ get_last es j max q e s.1 s.0 last (inr (ground arith))
]

last_key-some : (es : Group) (k : Bytes) → (max : Bytes) × (last_key (some k) es ≡ some max)
last_key-some [] k = (k, refl)
last_key-some ((j, e) ∷ es) k = last_key-some es j

found_below_last :
    (es : Group) (k max q : Bytes) (v e : Entry)
    → IsSorted ((k, v) ∷ es)
    → last_key (some k) es ≡ some max
    → BTreeMap.get q ((k, v) ∷ es) ≡ some e
    → cmp q max ≢ gt
unfolding BTreeMap.get
found_below_last es k max q v e s last found = elim (Ordering-cases (cmp q k)) [
  | inl below ↦ get_last es k max q e s.1 s.0 last (inr (ground arith))
  | inr (inl same) ↦ get_last es k max q e s.1 s.0 last (inl (eq_of_cmp q k same))
  | inr (inr above) ↦ get_last es k max q e s.1 s.0 last (inr (ground arith))
]

-- A key outside of the range of a sorted run is not in it.
pub outside-get :
    (es : Group) (q : Bytes)
    → IsSorted es
    → outside (first_key es) (last_key none es) q ≡ true
    → BTreeMap.get q es ≡ none
unfolding outside
outside-get [] q s out = unfold BTreeMap.get in refl
outside-get ((k, v) ∷ es) q s out =
    let (max, last) = last_key-some es k in
    elim (Option-cases (BTreeMap.get q ((k, v) ∷ es))) [
      | inl absent ↦ absent
      | inr (e, found) ↦
          let high = found_below_last es k max q v e s last found in
          let beyond : is_lt (cmp q k) || is_gt (cmp q max) ≡ true = rw last at out in
          let low = λ (p : q ≺ k). get-first_below q k v es p s.0 in
          ground (arith, high, beyond, low, found)
    ]

-- A key of the run is admitted by a filter that admits all its keys.
pub get-Admits :
    (es : Group) (f : BloomFilter) (q : Bytes) (e : Entry)
    → All (Admits f) (keys_of es)
    → BTreeMap.get q es ≡ some e
    → Admits f q
unfolding BTreeMap.get
get-Admits [] f q e h found = cc
get-Admits ((k, v) ∷ es) f q e h found = ground (arith, get-Admits es f q e h.1, eq_of_cmp q k, h.0)
