-- ===== src/Store/Room.antt =====
-- How much room the entries of a store of ferrumdb-core/src/store.rs take, and that merging them
-- takes no more.
use ferrum_db.Base.{
  ℕ, ◌+◌, ◌≤◌, ◌≡◌, Bool, List, [], ◌∷◌, arith, Bool-cases, Ordering-cases, inl, inr,
}
use ferrum_db.Base.Bytes.{Bytes, cmp}
use ferrum_db.BTreeMap.{BTreeMap, insert, insert_all, retain}
use ferrum_db.Proto.{Codec}
use ferrum_db.Value.{Entry}
use ferrum_db.SsTable.Table.Layout.{Group}
use ferrum_db.SsTable.Table.Size.{weight, keys_size, values_size}
use ferrum_db.Store.{Store}
use ferrum_db.Store.Compact.{is_value}
use ferrum_db.Store.Compact.Merged.{merge, compacted, runs}

module _ ⦃c : Codec⦄ where
  weight-cons :
      (k : Bytes) (e : Entry) (es : Group) → weight ((k, e) ∷ es) ≡ weight ((k, e) ∷ []) + weight es
  unfolding weight keys_size values_size
  weight-cons k e es = omega arith

  pub weight_nil : weight [] ≡ 0
  unfolding weight keys_size values_size
  weight_nil = omega arith

  pub weight-insert_le :
      (k : Bytes) (e : Entry) (m : BTreeMap Entry)
      → weight (insert k e m) ≤ weight ((k, e) ∷ []) + weight m
  unfolding insert
  weight-insert_le k e [] = omega arith
  weight-insert_le k e ((j, f) ∷ m) = elim (Ordering-cases (cmp k j)) [
    | inl below ↦ rw (below, insert) (omega (arith, weight-cons k e ((j, f) ∷ m)))
    | inr (inl same) ↦ rw (same, insert) (omega (arith, weight-cons k e m, weight-cons j f m))
    | inr (inr above) ↦
        rw (above, insert)
          (omega (arith, weight-cons j f (insert k e m), weight-cons j f m, weight-insert_le k e m))
  ]

  weight-insert_all_le :
      (es : Group) (m : BTreeMap Entry) → weight (insert_all es m) ≤ weight es + weight m
  unfolding insert_all
  weight-insert_all_le [] m = omega arith
  weight-insert_all_le ((k, e) ∷ es) m =
      omega
        (arith, weight-cons k e es, weight-insert_all_le es (insert k e m), weight-insert_le k e m)

  weight-retain_le :
      (f : Bytes → Entry → Bool) (m : BTreeMap Entry) → weight (retain f m) ≤ weight m
  unfolding retain
  weight-retain_le f [] = omega arith
  weight-retain_le f ((k, e) ∷ m) = elim (Bool-cases (f k e)) [
    | inl kept ↦
        rw (kept, retain)
          (omega (arith, weight-cons k e (retain f m), weight-cons k e m, weight-retain_le f m))
    | inr dropped ↦ rw (dropped, retain) (omega (arith, weight-cons k e m, weight-retain_le f m))
  ]

  -- The room of all runs.
  unfoldable pub runs_weight : List Group → ℕ
  runs_weight [] = 0
  runs_weight (es ∷ ess) = weight es + runs_weight ess

  weight-merge_le : (ess : List Group) → weight (merge ess) ≤ runs_weight ess
  unfolding merge runs_weight
  weight-merge_le [] = omega (arith, weight_nil)
  weight-merge_le (es ∷ ess) =
      omega (arith, weight-insert_all_le es (merge ess), weight-merge_le ess)

  pub weight-compacted_le : (ess : List Group) → weight (compacted ess) ≤ runs_weight ess
  unfolding compacted
  weight-compacted_le ess =
      omega (arith, weight-retain_le is_value (merge ess), weight-merge_le ess)

  -- The room that a store's entries take, in memory and in its tables.
  abbrev pub used : Store → List (List Group) → ℕ
  used s gss = weight s.memtable + runs_weight (runs gss)

  -- `t` holds at most `bytes` more than `s`, has given out at most `new` ids more, and has numbered
  -- `writes` writes more.
  pub record Grows (s t : Store) (gss other : List (List Group)) (bytes new writes : ℕ)
      : Type 0 where
    pub room : used t other ≤ used s gss + bytes
    pub ids : t.next_sstable_id ≤ s.next_sstable_id + new
    pub numbers : t.sequence ≡ s.sequence + writes

  pub Grows-refl : (s : Store) (gss : List (List Group)) (new : ℕ) → Grows s s gss gss 0 new 0
  Grows-refl s gss new = record { room = omega arith; ids = omega arith; numbers = omega arith }

  pub Grows-trans :
      (s t u : Store) (gss hss kss : List (List Group)) (m n j k v w : ℕ)
      → Grows s t gss hss m j v
      → Grows t u hss kss n k w
      → Grows s u gss kss (m + n) (j + k) (v + w)
  Grows-trans s t u gss hss kss m n j k v w g h = record {
    room = omega (arith, g.room, h.room);
    ids = omega (arith, g.ids, h.ids);
    numbers = omega (arith, g.numbers, h.numbers);
  }
