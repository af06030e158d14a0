-- ===== src/Store/Memtable.antt =====
-- The byte estimate of the memtable, of ferrumdb-core/src/store.rs.
use ferrum_db.Base.{ℕ, ◌+◌, ◌≡◌, refl, Option, none, some, [], ◌∷◌, arith, le→ltb, ap, sym, ◌∙◌}
use ferrum_db.Base.Bytes.{Bytes, eq_of_cmp}
use ferrum_db.BTreeMap.{BTreeMap, IsSorted, get, insert}
use ferrum_db.BTreeMap.Lookup.{get-below}
use ferrum_db.BTreeMap.Order.{insert-IsSorted}
use ferrum_db.Errors.{ok}
use ferrum_db.Value.{Entry, entry_footprint}
use ferrum_db.Store.{Store, memtable_insert, subtract_old, with_entry}

-- The footprints of the memtable's entries, summed up.
unfoldable pub total : BTreeMap Entry → ℕ
total [] = 0
total ((k, e) ∷ m) = entry_footprint k e + total m

abbrev pub footprint_of : Bytes → Option Entry → ℕ
footprint_of k none = 0
footprint_of k (some e) = entry_footprint k e

-- The memtable's keys ascend and its estimate is exact.
pub record IsCounted (s : Store) : Type 0 where
  pub sorted : IsSorted s.memtable
  pub exact : s.memtable_bytes ≡ total s.memtable

total-insert :
    (k : Bytes) (e : Entry) (m : BTreeMap Entry)
    → IsSorted m
    → total (insert k e m) + footprint_of k (get k m) ≡ total m + entry_footprint k e
unfolding total insert get
total-insert k e [] s = omega arith
total-insert k e ((j, f) ∷ m) s = ground (arith, eq_of_cmp k j, get-below k j m, total-insert k e m)

subtract_old_lem :
    (k : Bytes) (o : Option Entry) (bytes rest : ℕ)
    → rest + footprint_of k o ≡ bytes
    → subtract_old k o bytes ≡ ok rest
unfolding subtract_old
subtract_old_lem k none bytes rest h = ap ok (sym h ∙ omega arith)
subtract_old_lem k (some e) bytes rest h =
    let enough = le→ltb bytes (entry_footprint k e) (omega arith) in rw enough (ap ok (omega arith))

pub memtable_insert-total :
    (k : Bytes) (e : Entry) (s : Store)
    → IsCounted s
    → memtable_insert k e s
      ≡ ok (record s {
        memtable_bytes = total (insert k e s.memtable);
        memtable = insert k e s.memtable;
      })
unfolding memtable_insert with_entry
memtable_insert-total k e s v =
    let sum = total-insert k e s.memtable v.sorted in
    let bytes = total (insert k e s.memtable) in
    rw (
      subtract_old_lem k (get k s.memtable) (s.memtable_bytes + entry_footprint k e) bytes
        (omega (arith, sum, v.exact)))

-- With ascending keys and an exact estimate, `memtable_insert` never takes more from the estimate
-- than is there; it puts the entry in and changes nothing else, the keys ascend, and the estimate
-- is again the sum of all footprints.
pub memtable_insert-IsCounted :
    (k : Bytes) (e : Entry) (s : Store)
    → IsCounted s
    → (t : Store) × (memtable_insert k e s ≡ ok t)
      × (t ≡ record s { memtable_bytes = t.memtable_bytes; memtable = insert k e s.memtable })
      × IsCounted t
memtable_insert-IsCounted k e s v = (
  record s { memtable_bytes = total (insert k e s.memtable); memtable = insert k e s.memtable },
  memtable_insert-total k e s v,
  refl,
  record { sorted = insert-IsSorted k e s.memtable v.sorted; exact = refl },
)
