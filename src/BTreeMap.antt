-- ===== src/BTreeMap.antt =====
-- `std::collections::BTreeMap` over byte-string keys, as its sorted list of entries: what
-- ferrumdb-core/src/store.rs uses for the memtable, a transaction's buffer and a merge.
pub mod Lookup
pub mod Order
pub mod Entries
use ferrum_db.Base.{◌≡◌, Bool, Option, none, some, List, [], ◌∷◌, All, if◌then◌else◌, Ordering}
use ferrum_db.Base.Bytes.{Bytes, cmp, ◌≺◌}
use Prim.Native.Nat.Ordering.{lt, eq, gt}

abbrev pub BTreeMap {ℓ} : Type ℓ → Type ℓ
BTreeMap V = List (Bytes × V)

module _ {ℓ} {V : Type ℓ} where
  -- `map.get(key)`
  unfoldable pub get : Bytes → BTreeMap V → Option V
  get k [] = none
  get k ((j, v) ∷ m) = elim (cmp k j) [ eq ↦ some v | _ ↦ get k m ]

  -- `map.insert(key, value)`
  unfoldable pub insert : Bytes → V → BTreeMap V → BTreeMap V
  insert k v [] = (k, v) ∷ []
  insert k v ((j, w) ∷ m) = elim (cmp k j) [
    | lt ↦ (k, v) ∷ (j, w) ∷ m
    | eq ↦ (k, v) ∷ m
    | gt ↦ (j, w) ∷ insert k v m
  ]

  -- `map.remove(key)`
  unfoldable pub remove : Bytes → BTreeMap V → BTreeMap V
  remove k [] = []
  remove k ((j, v) ∷ m) = let rest = remove k m in elim (cmp k j) [ eq ↦ rest | _ ↦ (j, v) ∷ rest ]

  -- `map.retain(f)`, and the entries of `map.range(..)` with `f` the range's test.
  unfoldable pub retain : (Bytes → V → Bool) → BTreeMap V → BTreeMap V
  retain f [] = []
  retain f ((k, v) ∷ m) = let rest = retain f m in if f k v then (k, v) ∷ rest else rest

  -- `for (key, value) in entries { map.insert(key, value) }`
  unfoldable pub insert_all : List (Bytes × V) → BTreeMap V → BTreeMap V
  insert_all [] m = m
  insert_all ((k, v) ∷ es) m = insert_all es (insert k v m)

  -- The keys of the map are above `k`.
  abbrev pub Above : Bytes → BTreeMap V → Type 0
  Above k [] = Unit
  Above k ((j, v) ∷ m) = (k ≺ j) × Above k m

  -- The keys ascend strictly: what a `BTreeMap` iterates over.
  abbrev pub IsSorted : BTreeMap V → Type 0
  IsSorted [] = Unit
  IsSorted ((k, v) ∷ m) = Above k m × IsSorted m
