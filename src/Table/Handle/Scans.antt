-- ===== src/Table/Handle/Scans.antt =====
-- What the scans of a table handle return.
use ferrum_db.Base.{
  ◌≡◌, refl, ap, ◌∙◌, sym, Bool, true, false, Option, none, some, List, [], ◌∷◌, All, arith,
  if◌then◌else◌,
}
use ferrum_db.Base.Bytes.{Bytes, IsByte, cmp_refl, eq_of_cmp}
use ferrum_db.BTreeMap
use ferrum_db.BTreeMap.{BTreeMap, IsSorted, Above}
use ferrum_db.BTreeMap.Lookup.{get-Above}
use ferrum_db.Proto.{WalEntry, Codec}
use ferrum_db.Value.{Value, bytes}
use ferrum_db.Disk.{Disk}
use ferrum_db.Api.{ok, converted}
use ferrum_db.SsTable.Table.Layout.{Group}
use ferrum_db.Store.{Store}
use ferrum_db.Store.Bounds.{Bound, included, excluded, unbounded, in_bounds, above_lo, below_hi}
use ferrum_db.Store.Scan.{range_panics}
use ferrum_db.Store.Scan.View.{scan_range_lem}
use ferrum_db.Store.Valid.{IsOpen, view}
use ferrum_db.Table.{prefix_upper_bound, upper_bound}
use ferrum_db.Table.Prefix.{starts_with, starts_with-in_bounds}
use ferrum_db.Table.Handle.{Pairs, as_bytes, with_bytes, all_bytes, get, range_bounds, scan_prefix}
use ferrum_db.Table.Handle.Reads.{get-view}

-- The value was written through the handle.
abbrev pub IsBytes : Value → Type 0
IsBytes v = (b : Bytes) × (v ≡ bytes b)

All-get :
    (m : BTreeMap Value)
    → IsSorted m
    → ((q : Bytes) (v : Value) → BTreeMap.get q m ≡ some v → IsBytes v)
    → All (λ p. IsBytes p.1) m
unfolding BTreeMap.get
All-get [] s h = tt
All-get ((k, v) ∷ m) s h = (
  h k v (ground (arith, cmp_refl k)),
  All-get m s.1 (λ q w found. h q w (ground (arith, found, eq_of_cmp q k, get-Above q m, s.0))),
)

-- Pairs that all have bytes as their values come back as these bytes.
all_bytes_lem :
    (m : BTreeMap Value)
    → IsSorted m
    → All (λ p. IsBytes p.1) m
    → (out : Pairs) × (all_bytes m ≡ ok out)
      × IsSorted out
      × ((k : Bytes) → Above k m → Above k out)
      × ((q : Bytes) → ok (BTreeMap.get q out) ≡ as_bytes (BTreeMap.get q m))
unfolding all_bytes with_bytes BTreeMap.get as_bytes
all_bytes_lem [] s h = ([], refl, tt, λ k a. tt, λ q. refl)
all_bytes_lem ((k, v) ∷ m) s ((b, is), h) =
    let (out, done, sorted, above, found) = all_bytes_lem m s.1 h in
    (
      (k, b) ∷ out,
      rw (is, done) refl,
      (above k s.0, sorted),
      λ j a. (a.0, above j a.1),
      λ q. ground (arith, is, found q),
    )

if_some :
    {P : Value → Type 0} (b : Bool) (o : Option Value) (v : Value)
    → ((w : Value) → o ≡ some w → P w)
    → (if b then o else none) ≡ some v
    → P v
if_some true o v h e = h v e
if_some false o v h e = cc

as_bytes-if :
    (b : Bool) (o : Option Value)
    → as_bytes (if b then o else none) ≡ (if b then as_bytes o else ok none)
unfolding as_bytes
as_bytes-if true o = refl
as_bytes-if false o = refl

starts_with_refl : (prefix : Bytes) → starts_with prefix prefix ≡ true
unfolding starts_with
starts_with_refl [] = refl
starts_with_refl (b ∷ bs) = ground (arith, starts_with_refl bs)

-- Bounds that hold their lower end are none that `BTreeMap::range` panics on.
in_bounds-range_panics :
    (start : Bytes) (hi : Bound)
    → in_bounds start (included start) hi ≡ true
    → range_panics (included start) hi ≡ false
unfolding range_panics in_bounds above_lo below_hi
in_bounds-range_panics start unbounded h = refl
in_bounds-range_panics start (included b) h = ground (arith, h)
in_bounds-range_panics start (excluded b) h = ground (arith, h)

prefix-range_panics :
    (prefix : Bytes)
    → All IsByte prefix
    → range_panics (included prefix) (upper_bound (prefix_upper_bound prefix)) ≡ false
prefix-range_panics prefix h =
    in_bounds-range_panics prefix (upper_bound (prefix_upper_bound prefix))
      (sym (starts_with-in_bounds prefix prefix h) ∙ starts_with_refl prefix)

module _ ⦃c : Codec⦄ where
  -- The pairs in the bounds, where the store shows nothing but bytes.
  range_bounds_lem :
      (lo hi : Bound) (s : Store) (d : Disk) (gss : List (List Group)) (log : List WalEntry)
      → IsOpen s d gss log
      → ((q : Bytes) (v : Value) → view s gss q ≡ some v → IsBytes v)
      → range_panics lo hi ≡ false
      → (out : Pairs) × (range_bounds lo hi (s, d) ≡ (ok out, (s, d)))
        × IsSorted out
        × ((q : Bytes)
            → ok (BTreeMap.get q out) ≡ (if in_bounds q lo hi then (get q (s, d)).0 else ok none))
  unfolding range_bounds converted
  range_bounds_lem lo hi s d gss log h written fine =
      let (pairs, scanned, sorted, found) =
        scan_range_lem lo hi s d gss h.works h.counted.sorted h.holds fine in
      let all =
        All-get pairs sorted
          (λ q v e. if_some (in_bounds q lo hi) (view s gss q) v (written q) (sym (found q) ∙ e)) in
      let (out, done, out_sorted, above, bytes_found) = all_bytes_lem pairs sorted all in
      (
        out,
        rw (scanned, done) refl,
        out_sorted,
        λ q.
            bytes_found q
            ∙ (ap as_bytes (found q)
                ∙ (as_bytes-if (in_bounds q lo hi) (view s gss q)
                    ∙ ap (λ r. if in_bounds q lo hi then r else ok none)
                        (sym (get-view q s d gss log h)))),
      )

  -- In an open store that shows nothing but bytes, `scan_prefix` on a working disk, for a prefix of
  -- bytes, returns pairs in ascending order of their keys and leaves the store and the disk as they
  -- are: under each key that begins with the prefix stands what `get` answers, and under no other
  -- key anything.
  pub scan_prefix-get :
      (prefix : Bytes) (s : Store) (d : Disk) (gss : List (List Group)) (log : List WalEntry)
      → IsOpen s d gss log
      → ((q : Bytes) (v : Value) → view s gss q ≡ some v → IsBytes v)
      → All IsByte prefix
      → (out : Pairs) × (scan_prefix prefix (s, d) ≡ (ok out, (s, d)))
        × IsSorted out
        × ((q : Bytes)
            → All IsByte q
            → ok (BTreeMap.get q out)
              ≡ (if starts_with prefix q then (get q (s, d)).0 else ok none))
  unfolding scan_prefix
  scan_prefix-get prefix s d gss log h written in_range =
      let hi = upper_bound (prefix_upper_bound prefix) in
      let (out, done, sorted, found) =
        range_bounds_lem (included prefix) hi s d gss log h written
          (prefix-range_panics prefix in_range) in
      (
        out,
        done,
        sorted,
        λ q is_key.
            found q
            ∙ ap (λ b. if b then (get q (s, d)).0 else ok none)
                (sym (starts_with-in_bounds prefix q is_key)),
      )
