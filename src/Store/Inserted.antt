-- ===== src/Store/Inserted.antt =====
-- A lookup after `memtable_insert`, of ferrumdb-core/src/store.rs.
use ferrum_db.Base.{◌≡◌, ap, ◌∙◌, sym, some, List, [], Ordering-cases, inl, inr}
use ferrum_db.Base.Bytes.{Bytes, cmp}
use ferrum_db.BTreeMap
use ferrum_db.BTreeMap.Lookup.{or_else, get-insert}
use ferrum_db.Errors.{ok}
use ferrum_db.Proto.{Codec}
use ferrum_db.Value.{Entry}
use ferrum_db.Disk.{Disk}
use ferrum_db.SsTable.Table.Layout.{Group}
use ferrum_db.Store.{Store, memtable_insert, get_value}
use ferrum_db.Store.Memtable.{IsCounted, memtable_insert-IsCounted}
use ferrum_db.Store.Lookup.{newest, seen, AllHold, get_value_lem}
use Prim.Native.Nat.Ordering.{eq}

module _ ⦃c : Codec⦄ where
  -- After `memtable_insert` of an entry under a key, `get_value` on a working disk answers that
  -- entry under the key (`None` for a tombstone), and under each other key what it answered before.
  -- The memtable before has ascending keys and an exact estimate.
  pub get_value-memtable_insert :
      (key : Bytes) (e : Entry) (s : Store) (d : Disk) (gss : List (List Group)) (q : Bytes)
      → d.faults ≡ []
      → IsCounted s
      → AllHold s.sstables d gss
      → (t : Store) × (memtable_insert key e s ≡ ok t)
        × ((get_value q (t, d)).0
            ≡ (elim (cmp q key) [ eq ↦ ok (seen (some e)) | _ ↦ (get_value q (s, d)).0 ]))
  get_value-memtable_insert key e s d gss q healthy v h =
      let (t, done, changed, counted) = memtable_insert-IsCounted key e s v in
      let tables : t.sstables ≡ s.sstables = ap (λ x. x.sstables) changed in
      let entries : t.memtable ≡ BTreeMap.insert key e s.memtable = ap (λ x. x.memtable) changed in
      let (after, new, held, _) = get_value_lem q t d gss healthy (rw tables h) in
      let (before, old, holds, _) = get_value_lem q s d gss healthy h in
      let put = get-insert q key e s.memtable in
      let same = sym (ap (λ r. r.0) old) in
      let now =
        ap (λ r. r.0) new
        ∙ ap (λ m. ok (seen (or_else (BTreeMap.get q m) (newest q gss)))) entries in
      (
        t,
        done,
        now ∙ elim (Ordering-cases (cmp q key)) [
          | inl below ↦ rw (put, below) same
          | inr (inl here) ↦ rw (put, here)
          | inr (inr above) ↦ rw (put, above) same
        ],
      )
