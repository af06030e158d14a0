-- ===== src/Store/Lookup.antt =====
-- `Store::get_value` against the map that the memtable and the tables stand for.
use ferrum_db.Base.{◌≡◌, refl, ap, map, Option, none, some, List, [], ◌∷◌, inl, inr, Option-cases}
use ferrum_db.Base.Bytes.{Bytes}
use ferrum_db.BTreeMap
use ferrum_db.BTreeMap.Lookup.{or_else}
use ferrum_db.Errors.{ok}
use ferrum_db.Proto.{Codec}
use ferrum_db.Value.{Value, Entry}
use ferrum_db.Disk.{Disk}
use ferrum_db.SsTable.Table.{SsTable}
use ferrum_db.SsTable.Table.Layout.{Group, concat}
use ferrum_db.SsTable.Table.Lookup.{Holds, get_lem, Holds-get}
use ferrum_db.Store.{Store, resolve, after_table, search_tables, get_from, get_value}
use Prim.{⊥}

-- What the newest table that has the key says of it.
unfoldable pub newest : Bytes → List (List Group) → Option Entry
newest key [] = none
newest key (gs ∷ gss) = or_else (BTreeMap.get key (concat gs)) (newest key gss)

-- What a reader sees under a key.
abbrev pub seen : Option Entry → Option Value
seen none = none
seen (some e) = resolve e

module _ ⦃c : Codec⦄ where
  -- The tables hold the entries of `gss`, table by table.
  abbrev pub AllHold : List SsTable → Disk → List (List Group) → Type 0
  AllHold [] d [] = Unit
  AllHold [] d (gs ∷ gss) = ⊥
  AllHold (t ∷ ts) d [] = ⊥
  AllHold (t ∷ ts) d (gs ∷ gss) = Holds t d gs × AllHold ts d gss

  search_tables_lem :
      (key : Bytes) (ts : List SsTable) (d : Disk) (gss : List (List Group))
      → d.faults ≡ []
      → AllHold ts d gss
      → (after : List SsTable) × (search_tables key ts d ≡ (ok (seen (newest key gss)), (after, d)))
        × AllHold after d gss
        × (map (λ t. t.path) after ≡ map (λ t. t.path) ts)
  unfolding search_tables newest after_table
  search_tables_lem key [] d [] healthy h = ([], refl, tt, refl)
  search_tables_lem key [] d (gs ∷ gss) healthy h = absurd h
  search_tables_lem key (t ∷ ts) d [] healthy h = absurd h
  search_tables_lem key (t ∷ ts) d (gs ∷ gss) healthy (h, hs) =
      let (cache, answer, coherent) = get_lem t d gs h healthy key in
      let kept : Holds (record t { cache = cache }) d gs =
        rw answer at (Holds-get t d gs h healthy key) in
      let (after, rest, holds, paths) = search_tables_lem key ts d gss healthy hs in
      elim (Option-cases (BTreeMap.get key (concat gs))) [
        | inl absent ↦ (
          record t { cache = cache } ∷ after,
          rw (answer, absent, rest),
          (kept, holds),
          ap (◌∷◌ t.path) paths,
        )
        | inr (e, found) ↦ (record t { cache = cache } ∷ ts, rw (answer, found), (kept, hs), refl)
      ]

  -- On a working disk, `Store::get_value` answers what the memtable says of the key or, where it
  -- says nothing, the newest table that has it; a tombstone answers `None`. The memtable and the
  -- disk stay as they are, and the tables still hold their entries, in the same files.
  pub get_value_lem :
      (key : Bytes) (s : Store) (d : Disk) (gss : List (List Group))
      → d.faults ≡ []
      → AllHold s.sstables d gss
      → (after : List SsTable) × (get_value key (s, d) ≡ (
        ok (seen (or_else (BTreeMap.get key s.memtable) (newest key gss))),
        (record s { sstables = after }, d),
      ))
        × AllHold after d gss
        × (map (λ t. t.path) after ≡ map (λ t. t.path) s.sstables)
  unfolding get_value get_from
  get_value_lem key s d gss healthy h =
      let (after, found, holds, paths) = search_tables_lem key s.sstables d gss healthy h in
      elim (Option-cases (BTreeMap.get key s.memtable)) [
        | inl absent ↦ (after, rw (absent, found), holds, paths)
        | inr (e, here) ↦ (s.sstables, rw here, h, refl)
      ]
