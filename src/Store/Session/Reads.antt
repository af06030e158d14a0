-- ===== src/Store/Session/Reads.antt =====
-- A lookup in a store of ferrumdb-core/src/store.rs keeps it open.
use ferrum_db.Base.{ℕ, ◌<◌, ◌≡◌, refl, ◌∙◌, List, [], ◌∷◌, map, All}
use ferrum_db.Base.Bytes.{Bytes}
use ferrum_db.Errors.{ok}
use ferrum_db.Proto.{WalEntry, Codec}
use ferrum_db.Disk.{Disk}
use ferrum_db.SsTable.Table.{SsTable}
use ferrum_db.SsTable.Table.Layout.{Group}
use ferrum_db.Store.{Store, get_value}
use ferrum_db.Store.Files.{sstable_path}
use ferrum_db.Store.Lookup.{get_value_lem}
use ferrum_db.Store.Valid.{IsOpen, IsOpen-tables, view}

-- The tables' paths are named by ids.
abbrev IsName : Bytes → ℕ → Bytes → Type 0
IsName dir next path = (id : ℕ) × (path ≡ sstable_path dir id) × (id < next)

paths-All :
    (P : Bytes → Type 0) (ts : List SsTable) → All (λ t. P t.path) ts → All P (map (λ t. t.path) ts)
paths-All P [] h = tt
paths-All P (t ∷ ts) (p, h) = (p, paths-All P ts h)

All-paths :
    (P : Bytes → Type 0) (ts : List SsTable) → All P (map (λ t. t.path) ts) → All (λ t. P t.path) ts
All-paths P [] h = tt
All-paths P (t ∷ ts) (p, h) = (p, All-paths P ts h)

module _ ⦃c : Codec⦄ where
  -- On a working disk, a lookup in an open store answers what a reader sees and leaves an open
  -- store with the same entries.
  pub get_value-IsOpen :
      (q : Bytes) (s : Store) (d : Disk) (gss : List (List Group)) (log : List WalEntry)
      → IsOpen s d gss log
      → (after : List SsTable) × (get_value q (s, d)
          ≡ (ok (view s gss q), (record s { sstables = after }, d)))
        × IsOpen (record s { sstables = after }) d gss log
  get_value-IsOpen q s d gss log h =
      let (after, found, holds, paths) = get_value_lem q s d gss h.works h.holds in
      let name = IsName s.dir s.next_sstable_id in
      (
        after,
        found,
        IsOpen-tables s d d gss gss log after s.next_sstable_id h h.works refl holds
            (record {
              ids = h.saved.ids;
              paths = paths ∙ h.saved.paths;
              stored = h.saved.stored;
              listed = h.saved.listed;
              no_dirs = h.saved.no_dirs;
            })
            (All-paths name after (rw paths (paths-All name s.sstables h.named))),
      )
