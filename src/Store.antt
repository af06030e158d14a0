-- ===== src/Store.antt =====
-- `Store` of ferrumdb-core/src/store.rs: its memtable and its lookups. The lock that `_lock` holds
-- is the disk's, and the field `data` is called `memtable` here.
pub mod Bounds
pub mod Files
pub mod Listing
pub mod Memtable
pub mod Lookup
pub mod Scan
pub mod Compact
pub mod Inserted
pub mod Transaction
pub mod Write
pub mod Replay
pub mod Saved
pub mod Room
pub mod Valid
pub mod Session
pub mod Open
use ferrum_db.Base.{
  ℕ, ◌+◌, ◌-◌, ◌^◌, ◌<◌, ◌≡◌, ◌⊎◌, arith, Bool, true, false, Option, none, some, List, [], ◌∷◌, ltb,
  if◌then◌else◌,
}
use ferrum_db.Base.Bytes.{Bytes}
use ferrum_db.BTreeMap.{BTreeMap}
use ferrum_db.BTreeMap
use ferrum_db.Errors.{Result, ok, err, panic}
use ferrum_db.Proto.{Codec}
use ferrum_db.Value.{Value, Entry, value, tombstone, entry_footprint}
use ferrum_db.Disk.{Disk, Exec}
use ferrum_db.Wal.{Wal}
use ferrum_db.SsTable.Table.{SsTable}
use ferrum_db.SsTable.Table.Read

-- `+ 1` on a u64, which panics where it overflows.
unfoldable pub increment : ℕ → Result ℕ
increment n = if ltb (n + 1) (2 ^ 64) then ok (n + 1) else panic

pub increment-fits : (n : ℕ) → n + 1 < 2 ^ 64 → increment n ≡ ok (n + 1)
unfolding increment
increment-fits n fits = ground arith

pub increment-cases : (n : ℕ) → (increment n ≡ ok (n + 1)) ⊎ (increment n ≡ panic)
unfolding increment
increment-cases n = ground arith

pub record Store : Type 0 where
  pub memtable : BTreeMap Entry
  pub memtable_bytes : ℕ
  pub memtable_max_bytes : ℕ
  pub wal : Wal
  pub sequence : ℕ
  pub dir : Bytes
  pub sstables : List SsTable
  pub next_sstable_id : ℕ

-- `Store::set_memtable_budget`
unfoldable pub set_memtable_budget : ℕ → Store → Store
set_memtable_budget bytes s = record s { memtable_max_bytes = bytes }

-- `self.memtable_bytes -= entry_footprint(&key, old)`, which panics below zero.
unfoldable pub subtract_old : Bytes → Option Entry → ℕ → Result ℕ
subtract_old key none bytes = ok bytes
subtract_old key (some old) bytes =
    let old_bytes = entry_footprint key old in
    if ltb bytes old_bytes then panic else ok (bytes - old_bytes)

unfoldable pub with_entry : Bytes → Entry → Store → Result ℕ → Result Store
with_entry key entry s (ok bytes) =
    ok (record s { memtable_bytes = bytes; memtable = BTreeMap.insert key entry s.memtable })
with_entry key entry s (err e) = err e
with_entry key entry s panic = panic

-- `Store::memtable_insert`. That the sum of the sizes in memory exceeds a usize is not modelled.
unfoldable pub memtable_insert : Bytes → Entry → Store → Result Store
memtable_insert key entry s =
    with_entry key entry s (
      subtract_old key (BTreeMap.get key s.memtable) (s.memtable_bytes + entry_footprint key entry))

-- What a lookup answers for an entry.
unfoldable pub resolve : Entry → Option Value
resolve (value v) = some v
resolve tombstone = none

module _ ⦃c : Codec⦄ where
  -- What the loop of `get_value` does after one table has answered, with the rest of the loop.
  unfoldable pub after_table :
      Result (Option Entry)
      → SsTable
      → List SsTable
      → Disk
      → Result (Option Value) × (List SsTable × Disk)
      → Result (Option Value) × (List SsTable × Disk)
  after_table (ok (some e)) t ts d rest = (ok (resolve e), (t ∷ ts, d))
  after_table (ok none) t ts d rest = (rest.0, (t ∷ rest.1.0, rest.1.1))
  after_table (err e) t ts d rest = (err e, (t ∷ ts, d))
  after_table panic t ts d rest = (panic, (t ∷ ts, d))

  -- The loop of `get_value` over the tables, the newest first; each keeps its new cache.
  unfoldable pub search_tables :
      Bytes → List SsTable → Disk → Result (Option Value) × (List SsTable × Disk)
  search_tables key [] d = (ok none, ([], d))
  search_tables key (t ∷ ts) d =
      let (r, s) = Read.get key (t, d) in
      let rest = search_tables key ts s.1 in after_table r s.0 ts s.1 rest

  unfoldable pub get_from : Option Entry → Bytes → Exec (Store × Disk) (Option Value)
  get_from (some e) key s = (ok (resolve e), s)
  get_from none key s =
      let (r, after) = search_tables key s.0.sstables s.1 in
      (r, (record s.0 { sstables = after.0 }, after.1))

  -- `Store::get_value`
  unfoldable pub get_value : Bytes → Exec (Store × Disk) (Option Value)
  get_value key s = get_from (BTreeMap.get key s.0.memtable) key s
