-- ===== src/Table/Handle.antt =====
-- `Table` of ferrumdb/src/table.rs. The store that the handle borrows is the state.
pub mod Reads
pub mod Scans
use ferrum_db.Base.{Bool, true, false, Option, none, some, List, [], ◌∷◌}
use ferrum_db.Base.Bytes.{Bytes}
use ferrum_db.Proto.{Codec}
use ferrum_db.Value.{Value, integer, float, text, boolean, bytes}
use ferrum_db.Disk.{Disk}
use ferrum_db.Api.{Result, ok, err, panic, unexpected_value, Call, ◌>>=◌, pure, lift, core}
use ferrum_db.Store.{Store}
use ferrum_db.Store
use ferrum_db.Store.Bounds.{Bound, unbounded, included, excluded}
use ferrum_db.Store.Scan.{scan_range}
use ferrum_db.Store.Transaction
use ferrum_db.Store.Transaction.{Transaction, begin_transaction}
use ferrum_db.Store.Write
use ferrum_db.Table.{prefix_upper_bound, upper_bound}

abbrev pub Pairs : Type 0
Pairs = List (Bytes × Bytes)

-- The `match` of `get`.
unfoldable pub as_bytes : Option Value → Result (Option Bytes)
as_bytes none = ok none
as_bytes (some (bytes b)) = ok (some b)
as_bytes (some (integer n)) = err unexpected_value
as_bytes (some (float n)) = err unexpected_value
as_bytes (some (text s)) = err unexpected_value
as_bytes (some (boolean b)) = err unexpected_value

abbrev pub is_some : Option Bytes → Bool
is_some none = false
is_some (some b) = true

-- The loop of `put_batch`.
unfoldable pub buffer_all : Pairs → Transaction → Transaction
buffer_all [] tx = tx
buffer_all ((key, value) ∷ entries) tx =
    buffer_all entries (Transaction.set_value key (bytes value) tx)

unfoldable pub with_bytes : Bytes → Value → Result Pairs → Result Pairs
with_bytes key (bytes b) (ok out) = ok ((key, b) ∷ out)
with_bytes key (bytes b) (err e) = err e
with_bytes key (bytes b) panic = panic
with_bytes key (integer n) rest = err unexpected_value
with_bytes key (float n) rest = err unexpected_value
with_bytes key (text s) rest = err unexpected_value
with_bytes key (boolean b) rest = err unexpected_value

-- The loop of `range_bounds`.
unfoldable pub all_bytes : List (Bytes × Value) → Result Pairs
all_bytes [] = ok []
all_bytes ((key, value) ∷ pairs) = with_bytes key value (all_bytes pairs)

module _ ⦃c : Codec⦄ where
  -- `Table::put`
  unfoldable pub put : Bytes → Bytes → Call (Store × Disk) (Unit {0})
  put key value = core (Write.set_value key (bytes value))

  -- `Table::get`
  unfoldable pub get : Bytes → Call (Store × Disk) (Option Bytes)
  get key = do found ← core (Store.get_value key); lift (as_bytes found)

  -- `Table::contains`
  unfoldable pub contains : Bytes → Call (Store × Disk) Bool
  contains key = do found ← get key; pure (is_some found)

  -- `Table::delete`
  unfoldable pub delete : Bytes → Call (Store × Disk) (Unit {0})
  delete key = core (Write.delete_value key)

  -- `Table::put_batch`
  unfoldable pub put_batch : Pairs → Call (Store × Disk) (Unit {0})
  put_batch entries = core (λ s. Write.commit (buffer_all entries (begin_transaction s.0)) s.1)

  -- `Table::get_batch`
  unfoldable pub get_batch : List Bytes → Call (Store × Disk) (List (Option Bytes))
  get_batch [] = pure []
  get_batch (key ∷ keys) = do value ← get key; rest ← get_batch keys; pure (value ∷ rest)

  -- `Table::range_bounds`
  unfoldable pub range_bounds : Bound → Bound → Call (Store × Disk) Pairs
  range_bounds lo hi = do pairs ← core (scan_range lo hi); lift (all_bytes pairs)

  -- `Table::scan`
  unfoldable pub scan : Call (Store × Disk) Pairs
  scan = range_bounds unbounded unbounded

  -- `Table::range`
  unfoldable pub range : Bytes → Bytes → Call (Store × Disk) Pairs
  range start end = range_bounds (included start) (excluded end)

  -- `Table::scan_prefix`
  unfoldable pub scan_prefix : Bytes → Call (Store × Disk) Pairs
  scan_prefix prefix = range_bounds (included prefix) (upper_bound (prefix_upper_bound prefix))

-- `Table::transaction`, and `Txn` of ferrumdb/src/txn.rs.
pub record Txn : Type 0 where
  pub inner : Transaction

unfoldable pub transaction : Store → Txn
transaction s = record { inner = begin_transaction s }
