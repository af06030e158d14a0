-- ===== src/Store/Transaction.antt =====
-- `Transaction` of ferrumdb-core/src/store.rs: the buffer, its reads and `rollback`.
pub mod Reads
use ferrum_db.Base.{Option, none, some, List, [], ◌∷◌}
use ferrum_db.Base.Bytes.{Bytes}
use ferrum_db.BTreeMap.{BTreeMap}
use ferrum_db.BTreeMap
use ferrum_db.Errors.{ok}
use ferrum_db.Proto.{Codec}
use ferrum_db.Value.{Value}
use ferrum_db.Disk.{Disk, Exec}
use ferrum_db.Store.{Store}
use ferrum_db.Store

pub record Transaction : Type 0 where
  pub store : Store
  pub pending : BTreeMap (Option Value)

-- `Store::begin_transaction`
unfoldable pub begin_transaction : Store → Transaction
begin_transaction s = record { store = s; pending = [] }

-- `Transaction::set_value`
unfoldable pub set_value : Bytes → Value → Transaction → Transaction
set_value key value tx = record tx { pending = BTreeMap.insert key (some value) tx.pending }

-- `Transaction::delete_value`
unfoldable pub delete_value : Bytes → Transaction → Transaction
delete_value key tx = record tx { pending = BTreeMap.insert key none tx.pending }

-- `Transaction::rollback`, which gives the store back.
unfoldable pub rollback : Transaction → Store
rollback tx = tx.store

module _ ⦃c : Codec⦄ where
  unfoldable pub read_through :
      Option (Option Value) → Bytes → Exec (Transaction × Disk) (Option Value)
  read_through (some buffered) key s = (ok buffered, s)
  read_through none key s =
      let (r, after) = Store.get_value key (s.0.store, s.1) in
      (r, (record s.0 { store = after.0 }, after.1))

  -- `Transaction::get_value`
  unfoldable pub get_value : Bytes → Exec (Transaction × Disk) (Option Value)
  get_value key s = read_through (BTreeMap.get key s.0.pending) key s
