-- ===== src/Txn.antt =====
-- `Txn` of ferrumdb/src/txn.rs. `commit` and `rollback` consume the transaction and leave its store.
use ferrum_db.Base.{Option}
use ferrum_db.Base.Bytes.{Bytes}
use ferrum_db.Proto.{Codec}
use ferrum_db.Value.{bytes}
use ferrum_db.Disk.{Disk}
use ferrum_db.Api.{Result, Call, ◌>>=◌, lift, core, converted}
use ferrum_db.Store.{Store}
use ferrum_db.Store.Transaction
use ferrum_db.Store.Transaction.{Transaction}
use ferrum_db.Store.Write
use ferrum_db.Table.Handle.{Txn, as_bytes}

-- `Txn::put`
unfoldable pub put : Bytes → Bytes → Txn → Txn
put key value tx = record { inner = Transaction.set_value key (bytes value) tx.inner }

-- `Txn::delete`
unfoldable pub delete : Bytes → Txn → Txn
delete key tx = record { inner = Transaction.delete_value key tx.inner }

-- `Txn::rollback`
unfoldable pub rollback : Txn → Store
rollback tx = Transaction.rollback tx.inner

module _ ⦃c : Codec⦄ where
  -- `Txn::get`
  unfoldable pub get : Bytes → Call (Transaction × Disk) (Option Bytes)
  get key = do found ← core (Transaction.get_value key); lift (as_bytes found)

  -- `Txn::commit`
  unfoldable pub commit : Txn → Disk → Result (Unit {0}) × (Store × Disk)
  commit tx d = let (r, after) = Write.commit tx.inner d in (converted r, after)
