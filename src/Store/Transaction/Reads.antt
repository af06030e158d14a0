-- ===== src/Store/Transaction/Reads.antt =====
-- A transaction reads its own writes, of ferrumdb-core/src/store.rs.
use ferrum_db.Base.{◌≡◌, refl, ap, ◌∙◌, Option, none, some, List, [], ◌∷◌, inl, inr, Option-cases}
use ferrum_db.Base.Bytes.{Bytes, cmp}
use ferrum_db.BTreeMap
use ferrum_db.BTreeMap.{BTreeMap}
use ferrum_db.BTreeMap.Lookup.{get-insert}
use ferrum_db.Errors.{Result, ok}
use ferrum_db.Proto.{Codec}
use ferrum_db.Value.{Value}
use ferrum_db.Disk.{Disk}
use ferrum_db.Store.{Store}
use ferrum_db.Store
use ferrum_db.Store.Transaction.{
  Transaction, begin_transaction, set_value, delete_value, rollback, read_through, get_value,
}
use Prim.Native.Nat.Ordering.{eq}

-- The buffered writes, the last one first.
pub data Write : Type 0 where
  put : Bytes → Value → Write
  delete : Bytes → Write

unfoldable pub buffer : List Write → Transaction → Transaction
buffer [] tx = tx
buffer (put k v ∷ ws) tx = set_value k v (buffer ws tx)
buffer (delete k ∷ ws) tx = delete_value k (buffer ws tx)

-- What the last of the writes to a key left there.
unfoldable pub last_write : Bytes → List Write → Option (Option Value)
last_write q [] = none
last_write q (put k v ∷ ws) = elim (cmp q k) [ eq ↦ some (some v) | _ ↦ last_write q ws ]
last_write q (delete k ∷ ws) = elim (cmp q k) [ eq ↦ some none | _ ↦ last_write q ws ]

pending-buffer :
    (q : Bytes) (ws : List Write) (tx : Transaction)
    → tx.pending ≡ []
    → BTreeMap.get q (buffer ws tx).pending ≡ last_write q ws
unfolding buffer last_write set_value delete_value
pending-buffer q [] tx fresh = rw fresh (unfold BTreeMap.get in refl)
pending-buffer q (put k v ∷ ws) tx fresh =
    get-insert q k (some v) (buffer ws tx).pending
    ∙ ap (λ o. elim (cmp q k) [ eq ↦ some (some v) | _ ↦ o ]) (pending-buffer q ws tx fresh)
pending-buffer q (delete k ∷ ws) tx fresh =
    get-insert q k none (buffer ws tx).pending
    ∙ ap (λ o. elim (cmp q k) [ eq ↦ some none | _ ↦ o ]) (pending-buffer q ws tx fresh)

store-buffer : (ws : List Write) (tx : Transaction) → (buffer ws tx).store ≡ tx.store
unfolding buffer set_value delete_value
store-buffer [] tx = refl
store-buffer (put k v ∷ ws) tx = store-buffer ws tx
store-buffer (delete k ∷ ws) tx = store-buffer ws tx

-- What a read answers where the writes to the key have left `o`.
module _ ⦃c : Codec⦄ where
  abbrev pub or_read : Option (Option Value) → Result (Option Value) → Result (Option Value)
  or_read (some buffered) below = ok buffered
  or_read none below = below

  -- After any sequence of buffered puts and deletes, a read in the transaction answers what the
  -- last write to its key left, `None` after a delete, and what the store answers for a key that
  -- was not written; a rollback gives the store back as it was at the beginning.
  pub get_value-buffer :
      (ws : List Write) (s : Store) (d : Disk) (q : Bytes)
      → ((get_value q (buffer ws (begin_transaction s), d)).0
          ≡ or_read (last_write q ws) (Store.get_value q (s, d)).0)
        × (rollback (buffer ws (begin_transaction s)) ≡ s)
  unfolding get_value read_through begin_transaction rollback
  get_value-buffer ws s d q =
      let tx = begin_transaction s in
      let there = pending-buffer q ws tx refl in
      let same = store-buffer ws tx in
      (
        elim (Option-cases (last_write q ws)) [
          | inl nothing ↦ rw (there, nothing, same)
          | inr (o, found) ↦ rw (there, found)
        ],
        same,
      )
