-- ===== src/Table/Handle/Reads.antt =====
-- What the calls of a table handle do on an open store.
use ferrum_db.Base.{◌≡◌, ◌≢◌, refl, ap, ◌∙◌, sym, Option, none, some, List, [], ◌∷◌}
use ferrum_db.Base.Bytes.{Bytes, cmp}
use ferrum_db.BTreeMap
use ferrum_db.BTreeMap.{BTreeMap}
use ferrum_db.BTreeMap.Lookup.{get-insert, get-insert_self, get-insert_ne}
use ferrum_db.Errors
use ferrum_db.Proto.{WalEntry, Codec}
use ferrum_db.Value.{Value, bytes}
use ferrum_db.Disk.{Disk}
use ferrum_db.Api.{ok, converted}
use ferrum_db.SsTable.Table.Layout.{Group}
use ferrum_db.Store.{Store}
use ferrum_db.Store.Lookup.{get_value_lem}
use ferrum_db.Store.Valid.{IsOpen, view}
use ferrum_db.Store.Transaction
use ferrum_db.Store.Transaction.{begin_transaction}
use ferrum_db.Store.Write
use ferrum_db.Store.Write.Batch.{overlay}
use ferrum_db.Store.Write.Commit.{CanCommit, commit-IsOpen}
use ferrum_db.Store.Write.Single.{write-commit}
use ferrum_db.Table.Handle.{put, get, delete, put_batch, as_bytes, buffer_all, Pairs}
use Prim.Native.Nat.Ordering.{eq}

-- The last entry of a batch under a key.
unfoldable pub last_value : Bytes → Pairs → Option (Option Value) → Option (Option Value)
last_value q [] before = before
last_value q ((k, v) ∷ entries) before =
    last_value q entries (elim (cmp q k) [ eq ↦ some (some (bytes v)) | _ ↦ before ])

pending-buffer_all :
    (q : Bytes) (entries : Pairs) (tx : Transaction.Transaction)
    → BTreeMap.get q (buffer_all entries tx).pending
      ≡ last_value q entries (BTreeMap.get q tx.pending)
unfolding buffer_all last_value Transaction.set_value
pending-buffer_all q [] tx = refl
pending-buffer_all q ((k, v) ∷ entries) tx =
    pending-buffer_all q entries (Transaction.set_value k (bytes v) tx)
    ∙ ap (last_value q entries) (get-insert q k (some (bytes v)) tx.pending)

store-buffer_all :
    (entries : Pairs) (tx : Transaction.Transaction) → (buffer_all entries tx).store ≡ tx.store
unfolding buffer_all Transaction.set_value
store-buffer_all [] tx = refl
store-buffer_all ((k, v) ∷ entries) tx =
    store-buffer_all entries (Transaction.set_value k (bytes v) tx)

module _ ⦃c : Codec⦄ where
  -- A read through the handle answers what the store shows.
  pub get-view :
      (q : Bytes) (s : Store) (d : Disk) (gss : List (List Group)) (log : List WalEntry)
      → IsOpen s d gss log
      → (get q (s, d)).0 ≡ as_bytes (view s gss q)
  unfolding get converted
  get-view q s d gss log h =
      let (after, found, holds, _) = get_value_lem q s d gss h.works h.holds in rw found refl

  -- On a working disk, `put_batch` into an open store, with room for it in the numbers and in a
  -- file, succeeds and leaves an open store; each key of the batch then reads as the last value
  -- that the batch has for it, and every other key as before.
  pub put_batch-get :
      (entries : Pairs) (s : Store) (d : Disk) (gss : List (List Group)) (log : List WalEntry)
      → IsOpen s d gss log
      → CanCommit s gss (buffer_all entries (begin_transaction s)).pending
      → (t : Store) × (after : Disk) × (other : List (List Group)) × (rest : List WalEntry)
        × (put_batch entries (s, d) ≡ (ok tt, (t, after)))
        × ((q : Bytes)
            → (get q (t, after)).0 ≡ as_bytes (overlay (last_value q entries none) (view s gss q)))
        × IsOpen t after other rest
  unfolding put_batch converted begin_transaction BTreeMap.get
  put_batch-get entries s d gss log h can =
      let tx = buffer_all entries (begin_transaction s) in
      let same : tx.store ≡ s = store-buffer_all entries (begin_transaction s) in
      let (t, after, other, rest, done, shows, opened, _) =
        commit-IsOpen tx d gss log (rw same h) (rw same can) in
      (
        t,
        after,
        other,
        rest,
        rw done refl,
        λ q.
            get-view q t after other rest opened
            ∙ ap as_bytes (
                shows q
                ∙ (ap (λ p. overlay p (view tx.store gss q))
                      (pending-buffer_all q entries (begin_transaction s))
                    ∙ ap (λ u. overlay (last_value q entries none) (view u gss q)) same)),
        opened,
      )

  -- What the commit of one write leaves.
  one-get :
      (k : Bytes) (v : Option Value) (s : Store) (d : Disk) (gss : List (List Group))
      (log : List WalEntry)
      → IsOpen s d gss log
      → CanCommit s gss ((k, v) ∷ [])
      → (t : Store) × (after : Disk) × (other : List (List Group)) × (rest : List WalEntry)
        × (Write.commit (record { store = s; pending = (k, v) ∷ [] }) d
            ≡ (Errors.ok tt, (t, after)))
        × ((get k (t, after)).0 ≡ as_bytes v)
        × ((q : Bytes) → q ≢ k → (get q (t, after)).0 ≡ (get q (s, d)).0)
        × IsOpen t after other rest
  unfolding BTreeMap.get BTreeMap.insert
  one-get k v s d gss log h can =
      let (t, after, other, rest, done, shows, opened, _) =
        commit-IsOpen (record { store = s; pending = (k, v) ∷ [] }) d gss log h can in
      let now = λ (q : Bytes). get-view q t after other rest opened ∙ ap as_bytes (shows q) in
      (
        t,
        after,
        other,
        rest,
        done,
        now k ∙ ap (λ p. as_bytes (overlay p (view s gss k))) (get-insert_self k v []),
        λ q ne.
            now q
            ∙ (ap (λ p. as_bytes (overlay p (view s gss q))) (get-insert_ne q k v [] ne)
                ∙ sym (get-view q s d gss log h)),
        opened,
      )

  -- On a working disk, `put` into an open store, with room for it in the numbers and in a file,
  -- succeeds and leaves an open store; the key then reads as the value, and every other key as
  -- before.
  pub put-get :
      (k v : Bytes) (s : Store) (d : Disk) (gss : List (List Group)) (log : List WalEntry)
      → IsOpen s d gss log
      → CanCommit s gss ((k, some (bytes v)) ∷ [])
      → (t : Store) × (after : Disk) × (other : List (List Group)) × (rest : List WalEntry) × (put k
            v
            (s, d)
          ≡ (ok tt, (t, after)))
        × ((get k (t, after)).0 ≡ ok (some v))
        × ((q : Bytes) → q ≢ k → (get q (t, after)).0 ≡ (get q (s, d)).0)
        × IsOpen t after other rest
  unfolding put converted begin_transaction Transaction.set_value BTreeMap.insert as_bytes
  put-get k v s d gss log h can =
      let (t, after, other, rest, done, here, there, opened) =
        one-get k (some (bytes v)) s d gss log h can in
      (t, after, other, rest, rw ((write-commit k (bytes v) s d).0, done) refl, here, there, opened)

  -- On a working disk, `delete` in an open store, with room for it in the numbers and in a file,
  -- succeeds and leaves an open store; the key then reads as absent, and every other key as before.
  pub delete-get :
      (k : Bytes) (s : Store) (d : Disk) (gss : List (List Group)) (log : List WalEntry)
      → IsOpen s d gss log
      → CanCommit s gss ((k, none) ∷ [])
      → (t : Store) × (after : Disk) × (other : List (List Group)) × (rest : List WalEntry)
        × (delete k (s, d) ≡ (ok tt, (t, after)))
        × ((get k (t, after)).0 ≡ ok none)
        × ((q : Bytes) → q ≢ k → (get q (t, after)).0 ≡ (get q (s, d)).0)
        × IsOpen t after other rest
  unfolding delete converted begin_transaction Transaction.delete_value BTreeMap.insert as_bytes
  delete-get k s d gss log h can =
      let (t, after, other, rest, done, here, there, opened) = one-get k none s d gss log h can in
      (
        t,
        after,
        other,
        rest,
        rw ((write-commit k (bytes []) s d).1, done) refl,
        here,
        there,
        opened,
      )
