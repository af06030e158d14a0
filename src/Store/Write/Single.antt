-- ===== src/Store/Write/Single.antt =====
-- `set_value` and `delete_value` are commits of one write.
use ferrum_db.Base.{◌≡◌, refl, ◌∙◌, sym, ◌+◌, inl, inr, Option, none, some, [], ◌∷◌}
use ferrum_db.Base.Bytes.{Bytes}
use ferrum_db.BTreeMap
use ferrum_db.Errors.{Result, ok, err, panic}
use ferrum_db.Proto.{Codec}
use ferrum_db.Value.{Value}
use ferrum_db.Disk.{Disk, Exec, ◌>>=◌, ◌>>◌, pure}
use ferrum_db.Wal.{append, write_commit}
use ferrum_db.Store.{Store, increment-cases}
use ferrum_db.Store.Transaction
use ferrum_db.Store.Transaction.{begin_transaction}
use ferrum_db.Store.Write.{
  set_value, delete_value, commit, commit_pending, append_pending, insert_pending, current_sequence,
  on_wal, bump, insert_entry, maybe_flush, log_entry, memtable_entry,
}

module _ {S : Type 0} (f g : Exec S (Unit {0})) (s : S) where
  then_cong_result :
      (x : Result (Unit {0}) × S) → f x.1 ≡ g x.1 → ((λ _. x) >> f) s ≡ ((λ _. x) >> g) s
  then_cong_result (ok u, t) h = h
  then_cong_result (err e, t) h = refl
  then_cong_result (panic, t) h = refl

  then_assoc_result :
      (x : Result (Unit {0}) × S) → (((λ _. x) >> f) >> g) s ≡ ((λ _. x) >> (f >> g)) s
  then_assoc_result (ok u, t) = refl
  then_assoc_result (err e, t) = refl
  then_assoc_result (panic, t) = refl

  -- Two ways to go on from a computation that agree wherever it ends.
  then_cong : (m : Exec S (Unit {0})) → f (m s).1 ≡ g (m s).1 → (m >> f) s ≡ (m >> g) s
  then_cong m h = then_cong_result (m s) h

  pub then_assoc : (m : Exec S (Unit {0})) → ((m >> f) >> g) s ≡ (m >> (f >> g)) s
  then_assoc m = then_assoc_result (m s)

module _ ⦃c : Codec⦄ where
  write_one : Bytes → Option Value → Exec (Store × Disk) (Unit {0})
  write_one key v = do
    sequence ← bump
    on_wal (append (log_entry key v sequence))
    on_wal (write_commit sequence)
    insert_entry key (memtable_entry v)
    maybe_flush

  commit_pending-one :
      (key : Bytes) (v : Option Value) (s : Store × Disk)
      → commit_pending ((key, v) ∷ []) s ≡ write_one key v s
  unfolding commit_pending append_pending insert_pending write_one bump current_sequence on_wal
  commit_pending-one key v s =
      let n = s.0.sequence + 1 in
      let t : Store × Disk = (record s.0 { sequence = n }, s.1) in
      let logs = on_wal (append (log_entry key v n)) in
      let inserts = insert_entry key (memtable_entry v) in
      let mark = on_wal (write_commit n) in
      let closing : Exec (Store × Disk) (Unit {0}) = current_sequence >>= λ last.
      on_wal (write_commit last) >> (insert_pending ((key, v) ∷ []) >> maybe_flush) in
      elim (increment-cases s.0.sequence) [
        | inl fits ↦ rw fits (
            then_assoc (pure tt) closing t logs
            ∙ then_cong (pure tt >> closing) (mark >> (inserts >> maybe_flush)) t logs (
                then_cong ((inserts >> pure tt) >> maybe_flush) (inserts >> maybe_flush) (logs t).1
                  mark (then_assoc (pure tt) maybe_flush (mark (logs t).1).1 inserts)))
        | inr overflows ↦ rw overflows refl
      ]

  -- `set_value` and `delete_value` do what a transaction with this one write does, on every state
  -- of the store and the disk, with the same errors and the same state after them.
  pub write-commit :
      (key : Bytes) (v : Value) (s : Store) (d : Disk)
      → (set_value key v (s, d) ≡ commit (Transaction.set_value key v (begin_transaction s)) d)
        × (delete_value key (s, d) ≡ commit (Transaction.delete_value key (begin_transaction s)) d)
  unfolding set_value delete_value commit Transaction.set_value Transaction.delete_value
      begin_transaction write_one log_entry memtable_entry BTreeMap.insert
  write-commit key v s d =
      (sym (commit_pending-one key (some v) (s, d)), sym (commit_pending-one key none (s, d)))
