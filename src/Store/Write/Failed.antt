-- ===== src/Store/Write/Failed.antt =====
-- A commit whose log fails leaves nothing of its batch in memory.
use ferrum_db.Base.{◌+◌, inl, inr, ◌≡◌, refl, ap, ◌∙◌, sym, subst, Option, [], ◌∷◌}
use ferrum_db.Base.Bytes.{Bytes}
use ferrum_db.BTreeMap.{BTreeMap}
use ferrum_db.Errors.{AppError, Result, ok, err, panic}
use ferrum_db.Proto.{Codec}
use ferrum_db.Value.{Value}
use ferrum_db.Disk.{Disk, Exec, ◌>>=◌, ◌>>◌}
use ferrum_db.Wal.{Wal, append, write_commit}
use ferrum_db.Store.{Store, increment-cases}
use ferrum_db.Store.Write.{
  on_wal, bump, current_sequence, append_pending, insert_pending, commit_pending, maybe_flush,
  log_entry,
}
use ferrum_db.Store.Write.Single.{then_assoc}

-- The stores differ in nothing but the log's handle and the sequence number.
abbrev pub SameData : Store → Store → Type 0
SameData s t = t ≡ record s { wal = t.wal; sequence = t.sequence }

module _ (s : Store) where
  then-SameData :
      {A B : Type 0} (x : Result A × (Store × Disk)) (k : A → Exec (Store × Disk) B)
      (z : Store × Disk)
      → SameData s x.1.0
      → ((a : A) → SameData s (k a x.1).1.0)
      → SameData s (((λ _. x) >>= k) z).1.0
  then-SameData (ok a, t) k z h later = later a
  then-SameData (err e, t) k z h later = h
  then-SameData (panic, t) k z h later = h

  on_wal-SameData :
      {A : Type 0} (m : Exec (Wal × Disk) A) (t : Store × Disk)
      → SameData s t.0
      → SameData s (on_wal m t).1.0
  unfolding on_wal
  on_wal-SameData m t h =
      ap {A = Store} {B = Store} (λ u. record u { wal = (m (t.0.wal, t.1)).1.0 }) h

module _ ⦃c : Codec⦄ where
  append_pending-SameData :
      (ps : BTreeMap (Option Value)) (s : Store) (t : Store × Disk)
      → SameData s t.0
      → SameData s (append_pending ps t).1.0
  unfolding append_pending bump
  append_pending-SameData [] s t h = h
  append_pending-SameData ((k, v) ∷ ps) s t h =
      let n = t.0.sequence + 1 in
      let u : Store × Disk = (record t.0 { sequence = n }, t.1) in
      let logs : Exec (Store × Disk) (Unit {0}) = on_wal (append (log_entry k v n)) in
      let same =
        on_wal-SameData s (append (log_entry k v n)) u
          (ap {A = Store} {B = Store} (λ w. record w { sequence = n }) h) in
      elim (increment-cases t.0.sequence) [
        | inl fits ↦ rw fits (
            then-SameData s (logs u) (λ _. append_pending ps) u same
              (λ a. append_pending-SameData ps s (logs u).1 same))
        | inr overflows ↦ rw overflows h
      ]

  -- The first loop and the COMMIT.
  abbrev pub log_batch : BTreeMap (Option Value) → Exec (Store × Disk) (Unit {0})
  log_batch ps =
      append_pending ps >> (current_sequence >>= λ sequence. on_wal (write_commit sequence))

  log_batch-SameData :
      (ps : BTreeMap (Option Value)) (s : Store) (d : Disk) → SameData s (log_batch ps (s, d)).1.0
  unfolding current_sequence
  log_batch-SameData ps s d =
      let same = append_pending-SameData ps s (s, d) refl in
      let after = (append_pending ps (s, d)).1 in
      then-SameData s (append_pending ps (s, d))
        (λ _. current_sequence >>= λ sequence. on_wal (write_commit sequence)) (s, d) same
        (λ a. on_wal-SameData s (write_commit after.0.sequence) after same)

  err-then :
      {S : Type 0} (x : Result (Unit {0}) × S) (k : Exec S (Unit {0})) (s : S) (e : AppError)
      → x.0 ≡ err e
      → ((λ _. x) >> k) s ≡ x
  err-then (ok u, t) k s e h = cc
  err-then (err w, t) k s e h = refl
  err-then (panic, t) k s e h = refl

  -- Where an append of a batch or its COMMIT fails, for whatever reason, `commit` of the batch ends
  -- with that error and goes no further, and the store in memory is as before but for the log's
  -- handle and the sequence number.
  pub commit_pending-err :
      (p : Bytes × Option Value) (ps : BTreeMap (Option Value)) (s : Store) (d : Disk)
      (e : AppError)
      → (log_batch (p ∷ ps) (s, d)).0 ≡ err e
      → (commit_pending (p ∷ ps) (s, d) ≡ log_batch (p ∷ ps) (s, d))
        × SameData s (commit_pending (p ∷ ps) (s, d)).1.0
  unfolding commit_pending current_sequence
  commit_pending-err p ps s d e failed =
      let closing : Exec (Store × Disk) (Unit {0}) =
        current_sequence >>= λ sequence. on_wal (write_commit sequence) in
      let applies : Exec (Store × Disk) (Unit {0}) = insert_pending (p ∷ ps) >> maybe_flush in
      let stops : commit_pending (p ∷ ps) (s, d) ≡ log_batch (p ∷ ps) (s, d) =
        sym (then_assoc closing applies (s, d) (append_pending (p ∷ ps)))
        ∙ err-then (log_batch (p ∷ ps) (s, d)) applies (s, d) e failed in
      (stops, subst (λ x. SameData s x.1.0) (sym stops) (log_batch-SameData (p ∷ ps) s d))
