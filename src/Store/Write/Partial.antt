-- ===== src/Store/Write/Partial.antt =====
-- What `Transaction::commit` of ferrumdb-core/src/store.rs leaves in the log, whatever calls of the
-- operating system fail.
use ferrum_db.Base.{ℕ, ◌+◌, ◌≡◌, refl, sym, subst, Option, [], ◌∷◌, length, arith, inl, inr}
use ferrum_db.Base.Bytes.{Bytes}
use ferrum_db.BTreeMap.{BTreeMap}
use ferrum_db.Errors.{Result, ok, panic}
use ferrum_db.Proto.{Codec}
use ferrum_db.Value.{Value}
use ferrum_db.Disk.{Disk, Exec, ◌>>◌}
use ferrum_db.Wal.{Wal, append, write_commit, commit_entry}
use ferrum_db.Wal.Frames.{frames, frames-append}
use ferrum_db.Wal.Partial.{Logs, Logs-none, Logs-then}
use ferrum_db.Wal.Partial.Calls.{append-Logs, write_commit-Logs}
use ferrum_db.Store.{Store, increment-cases}
use ferrum_db.Store.Compact.Bounded.{ends}
use ferrum_db.Store.Replay.Batches.{batch_entries}
use ferrum_db.Store.Write.{on_wal, bump, current_sequence, append_pending, log_entry}
use ferrum_db.Store.Write.Failed.{log_batch}
use ferrum_db.Store.Write.Commit.{batch_log}

-- The store's log, and the disk.
abbrev pub log_of : Store × Disk → Wal × Disk
log_of s = (s.0.wal, s.1)

on_wal-Logs :
    (b : Bytes) (m : Exec (Wal × Disk) (Unit {0})) (s : Store × Disk)
    → Logs (λ w. w) b (log_of s) (m (log_of s))
    → Logs log_of b s (on_wal m s)
unfolding on_wal
on_wal-Logs b m s l = record { n = l.n; le = l.le; whole = l.whole; path = l.path; wrote = l.wrote }

-- The sequence number is not in the log's file.
Logs-renumbered :
    (n : ℕ) (s : Store × Disk) (b : Bytes) (x : Result (Unit {0}) × (Store × Disk))
    → Logs log_of b (record s.0 { sequence = n }, s.1) x
    → Logs log_of b s x
Logs-renumbered n s b x l = record {
  n = l.n;
  le = l.le;
  whole = l.whole;
  path = l.path;
  wrote = l.wrote;
}

module _ ⦃c : Codec⦄ where
  append_pending-Logs :
      (ps : BTreeMap (Option Value)) (s : Store × Disk)
      → Logs log_of (frames (batch_entries s.0.sequence ps)) s (append_pending ps s)
  unfolding append_pending bump batch_entries frames on_wal
  append_pending-Logs [] s = Logs-none log_of [] s (ok tt) (λ e. refl)
  append_pending-Logs ((k, v) ∷ ps) s =
      let n = s.0.sequence + 1 in
      let e = log_entry k v n in
      let u : Store × Disk = (record s.0 { sequence = n }, s.1) in
      let rest = batch_entries n ps in
      elim (increment-cases s.0.sequence) [
        | inl fits ↦ rw fits (
            subst (λ b. Logs log_of b s ((on_wal (append e) >> append_pending ps) u))
              (sym (frames-append (e ∷ []) rest))
              (Logs-renumbered n s _ _ (
                Logs-then log_of (frames (e ∷ [])) (frames rest) u (on_wal (append e) u) _
                  (on_wal-Logs (frames (e ∷ [])) (append e) u (append-Logs e (log_of u)))
                  (λ done. append_pending-Logs ps (on_wal (append e) u).1))))
        | inr overflows ↦ rw overflows (Logs-none log_of (frames (e ∷ rest)) s panic (λ h. cc))
      ]

  -- After the batch is logged, the sequence number is that of its last write.
  append_pending-numbers :
      (ps : BTreeMap (Option Value)) (s : Store × Disk)
      → (append_pending ps s).0 ≡ ok tt
      → (append_pending ps s).1.0.sequence ≡ s.0.sequence + length ps
  unfolding append_pending bump on_wal
  append_pending-numbers [] s = λ done. omega arith
  append_pending-numbers ((k, v) ∷ ps) s =
      let n = s.0.sequence + 1 in
      let u : Store × Disk = (record s.0 { sequence = n }, s.1) in
      let logs : Exec (Store × Disk) (Unit {0}) = on_wal (append (log_entry k v n)) in
      elim (increment-cases s.0.sequence) [
        | inl fits ↦ rw fits (λ done.
            ends (λ w. w.0.sequence ≡ s.0.sequence + length ((k, v) ∷ ps)) (logs u)
              (λ _. append_pending ps) u
              (λ a made later. omega (arith, append_pending-numbers ps (logs u).1 later)) done)
        | inr overflows ↦ rw overflows (λ done. cc)
      ]

  pub log_batch-Logs :
      (ps : BTreeMap (Option Value)) (s : Store × Disk)
      → Logs log_of (frames (batch_log s.0 ps [])) s (log_batch ps s)
  unfolding current_sequence
  log_batch-Logs ps s =
      let t = (append_pending ps s).1 in
      let mark = λ (n : ℕ). frames (commit_entry n ∷ []) in
      let batch = batch_entries s.0.sequence ps in
      subst (λ b. Logs log_of b s (log_batch ps s))
        (sym (frames-append batch (commit_entry (s.0.sequence + length ps) ∷ [])))
        (Logs-then log_of (frames batch) (mark (s.0.sequence + length ps)) s (append_pending ps s) _
          (append_pending-Logs ps s)
          (λ done.
            subst (λ n. Logs log_of (mark n) t (on_wal (write_commit t.0.sequence) t))
              (append_pending-numbers ps s done)
              (on_wal-Logs (mark t.0.sequence) (write_commit t.0.sequence) t
                (write_commit-Logs t.0.sequence (log_of t)))))
