-- ===== src/Store/Session/Acts.antt =====
-- Each kind of step of ferrumdb-core/src/store.rs, and what it does to the map that a reader sees.
use ferrum_db.Base.{
  ℕ, ◌+◌, ◌^◌, ◌≤◌, ◌<◌, ◌≡◌, refl, ap, ◌∙◌, sym, Option, none, List, [], ◌∷◌, ◌++◌, length, take,
  leb, arith, Bool-cases, inl, inr,
}
use ferrum_db.Base.Bytes.{Bytes}
use ferrum_db.BTreeMap
use ferrum_db.BTreeMap.{BTreeMap}
use ferrum_db.Errors.{Result, ok}
use ferrum_db.Proto.{Codec}
use ferrum_db.Value.{Value}
use ferrum_db.Disk.{Disk, contents}
use ferrum_db.Wal.Frames.{frames, frames-append}
use ferrum_db.SsTable.Table.Layout.{Group}
use ferrum_db.SsTable.Table.Size.{weight, length-image_le}
use ferrum_db.Store.{Store, get_value}
use ferrum_db.Store.Files.{lock_path}
use ferrum_db.Store.Open.{open_with_dir}
use ferrum_db.Store.Open.Torn.{ended, open_with_dir-torn}
use ferrum_db.Store.Write.{commit, flush}
use ferrum_db.Store.Room.{used, runs_weight, weight-compacted_le}
use ferrum_db.Store.Valid.{view}
use ferrum_db.Store.Compact.Merged.{compacted, runs}
use ferrum_db.Store.Replay.Batches.{put_all}
use ferrum_db.Store.Open.Reopen.{open_with_dir-view}
use ferrum_db.Store.Write.Batch.{overlay, batch_weight, weight-put_all_le}
use ferrum_db.Store.Write.Commit.{CanCommit, commit-IsOpen, batch_log}
use ferrum_db.Store.Write.Flush.{Fits, flush-IsOpen}
use ferrum_db.Store.Session.{Act, View, Becomes, IsBatch, whole_file, Shows}
use ferrum_db.Store.Session.Reads.{get_value-IsOpen}
use mathlib.Core.List.{Permᴰ}

-- A call has one result.
same_end :
    {A S : Type 0} {x : Result A × S} {a b : A} {s t : S}
    → x ≡ (ok a, s)
    → x ≡ (ok b, t)
    → (a ≡ b) × (s ≡ t)
same_end {a = a} {b = b} {s = s} {t = t} e f =
    let both : (ok a, s) ≡ (ok b, t) = sym e ∙ f in
    let first : ok a ≡ ok b = ap (λ p. p.0) both in
    let equal : a ≡ b = cc in (equal, ap (λ p. p.1) both)

module _ ⦃c : Codec⦄ where
  pub weight-Fits : (es : Group) → weight es + 53 < 2 ^ 32 → Fits es
  weight-Fits es room = omega (arith, length-image_le es)

  -- Where the bytes of a batch fit, it can be committed.
  pub IsBatch-CanCommit :
      (s : Store) (gss : List (List Group)) (ps : BTreeMap (Option Value))
      → IsBatch s ps
      → used s gss + batch_weight ps + 53 < 2 ^ 32
      → CanCommit s gss ps
  unfolding runs_weight
  IsBatch-CanCommit s gss ps h room =
      let m = put_all ps s.memtable in
      record {
        sorted = h.sorted;
        writes = h.writes;
        numbered = h.numbered;
        named = h.named;
        flushes = weight-Fits m (omega (arith, weight-put_all_le ps s.memtable));
        compacts =
            weight-Fits (compacted (m ∷ runs gss))
              (omega (arith, weight-compacted_le (m ∷ runs gss), weight-put_all_le ps s.memtable));
      }

  module _ (order : List Bytes → List Bytes)
      (permutes : (names : List Bytes) → Permᴰ (order names) names) where
    pub read-Becomes :
        (q : Bytes) (v : Option Value) (x y : Store × Disk) (m : View) (bytes : ℕ)
        → get_value q x ≡ (ok v, y)
        → Shows x m bytes
        → (n : View) × Becomes (Act.reads q v) m n × Shows y n (bytes + 0)
    read-Becomes q v x y m bytes done (gss, log, h, shows, room) =
        let (after, found, opened) = get_value-IsOpen q x.0 x.1 gss log h in
        let (answer, same) = same_end found done in
        (m, (sym (shows q) ∙ answer, λ k. refl), rw (← same) (gss, log, opened, shows, omega arith))

    pub commit-Becomes :
        (ps : BTreeMap (Option Value)) (s : Store) (d : Disk) (y : Store × Disk) (m : View)
        (bytes : ℕ)
        → IsBatch s ps
        → commit (record { store = s; pending = ps }) d ≡ (ok tt, y)
        → Shows (s, d) m bytes
        → bytes + batch_weight ps + 53 < 2 ^ 32
        → (n : View) × Becomes (Act.commits ps) m n × Shows y n (bytes + batch_weight ps)
    commit-Becomes ps s d y m bytes batch done (gss, log, h, shows, room) fits =
        let can = IsBatch-CanCommit s gss ps batch (omega arith) in
        let (t, after, other, rest, ran, now, opened, grows) =
          commit-IsOpen (record { store = s; pending = ps }) d gss log h can in
        let (_, same) = same_end ran done in
        (
          view t other,
          λ k. now k ∙ ap (overlay (BTreeMap.get k ps)) (shows k),
          rw (← same) (other, rest, opened, λ q. refl, omega (arith, grows.room)),
        )

    pub flush-Becomes :
        (s : Store) (d : Disk) (y : Store × Disk) (m : View) (bytes : ℕ)
        → s.next_sstable_id + 2 < 2 ^ 64
        → flush (s, d) ≡ (ok tt, y)
        → Shows (s, d) m bytes
        → bytes + 53 < 2 ^ 32
        → (n : View) × Becomes Act.flushes m n × Shows y n (bytes + 0)
    unfolding runs_weight
    flush-Becomes s d y m bytes numbered done (gss, log, h, shows, room) fits =
        let merged = compacted (s.memtable ∷ runs gss) in
        let (t, after, other, rest, ran, empty, now, opened, grows) =
          flush-IsOpen s d gss log h numbered (weight-Fits s.memtable (omega arith))
            (weight-Fits merged (omega (arith, weight-compacted_le (s.memtable ∷ runs gss)))) in
        let (_, same) = same_end ran done in
        (
          view t other,
          λ k. now k ∙ shows k,
          rw (← same) (other, rest, opened, λ q. refl, omega (arith, grows.room)),
        )

    pub reopen-Becomes :
        (locks : BTreeMap (Unit {0})) (s t : Store) (d after : Disk) (m : View) (bytes : ℕ)
        → BTreeMap.get (lock_path s.dir) locks ≡ none
        → s.next_sstable_id < 2 ^ 64
        → length (contents s.wal.file_path d) < 2 ^ 64
        → open_with_dir order s.dir (record d { locks = locks }) ≡ (ok t, after)
        → Shows (s, d) m bytes
        → (n : View) × Becomes Act.reopens m n × Shows (t, after) n (bytes + 0)
    reopen-Becomes locks s t d after m bytes free named small done (gss, log, h, shows, room) =
        let (u, end, other, ran, now, opened, takes) =
          open_with_dir-view order permutes s d gss log locks h free named (rw h.is_log at small) in
        let (first, second) = same_end ran done in
        (
          view u other,
          λ k. now k ∙ shows k,
          rw (← first, ← second) (other, log, opened, λ q. refl, omega (arith, takes)),
        )

    pub crash-Becomes :
        (ps : BTreeMap (Option Value)) (n : ℕ) (locks : BTreeMap (Unit {0})) (s t : Store)
        (d after : Disk) (m : View) (bytes : ℕ)
        → IsBatch s ps
        → BTreeMap.get (lock_path s.dir) locks ≡ none
        → length (whole_file s d ps) < 2 ^ 64
        → length (contents s.wal.file_path d) ≤ n
        → n ≤ length (whole_file s d ps)
        → open_with_dir order s.dir (ended s (take n (whole_file s d ps)) locks d) ≡ (ok t, after)
        → Shows (s, d) m bytes
        → (k : View) × Becomes (Act.crashes ps) m k × Shows (t, after) k (bytes + batch_weight ps)
    crash-Becomes ps n locks s t d after m bytes batch free small synced le done
          (gss, log, h, shows, room) =
        let es = batch_log s ps log in
        let file : whole_file s d ps ≡ frames es =
          ap (λ b. b ++ frames (batch_log s ps [])) h.is_log
          ∙ sym (frames-append log (batch_log s ps [])) in
        let (u, end, other, rest, ran, now, opened, takes) =
          open_with_dir-torn order permutes s d gss log locks h free (omega (arith, batch.named)) ps
            n batch.sorted batch.writes batch.numbered (rw file at small) (rw h.is_log at synced)
            (rw file at le) in
        let (first, second) = same_end ran (rw file at done) in
        (
          view u other,
          elim (Bool-cases (leb (length (frames es)) n)) [
            | inl complete ↦
                inr (λ k. now k ∙ (rw complete refl ∙ ap (overlay (BTreeMap.get k ps)) (shows k)))
            | inr cut ↦ inl (λ k. now k ∙ (rw cut refl ∙ shows k))
          ],
          rw (← first, ← second) (other, rest, opened, λ q. refl, omega (arith, takes)),
        )
