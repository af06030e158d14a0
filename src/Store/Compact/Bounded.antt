-- ===== src/Store/Compact/Bounded.antt =====
-- How many tables a compaction leaves.
use ferrum_db.Base.{◌≤◌, ◌≡◌, refl, [], ◌∷◌, length, ltb, arith, Bool-cases, inl, inr}
use ferrum_db.BTreeMap.{BTreeMap}
use ferrum_db.Errors.{Result, ok, err, panic}
use ferrum_db.Proto.{Codec}
use ferrum_db.Value.{Entry}
use ferrum_db.Disk.{Disk, Exec, ◌>>=◌, ◌>>◌, on_disk}
use ferrum_db.SsTable.Table.Build
use ferrum_db.SsTable.Table.{SsTable}
use ferrum_db.Store.{Store, increment}
use ferrum_db.Store.Files.{sstable_path}
use ferrum_db.Store.Compact.{
  compact, maybe_compact, max_sstables, merged_values, install_merged, install_compacted,
  remove_old, paths_of,
}

-- What holds after a computation that succeeded holds by its last step.
pub ends :
    {S A : Type 0} (P : S → Type 0) (x : Result A × S) (k : A → Exec S (Unit {0})) (s : S)
    → ((a : A) → x.0 ≡ ok a → (k a x.1).0 ≡ ok tt → P (k a x.1).1)
    → (((λ _. x) >>= k) s).0 ≡ ok tt
    → P (((λ _. x) >>= k) s).1
ends P (ok a, t) k s h done = h a refl done
ends P (err e, t) k s h done = cc
ends P (panic, t) k s h done = cc

abbrev AtMostOne : Store × Disk → Type 0
AtMostOne s = length s.0.sstables ≤ 1

install_compacted-AtMostOne :
    (t : SsTable) (s : Store × Disk)
    → (install_compacted t s).0 ≡ ok tt
    → AtMostOne (install_compacted t s).1
unfolding install_compacted
install_compacted-AtMostOne t s done =
    ends AtMostOne (increment s.0.next_sstable_id, s)
      (λ next u. (ok tt, (record u.0 { sstables = t ∷ []; next_sstable_id = next }, u.1))) s
      (λ next fits installed. omega arith) done

module _ ⦃c : Codec⦄ where
  install_merged-AtMostOne :
      (m : BTreeMap Entry) (s : Store × Disk)
      → (install_merged m s).0 ≡ ok tt
      → AtMostOne (install_merged m s).1
  unfolding install_merged
  install_merged-AtMostOne [] s done = omega arith
  install_merged-AtMostOne (e ∷ m) s done =
      ends AtMostOne
        (on_disk (Build.flush s.0.dir (sstable_path s.0.dir s.0.next_sstable_id) (e ∷ m)) s)
        install_compacted s (λ t made. install_compacted-AtMostOne t _) done

  compact-AtMostOne : (s : Store × Disk) → (compact s).0 ≡ ok tt → AtMostOne (compact s).1
  unfolding compact remove_old
  compact-AtMostOne s = elim (Bool-cases (ltb (length s.0.sstables) 2)) [
    | inl few ↦ rw few (λ done. ground arith)
    | inr many ↦ rw many (λ done.
        let x = on_disk (merged_values s.0.sstables) s in
        let cleaned : Exec (Store × Disk) (Unit {0}) = remove_old (paths_of s.0.sstables) in
        ends AtMostOne x (λ merged. install_merged merged >> cleaned) s
          (λ merged found.
            ends AtMostOne (install_merged merged x.1) (λ _. cleaned) x.1
              (λ u installed removed. install_merged-AtMostOne merged x.1 installed))
          done)
  ]

  -- Where `maybe_compact` succeeds, whatever calls of the operating system have failed in it, at
  -- most eight tables are left.
  pub maybe_compact-bounded :
      (s : Store × Disk)
      → (maybe_compact s).0 ≡ ok tt
      → length (maybe_compact s).1.0.sstables ≤ max_sstables
  unfolding maybe_compact
  maybe_compact-bounded s = elim (Bool-cases (ltb max_sstables (length s.0.sstables))) [
    | inl many ↦ rw many (λ done. let one = compact-AtMostOne s done in omega arith)
    | inr few ↦ rw few (λ done. ground arith)
  ]
