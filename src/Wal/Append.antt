-- ===== src/Wal/Append.antt =====
-- What `append` and `write_commit` leave in the log on a disk that works.
use ferrum_db.Base.{
  ℕ, ◌≡◌, refl, ap, ◌∙◌, true, false, some, none, List, [], ◌∷◌, ◌++◌, append-nil, Option-cases,
  inl, inr, Bool-cases, arith,
}
use ferrum_db.BTreeMap
use ferrum_db.BTreeMap.Lookup
use ferrum_db.Errors.{ok}
use ferrum_db.Proto.{WalEntry, Codec}
use ferrum_db.Disk.{Disk, contents, put_file}
use ferrum_db.Disk.Kept.{Kept, Kept-refl, Kept-put_file, Kept-trans}
use ferrum_db.Disk.Healthy.{
  write_all-working, sync_all-healthy, open_create-healthy, open_create-healthy_new,
  create_truncate-healthy,
}
use ferrum_db.Wal.{Wal, open_writer, writer, frame, append, write_commit, commit_entry, clear}
use ferrum_db.Wal.Frames.{frames, frames-append}

module _ ⦃c : Codec⦄ where
  -- The log holds the entries; a log that was never written to may have no file.
  abbrev pub IsLog : Wal → Disk → List WalEntry → Type 0
  IsLog w d log = contents w.file_path d ≡ frames log

  pub IsLog-file :
      (w : Wal) (d : Disk) (log : List WalEntry)
      → BTreeMap.get w.file_path d.files ≡ some (frames log)
      → IsLog w d log
  IsLog-file w d log h = ap (λ o. elim o [ none ↦ [] | some b ↦ b ]) h

  writer-Kept :
      (w : Wal) (d : Disk)
      → d.faults ≡ []
      → (after : Disk) × (writer (w, d) ≡ (ok tt, (record w { file = true }, after)))
        × (contents w.file_path after ≡ contents w.file_path d)
        × Kept w.file_path d after
  unfolding writer open_writer
  writer-Kept w d healthy = elim (Bool-cases w.file) [
    | inl cached ↦ (d, rw cached, refl, Kept-refl w.file_path d healthy)
    | inr fresh ↦ elim (Option-cases (BTreeMap.get w.file_path d.files)) [
      | inl absent ↦ (
        put_file w.file_path [] d,
        rw (fresh, open_create-healthy_new w.file_path d healthy absent),
        ground (arith, absent, Lookup.get-insert_self w.file_path [] d.files),
        Kept-put_file w.file_path [] d healthy,
      )
      | inr (b, found) ↦ (
        d,
        rw (fresh, open_create-healthy w.file_path d healthy b found),
        refl,
        Kept-refl w.file_path d healthy,
      )
    ]
  ]

  frames-snoc :
      (log : List WalEntry) (e : WalEntry) → frames (log ++ (e ∷ [])) ≡ frames log ++ frame e
  unfolding frames
  frames-snoc log e = frames-append log (e ∷ []) ∙ ap (λ x. frames log ++ x) (append-nil (frame e))

  -- The frame of an entry goes behind the log.
  pub append_lem :
      (e : WalEntry) (w : Wal) (d : Disk) (log : List WalEntry)
      → d.faults ≡ []
      → IsLog w d log
      → (after : Disk) × (append e (w, d) ≡ (ok tt, (record w { file = true }, after)))
        × (BTreeMap.get w.file_path after.files ≡ some (frames (log ++ (e ∷ []))))
        × Kept w.file_path d after
  unfolding append
  append_lem e w d log healthy holds =
      let (opened, ready, same, kept) = writer-Kept w d healthy in
      let path = w.file_path in
      let after = put_file path (contents path opened ++ frame e) opened in
      (
        after,
        rw (ready, write_all-working path opened kept.works (frame e)),
        rw (same, holds, frames-snoc log e)
            (Lookup.get-insert_self path (frames log ++ frame e) opened.files),
        Kept-trans path d opened after kept
            (Kept-put_file path (contents path opened ++ frame e) opened kept.works),
      )

  pub write_commit_lem :
      (sequence : ℕ) (w : Wal) (d : Disk) (log : List WalEntry)
      → d.faults ≡ []
      → IsLog w d log
      → (after : Disk) × (write_commit sequence (w, d) ≡ (ok tt, (record w { file = true }, after)))
        × (BTreeMap.get w.file_path after.files
            ≡ some (frames (log ++ (commit_entry sequence ∷ []))))
        × Kept w.file_path d after
  unfolding write_commit
  write_commit_lem sequence w d log healthy holds =
      let (opened, ready, same, kept) = writer-Kept w d healthy in
      let path = w.file_path in
      let e = commit_entry sequence in
      let after = put_file path (contents path opened ++ frame e) opened in
      (
        after,
        rw (
          ready,
          write_all-working path opened kept.works (frame e),
          sync_all-healthy path after kept.works,
        ),
        rw (same, holds, frames-snoc log e)
            (Lookup.get-insert_self path (frames log ++ frame e) opened.files),
        Kept-trans path d opened after kept
            (Kept-put_file path (contents path opened ++ frame e) opened kept.works),
      )

  pub clear_lem :
      (w : Wal) (d : Disk)
      → d.faults ≡ []
      → (clear (w, d) ≡ (ok tt, (record w { file = false }, put_file w.file_path [] d)))
        × Kept w.file_path d (put_file w.file_path [] d)
  unfolding clear
  clear_lem w d healthy = (
    rw (
      create_truncate-healthy w.file_path d healthy,
      sync_all-healthy w.file_path (put_file w.file_path [] d) healthy,
    ),
    Kept-put_file w.file_path [] d healthy,
  )
