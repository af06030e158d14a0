-- ===== src/Wal/Recovery.antt =====
-- `read_for_recovery` on a disk that works: what it returns and what it leaves in the file.
use ferrum_db.Base.{
  ℕ, Bool, false, ◌-◌, ◌^◌, ◌≤◌, ◌<◌, ◌≡◌, refl, ap, ◌∙◌, List, [], length, take, ltb, arith,
  append-nil, All, some, Bool-cases, inl, inr, take_all,
}
use ferrum_db.Base.Bytes.{Bytes}
use ferrum_db.BTreeMap
use ferrum_db.BTreeMap.Lookup
use ferrum_db.Errors.{ok}
use ferrum_db.Proto.{WalEntry, Codec, IsWalEntry}
use ferrum_db.Disk.{Disk, put_file}
use ferrum_db.Disk.Healthy.{
  exists-healthy, stat-healthy, open_existing-healthy, set_len-healthy, sync_all-healthy,
  read_to_end-healthy,
}
use ferrum_db.Disk.Kept.{Kept, Kept-refl, Kept-put_file}
use ferrum_db.Wal.{
  Wal, Parsed, nothing_parsed, read_file, parse_buffer, cut_tail, recover_buffer, read_for_recovery,
}
use ferrum_db.Wal.Frames.{frames, whole, take-frames}
use ferrum_db.Wal.Parse.{accept_all, parse_buffer-cut}
use ferrum_db.Wal.Committed.{
  committed, accept_all-committed, take-committed, take-frames-committed, frames-committed-le,
  committed-whole,
}

module _ ⦃c : Codec⦄ (w : Wal) (d : Disk) (healthy : d.faults ≡ []) where
  -- Cutting a file at `n` leaves its first `n` bytes.
  cut_tail_lem :
      (file : Bytes) (n : ℕ)
      → BTreeMap.get w.file_path d.files ≡ some file
      → n ≤ length file
      → (handle : Bool) × (after : Disk) × (cut_tail n (length file) (w, d)
          ≡ (ok tt, (record w { file = handle }, after)))
        × (BTreeMap.get w.file_path after.files ≡ some (take n file))
        × Kept w.file_path d after
  unfolding cut_tail
  cut_tail_lem file n found le = elim (Bool-cases (ltb n (length file))) [
    | inl shorter ↦
        let path = w.file_path in
        let pad : n - length file ≡ 0 = omega arith in
        (
          false,
          put_file path (take n file) d,
          rw
              (
                shorter,
                open_existing-healthy path d healthy file found,
                set_len-healthy path d healthy file found n,
                pad,
                append-nil (take n file),
                sync_all-healthy path (put_file path (take n file) d) healthy,
              )
              refl,
          Lookup.get-insert_self path (take n file) d.files,
          Kept-put_file path (take n file) d healthy,
        )
    | inr longer ↦ (
      w.file,
      d,
      rw longer refl,
      rw (take_all file n (ground arith)) found,
      Kept-refl w.file_path d healthy,
    )
  ]

  read_file-found :
      (file : Bytes)
      → BTreeMap.get w.file_path d.files ≡ some file
      → read_file (w, d) ≡ (ok (some file), (w, d))
  unfolding read_file
  read_file-found file found =
      let path = w.file_path in
      rw (
        stat-healthy path d healthy,
        exists-healthy path d healthy file found,
        open_existing-healthy path d healthy file found,
        read_to_end-healthy path d healthy file found,
      )

  -- `recover_buffer` on a file that parses.
  recover_buffer_lem :
      (file : Bytes) (p : Parsed)
      → BTreeMap.get w.file_path d.files ≡ some file
      → parse_buffer file ≡ ok p
      → p.committed_end ≤ length file
      → (handle : Bool) × (after : Disk) × (recover_buffer file (w, d)
          ≡ (ok (take p.committed_count p.entries), (record w { file = handle }, after)))
        × (BTreeMap.get w.file_path after.files ≡ some (take p.committed_end file))
        × Kept w.file_path d after
  unfolding recover_buffer
  recover_buffer_lem file p found parsed le =
      let (handle, after, done, kept, only) = cut_tail_lem file p.committed_end found le in
      (handle, after, rw (parsed, done) refl, kept, only)

  -- What `read_for_recovery-cut` says of the call's result and of the log's file, and that nothing
  -- else changes.
  pub recovered :
      (es : List WalEntry) (n : ℕ)
      → All (IsWalEntry c.is_utf8) es
      → length (frames es) < 2 ^ 64
      → n ≤ length (frames es)
      → BTreeMap.get w.file_path d.files ≡ some (take n (frames es))
      → (handle : Bool) × (after : Disk) × (read_for_recovery (w, d)
          ≡ (ok (committed (whole n es)), (record w { file = handle }, after)))
        × (BTreeMap.get w.file_path after.files ≡ some (frames (committed (whole n es))))
        × Kept w.file_path d after
  unfolding read_for_recovery
  recovered es n valid fits le found =
      let file = take n (frames es) in
      let live = whole n es in
      let p = accept_all 0 live nothing_parsed in
      let (entries, count, end) = accept_all-committed live in
      let (torn, split) = take-frames n es in
      let inside : p.committed_end ≤ length file =
        rw (end, split) (frames-committed-le live torn) in
      let (handle, after, done, kept, only) =
        recover_buffer_lem file p found (parse_buffer-cut es n valid fits le) inside in
      (
        handle,
        after,
        rw (read_file-found file found) (
            done
            ∙ ap (λ x. (ok x, (record w { file = handle }, after)))
                (rw (count, entries) (take-committed live))),
        kept ∙ ap some (rw (end, split) (take-frames-committed live torn)),
        only,
      )

  -- On a working disk whose log is any prefix of the frames of some entries, `read_for_recovery`
  -- returns the committed part of the entries that survived whole, and the log then holds exactly
  -- their frames. The entries are ones that the Rust types can hold and the log is shorter than
  -- 2^64 bytes.
  pub read_for_recovery-cut :
      (es : List WalEntry) (n : ℕ)
      → All (IsWalEntry c.is_utf8) es
      → length (frames es) < 2 ^ 64
      → n ≤ length (frames es)
      → BTreeMap.get w.file_path d.files ≡ some (take n (frames es))
      → ((read_for_recovery (w, d)).0 ≡ ok (committed (whole n es)))
        × (BTreeMap.get w.file_path (read_for_recovery (w, d)).1.1.files
            ≡ some (frames (committed (whole n es))))
  read_for_recovery-cut es n valid fits le found =
      let (handle, after, done, kept, only) = recovered es n valid fits le found in
      rw done (refl, kept)

  -- On a working disk, after any crash that keeps a prefix of the log which reaches past its last
  -- COMMIT, `read_for_recovery` returns exactly the committed entries and the log then holds
  -- exactly their frames. The entries are ones that the Rust types can hold and the log is shorter
  -- than 2^64 bytes.
  pub recovery_durable :
      (es : List WalEntry) (n : ℕ)
      → All (IsWalEntry c.is_utf8) es
      → length (frames es) < 2 ^ 64
      → n ≤ length (frames es)
      → length (frames (committed es)) ≤ n
      → BTreeMap.get w.file_path d.files ≡ some (take n (frames es))
      → ((read_for_recovery (w, d)).0 ≡ ok (committed es))
        × (BTreeMap.get w.file_path (read_for_recovery (w, d)).1.1.files
            ≡ some (frames (committed es)))
  recovery_durable es n valid fits le synced found =
      rw (committed-whole es n synced) at (read_for_recovery-cut es n valid fits le found)
