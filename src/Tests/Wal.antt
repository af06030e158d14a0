-- ===== src/Tests/Wal.antt =====
-- Runs of the log.
use ferrum_db.Base.{ℕ, ◌≡◌, ◌<◌, ◌^◌, refl, All, some, List, [], ◌∷◌, length, take, arith}
use ferrum_db.Base.Bytes.{Bytes, cmp}
use ferrum_db.BTreeMap
use ferrum_db.Errors.{Result, ok}
use ferrum_db.Proto.{WalEntry, IsWalEntry}
use ferrum_db.Base.Words.{u64_bytes}
use ferrum_db.Disk.{Disk}
use ferrum_db.Wal.{Wal, commit_entry, frame, read_for_recovery}
use ferrum_db.Wal.Frames.{frames, whole}
use ferrum_db.Wal.Committed.{committed}
use ferrum_db.Wal.Recovery.{read_for_recovery-cut, recovery_durable}
use ferrum_db.Tests.Codec.{sample_codec, encode_entry}
use ferrum_db.Tests.Samples.{put_entry, log, wal, wal_path, disk_with}

put_entry-IsWalEntry :
    (k n : ℕ) → k < 256 → n < 2 ^ 32 → IsWalEntry sample_codec.is_utf8 (put_entry (k ∷ []) n)
put_entry-IsWalEntry k n hk hn = record {
  key_bytes = (hk, tt);
  value_holds = hn;
  sequence_fits = omega arith;
  timestamp_fits = omega arith;
}

log-IsWalEntry : All (IsWalEntry sample_codec.is_utf8) log
log-IsWalEntry = (
  put_entry-IsWalEntry b'a' 1 (omega arith) (omega arith),
  (
    record {
      key_bytes = tt;
      value_holds = tt;
      sequence_fits = omega arith;
      timestamp_fits = omega arith;
    },
    (put_entry-IsWalEntry b'b' 2 (omega arith) (omega arith), tt),
  ),
)

-- The third record is cut after some of its bytes.
abbrev torn : Bytes
torn = take 34 (frames ⦃c = sample_codec⦄ log)

-- What was committed.
abbrev kept : List WalEntry
kept = put_entry (b'a' ∷ []) 1 ∷ commit_entry 1 ∷ []

length-log : length (frames ⦃c = sample_codec⦄ log) ≡ 45
unfolding frames frame u64_bytes sample_codec encode_entry
length-log = refl

length-kept : length (frames ⦃c = sample_codec⦄ (committed log)) ≡ 29
unfolding frames frame u64_bytes sample_codec encode_entry committed
length-kept = refl

torn-found : BTreeMap.get wal_path (disk_with wal_path torn).files ≡ some torn
unfolding BTreeMap.get cmp
torn-found = refl

-- The state after the recovery of the cut log.
abbrev recovered : Result (List WalEntry) × (Wal × Disk)
recovered = read_for_recovery ⦃c = sample_codec⦄ (wal, disk_with wal_path torn)

read_for_recovery-cut_example :
    (recovered.0 ≡ ok kept)
    × (BTreeMap.get wal_path recovered.1.1.files ≡ some (frames ⦃c = sample_codec⦄ kept))
unfolding committed whole frame u64_bytes sample_codec encode_entry
read_for_recovery-cut_example =
    read_for_recovery-cut ⦃c = sample_codec⦄ wal (disk_with wal_path torn) refl log 34
      log-IsWalEntry (omega (arith, length-log)) (omega (arith, length-log)) torn-found

recovery_durable_example :
    (recovered.0 ≡ ok kept)
    × (BTreeMap.get wal_path recovered.1.1.files ≡ some (frames ⦃c = sample_codec⦄ kept))
unfolding committed
recovery_durable_example =
    recovery_durable ⦃c = sample_codec⦄ wal (disk_with wal_path torn) refl log 34 log-IsWalEntry
      (omega (arith, length-log)) (omega (arith, length-log)) (omega (arith, length-kept))
      torn-found
