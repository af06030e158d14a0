-- ===== src/Tests/Writes.antt =====
-- Runs of the store's writes, of recovery and of the table handle on an open store.
use ferrum_db.Base.{◌≡◌, ◌≢◌, refl, Option, none, some, List, [], ◌∷◌, arith}
use ferrum_db.Base.Bytes.{Bytes, cmp}
use ferrum_db.BTreeMap
use ferrum_db.Errors
use ferrum_db.Proto.{WalEntry}
use ferrum_db.Value.{Value, integer, to_proto}
use ferrum_db.Disk.{Disk}
use ferrum_db.Api.{ok}
use ferrum_db.SsTable.Record
use ferrum_db.SsTable.Table.Layout.{Group}
use ferrum_db.Store.{Store}
use ferrum_db.Store.Compact.{compact}
use ferrum_db.Store.Compact.Files.{compact-IsOpen}
use ferrum_db.Store.Lookup.{newest, seen}
use ferrum_db.Store.Transaction
use ferrum_db.Store.Transaction.{begin_transaction}
use ferrum_db.Store.Room.{Grows}
use ferrum_db.Store.Write.Batch.{batch_weight, overlay}
use ferrum_db.Store.Valid.{IsOpen, view}
use ferrum_db.Store.Write.{flush, commit, set_value, delete_value, memtable_entry}
use ferrum_db.Store.Write.Commit.{CanCommit, commit-IsOpen}
use ferrum_db.Store.Write.Flush.{flush-IsOpen}
use ferrum_db.Store.Write.Single.{write-commit}
use ferrum_db.Table.Handle.{get, put, delete, put_batch, as_bytes, buffer_all}
use ferrum_db.Table.Handle.Reads.{put-get, delete-get, put_batch-get, last_value}
use ferrum_db.Tests.Codec.{sample_codec, encode_kind}
use ferrum_db.Tests.Live.{
  live, live_disk, live_blocks, live_blocks-runs, live-IsOpen, all-Fits, log, memtable, one_put,
  one_delete, two_writes, batch, batch_writes,
}

compact-IsOpen_example :
    (t : Store) × (after : Disk) × (other : List (List Group)) × (compact ⦃c = sample_codec⦄
        (live, live_disk)
      ≡ (Errors.ok tt, (t, after)))
    × (t.memtable ≡ memtable)
    × ((q : Bytes) → seen (newest q other) ≡ seen (newest q live_blocks))
    × IsOpen ⦃c = sample_codec⦄ t after other log
    × Grows ⦃c = sample_codec⦄ live t live_blocks other 0 1 0
compact-IsOpen_example =
    compact-IsOpen ⦃c = sample_codec⦄ live live_disk live_blocks log live-IsOpen (omega arith)
      (rw live_blocks-runs (all-Fits.1))

flush-IsOpen_example :
    (t : Store) × (after : Disk) × (other : List (List Group)) × (rest : List WalEntry) × (flush
        ⦃c = sample_codec⦄
        (live, live_disk)
      ≡ (Errors.ok tt, (t, after)))
    × (t.memtable ≡ [])
    × ((q : Bytes) → view t other q ≡ view live live_blocks q)
    × IsOpen ⦃c = sample_codec⦄ t after other rest
    × Grows ⦃c = sample_codec⦄ live t live_blocks other 0 2 0
flush-IsOpen_example =
    flush-IsOpen ⦃c = sample_codec⦄ live live_disk live_blocks log live-IsOpen (omega arith)
      (all-Fits.2.0) (rw live_blocks-runs (all-Fits.2.1))

-- The writes can be committed.
abbrev pub CanCommitLive : BTreeMap.BTreeMap (Option Value) → Type 0
CanCommitLive = CanCommit ⦃c = sample_codec⦄ live live_blocks

pub one_put-CanCommit : CanCommitLive one_put
unfolding sample_codec encode_kind Record.entry_bytes to_proto memtable_entry
one_put-CanCommit = record {
  sorted = (tt, tt);
  writes = (
    record {
      key_bytes = (omega arith, tt);
      holds = record { key_fits = omega arith; bytes_fit = omega arith; holds = (omega arith, tt) };
    },
    tt,
  );
  numbered = omega arith;
  named = omega arith;
  flushes = all-Fits.3.0;
  compacts = rw live_blocks-runs (all-Fits.3.1);
}

one_delete-CanCommit : CanCommitLive one_delete
unfolding sample_codec encode_kind Record.entry_bytes to_proto memtable_entry
one_delete-CanCommit = record {
  sorted = (tt, tt);
  writes = (
    record {
      key_bytes = (omega arith, tt);
      holds = record { key_fits = omega arith; bytes_fit = omega arith; holds = tt };
    },
    tt,
  );
  numbered = omega arith;
  named = omega arith;
  flushes = all-Fits.4.0;
  compacts = rw live_blocks-runs (all-Fits.4.1);
}

pub two_writes-CanCommit : CanCommitLive two_writes
unfolding sample_codec encode_kind Record.entry_bytes to_proto memtable_entry cmp
two_writes-CanCommit = record {
  sorted = ((refl, tt), (tt, tt));
  writes = (
    record {
      key_bytes = (omega arith, tt);
      holds = record { key_fits = omega arith; bytes_fit = omega arith; holds = tt };
    },
    (
      record {
        key_bytes = (omega arith, tt);
        holds = record { key_fits = omega arith; bytes_fit = omega arith; holds = omega arith };
      },
      tt,
    ),
  );
  numbered = omega arith;
  named = omega arith;
  flushes = all-Fits.5.0;
  compacts = rw live_blocks-runs (all-Fits.5.1);
}

batch_writes-CanCommit : CanCommitLive batch_writes
unfolding sample_codec encode_kind Record.entry_bytes to_proto memtable_entry cmp
batch_writes-CanCommit = record {
  sorted = ((refl, tt), (tt, tt));
  writes = (
    record {
      key_bytes = (omega arith, tt);
      holds = record { key_fits = omega arith; bytes_fit = omega arith; holds = (omega arith, tt) };
    },
    (
      record {
        key_bytes = (omega arith, tt);
        holds = record {
          key_fits = omega arith;
          bytes_fit = omega arith;
          holds = (omega arith, tt);
        };
      },
      tt,
    ),
  );
  numbered = omega arith;
  named = omega arith;
  flushes = all-Fits.6.0;
  compacts = rw live_blocks-runs (all-Fits.6.1);
}

commit-IsOpen_example :
    (t : Store) × (after : Disk) × (other : List (List Group)) × (rest : List WalEntry) × (commit
        ⦃c = sample_codec⦄
        (record { store = live; pending = two_writes })
        live_disk
      ≡ (Errors.ok tt, (t, after)))
    × ((q : Bytes) → view t other q ≡ overlay (BTreeMap.get q two_writes) (view live live_blocks q))
    × IsOpen ⦃c = sample_codec⦄ t after other rest
    × Grows ⦃c = sample_codec⦄ live t live_blocks other
        (batch_weight ⦃c = sample_codec⦄ two_writes)
        2
        2
commit-IsOpen_example =
    commit-IsOpen ⦃c = sample_codec⦄ (record { store = live; pending = two_writes }) live_disk
      live_blocks log live-IsOpen two_writes-CanCommit

put-get_example :
    (t : Store) × (after : Disk) × (other : List (List Group)) × (rest : List WalEntry) × (put
        ⦃c = sample_codec⦄
        (b'a' ∷ [])
        (1 ∷ [])
        (live, live_disk)
      ≡ (ok tt, (t, after)))
    × ((get ⦃c = sample_codec⦄ (b'a' ∷ []) (t, after)).0 ≡ ok (some (1 ∷ [])))
    × ((q : Bytes)
        → q ≢ b'a' ∷ []
        → (get ⦃c = sample_codec⦄ q (t, after)).0 ≡ (get ⦃c = sample_codec⦄ q (live, live_disk)).0)
    × IsOpen ⦃c = sample_codec⦄ t after other rest
put-get_example =
    put-get ⦃c = sample_codec⦄ (b'a' ∷ []) (1 ∷ []) live live_disk live_blocks log live-IsOpen
      one_put-CanCommit

delete-get_example :
    (t : Store) × (after : Disk) × (other : List (List Group)) × (rest : List WalEntry) × (delete
        ⦃c = sample_codec⦄
        (b'c' ∷ [])
        (live, live_disk)
      ≡ (ok tt, (t, after)))
    × ((get ⦃c = sample_codec⦄ (b'c' ∷ []) (t, after)).0 ≡ ok none)
    × ((q : Bytes)
        → q ≢ b'c' ∷ []
        → (get ⦃c = sample_codec⦄ q (t, after)).0 ≡ (get ⦃c = sample_codec⦄ q (live, live_disk)).0)
    × IsOpen ⦃c = sample_codec⦄ t after other rest
delete-get_example =
    delete-get ⦃c = sample_codec⦄ (b'c' ∷ []) live live_disk live_blocks log live-IsOpen
      one_delete-CanCommit

put_batch-get_example :
    (t : Store) × (after : Disk) × (other : List (List Group)) × (rest : List WalEntry) × (put_batch
        ⦃c = sample_codec⦄ batch
        (live, live_disk)
      ≡ (ok tt, (t, after)))
    × ((q : Bytes)
        → (get ⦃c = sample_codec⦄ q (t, after)).0
          ≡ as_bytes (overlay (last_value q batch none) (view live live_blocks q)))
    × IsOpen ⦃c = sample_codec⦄ t after other rest
unfolding buffer_all Transaction.set_value begin_transaction BTreeMap.insert cmp
put_batch-get_example =
    put_batch-get ⦃c = sample_codec⦄ batch live live_disk live_blocks log live-IsOpen
      batch_writes-CanCommit

write-commit_example :
    (set_value ⦃c = sample_codec⦄ (b'a' ∷ []) (integer 1) (live, live_disk)
      ≡ commit ⦃c = sample_codec⦄
          (Transaction.set_value (b'a' ∷ []) (integer 1) (begin_transaction live))
          live_disk)
    × (delete_value ⦃c = sample_codec⦄ (b'a' ∷ []) (live, live_disk)
        ≡ commit ⦃c = sample_codec⦄
            (Transaction.delete_value (b'a' ∷ []) (begin_transaction live))
            live_disk)
write-commit_example = write-commit ⦃c = sample_codec⦄ (b'a' ∷ []) (integer 1) live live_disk
