-- ===== src/Store/Write/Flush.antt =====
-- `flush` and `maybe_flush` keep the store open and what a reader sees.
use ferrum_db.Base.{
  ℕ, ◌+◌, ◌^◌, ◌<◌, ◌≡◌, ◌≢◌, refl, ap, false, ◌∙◌, sym, List, [], ◌∷◌, All, length, ltb, leb,
  arith, Bool-cases, inl, inr,
}
use ferrum_db.Base.Bytes.{Bytes}
use ferrum_db.BTreeMap
use ferrum_db.BTreeMap.{BTreeMap}
use ferrum_db.BTreeMap.Lookup
use ferrum_db.BTreeMap.Lookup.{or_else}
use ferrum_db.Errors.{ok}
use ferrum_db.Proto.{WalEntry, Codec}
use ferrum_db.Value.{Entry}
use ferrum_db.Disk.{Disk, put_file}
use ferrum_db.Disk.Kept.{Kept-put_file, Kept-others}
use ferrum_db.Wal.Append.{IsLog-file, clear_lem}
use ferrum_db.Wal.Frames.{frames}
use ferrum_db.SsTable.Table.{SsTable}
use ferrum_db.SsTable.Table.Build.{image, build, built}
use ferrum_db.SsTable.Table.Layout.{Group, concat}
use ferrum_db.SsTable.Table.Flushed.{flushed, flush_lem, Holds-built}
use ferrum_db.Store.{Store, increment-fits}
use ferrum_db.Store.Files.{sstable_path, sstable_path-ne-wal_path}
use ferrum_db.Store.Lookup.{newest, seen}
use ferrum_db.Store.Memtable.{total}
use ferrum_db.Store.Replay.Batches.{Replays-empty}
use ferrum_db.Store.Saved.{IsSaved-flushed, IsSaved-wal}
use ferrum_db.SsTable.Table.Size.{weight}
use ferrum_db.Store.Room.{Grows, Grows-refl, Grows-trans, runs_weight, weight_nil}
use ferrum_db.Store.Valid.{IsNamed, IsOpen, AllHold-others, view}
use ferrum_db.Store.Compact.{maybe_compact, max_sstables}
use ferrum_db.Store.Compact.Merged.{compacted, runs}
use ferrum_db.Store.Compact.Files.{
  flushed-others, flushed-stored, built_path, named-apart, wal-apart, compact-IsOpen,
}
use ferrum_db.Store.Write.{flush, flush_entries, maybe_flush, install_flushed, on_wal}

IsNamed-suc :
    (dir : Bytes) (next : ℕ) (ts : List SsTable)
    → All (IsNamed dir next) ts
    → All (IsNamed dir (next + 1)) ts
IsNamed-suc dir next [] h = tt
IsNamed-suc dir next (t ∷ ts) ((id, named, less), h) =
    ((id, named, omega arith), IsNamed-suc dir next ts h)

module _ ⦃c : Codec⦄ where
  -- The file of a table can be written with its offsets in a u32.
  abbrev pub Fits : Group → Type 0
  Fits es = length (image (build es)) < 2 ^ 32

  maybe_compact-IsOpen :
      (s : Store) (d : Disk) (gss : List (List Group)) (log : List WalEntry)
      → IsOpen s d gss log
      → s.next_sstable_id + 1 < 2 ^ 64
      → Fits (compacted (runs gss))
      → (t : Store) × (after : Disk) × (other : List (List Group)) × (maybe_compact (s, d)
          ≡ (ok tt, (t, after)))
        × (t.memtable ≡ s.memtable)
        × ((q : Bytes) → seen (newest q other) ≡ seen (newest q gss))
        × IsOpen t after other log
        × Grows s t gss other 0 1 0
  unfolding maybe_compact
  maybe_compact-IsOpen s d gss log h fits small =
      elim (Bool-cases (ltb max_sstables (length s.sstables))) [
        | inl many ↦
            let (t, after, other, done, same, shows, opened, grows) =
              compact-IsOpen s d gss log h fits small in
            (t, after, other, rw many done, same, shows, opened, grows)
        | inr few ↦ (s, d, gss, rw few refl, refl, λ q. refl, h, Grows-refl s gss 1)
      ]

  -- The store after the memtable `es` has become a table, and its disk.
  abbrev moved : Store → Group → Store
  moved s es = record s {
    next_sstable_id = s.next_sstable_id + 1;
    sstables = built (sstable_path s.dir s.next_sstable_id) (build es) ∷ s.sstables;
    memtable = [];
    memtable_bytes = 0;
    wal = record s.wal { file = false };
  }

  abbrev moved_disk : Store → Group → Disk → Disk
  moved_disk s es d =
      put_file s.wal.file_path [] (flushed s.dir (sstable_path s.dir s.next_sstable_id) es d)

  moved-IsOpen :
      (es : Group) (s : Store) (d : Disk) (gss : List (List Group)) (log : List WalEntry)
      → s.memtable ≡ es
      → IsOpen s d gss log
      → s.next_sstable_id < 2 ^ 64
      → Fits es
      → (gs : List Group) × (concat gs ≡ es) × IsOpen (moved s es) (moved_disk s es d) (gs ∷ gss) []
  unfolding total frames
  moved-IsOpen es s d gss log same h fits small =
      let path = sstable_path s.dir s.next_sstable_id in
      let wal = s.wal.file_path in
      let middle = flushed s.dir path es d in
      let first = flushed-others s.dir path es d in
      let emptied = Kept-put_file wal [] middle h.works in
      let second = Kept-others wal middle (moved_disk s es d) emptied in
      let apart = named-apart s.dir s.next_sstable_id s.sstables fits h.named in
      let wal_apart = wal-apart s.dir s.next_sstable_id wal s.sstables h.wal_named h.named in
      let table_apart : path ≢ wal =
        λ e. sstable_path-ne-wal_path s.dir s.next_sstable_id (e ∙ h.wal_named) in
      let stored = second path table_apart ∙ flushed-stored s.dir path es d in
      let (gs, holds, all) =
        Holds-built path es (moved_disk s es d) (rw (← same) h.counted.sorted) (rw (← same) h.valid)
          small stored in
      (
        gs,
        all,
        record {
          works = h.works;
          counted = record { sorted = tt; exact = refl };
          valid = tt;
          holds = (
            holds,
            AllHold-others wal s.sstables middle (moved_disk s es d) gss second wal_apart
                (AllHold-others path s.sstables d middle gss first apart h.holds),
          );
          saved =
              IsSaved-wal s.dir wal (s.next_sstable_id + 1) _ (gs ∷ gss) middle (moved_disk s es d)
                h.wal_named emptied
                (IsSaved-flushed s.dir s.next_sstable_id s.sstables (built path (build es)) gss es
                  gs d fits (built_path path es) all small h.saved);
          named = (
            (s.next_sstable_id, built_path path es, omega arith),
            IsNamed-suc s.dir s.next_sstable_id s.sstables h.named,
          );
          wal_named = h.wal_named;
          is_log =
              IsLog-file s.wal (moved_disk s es d) [] (Lookup.get-insert_self wal [] middle.files);
          log_valid = tt;
          closed = refl;
          replays = Replays-empty;
        },
      )

  flush_entries-IsOpen :
      (m : BTreeMap Entry) (s : Store) (d : Disk) (gss : List (List Group)) (log : List WalEntry)
      → s.memtable ≡ m
      → IsOpen s d gss log
      → s.next_sstable_id + 2 < 2 ^ 64
      → Fits m
      → Fits (compacted (m ∷ runs gss))
      → (t : Store) × (after : Disk) × (other : List (List Group)) × (rest : List WalEntry)
        × (flush_entries m (s, d) ≡ (ok tt, (t, after)))
        × (t.memtable ≡ [])
        × ((q : Bytes) → view t other q ≡ view s gss q)
        × IsOpen t after other rest
        × Grows s t gss other 0 2 0
  unfolding flush_entries install_flushed on_wal newest BTreeMap.get runs_weight
  flush_entries-IsOpen [] s d gss log same h fits small merged =
      (s, d, gss, log, refl, same, λ q. refl, h, Grows-refl s gss 2)
  flush_entries-IsOpen (x ∷ m) s d gss log same h fits small merged =
      let es = x ∷ m in
      let path = sstable_path s.dir s.next_sstable_id in
      let middle = flushed s.dir path es d in
      let (gs, all, opened) = moved-IsOpen es s d gss log same h (omega arith) small in
      let (cleared, _) = clear_lem s.wal middle h.works in
      let (t, after, other, done, empty, shows, kept_open, grows) =
        maybe_compact-IsOpen (moved s es) (moved_disk s es d) (gs ∷ gss) [] opened (omega arith)
          (rw all merged) in
      (
        t,
        after,
        other,
        [],
        rw
            (
              flush_lem s.dir path es d h.works,
              increment-fits s.next_sstable_id (omega arith),
              cleared,
              done,
            )
            refl,
        empty,
        λ q.
            ap (λ n. seen (or_else (BTreeMap.get q n) (newest q other))) empty
            ∙ (shows q
                ∙ ap (λ n. seen (or_else (BTreeMap.get q n) (newest q gss))) (all ∙ sym same)),
        kept_open,
        Grows-trans s (moved s es) t gss (gs ∷ gss) other 0 0 1 1 0 0
            (record {
              room = omega (arith, ap weight all, ap weight same, weight_nil);
              ids = omega arith;
              numbers = omega arith;
            })
            grows,
      )

  -- On a working disk, with two more ids that fit a u64 and tables whose files are shorter than
  -- 2^32 bytes, `flush` of an open store succeeds and leaves an open store with an empty memtable,
  -- in which every key reads as before, with no more bytes, the same sequence number and at most
  -- two new ids.
  pub flush-IsOpen :
      (s : Store) (d : Disk) (gss : List (List Group)) (log : List WalEntry)
      → IsOpen s d gss log
      → s.next_sstable_id + 2 < 2 ^ 64
      → Fits s.memtable
      → Fits (compacted (s.memtable ∷ runs gss))
      → (t : Store) × (after : Disk) × (other : List (List Group)) × (rest : List WalEntry) × (flush
            (s, d)
          ≡ (ok tt, (t, after)))
        × (t.memtable ≡ [])
        × ((q : Bytes) → view t other q ≡ view s gss q)
        × IsOpen t after other rest
        × Grows s t gss other 0 2 0
  unfolding flush
  flush-IsOpen s d gss log h fits small merged =
      flush_entries-IsOpen s.memtable s d gss log refl h fits small merged

  pub maybe_flush-IsOpen :
      (s : Store) (d : Disk) (gss : List (List Group)) (log : List WalEntry)
      → IsOpen s d gss log
      → s.next_sstable_id + 2 < 2 ^ 64
      → Fits s.memtable
      → Fits (compacted (s.memtable ∷ runs gss))
      → (t : Store) × (after : Disk) × (other : List (List Group)) × (rest : List WalEntry)
        × (maybe_flush (s, d) ≡ (ok tt, (t, after)))
        × ((q : Bytes) → view t other q ≡ view s gss q)
        × IsOpen t after other rest
        × Grows s t gss other 0 2 0
  unfolding maybe_flush
  maybe_flush-IsOpen s d gss log h fits small merged =
      elim (Bool-cases (leb s.memtable_max_bytes s.memtable_bytes)) [
        | inl full ↦
            let (t, after, other, rest, done, empty, shows, opened, grows) =
              flush-IsOpen s d gss log h fits small merged in
            (t, after, other, rest, rw full done, shows, opened, grows)
        | inr room ↦ (s, d, gss, log, rw room refl, λ q. refl, h, Grows-refl s gss 2)
      ]
