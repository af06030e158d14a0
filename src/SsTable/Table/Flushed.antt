-- ===== src/SsTable/Table/Flushed.antt =====
-- What `flush` leaves on a working disk, and that the table it returns holds its entries.
use ferrum_db.Base.{
  ℕ, ◌^◌, ◌<◌, ◌≡◌, ap, ◌∙◌, some, List, [], ◌∷◌, ◌++◌, length, All, arith, length-append,
}
use ferrum_db.Base.Bytes.{Bytes}
use ferrum_db.BTreeMap
use ferrum_db.BTreeMap.{IsSorted}
use ferrum_db.BTreeMap.Lookup
use ferrum_db.Errors.{ok}
use ferrum_db.Proto.{Codec}
use ferrum_db.Disk.{Disk, put_file}
use ferrum_db.Disk.Healthy.{
  create_dir_all-healthy, create_truncate-healthy, write_all-healthy, sync_all-healthy,
}
use ferrum_db.SsTable.Bloom
use ferrum_db.SsTable.Bloom.Membership.{add_all-IsFilter, new-IsFilter, add_all-Admits}
use ferrum_db.SsTable.Cache
use ferrum_db.SsTable.Record.{IsRecord}
use ferrum_db.SsTable.Table.{SsTable}
use ferrum_db.SsTable.Table.Build.{
  build, built, build_bloom, image, region, footer, flush, block_cache_cap,
}
use ferrum_db.SsTable.Table.Layout.{Group, concat}
use ferrum_db.SsTable.Table.Loop.{keys_of, build-blocks, build-keys}
use ferrum_db.SsTable.Table.Cached.{IsCoherent}
use ferrum_db.SsTable.Table.Lookup.{FilterHolds, Holds}

module _ ⦃c : Codec⦄ where
  build_bloom-holds : (es : Group) → FilterHolds (build_bloom (keys_of es)) es
  unfolding build_bloom
  build_bloom-holds [] = tt
  build_bloom-holds ((k, e) ∷ es) =
      let keys = k ∷ keys_of es in
      let v = new-IsFilter (length keys) in
      (
        add_all-IsFilter (Bloom.new (length keys)) keys v,
        add_all-Admits (Bloom.new (length keys)) keys v,
      )

  new-IsCoherent : (gs : List Group) (cap : ℕ) → IsCoherent gs (Cache.new cap)
  unfolding Cache.new Cache.find
  new-IsCoherent gs cap j g e b at_j entry hit = cc

  -- The table that `built` describes holds the entries, where its image is the file.
  pub Holds-built :
      (path : Bytes) (es : Group) (d : Disk)
      → IsSorted es
      → All IsRecord es
      → length (image (build es)) < 2 ^ 32
      → BTreeMap.get path d.files ≡ some (image (build es))
      → (gs : List Group) × Holds (built path (build es)) d gs × (concat gs ≡ es)
  unfolding image built
  Holds-built path es d sorted valid small stored =
      let b = build es in
      let (gs, v, all) = build-blocks es in
      let (least, greatest, noted) = build-keys es in
      let rest = region b ++ footer (length b.file) (length (region b)) (length b.index) in
      (
        gs,
        record {
          tail = rest;
          nonempty = v.nonempty;
          sorted = rw all sorted;
          valid = rw all valid;
          stored = stored ∙ ap (λ f. some (f ++ rest)) v.file;
          fits = omega (arith, small, length-append b.file rest, ap length v.file);
          index = v.index;
          least = rw all least;
          greatest = rw all greatest;
          filter = rw (all, noted) (build_bloom-holds es);
          coherent = new-IsCoherent gs block_cache_cap;
        },
        all,
      )

  -- The disk after a flush.
  abbrev pub flushed : Bytes → Bytes → Group → Disk → Disk
  flushed dir path es d =
      put_file path (image (build es))
        (put_file path [] (record d { dirs = BTreeMap.insert dir tt d.dirs }))

  pub flush_lem :
      (dir path : Bytes) (es : Group) (d : Disk)
      → d.faults ≡ []
      → flush dir path es d ≡ (ok (built path (build es)), flushed dir path es d)
  unfolding flush
  flush_lem dir path es d healthy =
      let made : Disk = record d { dirs = BTreeMap.insert dir tt d.dirs } in
      let empty : Disk = put_file path [] made in
      let there = Lookup.get-insert_self path [] made.files in
      rw (
        create_dir_all-healthy dir d healthy,
        create_truncate-healthy path made healthy,
        write_all-healthy path empty healthy [] there (image (build es)),
        sync_all-healthy path (put_file path (image (build es)) empty) healthy,
      )

  -- On a working disk, `SsTable::flush` of sorted entries whose lengths fit a u32, with a file
  -- shorter than 2^32 bytes, succeeds and returns a table that holds exactly these entries on the
  -- disk that has the file.
  pub flush-Holds :
      (dir path : Bytes) (es : Group) (d : Disk)
      → d.faults ≡ []
      → IsSorted es
      → All IsRecord es
      → length (image (build es)) < 2 ^ 32
      → (t : SsTable) × (gs : List Group) × (flush dir path es d ≡ (ok t, flushed dir path es d))
        × Holds t (flushed dir path es d) gs
        × (concat gs ≡ es)
  flush-Holds dir path es d healthy sorted valid small =
      let after = flushed dir path es d in
      let there =
        Lookup.get-insert_self path (image (build es))
          (put_file path [] (record d { dirs = BTreeMap.insert dir tt d.dirs })).files in
      let (gs, holds, all) = Holds-built path es after sorted valid small there in
      (built path (build es), gs, flush_lem dir path es d healthy, holds, all)
