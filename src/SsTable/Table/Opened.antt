-- ===== src/SsTable/Table/Opened.antt =====
-- `SsTable::open` of ferrumdb-core/src/sstable.rs on a file that `flush` wrote: the opened table is
-- the one that `flush` returned.
use ferrum_db.Base.{
  ℕ, ◌+◌, ◌-◌, ◌^◌, ◌≤◌, ◌<◌, ◌≡◌, refl, ap, ◌∙◌, sym, some, [], ◌++◌, length, take, drop, arith,
  length-append, append_assoc, take-append, drop-append, take_all, ltb, le→ltb, false, All,
}
use ferrum_db.Base.Bytes.{Bytes}
use ferrum_db.Base.Words.{u32_bytes, u64_bytes}
use ferrum_db.BTreeMap
use ferrum_db.Errors.{ok}
use ferrum_db.Proto.{Codec}
use ferrum_db.Disk.{Disk, put_file}
use ferrum_db.Disk.Healthy.{
  open_existing-healthy, file_len-healthy, seek-healthy, read_exact-healthy,
}
use ferrum_db.SsTable.Table.Build.{
  build, built, build_bloom, image, region, footer, index_bytes, range_bytes, bloom_bytes, flush,
}
use ferrum_db.SsTable.Table.Parse.{Footer}
use ferrum_db.SsTable.Table.Read.{opened, load_index, open_table}
use ferrum_db.SsTable.Table.Layout.{Group}
use ferrum_db.SsTable.Table.Loop.{build-blocks}
use ferrum_db.SsTable.Table.Footer.{
  IsWritten, parse_footer-footer, parse_index_lem, length-index_le, index-IsWritten,
}
use ferrum_db.SsTable.Table.Extras.{rest_bytes, parse_rest}
use ferrum_db.SsTable.Table.Flushed.{flushed, flush_lem}
use ferrum_db.BTreeMap.Lookup

module _ ⦃c : Codec⦄ where
  build-IsWritten :
      (es : Group) → length (image (build es)) < 2 ^ 32 → All IsWritten (build es).index
  unfolding image region
  build-IsWritten es small =
      let b = build es in
      let (gs, v, all) = build-blocks es in
      let tail = footer (length b.file) (length (region b)) (length b.index) in
      let rest = range_bytes b.min_key b.max_key ++ bloom_bytes (build_bloom b.keys) in
      let whole = length-append b.file (region b ++ tail) in
      let middle = length-append (region b) tail in
      let inside = length-append (index_bytes b.index) rest in
      rw v.index (
        index-IsWritten gs 0 (omega (arith, whole, ap length v.file))
          (omega (arith, whole, middle, inside, ap (λ i. length (index_bytes i)) v.index)))

  module _ (path : Bytes) (es : Group) (d : Disk) (healthy : d.faults ≡ [])
      (found : BTreeMap.get path d.files ≡ some (image (build es)))
      (small : length (image (build es)) < 2 ^ 32) where
    build_fields : Footer
    build_fields =
        let b = build es in
        record {
          index_offset = length b.file;
          index_len = length (region b);
          entry_count = length b.index;
        }

    length-footer : (a n k : ℕ) → length (footer a n k) ≡ 28
    unfolding footer u32_bytes u64_bytes
    length-footer a n k = refl

    length-image :
        length (image (build es)) ≡ length (build es).file + (length (region (build es)) + 28)
    unfolding image
    length-image =
        let b = build es in
        let tail = footer (length b.file) (length (region b)) (length b.index) in
        omega (
          arith,
          length-append b.file (region b ++ tail),
          length-append (region b) tail,
          length-footer (length b.file) (length (region b)) (length b.index),
        )

    length-index_region : length (build es).index ≤ length (region (build es))
    unfolding region
    length-index_region =
        let b = build es in
        let rest = range_bytes b.min_key b.max_key ++ bloom_bytes (build_bloom b.keys) in
        omega (arith, length-index_le b.index, length-append (index_bytes b.index) rest)

    image-region :
        take (length (region (build es))) (drop (length (build es).file) (image (build es)))
        ≡ region (build es)
    unfolding image
    image-region =
        let b = build es in
        let tail = footer (length b.file) (length (region b)) (length b.index) in
        rw (drop-append b.file (region b ++ tail) (length b.file) refl)
          (take-append (region b) tail (length (region b)) refl)

    image-footer :
        take 28 (drop (length (image (build es)) - 28) (image (build es)))
        ≡ footer (length (build es).file) (length (region (build es))) (length (build es).index)
    unfolding image
    image-footer =
        let b = build es in
        let tail = footer (length b.file) (length (region b)) (length b.index) in
        let size = length-append b.file (region b) in
        let assoc = append_assoc b.file (region b) tail in
        let at : length (image b) - 28 ≡ length (b.file ++ region b) =
          omega (arith, length-image, size) in
        ap (λ f. take 28 (drop (length (image b) - 28) f)) (sym assoc)
        ∙ rw (drop-append (b.file ++ region b) tail (length (image b) - 28) at) (
            take_all tail 28
              (omega (arith, length-footer (length b.file) (length (region b)) (length b.index))))

    region-parts :
        region (build es)
        ≡ index_bytes (build es).index
          ++ rest_bytes (build es).min_key (build es).max_key (build_bloom (build es).keys)
    unfolding region rest_bytes
    region-parts = refl

    load_index_lem : load_index path build_fields d ≡ (ok (built path (build es)), d)
    unfolding load_index build_fields opened built
    load_index_lem =
        let b = build es in
        let file = image b in
        let inside : length b.file + length (region b) ≤ length file =
          omega (arith, length-image) in
        let rest = rest_bytes b.min_key b.max_key (build_bloom b.keys) in
        let short : length rest < 2 ^ 32 = omega (
          arith,
          small,
          length-image,
          ap length region-parts,
          length-append (index_bytes b.index) rest,
        ) in
        rw (
          seek-healthy path d healthy (length b.file),
          read_exact-healthy path d healthy file found (length b.file) (length (region b)) inside,
          image-region,
          region-parts,
          parse_index_lem b.index rest (build-IsWritten es small),
          parse_rest es short,
        )

    -- Opening the file that holds what `flush` writes gives the table that `flush` returns, and
    -- leaves the disk as it is.
    pub open_table-image : open_table path d ≡ (ok (built path (build es)), d)
    unfolding open_table build_fields
    open_table-image =
        let b = build es in
        let file = image b in
        let enough : ltb (length file) 28 ≡ false =
          le→ltb (length file) 28 (omega (arith, length-image)) in
        let inside : length file - 28 + 28 ≤ length file = omega (arith, length-image) in
        rw
          (
            open_existing-healthy path d healthy file found,
            file_len-healthy path d healthy file found,
            enough,
            seek-healthy path d healthy (length file - 28),
            read_exact-healthy path d healthy file found (length file - 28) 28 inside,
            image-footer,
            parse_footer-footer (length b.file) (length (region b)) (length b.index)
                (omega (arith, length-image, small)) (omega (arith, length-image, small))
                (omega (arith, length-image, small, length-index_region)),
          )
          (load_index_lem)

  -- On a working disk, opening the path that `SsTable::flush` has just written, to a file shorter
  -- than 2^32 bytes, gives the table and the disk that the flush gave.
  pub open_table-flush :
      (dir path : Bytes) (es : Group) (d : Disk)
      → d.faults ≡ []
      → length (image (build es)) < 2 ^ 32
      → open_table path (flush dir path es d).1 ≡ flush dir path es d
  open_table-flush dir path es d healthy small =
      let after = flushed dir path es d in
      let there =
        Lookup.get-insert_self path (image (build es))
          (put_file path [] (record d { dirs = BTreeMap.insert dir tt d.dirs })).files in
      rw (flush_lem dir path es d healthy) (open_table-image path es after healthy there small)
