-- ===== src/SsTable/Table/Size.antt =====
-- How long the file of a table is, by the entries that `flush` of ferrumdb-core/src/sstable.rs
-- writes.
use ferrum_db.Base.{
  ℕ, suc, ◌+◌, ◌*◌, ◌/◌, ◌%◌, ◌≤◌, ◌≡◌, refl, ap, ◌∙◌, Option, none, some, List, [], ◌∷◌, ◌++◌,
  length, max, All, arith, length-append, length-replicate,
}
use ferrum_db.Base.Bytes.{Bytes}
use ferrum_db.Base.Words.{u32_bytes, u64_bytes, u32_mod}
use ferrum_db.Proto.{Codec}
use ferrum_db.SsTable.Reader.{crc32}
use ferrum_db.SsTable.Bloom
use ferrum_db.SsTable.Bloom.{BloomFilter, add_all}
use ferrum_db.SsTable.Bloom.Membership.{length-set_bits}
use ferrum_db.SsTable.Record.{encode_record, records, entry_bytes}
use ferrum_db.SsTable.Record.RoundTrip.{length-encode_record}
use ferrum_db.SsTable.Table.Build.{
  build, image, region, footer, index_bytes, range_bytes, bloom_bytes, build_bloom, sealed,
  or_default,
}
use ferrum_db.SsTable.Table.Layout.{Group, concat, first_key, NonEmpty, blocks_file, blocks_index}
use ferrum_db.SsTable.Table.Loop.{build-blocks, build-keys, keys_of, last_key}

-- The bytes of the keys.
unfoldable pub keys_size : Group → ℕ
keys_size [] = 0
keys_size ((k, e) ∷ es) = length k + keys_size es

keys_size-append : (es fs : Group) → keys_size (es ++ fs) ≡ keys_size es + keys_size fs
unfolding keys_size
keys_size-append [] fs = omega arith
keys_size-append ((k, e) ∷ es) fs = omega (arith, keys_size-append es fs)

first_key_le : (es : Group) → length (or_default (first_key es)) ≤ keys_size es
unfolding keys_size
first_key_le [] = omega arith
first_key_le ((k, e) ∷ es) = omega arith

last_key_le :
    (m : Option Bytes) (es : Group)
    → length (or_default (last_key m es)) ≤ length (or_default m) + keys_size es
unfolding keys_size
last_key_le m [] = omega arith
last_key_le m ((k, e) ∷ es) = omega (arith, last_key_le (some k) es)

length-range_bytes_le :
    (least greatest : Option Bytes)
    → length (range_bytes least greatest)
      ≤ 8 + length (or_default least) + length (or_default greatest)
unfolding range_bytes u32_bytes
length-range_bytes_le none none = omega arith
length-range_bytes_le none (some g) = omega arith
length-range_bytes_le (some l) none = omega arith
length-range_bytes_le (some l) (some g) = omega (arith, length-append l (u32_bytes (length g) ++ g))

length-add_all :
    (f : BloomFilter) (keys : List Bytes) → length (add_all f keys).bits ≡ length f.bits
unfolding add_all Bloom.add
length-add_all f [] = refl
length-add_all f (k ∷ keys) =
    length-add_all (Bloom.add f k) keys ∙ length-set_bits f.bits (Bloom.positions f k)

new_le : (n : ℕ) → length (Bloom.new n).bits ≤ 9 + 2 * n
unfolding Bloom.new
new_le n = let bytes = (max (n * 10) 64 + 7) / 8 in omega (arith, length-replicate {A = ℕ} bytes 0)

length-bloom_bytes_le :
    (keys : List Bytes) → length (bloom_bytes (build_bloom keys)) ≤ 17 + 2 * length keys
unfolding bloom_bytes build_bloom u32_bytes
length-bloom_bytes_le [] = omega arith
length-bloom_bytes_le (k ∷ keys) =
    let f = Bloom.new (length (k ∷ keys)) in
    let same = length-add_all f (k ∷ keys) in
    let bits = (add_all f (k ∷ keys)).bits in
    let size : length f.bits ≤ 9 + 2 * length (k ∷ keys) = new_le (length (k ∷ keys)) in
    omega (arith, same, size)

length-keys_of : (es : Group) → length (keys_of es) ≡ length es
length-keys_of [] = refl
length-keys_of (e ∷ es) = ap suc (length-keys_of es)

module _ ⦃c : Codec⦄ where
  -- The bytes of the values.
  unfoldable pub values_size : Group → ℕ
  values_size [] = 0
  values_size ((k, e) ∷ es) = length (entry_bytes e) + values_size es

  values_size-append : (es fs : Group) → values_size (es ++ fs) ≡ values_size es + values_size fs
  unfolding values_size
  values_size-append [] fs = omega arith
  values_size-append ((k, e) ∷ es) fs = omega (arith, values_size-append es fs)

  -- A bound of the bytes that a table needs for the entries.
  unfoldable pub weight : Group → ℕ
  weight es = 40 * length es + 4 * keys_size es + values_size es

  length-records_le :
      (es : Group) → length (records es) ≤ 9 * length es + keys_size es + values_size es
  unfolding records keys_size values_size
  length-records_le [] = omega arith
  length-records_le ((k, e) ∷ es) = omega (
    arith,
    length-append (encode_record k e) (records es),
    length-encode_record k e,
    length-records_le es,
  )

  length-blocks_file_le :
      (gs : List Group)
      → All NonEmpty gs
      → length (blocks_file gs)
        ≤ 13 * length (concat gs) + keys_size (concat gs) + values_size (concat gs)
  unfolding blocks_file sealed u32_bytes
  length-blocks_file_le [] h = omega arith
  length-blocks_file_le (g ∷ gs) (some_entry, h) =
      let block = records g in
      omega (
        arith,
        length-append (sealed block) (blocks_file gs),
        length-append block (u32_bytes (crc32 block)),
        length-records_le g,
        length-blocks_file_le gs h,
        length-append g (concat gs),
        keys_size-append g (concat gs),
        values_size-append g (concat gs),
      )

  length-index_bytes_le :
      (gs : List Group) (offset : ℕ)
      → All NonEmpty gs
      → length (index_bytes (blocks_index offset gs))
        ≤ 16 * length (concat gs) + keys_size (concat gs)
  unfolding index_bytes blocks_index u32_bytes u64_bytes
  length-index_bytes_le [] offset h = omega arith
  length-index_bytes_le (g ∷ gs) offset (some_entry, h) =
      let first = or_default (first_key g) in
      let next = offset + length (sealed (records g)) in
      omega (
        arith,
        length-append first (
            u64_bytes offset
            ++ (u32_bytes (length (sealed (records g)) % u32_mod)
                ++ index_bytes (blocks_index next gs))),
        first_key_le g,
        length-index_bytes_le gs next h,
        length-append g (concat gs),
        keys_size-append g (concat gs),
      )

  -- The file of a table is at most 53 bytes longer than the weight of its entries.
  pub length-image_le : (es : Group) → length (image (build es)) ≤ 53 + weight es
  unfolding image region weight footer u32_bytes u64_bytes
  length-image_le es =
      let b = build es in
      let (gs, v, all) = build-blocks es in
      let (least, greatest, noted) = build-keys es in
      let tail = footer (length b.file) (length (region b)) (length b.index) in
      let range = range_bytes b.min_key b.max_key in
      let bloom = bloom_bytes (build_bloom b.keys) in
      let blocks : length b.file ≤ 13 * length es + keys_size es + values_size es =
        rw v.file (rw all at (length-blocks_file_le gs v.nonempty)) in
      let index : length (index_bytes b.index) ≤ 16 * length es + keys_size es =
        rw v.index (rw all at (length-index_bytes_le gs 0 v.nonempty)) in
      let keys : length b.keys ≡ length es = ap length noted ∙ length-keys_of es in
      let min : length (or_default b.min_key) ≤ keys_size es = rw least (first_key_le es) in
      let max : length (or_default b.max_key) ≤ 0 + keys_size es =
        rw greatest (last_key_le none es) in
      omega (
        arith,
        length-append b.file (region b ++ tail),
        length-append (region b) tail,
        length-append (index_bytes b.index) (range ++ bloom),
        length-append range bloom,
        blocks,
        index,
        keys,
        min,
        max,
        length-range_bytes_le b.min_key b.max_key,
        length-bloom_bytes_le b.keys,
      )
