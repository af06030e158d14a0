-- ===== src/SsTable/Table/Extras.antt =====
-- The key range and the filter that `flush` writes behind the index, as `SsTable::open` reads
-- them back, of ferrumdb-core/src/sstable.rs.
use ferrum_db.Base.{
  ℕ, ◌+◌, ◌^◌, ◌<◌, ◌≡◌, refl, ap, ◌∙◌, sym, Option, none, some, List, [], ◌∷◌, ◌++◌, length, arith,
  length-append, append_assoc, append-nil,
}
use ferrum_db.Base.Bytes.{Bytes}
use ferrum_db.Base.Words.{u32_bytes}
use ferrum_db.Errors.{ok}
use ferrum_db.Proto.{Codec}
use ferrum_db.SsTable.Reader.{read_bytes, read_u32-u32_bytes, read_bytes-append}
use ferrum_db.SsTable.Bloom
use ferrum_db.SsTable.Bloom.{BloomFilter, add, add_all}
use ferrum_db.SsTable.Table.Build.{build, build_bloom, range_bytes, bloom_bytes}
use ferrum_db.SsTable.Table.Parse.{read_extras, parse_extras}
use ferrum_db.SsTable.Table.Layout.{Group, first_key}
use ferrum_db.SsTable.Table.Loop.{keys_of, last_key, build-keys}

add_all-k : (f : BloomFilter) (keys : List Bytes) → (add_all f keys).k ≡ f.k
unfolding add_all add
add_all-k f [] = refl
add_all-k f (key ∷ keys) = add_all-k (add f key) keys

-- What follows the index, for a table with a key.
extras_bytes : Bytes → Bytes → BloomFilter → Bytes
extras_bytes min max f =
    u32_bytes (length min)
    ++ (min
        ++ (u32_bytes (length max)
            ++ (max ++ (u32_bytes f.k ++ (u32_bytes (length f.bits) ++ f.bits)))))

parse_extras-u32 :
    (n : ℕ) (rest : Bytes) → parse_extras (u32_bytes n ++ rest) ≡ read_extras (u32_bytes n ++ rest)
unfolding parse_extras u32_bytes
parse_extras-u32 n rest = refl

read_bytes-all : (bs : Bytes) → read_bytes (length bs) bs ≡ ok (bs, [])
read_bytes-all bs = ap (read_bytes (length bs)) (sym (append-nil bs)) ∙ read_bytes-append bs []

parse_extras_lem :
    (min max : Bytes) (f : BloomFilter)
    → length min < 2 ^ 32
    → length max < 2 ^ 32
    → f.k < 2 ^ 32
    → length f.bits < 2 ^ 32
    → parse_extras (extras_bytes min max f)
      ≡ ok (record { min_key = some min; max_key = some max; bloom = some f })
unfolding read_extras extras_bytes
parse_extras_lem min max f hmin hmax hk hbits =
    parse_extras-u32 (length min) _
    ∙ rw (
      read_u32-u32_bytes (length min) _ hmin,
      read_bytes-append min _,
      read_u32-u32_bytes (length max) _ hmax,
      read_bytes-append max _,
      read_u32-u32_bytes f.k _ hk,
      read_u32-u32_bytes (length f.bits) _ hbits,
      read_bytes-all f.bits,
    )

last_key-some : (k : Bytes) (es : Group) → (m : Bytes) × (last_key (some k) es ≡ some m)
last_key-some k [] = (k, refl)
last_key-some k ((j, e) ∷ es) = last_key-some j es

-- What follows the index in the region.
unfoldable pub rest_bytes : Option Bytes → Option Bytes → Option BloomFilter → Bytes
rest_bytes min max f = range_bytes min max ++ bloom_bytes f

rest_bytes-extras :
    (min max : Bytes) (f : BloomFilter)
    → rest_bytes (some min) (some max) (some f) ≡ extras_bytes min max f
unfolding rest_bytes range_bytes bloom_bytes extras_bytes
rest_bytes-extras min max f = simp append_assoc

length-extras_bytes :
    (min max : Bytes) (f : BloomFilter)
    → length (extras_bytes min max f) ≡ 16 + (length min + (length max + length f.bits))
unfolding extras_bytes u32_bytes
length-extras_bytes min max f =
    let words = u32_bytes f.k ++ (u32_bytes (length f.bits) ++ f.bits) in
    omega
      (arith, length-append min (u32_bytes (length max) ++ (max ++ words)), length-append max words)

new_bloom-k :
    (key : Bytes) (keys : List Bytes)
    → (add_all (Bloom.new (length (key ∷ keys))) (key ∷ keys)).k ≡ 7
new_bloom-k key keys =
    add_all-k (Bloom.new (length (key ∷ keys))) (key ∷ keys) ∙ unfold Bloom.new in refl

parse_rest_filled :
    (min max : Bytes) (f : BloomFilter)
    → f.k ≡ 7
    → length (rest_bytes (some min) (some max) (some f)) < 2 ^ 32
    → parse_extras (rest_bytes (some min) (some max) (some f))
      ≡ ok (record { min_key = some min; max_key = some max; bloom = some f })
parse_rest_filled min max f k small =
    let size = ap length (rest_bytes-extras min max f) ∙ length-extras_bytes min max f in
    rw (rest_bytes-extras min max f) (
      parse_extras_lem min max f (omega (arith, size)) (omega (arith, size)) (omega arith)
        (omega (arith, size)))

parse_extras-none :
    parse_extras (rest_bytes none none none)
    ≡ ok (record { min_key = none; max_key = none; bloom = none })
unfolding rest_bytes range_bytes bloom_bytes parse_extras
parse_extras-none = refl

parse_rest-keys :
    (es : Group)
    → length (rest_bytes (first_key es) (last_key none es) (build_bloom (keys_of es))) < 2 ^ 32
    → parse_extras (rest_bytes (first_key es) (last_key none es) (build_bloom (keys_of es)))
      ≡ ok (record {
        min_key = first_key es;
        max_key = last_key none es;
        bloom = build_bloom (keys_of es);
      })
unfolding build_bloom
parse_rest-keys [] small = parse_extras-none
parse_rest-keys ((k, e) ∷ es) small =
    let (m, last) = last_key-some k es in
    let keys = k ∷ keys_of es in
    let f = add_all (Bloom.new (length keys)) keys in
    rw last (parse_rest_filled k m f (new_bloom-k k (keys_of es)) (rw last at small))

module _ ⦃c : Codec⦄ where
  pub parse_rest :
      (es : Group)
      → let b = build es in
        length (rest_bytes b.min_key b.max_key (build_bloom b.keys)) < 2 ^ 32
        → parse_extras (rest_bytes b.min_key b.max_key (build_bloom b.keys))
          ≡ ok (record { min_key = b.min_key; max_key = b.max_key; bloom = build_bloom b.keys })
  parse_rest es small =
      let (least, greatest, noted) = build-keys es in
      rw (least, greatest, noted) (parse_rest-keys es (rw (least, greatest, noted) at small))
