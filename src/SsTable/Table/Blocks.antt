-- ===== src/SsTable/Table/Blocks.antt =====
-- Blocks read back from the file, and the block that the sparse index names for a key.
use ferrum_db.Base.{
  ℕ, zero, suc, ◌+◌, ◌-◌, ◌%◌, ◌^◌, ◌≤◌, ◌<◌, ◌≡◌, ◌≢◌, refl, ap, ◌∙◌, sym, Option, none, some,
  List, [], ◌∷◌, ◌++◌, length, get_elem?, All, All-left, All-right, arith, append_assoc,
  length-append, take-append, drop-append, ◌⊎◌, inl, inr, Ordering-cases,
}
use ferrum_db.Base.Bytes.{Bytes, cmp, lt_of_gt}
use ferrum_db.Base.Words.{u32_bytes, length-u32_bytes, from_be-u32_bytes}
use ferrum_db.BTreeMap
use ferrum_db.BTreeMap.{IsSorted}
use ferrum_db.BTreeMap.Lookup.{get-append, or_else}
use ferrum_db.BTreeMap.Order.{IsSorted-right, get-left_none, get-first, get-first_below}
use ferrum_db.Errors.{ok}
use ferrum_db.Proto.{Codec}
use ferrum_db.Value.{Entry}
use ferrum_db.Disk.{Disk}
use ferrum_db.Disk.Healthy.{seek-healthy, read_exact-healthy}
use ferrum_db.SsTable.Reader.{crc32, crc32-lt}
use ferrum_db.SsTable.Record.{records, IsRecord}
use ferrum_db.SsTable.Record.RoundTrip.{decode_loop-records}
use ferrum_db.SsTable.Table.{IndexEntry}
use ferrum_db.SsTable.Table.Build.{sealed}
use ferrum_db.SsTable.Table.Parse.{Position, found, insert_at, binary_search, block_at}
use ferrum_db.SsTable.Table.Read.{check_block, read_block_from_disk, read_blocks}
use ferrum_db.SsTable.Table.Layout.{Group, concat, NonEmpty, blocks_file, blocks_index, index_entry}
use Prim.Native.Nat.Ordering.{lt, eq, gt}

pub length-sealed : (block : Bytes) → length (sealed block) ≡ length block + 4
unfolding sealed
length-sealed block =
    omega (arith, length-append block (u32_bytes (crc32 block)), length-u32_bytes (crc32 block))

-- The CRC check passes on a sealed block, and gives back the records.
check_block-sealed : (offset : ℕ) (block : Bytes) → check_block offset (sealed block) ≡ ok block
unfolding check_block sealed
check_block-sealed offset block =
    let crc = crc32 block in
    let size : length (block ++ u32_bytes crc) - 4 ≡ length block =
      omega (arith, length-append block (u32_bytes crc), length-u32_bytes crc) in
    ground (
      arith,
      size,
      length-append block (u32_bytes crc),
      length-u32_bytes crc,
      take-append block (u32_bytes crc) (length (block ++ u32_bytes crc) - 4),
      drop-append block (u32_bytes crc) (length (block ++ u32_bytes crc) - 4),
      from_be-u32_bytes crc (crc32-lt block),
    )

or_none : (o : Option Entry) → or_else o none ≡ o
or_none none = refl
or_none (some e) = refl

module _ ⦃c : Codec⦄ where
  -- A block that stands in the file at its offset is read back.
  pub read_block_from_disk_lem :
      (path : Bytes) (d : Disk) (pre post : Bytes) (g : Group)
      → d.faults ≡ []
      → BTreeMap.get path d.files ≡ some (pre ++ (sealed (records g) ++ post))
      → length (sealed (records g)) < 2 ^ 32
      → read_block_from_disk path (index_entry (length pre) g) d ≡ (ok (records g), d)
  unfolding read_block_from_disk
  read_block_from_disk_lem path d pre post g healthy stored fits =
      let block = sealed (records g) in
      let file = pre ++ (block ++ post) in
      let len : length block % 2 ^ 32 ≡ length block = omega arith in
      let inside : length pre + length block ≤ length file =
        omega (arith, length-append pre (block ++ post), length-append block post) in
      rw (
        len,
        seek-healthy path d healthy (length pre),
        read_exact-healthy path d healthy file stored (length pre) (length block) inside,
        drop-append pre (block ++ post) (length pre) refl,
        take-append block post (length block) refl,
        check_block-sealed (length pre) (records g),
      )

  -- All blocks in turn give back all entries.
  pub read_blocks_lem :
      (gs : List Group) (path : Bytes) (d : Disk) (pre post : Bytes)
      → d.faults ≡ []
      → BTreeMap.get path d.files ≡ some (pre ++ (blocks_file gs ++ post))
      → length (blocks_file gs) < 2 ^ 32
      → All IsRecord (concat gs)
      → read_blocks path (blocks_index (length pre) gs) d ≡ (ok (concat gs), d)
  unfolding read_blocks blocks_index blocks_file
  read_blocks_lem [] path d pre post healthy stored fits valid = refl
  read_blocks_lem (g ∷ gs) path d pre post healthy stored fits valid =
      let block = sealed (records g) in
      let here = rw (append_assoc block (blocks_file gs) post) at stored in
      let size = length-append block (blocks_file gs) in
      let after = here ∙ ap some (sym (append_assoc pre block (blocks_file gs ++ post))) in
      let next = rw (length-append pre block) at (
        read_blocks_lem gs path d (pre ++ block) post healthy after (omega (arith, size))
          (All-right IsRecord g (concat gs) valid)) in
      rw (
        read_block_from_disk_lem path d pre (blocks_file gs ++ post) g healthy here
            (omega (arith, size)),
        decode_loop-records g (length (records g)) (All-left IsRecord g (concat gs) valid)
            (omega arith),
        next,
      )

  -- The block at a position, with what stands before and behind it in the file.
  pub block_position :
      (gs : List Group) (j : ℕ) (g : Group) (offset : ℕ)
      → get_elem? gs j ≡ some g
      → (pre : Bytes) × (post : Bytes) × (get_elem? (blocks_index offset gs) j
          ≡ some (index_entry (offset + length pre) g))
        × (blocks_file gs ≡ pre ++ (sealed (records g) ++ post))
  unfolding blocks_index blocks_file
  block_position [] j g offset h = cc
  block_position (h ∷ gs) zero g offset e =
      let same : h ≡ g = cc in
      let zero_off : offset + 0 ≡ offset = omega arith in
      ([], blocks_file gs, rw (zero_off, same), rw same)
  block_position (h ∷ gs) (suc j) g offset e =
      let block = sealed (records h) in
      let (pre, post, entry, file) = block_position gs j g (offset + length block) e in
      let moved : offset + length block + length pre ≡ offset + length (block ++ pre) =
        omega (arith, length-append block pre) in
      (
        block ++ pre,
        post,
        rw moved at entry,
        rw (file, append_assoc block pre (sealed (records g) ++ post)),
      )

  -- `q` is at or above the first key of the first block.
  abbrev pub FirstLe : Bytes → List Group → Type 0
  FirstLe q [] = ⊥
  FirstLe q ([] ∷ gs) = ⊥
  FirstLe q (((k, e) ∷ g) ∷ gs) = cmp k q ≢ gt

  -- Where the search of the blocks from number `i` on ends: in front of them all, where the key is
  -- in none, or at the only one of them that can hold it.
  abbrev pub IsLocated : Bytes → List Group → ℕ → Position → Type 0
  IsLocated q gs i pos =
      ((pos ≡ insert_at i) × (BTreeMap.get q (concat gs) ≡ none))
      ⊎ ((j : ℕ) × (g : Group) × (block_at pos ≡ some (i + j))
          × (get_elem? gs j ≡ some g)
          × (BTreeMap.get q (concat gs) ≡ BTreeMap.get q g)
          × FirstLe q gs)

  module _ (q : Bytes) (e : IndexEntry) (es : List IndexEntry) (i : ℕ) where
    binary_search-lt :
        cmp e.first_key q ≡ lt → binary_search q (e ∷ es) i ≡ binary_search q es (suc i)
    unfolding binary_search
    binary_search-lt h = rw (h, binary_search)

    binary_search-eq : cmp e.first_key q ≡ eq → binary_search q (e ∷ es) i ≡ found i
    unfolding binary_search
    binary_search-eq h = rw (h, binary_search)

    binary_search-gt : cmp e.first_key q ≡ gt → binary_search q (e ∷ es) i ≡ insert_at i
    unfolding binary_search
    binary_search-gt h = rw (h, binary_search)

  left_none :
      (q : Bytes) (g : Group) (gs : List Group)
      → IsSorted (g ++ concat gs)
      → FirstLe q gs
      → BTreeMap.get q g ≡ none
  left_none q g [] s h = elim h [ ]
  left_none q g ([] ∷ gs) s h = elim h [ ]
  left_none q g (((k, e) ∷ h) ∷ gs) s le = get-left_none q k e g (h ++ concat gs) s le

  -- The search goes on past a first block whose key is below `q`.
  step_below :
      (k : Bytes) (e : Entry) (g : Group) (gs : List Group) (q : Bytes) (i : ℕ) (pos : Position)
      → cmp k q ≡ lt
      → IsSorted (concat (((k, e) ∷ g) ∷ gs))
      → IsLocated q gs (suc i) pos
      → IsLocated q (((k, e) ∷ g) ∷ gs) i pos
  step_below k e g gs q i pos below s (inl (at_end, absent)) =
      let zero_off : i + 0 ≡ i = omega arith in
      inr (
        0,
        (k, e) ∷ g,
        rw (at_end, zero_off) (unfold block_at in refl),
        refl,
        get-append q ((k, e) ∷ g) (concat gs) ∙ rw absent (or_none (BTreeMap.get q ((k, e) ∷ g))),
        rw below (λ p. cc),
      )
  step_below k e g gs q i pos below s (inr (j, h, at, here, same, le)) =
      let moved : suc i + j ≡ i + suc j = omega arith in
      inr (
        suc j,
        h,
        rw moved at at,
        here,
        get-append q ((k, e) ∷ g) (concat gs) ∙ rw (left_none q ((k, e) ∷ g) gs s le) same,
        rw below (λ p. cc),
      )

  pub binary_search-IsLocated :
      (gs : List Group) (q : Bytes) (i offset : ℕ)
      → All NonEmpty gs
      → IsSorted (concat gs)
      → IsLocated q gs i (binary_search q (blocks_index offset gs) i)
  unfolding blocks_index
  binary_search-IsLocated [] q i offset ne s =
      inl (unfold binary_search in refl, unfold BTreeMap.get in refl)
  binary_search-IsLocated ([] ∷ gs) q i offset ne s = absurd (omega arith)
  binary_search-IsLocated (((k, e) ∷ g) ∷ gs) q i offset ne s =
      let entry = index_entry offset ((k, e) ∷ g) in
      let after = offset + length (sealed (records ((k, e) ∷ g))) in
      let es = blocks_index after gs in
      let zero_off : i + 0 ≡ i = omega arith in
      elim (Ordering-cases (cmp k q)) [
        | inl below ↦ rw (binary_search-lt q entry es i below) (
            step_below k e g gs q i (binary_search q es (suc i)) below s (
              binary_search-IsLocated gs q (suc i) after ne.1
                (IsSorted-right ((k, e) ∷ g) (concat gs) s)))
        | inr (inl same) ↦ rw (binary_search-eq q entry es i same) (
            inr (
              0,
              (k, e) ∷ g,
              rw zero_off (unfold block_at in refl),
              refl,
              get-first q k e (g ++ concat gs) same ∙ sym (get-first q k e g same),
              rw same (λ p. cc),
            ))
        | inr (inr above) ↦
            rw (binary_search-gt q entry es i above)
              (inl (refl, get-first_below q k e (g ++ concat gs) (lt_of_gt k q above) s.0))
      ]
