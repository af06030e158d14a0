-- ===== src/SsTable/Table/Cached.antt =====
-- `cached_block`: the bytes of a block, whether they come from the cache or from the file.
use ferrum_db.Base.{
  ℕ, zero, suc, ◌+◌, ◌^◌, ◌≤◌, ◌<◌, ◌≡◌, refl, ap, ◌∙◌, sym, some, List, [], ◌∷◌, ◌++◌, length,
  get_elem?, arith, inl, inr, Option-cases,
}
use ferrum_db.Base.Bytes.{Bytes}
use ferrum_db.BTreeMap
use ferrum_db.Errors.{ok}
use ferrum_db.Proto.{Codec}
use ferrum_db.Disk.{Disk}
use ferrum_db.Disk.Healthy.{open_existing-healthy}
use ferrum_db.SsTable.Cache
use ferrum_db.SsTable.Cache.{BlockCache, find}
use ferrum_db.SsTable.Cache.Valid.{get_lem, get_miss, get_hit, find-put_either}
use ferrum_db.SsTable.Record.{records}
use ferrum_db.SsTable.Table.{IndexEntry, SsTable}
use ferrum_db.SsTable.Table.Build.{sealed}
use ferrum_db.SsTable.Table.Read.{cached_block, from_cache, read_and_keep, keep_block}
use ferrum_db.SsTable.Table.Layout.{Group, blocks_index, index_entry}
use ferrum_db.SsTable.Table.Blocks.{length-sealed, read_block_from_disk_lem}

module _ ⦃c : Codec⦄ where
  offset-le :
      (gs : List Group) (offset j : ℕ) (e : IndexEntry)
      → get_elem? (blocks_index offset gs) j ≡ some e
      → offset ≤ e.block_offset
  unfolding blocks_index
  offset-le [] offset j e h = cc
  offset-le (g ∷ gs) offset zero e h =
      let same : offset ≡ e.block_offset = ground arith in omega arith
  offset-le (g ∷ gs) offset (suc j) e h =
      omega (arith, offset-le gs (offset + length (sealed (records g))) j e h)

  -- No two blocks start at the same offset.
  offset_injective :
      (gs : List Group) (offset i j : ℕ) (e f : IndexEntry)
      → get_elem? (blocks_index offset gs) i ≡ some e
      → get_elem? (blocks_index offset gs) j ≡ some f
      → e.block_offset ≡ f.block_offset
      → i ≡ j
  unfolding blocks_index
  offset_injective [] offset i j e f p q same = cc
  offset_injective (g ∷ gs) offset zero zero e f p q same = refl
  offset_injective (g ∷ gs) offset zero (suc j) e f p q same =
      let at : offset ≡ e.block_offset = ground arith in
      absurd (
        omega (
          arith,
          offset-le gs (offset + length (sealed (records g))) j f q,
          length-sealed (records g),
        ))
  offset_injective (g ∷ gs) offset (suc i) zero e f p q same =
      let at : offset ≡ f.block_offset = ground arith in
      absurd (
        omega (
          arith,
          offset-le gs (offset + length (sealed (records g))) i e p,
          length-sealed (records g),
        ))
  offset_injective (g ∷ gs) offset (suc i) (suc j) e f p q same =
      ap suc (offset_injective gs (offset + length (sealed (records g))) i j e f p q same)

  -- What the cache holds under a block's offset is that block's records.
  abbrev pub IsCoherent : List Group → BlockCache → Type 0
  IsCoherent gs cache =
      (j : ℕ) (g : Group) (e : IndexEntry) (b : Bytes)
      → get_elem? gs j ≡ some g
      → get_elem? (blocks_index 0 gs) j ≡ some e
      → find e.block_offset cache.blocks ≡ some b
      → b ≡ records g

  put-IsCoherent :
      (gs : List Group) (cache : BlockCache) (i : ℕ) (h : Group) (f : IndexEntry)
      → IsCoherent gs cache
      → get_elem? gs i ≡ some h
      → get_elem? (blocks_index 0 gs) i ≡ some f
      → IsCoherent gs (Cache.put f.block_offset (records h) cache)
  put-IsCoherent gs cache i h f coherent at_i entry_i j g e b at_j entry_j hit =
      elim (find-put_either e.block_offset f.block_offset (records h) b cache hit) [
        | inl (same, new) ↦
            let i_eq : j ≡ i = offset_injective gs 0 j i e f entry_j entry_i same in
            let group : some g ≡ some h = sym at_j ∙ (ap (get_elem? gs) i_eq ∙ at_i) in
            let equal : g ≡ h = cc in new ∙ ap records (sym equal)
        | inr old ↦ coherent j g e b at_j entry_j old
      ]

  -- On a working disk, with a coherent cache and a file that holds the sealed records of a block at
  -- the offset of its index entry, `cached_block` answers these records whether they come from the
  -- cache or the file, and leaves all but a coherent cache as it was. The sealed block is shorter
  -- than 2^32 bytes.
  pub cached_block_lem :
      (t : SsTable) (d : Disk) (gs : List Group) (j : ℕ) (g : Group) (pre post : Bytes)
      → d.faults ≡ []
      → BTreeMap.get t.path d.files ≡ some (pre ++ (sealed (records g) ++ post))
      → length (sealed (records g)) < 2 ^ 32
      → IsCoherent gs t.cache
      → get_elem? gs j ≡ some g
      → get_elem? (blocks_index 0 gs) j ≡ some (index_entry (length pre) g)
      → (cache : BlockCache) × (cached_block (index_entry (length pre) g) (t, d)
          ≡ (ok (records g), (record t { cache = cache }, d)))
        × IsCoherent gs cache
  unfolding cached_block from_cache read_and_keep keep_block
  cached_block_lem t d gs j g pre post healthy stored fits coherent at_j entry =
      let o = length pre in
      elim (Option-cases (find o t.cache.blocks)) [
        | inl miss ↦ (
          Cache.put o (records g) t.cache,
          rw (
            get_miss o t.cache miss,
            open_existing-healthy t.path d healthy (pre ++ (sealed (records g) ++ post)) stored,
            read_block_from_disk_lem t.path d pre post g healthy stored fits,
          ),
          put-IsCoherent gs t.cache j g (index_entry o g) coherent at_j entry,
        )
        | inr (b, hit) ↦ (
          (Cache.get o t.cache).1,
          rw (get_hit o t.cache b hit, coherent j g (index_entry o g) b at_j entry hit),
          λ i h e x at_i entry_i found.
              coherent i h e x at_i entry_i (rw ((get_lem o t.cache).1) at found),
        )
      ]
