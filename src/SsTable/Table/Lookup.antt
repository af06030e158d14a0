-- ===== src/SsTable/Table/Lookup.antt =====
-- A table on disk that holds a sorted run of entries: what `get` and `read_all_entries` answer.
use ferrum_db.Base.{
  ℕ, zero, suc, ◌+◌, ◌^◌, ◌<◌, ◌≡◌, refl, ap, ap₂, ==_iff, ◌∙◌, sym, true, false, Option, none,
  some, List, [], ◌∷◌, ◌++◌, length, get_elem?, All, All-left, All-right, subst, arith, ◌⊎◌, inl,
  inr, Option-cases, Bool-cases, length-append, append_assoc, ◌==◌,
}
use ferrum_db.Base.Bytes.{Bytes}
use ferrum_db.BTreeMap
use ferrum_db.BTreeMap.{IsSorted}
use ferrum_db.BTreeMap.Order.{IsSorted-left, IsSorted-right}
use ferrum_db.Errors.{Result, ok}
use ferrum_db.Proto.{Codec}
use ferrum_db.Value.{Entry}
use ferrum_db.Disk.{Disk}
use ferrum_db.Disk.Healthy.{open_existing-healthy}
use ferrum_db.SsTable.Bloom.{BloomFilter}
use ferrum_db.SsTable.Bloom.Membership.{Admits, IsFilter, maybe_contains-total}
use ferrum_db.SsTable.Cache.{BlockCache}
use ferrum_db.SsTable.Record.{records, IsRecord}
use ferrum_db.SsTable.Record.Search.{find_in_block-records}
use ferrum_db.SsTable.Table.{SsTable}
use ferrum_db.SsTable.Table.Build.{sealed}
use ferrum_db.SsTable.Table.Parse.{binary_search, block_at, locate, outside, admitted}
use ferrum_db.SsTable.Table.Read.{search_block, search_index, get, read_blocks, read_all_entries}
use ferrum_db.SsTable.Table.Layout.{
  Group, concat, first_key, NonEmpty, blocks_file, blocks_index, index_entry,
}
use ferrum_db.SsTable.Table.Loop.{keys_of, last_key}
use ferrum_db.SsTable.Table.Blocks.{block_position, binary_search-IsLocated, read_blocks_lem}
use ferrum_db.SsTable.Table.Cached.{IsCoherent, cached_block_lem}
use ferrum_db.SsTable.Table.Range.{outside-get, get-Admits}

-- The filter, where there is one, admits every key of the run.
abbrev pub FilterHolds : Option BloomFilter → Group → Type 0
FilterHolds none es = Unit
FilterHolds (some f) es = IsFilter f × All (Admits f) (keys_of es)

-- The open table `t`, its file on the disk `d` and its cache hold the entries of the blocks `gs`.
pub record Holds ⦃c : Codec⦄ (t : SsTable) (d : Disk) (gs : List Group) : Type 0 where
  pub tail : Bytes
  pub nonempty : All NonEmpty gs
  pub sorted : IsSorted (concat gs)
  pub valid : All IsRecord (concat gs)
  pub stored : BTreeMap.get t.path d.files ≡ some (blocks_file gs ++ tail)
  pub fits : length (blocks_file gs) < 2 ^ 32
  pub index : t.index ≡ blocks_index 0 gs
  pub least : t.min_key ≡ first_key (concat gs)
  pub greatest : t.max_key ≡ last_key none (concat gs)
  pub filter : FilterHolds t.bloom (concat gs)
  pub coherent : IsCoherent gs t.cache

module _ ⦃c : Codec⦄ where
  concat-empty : (gs : List Group) → length (blocks_index 0 gs) ≡ 0 → concat gs ≡ []
  unfolding blocks_index
  concat-empty [] e = refl
  concat-empty (g ∷ gs) e = absurd (omega arith)

  get-empty :
      (gs : List Group) (q : Bytes)
      → length (blocks_index 0 gs) ≡ 0
      → BTreeMap.get q (concat gs) ≡ none
  get-empty gs q e = rw (concat-empty gs e) (unfold BTreeMap.get in refl)

  -- A property of all entries, and their order, in one of the blocks.
  All-group {κ} :
      (P : Bytes × Entry → Type κ) (gs : List Group) (j : ℕ) (g : Group)
      → All P (concat gs)
      → get_elem? gs j ≡ some g
      → All P g
  All-group P [] j g h e = cc
  All-group P (x ∷ gs) zero g h e =
      let same : x ≡ g = cc in subst (All P) (same) (All-left P x (concat gs) h)
  All-group P (x ∷ gs) (suc j) g h e = All-group P gs j g (All-right P x (concat gs) h) e

  IsSorted-group :
      (gs : List Group) (j : ℕ) (g : Group)
      → IsSorted (concat gs)
      → get_elem? gs j ≡ some g
      → IsSorted g
  IsSorted-group [] j g h e = cc
  IsSorted-group (x ∷ gs) zero g h e =
      let same : x ≡ g = cc in subst IsSorted (same) (IsSorted-left x (concat gs) h)
  IsSorted-group (x ∷ gs) (suc j) g h e = IsSorted-group gs j g (IsSorted-right x (concat gs) h) e

  -- `get` leaves the table as it was, but for its cache.
  module _ (t : SsTable) (d : Disk) (gs : List Group) (h : Holds t d gs)
      (healthy : d.faults ≡ []) where
    -- The answer `o`, with a table that still holds the same.
    abbrev Answers : Option Entry → Result (Option Entry) × (SsTable × Disk) → Type 0
    Answers o r =
        (cache : BlockCache) × (r ≡ (ok o, (record t { cache = cache }, d))) × IsCoherent gs cache

    search_block_lem :
        (j : ℕ) (g : Group) (pre post : Bytes) (q : Bytes)
        → get_elem? gs j ≡ some g
        → get_elem? (blocks_index 0 gs) j ≡ some (index_entry (length pre) g)
        → blocks_file gs ≡ pre ++ (sealed (records g) ++ post)
        → Answers (BTreeMap.get q g) (search_block (some (index_entry (length pre) g)) q (t, d))
    unfolding search_block
    search_block_lem j g pre post q at_j entry file =
        let block = sealed (records g) in
        let stored =
          h.stored
          ∙ ap some (
              ap (λ f. f ++ h.tail) file
              ∙ (append_assoc pre (block ++ post) h.tail
                  ∙ ap (λ x. pre ++ x) (append_assoc block post h.tail))) in
        let small : length block < 2 ^ 32 = omega (
          arith,
          h.fits,
          ap length file,
          length-append pre (block ++ post),
          length-append block post,
        ) in
        let (cache, read, coherent) =
          cached_block_lem t d gs j g pre (post ++ h.tail) healthy stored small h.coherent at_j
            entry in
        (
          cache,
          rw (
            read,
            find_in_block-records g q (All-group IsRecord gs j g h.valid at_j)
                (IsSorted-group gs j g h.sorted at_j),
          ),
          coherent,
        )

    locate-index : (q : Bytes) → locate q t.index ≡ block_at (binary_search q (blocks_index 0 gs) 0)
    unfolding locate
    locate-index q = ap (λ l. block_at (binary_search q l 0)) h.index

    search_index_lem :
        (q : Bytes)
        → Answers (BTreeMap.get q (concat gs)) (search_index (locate q t.index) q (t, d))
    unfolding search_index block_at
    search_index_lem q = elim (binary_search-IsLocated gs q 0 0 h.nonempty h.sorted) [
      | inl (at_end, absent) ↦
          let nowhere : locate q t.index ≡ none =
            locate-index q ∙ (ap block_at at_end ∙ unfold block_at in refl) in
          rw (nowhere, absent) (t.cache, refl, h.coherent)
      | inr (j, g, at, here, same, le) ↦
          let (pre, post, entry, file) = block_position gs j g 0 here in
          let zero_pre : 0 + length pre ≡ length pre = omega arith in
          let zero_j : 0 + j ≡ j = omega arith in
          let entry' = rw zero_pre at entry in
          let there : locate q t.index ≡ some j = locate-index q ∙ (at ∙ ap some zero_j) in
          let named : get_elem? t.index j ≡ some (index_entry (length pre) g) =
            ap (λ l. get_elem? l j) h.index ∙ entry' in
          rw (there, same, search_index, named) (search_block_lem j g pre post q here entry' file)
    ]

    admitted-some :
        (o : Option BloomFilter) (q : Bytes)
        → FilterHolds o (concat gs)
        → (admitted o q ≡ ok true)
          ⊎ ((admitted o q ≡ ok false) × (BTreeMap.get q (concat gs) ≡ none))
    unfolding admitted
    admitted-some none q f = inl refl
    admitted-some (some f) q (v, all) =
        let (b, answer) = maybe_contains-total f q v in
        elim (Bool-cases b) [
          | inl yes_b ↦ inl (answer ∙ ap ok yes_b)
          | inr no_b ↦ inr (
            answer ∙ ap ok no_b,
            elim (Option-cases (BTreeMap.get q (concat gs))) [
              | inl absent ↦ absent
              | inr (e, found) ↦ cc (answer, no_b, get-Admits (concat gs) f q e all found)
            ],
          )
        ]

    -- On a working disk, `SsTable::get` on a table that holds a sorted run of entries answers what
    -- a lookup among these entries answers, a tombstone included; it leaves the disk as it is and
    -- the table as it is but for a cache that is still coherent.
    pub get_lem : (q : Bytes) → Answers (BTreeMap.get q (concat gs)) (get q (t, d))
    unfolding get
    get_lem q = elim (Bool-cases (length t.index == 0)) [
      | inl empty ↦
          let none_there =
            get-empty gs q ((==_iff (length (blocks_index 0 gs)) 0).0 (rw (h.index) at empty)) in
          rw (empty, none_there) (t.cache, refl, h.coherent)
      | inr blocks ↦ elim (Bool-cases (outside t.min_key t.max_key q)) [
        | inl out ↦
            let far =
              outside-get (concat gs) q h.sorted
                (ap₂ (λ a b. outside a b q) (sym h.least) (sym h.greatest) ∙ out) in
            rw (blocks, out, far) (t.cache, refl, h.coherent)
        | inr inside ↦ elim (admitted-some t.bloom q h.filter) [
          | inl maybe ↦ rw (blocks, inside, maybe) (search_index_lem q)
          | inr (never, absent) ↦ rw (blocks, inside, never, absent) (t.cache, refl, h.coherent)
        ]
      ]
    ]

    -- The table with the cache that `get` leaves holds the same entries.
    pub Holds-get : (q : Bytes) → Holds (get q (t, d)).1.0 d gs
    Holds-get q =
        let (cache, answer, coherent) = get_lem q in
        rw answer (record {
          tail = h.tail;
          nonempty = h.nonempty;
          sorted = h.sorted;
          valid = h.valid;
          stored = h.stored;
          fits = h.fits;
          index = h.index;
          least = h.least;
          greatest = h.greatest;
          filter = h.filter;
          coherent = coherent;
        })

    -- On a working disk, `read_all_entries` of a table that holds a sorted run of entries answers
    -- all of them in order and leaves the disk as it is.
    pub read_all_entries_lem : read_all_entries t d ≡ (ok (concat gs), d)
    unfolding read_all_entries
    read_all_entries_lem =
        let file = blocks_file gs ++ h.tail in
        let all = read_blocks_lem gs t.path d [] h.tail healthy h.stored h.fits h.valid in
        let opened = open_existing-healthy t.path d healthy file h.stored in
        elim (Bool-cases (length t.index == 0)) [
          | inl empty ↦
              let nothing =
                concat-empty gs
                  ((==_iff (length (blocks_index 0 gs)) 0).0 (rw (h.index) at empty)) in
              rw (empty, nothing)
          | inr blocks ↦ rw (blocks, opened) (ap (λ l. read_blocks t.path l d) h.index ∙ all)
        ]
