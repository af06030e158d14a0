-- ===== src/SsTable/Table/Layout.antt =====
-- The blocks that `flush` cuts a run of entries into: a description of the file and of the sparse
-- index from the blocks alone, and that one block after another meets it.
use ferrum_db.Base.{
  ℕ, ◌+◌, ◌%◌, ◌<◌, ◌≡◌, refl, ap, ◌∙◌, sym, Option, none, some, List, [], ◌∷◌, ◌++◌, length, All,
  All-append, arith, append_assoc, append-nil, length-append,
}
use ferrum_db.Base.Bytes.{Bytes}
use ferrum_db.Base.Words.{u32_mod}
use ferrum_db.Proto.{Codec}
use ferrum_db.Value.{Entry}
use ferrum_db.SsTable.Record.{encode_record, records}
use ferrum_db.SsTable.Record.RoundTrip.{length-encode_record}
use ferrum_db.SsTable.Table.{IndexEntry}
use ferrum_db.SsTable.Table.Build.{Build, start, sealed, finalize_block, or_default, open_block}

-- The entries of one block.
abbrev pub Group : Type 0
Group = List (Bytes × Entry)

abbrev pub concat : List Group → Group
concat [] = []
concat (g ∷ gs) = g ++ concat gs

abbrev pub first_key : Group → Option Bytes
first_key [] = none
first_key ((k, e) ∷ es) = some k

abbrev pub NonEmpty : Group → Type 0
NonEmpty g = 0 < length g

pub concat-append : (gs hs : List Group) → concat (gs ++ hs) ≡ concat gs ++ concat hs
concat-append [] hs = refl
concat-append (g ∷ gs) hs = rw (concat-append gs hs, append_assoc g (concat gs) (concat hs))

module _ ⦃c : Codec⦄ where
  unfoldable pub blocks_file : List Group → Bytes
  blocks_file [] = []
  blocks_file (g ∷ gs) = sealed (records g) ++ blocks_file gs

  abbrev pub index_entry : ℕ → Group → IndexEntry
  index_entry offset g = record {
    first_key = or_default (first_key g);
    block_offset = offset;
    block_len = length (sealed (records g)) % u32_mod;
  }

  unfoldable pub blocks_index : ℕ → List Group → List IndexEntry
  blocks_index offset [] = []
  blocks_index offset (g ∷ gs) =
      index_entry offset g ∷ blocks_index (offset + length (sealed (records g))) gs

  pub blocks_file-append :
      (gs hs : List Group) → blocks_file (gs ++ hs) ≡ blocks_file gs ++ blocks_file hs
  unfolding blocks_file
  blocks_file-append [] hs = refl
  blocks_file-append (g ∷ gs) hs = rw (
    blocks_file-append gs hs,
    append_assoc (sealed (records g)) (blocks_file gs) (blocks_file hs),
  )

  blocks_index-snoc :
      (gs : List Group) (g : Group) (offset : ℕ)
      → blocks_index offset (gs ++ (g ∷ []))
        ≡ blocks_index offset gs ++ (index_entry (offset + length (blocks_file gs)) g ∷ [])
  unfolding blocks_index blocks_file
  blocks_index-snoc [] g offset = let e : offset + 0 ≡ offset = omega arith in rw e
  blocks_index-snoc (h ∷ gs) g offset =
      let size = length (sealed (records h)) in
      let e : offset + size + length (blocks_file gs)
          ≡ offset + length (sealed (records h) ++ blocks_file gs) =
        omega (arith, length-append (sealed (records h)) (blocks_file gs)) in
      rw (blocks_index-snoc gs g (offset + size), e)

  records-snoc :
      (es : Group) (k : Bytes) (e : Entry)
      → records (es ++ ((k, e) ∷ [])) ≡ records es ++ encode_record k e
  unfolding records
  records-snoc [] k e = append-nil (encode_record k e)
  records-snoc ((j, f) ∷ es) k e =
      rw (records-snoc es k e, append_assoc (encode_record j f) (records es) (encode_record k e))

  -- The first key and the offset of the block that is being filled.
  abbrev pub IsOpened : Build → Group → Type 0
  IsOpened b [] = Unit
  IsOpened b ((k, e) ∷ es) = (b.block_first_key ≡ some k) × (b.block_offset ≡ length b.file)

  -- The loop's variables stand for finished blocks `gs` and a block `p` that is being filled.
  pub record IsBuilt (b : Build) (gs : List Group) (p : Group) : Type 0 where
    pub file : b.file ≡ blocks_file gs
    pub index : b.index ≡ blocks_index 0 gs
    pub block : b.block ≡ records p
    pub filling : IsOpened b p
    pub nonempty : All NonEmpty gs

  pub start-IsBuilt : IsBuilt start [] []
  unfolding blocks_file blocks_index records
  start-IsBuilt = record { file = refl; index = refl; block = refl; filling = tt; nonempty = tt }

  -- `finalize_block` ends the block that was being filled.
  pub finalize_block-IsBuilt :
      (b : Build) (gs : List Group) (x : Bytes × Entry) (p : Group)
      → IsBuilt b gs (x ∷ p)
      → IsBuilt (finalize_block b) (gs ++ ((x ∷ p) ∷ [])) []
  unfolding finalize_block blocks_file
  finalize_block-IsBuilt b gs (k, e) p v =
      let g : Group = (k, e) ∷ p in
      let at : b.block_offset ≡ 0 + length (blocks_file gs) =
        v.filling.1 ∙ (ap length v.file ∙ omega arith) in
      record {
        file =
            cc (v.file, v.block, blocks_file-append gs (g ∷ []), append-nil (sealed (records g)));
        index = cc (v.index, v.block, v.filling.0, at, blocks_index-snoc gs g 0);
        block = unfold records in refl;
        filling = tt;
        nonempty = All-append NonEmpty gs (g ∷ []) v.nonempty (omega arith);
      }

  open_block-filling :
      (block : Bytes) (k : Bytes) (b : Build) → 0 < length block → open_block block k b ≡ b
  unfolding open_block
  open_block-filling [] k b h = elim h [ ]
  open_block-filling (x ∷ xs) k b h = refl

  pub length-records_pos : (k : Bytes) (e : Entry) (es : Group) → 0 < length (records ((k, e) ∷ es))
  unfolding records
  length-records_pos k e es =
      omega (arith, length-append (encode_record k e) (records es), length-encode_record k e)

  open_block-empty :
      (block : Bytes) (k : Bytes) (b : Build)
      → block ≡ []
      → open_block block k b ≡ record b { block_first_key = some k; block_offset = length b.file }
  unfolding open_block
  open_block-empty [] k b h = refl
  open_block-empty (x ∷ xs) k b h = cc

  pub open_block_lem :
      (b : Build) (gs : List Group) (p : Group) (k : Bytes) (e : Entry)
      → IsBuilt b gs p
      → let opened = open_block b.block k b in
        IsBuilt
          (record opened { block = opened.block ++ encode_record k e })
          gs
          (p ++ ((k, e) ∷ []))
  open_block_lem b gs [] k e v =
      rw (open_block-empty b.block k b (v.block ∙ unfold records in refl)) (record {
        file = v.file;
        index = v.index;
        block = rw v.block (unfold records in sym (append-nil (encode_record k e)));
        filling = (refl, refl);
        nonempty = v.nonempty;
      })
  open_block_lem b gs ((j, f) ∷ p) k e v =
      rw (open_block-filling b.block k b (rw v.block (length-records_pos j f p))) (record {
        file = v.file;
        index = v.index;
        block = rw v.block (sym (records-snoc ((j, f) ∷ p) k e));
        filling = v.filling;
        nonempty = v.nonempty;
      })
