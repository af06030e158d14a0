-- ===== src/SsTable/Table/Loop.antt =====
-- The loop of `flush` over its entries: the blocks that it makes, and the keys that it notes.
use ferrum_db.Base.{
  ◌<◌, ◌≡◌, refl, ap, ◌∙◌, sym, Option, none, some, List, [], ◌∷◌, ◌++◌, length, map, leb,
  append_assoc, append-nil, Bool-cases, inl, inr,
}
use ferrum_db.Base.Bytes.{Bytes}
use ferrum_db.Proto.{Codec}
use ferrum_db.Value.{Entry}
use ferrum_db.SsTable.Record.{encode_record, records}
use ferrum_db.SsTable.Table.Build.{
  Build, start, finalize_block, first_of_keys, note_key, open_block, end_block, add_entry,
  add_entries, flush_rest, finish, build, block_size,
}
use ferrum_db.SsTable.Table.Layout.{
  Group, concat, concat-append, first_key, IsBuilt, start-IsBuilt, finalize_block-IsBuilt,
  open_block_lem, length-records_pos,
}

abbrev pub keys_of : Group → List Bytes
keys_of = map (λ e. e.0)

-- The last key of a run, after `k`.
abbrev pub last_key : Option Bytes → Group → Option Bytes
last_key k [] = k
last_key k ((j, e) ∷ es) = last_key (some j) es

module _ ⦃c : Codec⦄ where
  note_key-IsBuilt :
      (b : Build) (gs : List Group) (p : Group) (k : Bytes)
      → IsBuilt b gs p
      → IsBuilt (note_key k b) gs p
  unfolding note_key
  note_key-IsBuilt b gs [] k v = record {
    file = v.file;
    index = v.index;
    block = v.block;
    filling = tt;
    nonempty = v.nonempty;
  }
  note_key-IsBuilt b gs ((j, e) ∷ p) k v = record {
    file = v.file;
    index = v.index;
    block = v.block;
    filling = v.filling;
    nonempty = v.nonempty;
  }

  -- `b` stands for blocks whose entries are `es`.
  abbrev pub Blocks : Build → Group → Type 0
  Blocks b es = (gs : List Group) × (p : Group) × IsBuilt b gs p × (concat gs ++ p ≡ es)

  end_block-Blocks :
      (b : Build) (gs : List Group) (x : Bytes × Entry) (p : Group)
      → IsBuilt b gs (x ∷ p)
      → Blocks (end_block b) (concat gs ++ (x ∷ p))
  unfolding end_block
  end_block-Blocks b gs x p v = elim (Bool-cases (leb block_size (length b.block))) [
    | inl full ↦ rw full (
      gs ++ ((x ∷ p) ∷ []),
      [],
      finalize_block-IsBuilt b gs x p v,
      rw (concat-append gs ((x ∷ p) ∷ []), append-nil (x ∷ p), append-nil (concat gs ++ (x ∷ p))),
    )
    | inr small ↦ rw small (gs, x ∷ p, v, refl)
  ]

  end_block-Blocks_snoc :
      (b : Build) (gs : List Group) (p : Group) (k : Bytes) (e : Entry)
      → IsBuilt b gs (p ++ ((k, e) ∷ []))
      → Blocks (end_block b) (concat gs ++ (p ++ ((k, e) ∷ [])))
  end_block-Blocks_snoc b gs [] k e v = end_block-Blocks b gs (k, e) [] v
  end_block-Blocks_snoc b gs (x ∷ p) k e v = end_block-Blocks b gs x (p ++ ((k, e) ∷ [])) v

  add_entry-Blocks :
      (b : Build) (es : Group) (k : Bytes) (e : Entry)
      → Blocks b es
      → Blocks (add_entry k e b) (es ++ ((k, e) ∷ []))
  unfolding add_entry
  add_entry-Blocks b es k e (gs, p, v, all) =
      let noted = note_key k b in
      let opened = open_block noted.block k noted in
      let next : Build = record opened { block = opened.block ++ encode_record k e } in
      let (hs, q, w, done) =
        end_block-Blocks_snoc next gs p k e
          (open_block_lem noted gs p k e (note_key-IsBuilt b gs p k v)) in
      (
        hs,
        q,
        w,
        done ∙ (sym (append_assoc (concat gs) p ((k, e) ∷ [])) ∙ ap (λ t. t ++ ((k, e) ∷ [])) all),
      )

  add_entries-Blocks :
      (fs : Group) (b : Build) (es : Group) → Blocks b es → Blocks (add_entries fs b) (es ++ fs)
  unfolding add_entries
  add_entries-Blocks [] b es v = rw (append-nil es) v
  add_entries-Blocks ((k, e) ∷ fs) b es v =
      rw (append_assoc es ((k, e) ∷ []) fs) at (
        add_entries-Blocks fs (add_entry k e b) (es ++ ((k, e) ∷ [])) (add_entry-Blocks b es k e v))

  flush_rest-filling :
      (block : Bytes) (b : Build) → 0 < length block → flush_rest block b ≡ finalize_block b
  unfolding flush_rest
  flush_rest-filling [] b h = elim h [ ]
  flush_rest-filling (x ∷ xs) b h = refl

  flush_rest-empty : (block : Bytes) (b : Build) → block ≡ [] → flush_rest block b ≡ b
  unfolding flush_rest
  flush_rest-empty [] b h = refl
  flush_rest-empty (x ∷ xs) b h = cc

  last_block :
      (es : Group) (b : Build) (gs : List Group) (p : Group)
      → IsBuilt b gs p
      → concat gs ++ p ≡ es
      → (hs : List Group) × IsBuilt (flush_rest b.block b) hs [] × (concat hs ≡ es)
  last_block es b gs [] v all =
      rw (flush_rest-empty b.block b (v.block ∙ unfold records in refl))
        (gs, v, sym (append-nil (concat gs)) ∙ all)
  last_block es b gs ((k, e) ∷ p) v all =
      rw (flush_rest-filling b.block b (rw v.block (length-records_pos k e p))) (
        gs ++ (((k, e) ∷ p) ∷ []),
        finalize_block-IsBuilt b gs (k, e) p v,
        rw (concat-append gs (((k, e) ∷ p) ∷ []), append-nil ((k, e) ∷ p)) all,
      )

  -- The loop of `flush` splits any entries into non-empty blocks, in order: its file is their
  -- sealed records one after the other, and its index has for each its first key, its offset and
  -- its length.
  pub build-blocks : (es : Group) → (gs : List Group) × IsBuilt (build es) gs [] × (concat gs ≡ es)
  unfolding build finish
  build-blocks es =
      let (gs, p, v, all) = add_entries-Blocks es start [] ([], [], start-IsBuilt, refl) in
      last_block es (add_entries es start) gs p v all

  -- The keys that the loop has noted: the least, the greatest and all of them.
  record Notes (b : Build) (min max : Option Bytes) (keys : List Bytes) : Type 0 where
    least : b.min_key ≡ min
    greatest : b.max_key ≡ max
    noted : b.keys ≡ keys

  Notes-end_block :
      (b : Build) (min max : Option Bytes) (keys : List Bytes)
      → Notes b min max keys
      → Notes (end_block b) min max keys
  unfolding end_block finalize_block
  Notes-end_block b min max keys v = elim (Bool-cases (leb block_size (length b.block))) [
    | inl full ↦ rw full (record { least = v.least; greatest = v.greatest; noted = v.noted })
    | inr small ↦ rw small v
  ]

  Notes-open_block :
      (block : Bytes) (k : Bytes) (b : Build) (min max : Option Bytes) (keys : List Bytes)
      → Notes b min max keys
      → Notes (open_block block k b) min max keys
  unfolding open_block
  Notes-open_block [] k b min max keys v = record {
    least = v.least;
    greatest = v.greatest;
    noted = v.noted;
  }
  Notes-open_block (x ∷ xs) k b min max keys v = v

  Notes-add_entry :
      (k : Bytes) (e : Entry) (b : Build) (min max : Option Bytes) (keys : List Bytes)
      → Notes b min max keys
      → Notes (add_entry k e b) (first_of_keys min k) (some k) (keys ++ (k ∷ []))
  unfolding add_entry note_key
  Notes-add_entry k e b min max keys v =
      let noted = note_key k b in
      let n : Notes noted (first_of_keys min k) (some k) (keys ++ (k ∷ [])) = record {
        least = ap (λ m. first_of_keys m k) v.least;
        greatest = refl;
        noted = ap (λ l. l ++ (k ∷ [])) v.noted;
      } in
      let o = Notes-open_block noted.block k noted _ _ _ n in
      Notes-end_block _ _ _ _ (record { least = o.least; greatest = o.greatest; noted = o.noted })

  abbrev first_or : Option Bytes → Group → Option Bytes
  first_or none es = first_key es
  first_or (some k) es = some k

  Notes-add_entries :
      (es : Group) (b : Build) (min max : Option Bytes) (keys : List Bytes)
      → Notes b min max keys
      → Notes (add_entries es b) (first_or min es) (last_key max es) (keys ++ keys_of es)
  unfolding add_entries
  Notes-add_entries [] b none max keys v = rw (append-nil keys) v
  Notes-add_entries [] b (some m) max keys v = rw (append-nil keys) v
  Notes-add_entries ((k, e) ∷ es) b none max keys v =
      rw (append_assoc keys (k ∷ []) (keys_of es)) at (
        Notes-add_entries es (add_entry k e b) (some k) (some k) (keys ++ (k ∷ []))
          (Notes-add_entry k e b none max keys v))
  Notes-add_entries ((k, e) ∷ es) b (some m) max keys v =
      rw (append_assoc keys (k ∷ []) (keys_of es)) at (
        Notes-add_entries es (add_entry k e b) (some m) (some k) (keys ++ (k ∷ []))
          (Notes-add_entry k e b (some m) max keys v))

  Notes-flush_rest :
      (block : Bytes) (b : Build) (min max : Option Bytes) (keys : List Bytes)
      → Notes b min max keys
      → Notes (flush_rest block b) min max keys
  unfolding flush_rest finalize_block
  Notes-flush_rest [] b min max keys v = v
  Notes-flush_rest (x ∷ xs) b min max keys v = record {
    least = v.least;
    greatest = v.greatest;
    noted = v.noted;
  }

  -- The table's range is its first and its last key, and its filter is built from all keys.
  pub build-keys :
      (es : Group)
      → ((build es).min_key ≡ first_key es)
        × ((build es).max_key ≡ last_key none es)
        × ((build es).keys ≡ keys_of es)
  unfolding build finish
  build-keys es =
      let b = add_entries es start in
      let n = Notes-flush_rest b.block b _ _ _ (
        Notes-add_entries es start none none []
          (record { least = refl; greatest = refl; noted = refl })) in
      (n.least, n.greatest, n.noted)
