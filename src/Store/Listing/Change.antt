-- ===== src/Store/Listing/Change.antt =====
-- What a change of one file makes of the tables that a directory shows.
use ferrum_db.Base.{
  ℕ, ◌^◌, ◌<◌, ◌≡◌, ◌≢◌, refl, ap, ◌∙◌, sym, none, some, List, [], ◌∷◌, All, ◌==◌, arith,
  Option-cases, Ordering-cases, Bool-cases, inl, inr,
}
use ferrum_db.Base.Bytes.{Bytes, cmp, eq_of_cmp, cmp_refl}
use ferrum_db.BTreeMap
use ferrum_db.BTreeMap.{BTreeMap}
use ferrum_db.BTreeMap.Entries.{All-insert, All-remove}
use ferrum_db.Store.Files.{sstable_path}
use ferrum_db.Store.Listing.Sort.{
  insert_desc, insert_desc_comm, insert_desc_top, sort_desc, without, sort_desc-without, Below,
  Below-All, Below-AtMost, All-sort_desc,
}
use ferrum_db.Store.Listing.{
  id_at, NoTable, with_some, ids_in, IsCanonical, Listed, id_at-sstable_path,
}

module _ {V : Type 0} (dir q : Bytes) (v : V) where
  pub ids_in-insert_other :
      (m : BTreeMap V) → NoTable dir q → ids_in dir (BTreeMap.insert q v m) ≡ ids_in dir m
  unfolding BTreeMap.insert with_some ids_in
  ids_in-insert_other [] h = rw (ids_in, h) refl
  ids_in-insert_other ((j, w) ∷ m) h = elim (Ordering-cases (cmp q j)) [
    | inl below ↦ rw (below, ids_in, h) refl
    | inr (inl same) ↦ rw (same, ids_in, eq_of_cmp q j same) refl
    | inr (inr above) ↦ rw (above, ids_in, ids_in-insert_other m h) refl
  ]

  pub ids_in-insert_new :
      (id : ℕ) (m : BTreeMap V)
      → BTreeMap.get q m ≡ none
      → id_at dir q ≡ some id
      → sort_desc (ids_in dir (BTreeMap.insert q v m)) ≡ insert_desc id (sort_desc (ids_in dir m))
  unfolding BTreeMap.insert with_some ids_in BTreeMap.get sort_desc
  ids_in-insert_new id [] h at = rw (ids_in, at) refl
  ids_in-insert_new id ((j, w) ∷ m) h at = elim (Ordering-cases (cmp q j)) [
    | inl below ↦ rw (below, ids_in, at) refl
    | inr (inl same) ↦ let wrong : some w ≡ none = rw (same, BTreeMap.get) at h in cc
    | inr (inr above) ↦
        let rest = ids_in-insert_new id m (rw (above, BTreeMap.get) at h) at in
        elim (Option-cases (id_at dir j)) [
          | inl none_there ↦ rw (above, ids_in, none_there) rest
          | inr (i, there) ↦
              rw (above, ids_in, there, sort_desc, rest)
                (insert_desc_comm i id (sort_desc (ids_in dir m)))
        ]
  ]

get-cons_ne :
    {V : Type 0} (q j : Bytes) (v : V) (m : BTreeMap V)
    → q ≢ j
    → BTreeMap.get q ((j, v) ∷ m) ≡ BTreeMap.get q m
unfolding BTreeMap.get
get-cons_ne q j v m h = ground (arith, eq_of_cmp q j)

-- No file has an id that is above all ids of the directory.
pub get-above :
    {V : Type 0} (dir q : Bytes) (id : ℕ) (m : BTreeMap V)
    → id_at dir q ≡ some id
    → All (λ i. i < id) (ids_in dir m)
    → BTreeMap.get q m ≡ none
unfolding BTreeMap.get ids_in with_some
get-above dir q id [] at h = refl
get-above dir q id ((j, w) ∷ m) at h = elim (Option-cases (id_at dir j)) [
  | inl none_there ↦
      let apart : q ≢ j =
        λ e. let equal : some id ≡ none = sym at ∙ (ap (id_at dir) e ∙ none_there) in cc in
      get-cons_ne q j w m apart ∙ get-above dir q id m at (rw (ids_in, none_there) at h)
  | inr (i, there) ↦
      let (less, hs) : (i < id) × All (λ k. k < id) (ids_in dir m) = rw (ids_in, there, All) at h in
      let apart : q ≢ j = λ e.
        let equal : some id ≡ some i = sym at ∙ (ap (id_at dir) e ∙ there) in
        let wrong : id ≡ i = cc in omega arith in
      get-cons_ne q j w m apart ∙ get-above dir q id m at hs
]

remove-cons_ne :
    {V : Type 0} (q j : Bytes) (v : V) (m : BTreeMap V)
    → q ≢ j
    → BTreeMap.remove q ((j, v) ∷ m) ≡ (j, v) ∷ BTreeMap.remove q m
unfolding BTreeMap.remove
remove-cons_ne q j v m h = ground (arith, eq_of_cmp q j)

remove-cons_self :
    {V : Type 0} (q j : Bytes) (v : V) (m : BTreeMap V)
    → q ≡ j
    → BTreeMap.remove q ((j, v) ∷ m) ≡ BTreeMap.remove q m
unfolding BTreeMap.remove
remove-cons_self q j v m e = rw (← e, BTreeMap.remove, cmp_refl q) refl

-- Removing a table's file takes its id away.
ids_in-remove :
    {V : Type 0} (dir : Bytes) (id : ℕ) (m : BTreeMap V)
    → id < 2 ^ 64
    → All (λ p. IsCanonical dir p.0) m
    → ids_in dir (BTreeMap.remove (sstable_path dir id) m) ≡ without id (ids_in dir m)
unfolding BTreeMap.remove ids_in with_some without
ids_in-remove dir id [] fits h = refl
ids_in-remove dir id ((j, w) ∷ m) fits (canonical, h) =
    let path = sstable_path dir id in
    let at = id_at-sstable_path dir id fits in
    let rest = ids_in-remove dir id m fits h in
    elim (Option-cases (id_at dir j)) [
      | inl none_there ↦
          let apart : path ≢ j =
            λ e. let equal : some id ≡ none = sym at ∙ (ap (id_at dir) e ∙ none_there) in cc in
          rw (remove-cons_ne path j w m apart, ids_in, none_there) rest
      | inr (i, there) ↦ elim (Bool-cases (id == i)) [
        | inl same ↦
            let equal : id ≡ i = ground arith in
            rw
              (
                remove-cons_self path j w m (ap (sstable_path dir) equal ∙ sym (canonical i there)),
                ids_in,
                there,
                without,
                same,
              )
              rest
        | inr other ↦
            let apart : path ≢ j = λ e.
              let equal : some id ≡ some i = sym at ∙ (ap (id_at dir) e ∙ there) in
              let wrong : id ≡ i = cc in ground arith in
            rw (remove-cons_ne path j w m apart, ids_in, there, without, other, rest) refl
      ]
    ]

pub Listed-remove :
    (dir : Bytes) (id : ℕ) (m : BTreeMap Bytes) (ids : List ℕ)
    → id < 2 ^ 64
    → Listed dir m ids
    → Listed dir (BTreeMap.remove (sstable_path dir id) m) (without id ids)
Listed-remove dir id m ids fits (sorted, canonical) = (
  ap sort_desc (ids_in-remove dir id m fits canonical)
      ∙ (sort_desc-without id (ids_in dir m) ∙ ap (without id) sorted),
  All-remove (λ p. IsCanonical dir p.0) (sstable_path dir id) m canonical,
)

pub Listed-insert_other :
    (dir q : Bytes) (b : Bytes) (m : BTreeMap Bytes) (ids : List ℕ)
    → NoTable dir q
    → Listed dir m ids
    → Listed dir (BTreeMap.insert q b m) ids
Listed-insert_other dir q b m ids other (sorted, canonical) = (
  ap sort_desc (ids_in-insert_other dir q b m other) ∙ sorted,
  All-insert (λ p. IsCanonical dir p.0) q b m
      (λ id at. let wrong : none ≡ some id = sym other ∙ at in cc) canonical,
)

-- The file of a new table, above all others.
pub Listed-insert_new :
    (dir : Bytes) (id : ℕ) (b : Bytes) (m : BTreeMap Bytes) (ids : List ℕ)
    → id < 2 ^ 64
    → Below id ids
    → Listed dir m ids
    → Listed dir (BTreeMap.insert (sstable_path dir id) b m) (id ∷ ids)
Listed-insert_new dir id b m ids fits below (sorted, canonical) =
    let path = sstable_path dir id in
    let at = id_at-sstable_path dir id fits in
    let above = All-sort_desc (λ i. i < id) (ids_in dir m) (rw sorted (Below-All id ids below)) in
    (
      ids_in-insert_new dir path b id m (get-above dir path id m at above) at
          ∙ (ap (insert_desc id) sorted ∙ insert_desc_top id ids (Below-AtMost id ids below)),
      All-insert (λ p. IsCanonical dir p.0) path b m
          (λ i there.
            let equal : some id ≡ some i = sym at ∙ there in
            let same : id ≡ i = cc in ap (sstable_path dir) same)
          canonical,
    )
