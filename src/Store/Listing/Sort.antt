-- ===== src/Store/Listing/Sort.antt =====
-- Sorting ids from the highest to the lowest, as `load_sstables` of ferrumdb-core/src/store.rs does.
use ferrum_db.Base.{
  ℕ, ◌≤◌, ◌<◌, ◌≡◌, refl, List, [], ◌∷◌, All, ltb, ◌==◌, if◌then◌else◌, arith, Bool-cases, inl, inr,
  false, ==_refl,
}

unfoldable pub insert_desc : ℕ → List ℕ → List ℕ
insert_desc a [] = a ∷ []
insert_desc a (j ∷ l) = let rest = insert_desc a l in if ltb a j then j ∷ rest else a ∷ j ∷ l

unfoldable pub sort_desc : List ℕ → List ℕ
sort_desc [] = []
sort_desc (a ∷ l) = insert_desc a (sort_desc l)

-- The list without the id.
unfoldable pub without : ℕ → List ℕ → List ℕ
without i [] = []
without i (j ∷ l) = let rest = without i l in if i == j then rest else j ∷ rest

unfoldable pub without_all : List ℕ → List ℕ → List ℕ
without_all [] l = l
without_all (i ∷ is) l = without_all is (without i l)

-- The ids descend strictly and are below `top`.
abbrev pub Below : ℕ → List ℕ → Type 0
Below top [] = Unit
Below top (i ∷ l) = (i < top) × Below i l

pub Below-mono : (i j : ℕ) (l : List ℕ) → i ≤ j → Below i l → Below j l
Below-mono i j [] le h = tt
Below-mono i j (k ∷ l) le (h, hs) = (omega arith, hs)

abbrev pub AtMost : ℕ → List ℕ → Type 0
AtMost top l = All (λ i. i ≤ top) l

abbrev Falls : List ℕ → Type 0
Falls [] = Unit
Falls (i ∷ l) = AtMost i l × Falls l

pub insert_desc_comm :
    (a b : ℕ) (l : List ℕ) → insert_desc a (insert_desc b l) ≡ insert_desc b (insert_desc a l)
unfolding insert_desc
insert_desc_comm a b [] = ground arith
insert_desc_comm a b (j ∷ l) = ground (arith, insert_desc_comm a b l)

pub All-insert_desc :
    (P : ℕ → Type 0) (a : ℕ) (l : List ℕ) → All P (insert_desc a l) → P a × All P l
unfolding insert_desc
All-insert_desc P a [] h = h
All-insert_desc P a (j ∷ l) h = elim (Bool-cases (ltb a j)) [
  | inl less ↦
      let (p, hs) : P j × All P (insert_desc a l) = rw (less, All) at h in
      let (q, rest) = All-insert_desc P a l hs in (q, (p, rest))
  | inr more ↦ rw (more, All) at h
]

-- What holds of all sorted ids holds of all ids.
pub All-sort_desc : (P : ℕ → Type 0) (l : List ℕ) → All P (sort_desc l) → All P l
unfolding sort_desc
All-sort_desc P [] h = tt
All-sort_desc P (a ∷ l) h =
    let (p, hs) = All-insert_desc P a (sort_desc l) h in (p, All-sort_desc P l hs)

insert_desc-All : (P : ℕ → Type 0) (a : ℕ) (l : List ℕ) → P a → All P l → All P (insert_desc a l)
unfolding insert_desc
insert_desc-All P a [] p h = (p, tt)
insert_desc-All P a (j ∷ l) p (q, h) = elim (Bool-cases (ltb a j)) [
  | inl less ↦ rw (less, All) (q, insert_desc-All P a l p h)
  | inr more ↦ rw (more, All) (p, (q, h))
]

pub sort_desc-All : (P : ℕ → Type 0) (l : List ℕ) → All P l → All P (sort_desc l)
unfolding sort_desc
sort_desc-All P [] h = tt
sort_desc-All P (a ∷ l) (p, h) = insert_desc-All P a (sort_desc l) p (sort_desc-All P l h)

AtMost-mono : (i j : ℕ) (l : List ℕ) → i ≤ j → AtMost i l → AtMost j l
AtMost-mono i j [] le h = tt
AtMost-mono i j (k ∷ l) le (h, hs) = (omega arith, AtMost-mono i j l le hs)

pub Below-All : (top : ℕ) (l : List ℕ) → Below top l → All (λ i. i < top) l
Below-All top [] h = tt
Below-All top (i ∷ l) (h, hs) = (h, Below-All top l (Below-mono i top l (omega arith) hs))

pub Below-AtMost : (top : ℕ) (l : List ℕ) → Below top l → AtMost top l
Below-AtMost top [] h = tt
Below-AtMost top (i ∷ l) (h, hs) =
    (omega arith, Below-AtMost top l (Below-mono i top l (omega arith) hs))

insert_desc-Falls : (a : ℕ) (l : List ℕ) → Falls l → Falls (insert_desc a l)
unfolding insert_desc
insert_desc-Falls a [] h = (tt, tt)
insert_desc-Falls a (j ∷ l) (h, hs) = elim (Bool-cases (ltb a j)) [
  | inl less ↦
      rw (less, Falls) (insert_desc-All (λ i. i ≤ j) a l (ground arith) h, insert_desc-Falls a l hs)
  | inr more ↦ rw (more, Falls) ((ground arith, AtMost-mono j a l (ground arith) h), (h, hs))
]

sort_desc-Falls : (l : List ℕ) → Falls (sort_desc l)
unfolding sort_desc
sort_desc-Falls [] = tt
sort_desc-Falls (a ∷ l) = insert_desc-Falls a (sort_desc l) (sort_desc-Falls l)

without-AtMost : (i top : ℕ) (l : List ℕ) → AtMost top l → AtMost top (without i l)
unfolding without
without-AtMost i top [] h = tt
without-AtMost i top (j ∷ l) (h, hs) = elim (Bool-cases (i == j)) [
  | inl same ↦ rw same (without-AtMost i top l hs)
  | inr other ↦ rw (other, All) (h, without-AtMost i top l hs)
]

pub insert_desc_top : (a : ℕ) (l : List ℕ) → AtMost a l → insert_desc a l ≡ a ∷ l
unfolding insert_desc
insert_desc_top a [] h = refl
insert_desc_top a (j ∷ l) (h, hs) = ground arith

without-insert_desc :
    (i a : ℕ) (l : List ℕ)
    → Falls l
    → without i (insert_desc a l) ≡ (if i == a then without i l else insert_desc a (without i l))
unfolding without insert_desc
without-insert_desc i a [] h = ground arith
without-insert_desc i a (j ∷ l) (h, hs) = ground (
  arith,
  without-insert_desc i a l hs,
  insert_desc_top a (without i l),
  without-AtMost i a l,
  AtMost-mono j a l,
  h,
)

-- Dropping an id before or after the sorting.
pub sort_desc-without : (i : ℕ) (l : List ℕ) → sort_desc (without i l) ≡ without i (sort_desc l)
unfolding sort_desc without
sort_desc-without i [] = refl
sort_desc-without i (a ∷ l) =
    ground (arith, sort_desc-without i l, without-insert_desc i a (sort_desc l) (sort_desc-Falls l))

without_small : (i top : ℕ) (l : List ℕ) → Below top l → top ≤ i → without i l ≡ l
unfolding without
without_small i top [] h le = refl
without_small i top (j ∷ l) (h, hs) le = ground (arith, without_small i j l hs (omega arith))

-- All ids but the first, which is above them, and all of them.
pub without_all-rest : (top : ℕ) (l : List ℕ) → Below top l → without_all l (top ∷ l) ≡ top ∷ []
unfolding without_all without
without_all-rest top [] h = refl
without_all-rest top (i ∷ l) (h, hs) =
    let kept : (i == top) ≡ false = ground arith in
    rw (kept, ==_refl i, without_small i i l hs (omega arith))
      (without_all-rest top l (Below-mono i top l (omega arith) hs))

pub without_all_self : (top : ℕ) (l : List ℕ) → Below top l → without_all l l ≡ []
unfolding without_all without
without_all_self top [] h = refl
without_all_self top (i ∷ l) (h, hs) =
    rw (==_refl i, without_small i i l hs (omega arith)) (without_all_self i l hs)
