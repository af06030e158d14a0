-- ===== src/Store/Open/Order.antt =====
-- The order in which `load_sstables` keeps the tables, and the id after them.
use ferrum_db.Base.{
  ℕ, ◌+◌, ◌≤◌, ◌<◌, ◌^◌, max, ◌≡◌, refl, ap, ◌∙◌, Option, none, some, List, [], ◌∷◌, All, ltb, ◌==◌,
  if◌then◌else◌, arith, Bool-cases, inl, inr, true,
}
use ferrum_db.Errors.{ok}
use ferrum_db.SsTable.Table.{SsTable}
use ferrum_db.Store.Open.{
  increment, max_after, insert_newest, newest_first, found_tables, install_found,
}
use ferrum_db.Store.{Store}
use ferrum_db.Disk.{Disk}

-- No id of the list is above `id`.
abbrev pub AtMost : ℕ → List (ℕ × SsTable) → Type 0
AtMost id found = All (λ p. p.0 ≤ id) found

abbrev pub Descends : List (ℕ × SsTable) → Type 0
Descends [] = Unit
Descends ((id, t) ∷ found) = AtMost id found × Descends found

-- The first table of the list with the id.
unfoldable pub with_id : ℕ → List (ℕ × SsTable) → Option SsTable
with_id q [] = none
with_id q ((id, t) ∷ found) = let rest = with_id q found in if q == id then some t else rest

AtMost-mono : (i j : ℕ) (found : List (ℕ × SsTable)) → i ≤ j → AtMost i found → AtMost j found
AtMost-mono i j [] le h = tt
AtMost-mono i j (p ∷ found) le (h, hs) = (omega arith, AtMost-mono i j found le hs)

AtMost-insert_newest :
    (top id : ℕ) (t : SsTable) (found : List (ℕ × SsTable))
    → id ≤ top
    → AtMost top found
    → AtMost top (insert_newest id t found)
unfolding insert_newest
AtMost-insert_newest top id t [] le h = (le, tt)
AtMost-insert_newest top id t ((j, u) ∷ found) le (h, hs) = elim (Bool-cases (ltb id j)) [
  | inl older ↦ rw (older, All) (h, AtMost-insert_newest top id t found le hs)
  | inr newer ↦ rw (newer, All) (le, (h, hs))
]

insert_newest-Descends :
    (id : ℕ) (t : SsTable) (found : List (ℕ × SsTable))
    → Descends found
    → Descends (insert_newest id t found)
unfolding insert_newest
insert_newest-Descends id t [] h = (tt, tt)
insert_newest-Descends id t ((j, u) ∷ found) (h, hs) = elim (Bool-cases (ltb id j)) [
  | inl older ↦
      rw (older, Descends)
        (AtMost-insert_newest j id t found (ground arith) h, insert_newest-Descends id t found hs)
  | inr newer ↦
      rw (newer, Descends) ((ground arith, AtMost-mono j id found (ground arith) h), (h, hs))
]

with_id-insert_newest :
    (q id : ℕ) (t : SsTable) (found : List (ℕ × SsTable))
    → with_id q (insert_newest id t found) ≡ with_id q ((id, t) ∷ found)
unfolding with_id insert_newest
with_id-insert_newest q id t [] = refl
with_id-insert_newest q id t ((j, u) ∷ found) = ground (arith, with_id-insert_newest q id t found)

-- In any order of the directory, the tables are kept from the highest id to the lowest, and under
-- each id stands the first table that was listed with it.
pub newest_first-Descends :
    (found : List (ℕ × SsTable))
    → Descends (newest_first found) × ((q : ℕ) → with_id q (newest_first found) ≡ with_id q found)
unfolding newest_first with_id
newest_first-Descends [] = (tt, λ q. refl)
newest_first-Descends ((id, t) ∷ found) =
    let (descends, same) = newest_first-Descends found in
    (
      insert_newest-Descends id t (newest_first found) descends,
      λ q.
          with_id-insert_newest q id t (newest_first found)
          ∙ ap (λ o. if q == id then some t else o) (same q),
    )

-- What `max_after` returns is above every id, or there is none.
max_after-above :
    (best : ℕ) (found : List (ℕ × SsTable))
    → All (λ p. p.0 + 1 < 2 ^ 64) found
    → (n : ℕ) × (max_after (some best) found ≡ ok (some n)) × (best ≤ n) × All (λ p. p.0 < n) found
unfolding max_after increment
max_after-above best [] h = (best, refl, omega arith, tt)
max_after-above best ((id, t) ∷ found) (h, hs) =
    let (n, done, le, above) = max_after-above (max best (id + 1)) found hs in
    (n, ground (arith, done), omega arith, (omega arith, above))

-- From any list of tables with ids below 2^64 - 1, in the order of the directory, loading keeps the
-- tables from the highest id to the lowest, under each id the first one that was listed with it,
-- and the next id is at least 1 and above all of theirs.
pub install_found-fresh :
    (found : List (ℕ × SsTable)) (s : Store) (d : Disk)
    → All (λ p. p.0 + 1 < 2 ^ 64) found
    → (n : ℕ) × (install_found found (s, d) ≡ (
      ok tt,
      (record s { next_sstable_id = n; sstables = found_tables (newest_first found) }, d),
    ))
      × All (λ p. p.0 < n) found
      × (1 ≤ n)
      × Descends (newest_first found)
      × ((q : ℕ) → with_id q (newest_first found) ≡ with_id q found)
unfolding install_found max_after increment
install_found-fresh [] s d h =
    let (descends, same) = newest_first-Descends [] in (1, refl, tt, omega arith, descends, same)
install_found-fresh ((id, t) ∷ found) s d (h, hs) =
    let (n, done, le, above) = max_after-above (id + 1) found hs in
    let (descends, same) = newest_first-Descends ((id, t) ∷ found) in
    let small : ltb (id + 1) (2 ^ 64) ≡ true = ground arith in
    (n, rw (small, done) refl, (omega arith, above), omega arith, descends, same)
