-- ===== src/Store/Compact/Merged.antt =====
-- The merge of a compaction shows a reader what the merged tables showed.
use ferrum_db.BTreeMap.Entries.{All-insert_all, All-retain}
use ferrum_db.SsTable.Record.{IsRecord}
use ferrum_db.Base.{All, map, ◌≡◌, refl, ap, ◌∙◌, Option, none, some, List, [], ◌∷◌}
use ferrum_db.Base.Bytes.{Bytes}
use ferrum_db.BTreeMap.{BTreeMap, IsSorted, get, insert_all, retain}
use ferrum_db.BTreeMap.Lookup.{or_else, keep_if, get-insert_all, get-retain}
use ferrum_db.BTreeMap.Order.{insert_all-IsSorted, retain-IsSorted}
use ferrum_db.Errors.{ok}
use ferrum_db.Proto.{Codec}
use ferrum_db.Value.{Entry, value, tombstone}
use ferrum_db.Disk.{Disk}
use ferrum_db.SsTable.Table.{SsTable}
use ferrum_db.SsTable.Table.Layout.{Group, concat}
use ferrum_db.SsTable.Table.Lookup.{read_all_entries_lem}
use ferrum_db.Store.{resolve}
use ferrum_db.Store.Lookup.{newest, seen, AllHold}
use ferrum_db.Store.Compact.{is_value, merge_tables, merged_values}

seen-keep_if : (q : Bytes) (o : Option Entry) → seen (keep_if (is_value q) o) ≡ seen o
unfolding is_value resolve
seen-keep_if q none = refl
seen-keep_if q (some (value v)) = refl
seen-keep_if q (some tombstone) = refl

-- The entries of all runs, the newest run first: the newest entry of each key.
unfoldable pub merge : List Group → BTreeMap Entry
merge [] = []
merge (es ∷ ess) = insert_all es (merge ess)

-- What a compaction keeps of them.
unfoldable pub compacted : List Group → BTreeMap Entry
compacted ess = retain is_value (merge ess)

abbrev pub runs : List (List Group) → List Group
runs = map concat

module _ ⦃c : Codec⦄ (d : Disk) (healthy : d.faults ≡ []) where
  merge_tables_lem :
      (ts : List SsTable) (gss : List (List Group))
      → AllHold ts d gss
      → (merge_tables ts d ≡ (ok (merge (runs gss)), d))
        × IsSorted (merge (runs gss))
        × All IsRecord (merge (runs gss))
        × ((q : Bytes) → get q (merge (runs gss)) ≡ newest q gss)
  unfolding merge_tables newest merge
  merge_tables_lem [] [] h = (refl, tt, tt, λ q. unfold get in refl)
  merge_tables_lem [] (gs ∷ gss) h = absurd h
  merge_tables_lem (t ∷ ts) [] h = absurd h
  merge_tables_lem (t ∷ ts) (gs ∷ gss) (h, hs) =
      let (before, sorted, valid, older_get) = merge_tables_lem ts gss hs in
      let older = merge (runs gss) in
      (
        rw (before, read_all_entries_lem t d gs h healthy),
        insert_all-IsSorted (concat gs) older sorted,
        All-insert_all IsRecord (concat gs) older h.valid valid,
        λ q.
            get-insert_all q (concat gs) older h.sorted
            ∙ ap (or_else (get q (concat gs))) (older_get q),
      )

  -- The merge as a function of the runs.
  pub merged_values-compacted :
      (ts : List SsTable) (gss : List (List Group))
      → AllHold ts d gss
      → (merged_values ts d ≡ (ok (compacted (runs gss)), d))
        × IsSorted (compacted (runs gss))
        × All IsRecord (compacted (runs gss))
        × ((q : Bytes)
            → (get q (compacted (runs gss)) ≡ keep_if (is_value q) (newest q gss))
              × (seen (get q (compacted (runs gss))) ≡ seen (newest q gss)))
  unfolding merged_values compacted
  merged_values-compacted ts gss h =
      let (merged, sorted, valid, m_get) = merge_tables_lem ts gss h in
      let m = merge (runs gss) in
      let kept : (q : Bytes) → get q (retain is_value m) ≡ keep_if (is_value q) (newest q gss) =
        λ q. get-retain is_value q m sorted ∙ ap (keep_if (is_value q)) (m_get q) in
      (
        rw merged,
        retain-IsSorted is_value m sorted,
        All-retain IsRecord is_value m valid,
        λ q. (kept q, ap seen (kept q) ∙ seen-keep_if q (newest q gss)),
      )
