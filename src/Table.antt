-- ===== src/Table.antt =====
-- `Table::scan_prefix`'s bounds, of ferrumdb/src/table.rs.
pub mod Prefix
pub mod Handle
use ferrum_db.Base.{ℕ, suc, Option, none, some, List, [], ◌∷◌, ◌++◌, ltb, if◌then◌else◌}
use ferrum_db.Base.Bytes.{Bytes}
use ferrum_db.Store.Bounds.{Bound, unbounded, excluded}

-- The bytes of `end` from the last one on.
unfoldable pub from_last : Bytes → Bytes
from_last [] = []
from_last (b ∷ bs) = from_last bs ++ (b ∷ [])

-- The `while` loop of `prefix_upper_bound`, on the bytes from the last one on.
unfoldable pub upper_loop : Bytes → Option Bytes
upper_loop [] = none
upper_loop (last ∷ rest) =
    let popped = upper_loop rest in if ltb last 255 then some (suc last ∷ rest) else popped

-- `prefix_upper_bound`
unfoldable pub prefix_upper_bound : Bytes → Option Bytes
prefix_upper_bound prefix = elim (upper_loop (from_last prefix)) [
  | none ↦ none
  | some end ↦ some (from_last end)
]

-- The upper bound of `scan_prefix`.
unfoldable pub upper_bound : Option Bytes → Bound
upper_bound none = unbounded
upper_bound (some u) = excluded u
