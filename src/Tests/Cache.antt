-- ===== src/Tests/Cache.antt =====
-- Runs of the block cache.
use ferrum_db.Base.{◌≡◌, none, List, [], ◌∷◌, arith}
use ferrum_db.SsTable.Cache.{get, find, remove}
use ferrum_db.SsTable.Cache.History.{Call, puts, gets, after, uses, last_uses}
use ferrum_db.SsTable.Cache.Recent.{get-recent}

-- The block at 0 is read again before a third one is put in, which pushes out the one at 4096. The
-- last call stands first.
abbrev calls : List Call
calls = puts 8192 (3 ∷ []) ∷ gets 0 ∷ puts 4096 (2 ∷ []) ∷ puts 0 (1 ∷ []) ∷ []

get-recent_example : (get 4096 (after 2 calls)).0 ≡ none
unfolding uses last_uses find remove
get-recent_example = get-recent 2 4096 calls (omega arith)
