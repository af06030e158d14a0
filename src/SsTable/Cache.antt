-- ===== src/SsTable/Cache.antt =====
-- `BlockCache` of ferrumdb-core/src/sstable.rs: an LRU of block bytes by block offset. The
-- `HashMap` is an association list, and the `VecDeque` a list whose front is least recently used.
pub mod Lists
pub mod Valid
pub mod History
pub mod Recent
use ferrum_db.Base.{
  ℕ, ◌≡◌, Bool, true, false, not, ◌&&◌, Option, none, some, List, [], ◌∷◌, ◌++◌, length, leb,
  if◌then◌else◌, ◌==◌,
}
use ferrum_db.Base.Bytes.{Bytes}

abbrev pub Blocks : Type 0
Blocks = List (ℕ × Bytes)

-- `blocks.get(&offset)`
unfoldable pub find : ℕ → Blocks → Option Bytes
find o [] = none
find o ((p, b) ∷ m) = if p == o then some b else find o m

-- `blocks.remove(&offset)`
unfoldable pub remove : ℕ → Blocks → Blocks
remove o [] = []
remove o ((p, b) ∷ m) = let rest = remove o m in if p == o then rest else (p, b) ∷ rest

-- `blocks.contains_key(&offset)`
abbrev pub has : ℕ → Blocks → Bool
has o m = elim (find o m) [ none ↦ false | some b ↦ true ]

unfoldable pub mem : ℕ → List ℕ → Bool
mem o [] = false
mem o (p ∷ ps) = let rest = mem o ps in if p == o then true else rest

-- `lru.remove(pos)` at the first position of `offset`, where there is one.
unfoldable pub remove_first : ℕ → List ℕ → List ℕ
remove_first o [] = []
remove_first o (p ∷ ps) = let rest = remove_first o ps in if p == o then ps else p ∷ rest

pub record BlockCache : Type 0 where
  pub blocks : Blocks
  pub lru : List ℕ
  pub cap : ℕ

-- `BlockCache::new`
unfoldable pub new : ℕ → BlockCache
new cap = record { blocks = []; lru = []; cap = cap }

-- `BlockCache::touch`
unfoldable pub touch : ℕ → BlockCache → BlockCache
touch o c = record c { lru = remove_first o c.lru ++ (o ∷ []) }

-- `BlockCache::get`
unfoldable pub get : ℕ → BlockCache → Option Bytes × BlockCache
get o c = elim (find o c.blocks) [ none ↦ (none, c) | some b ↦ (some b, touch o c) ]

-- The eviction of `put`, by the state of the queue.
unfoldable pub evict : List ℕ → BlockCache → BlockCache
evict [] c = c
evict (oldest ∷ rest) c = record c { blocks = remove oldest c.blocks; lru = rest }

unfoldable pub make_room : ℕ → BlockCache → BlockCache
make_room o c = if not (has o c.blocks) && leb c.cap (length c.blocks) then evict c.lru c else c

-- `blocks.insert(offset, bytes)`, then `touch`.
unfoldable pub store : ℕ → Bytes → BlockCache → BlockCache
unfolding touch
store o b c = touch o (record c { blocks = (o, b) ∷ remove o c.blocks })

-- `BlockCache::put`
unfoldable pub put : ℕ → Bytes → BlockCache → BlockCache
put o b c = if c.cap == 0 then c else store o b (make_room o c)
