-- ===== src/SsTable/Cache/Valid.antt =====
-- The cache's invariant, and what its operations do to it and to what it holds.
use ferrum_db.Base.{
  ℕ, ◌+◌, ◌≤◌, ◌<◌, ◌≡◌, refl, Bool, true, false, none, some, List, [], ◌∷◌, ◌++◌, length,
  length-append, if◌then◌else◌, ◌==◌, arith, ap, leb, not, ◌&&◌, ◌⊎◌, inl, inr, Bool-cases,
  Option-cases,
}
use ferrum_db.Base.Bytes.{Bytes}
use ferrum_db.SsTable.Cache.{
  BlockCache, find, has, mem, remove_first, new, touch, get, evict, make_room, store, put,
}
use ferrum_db.SsTable.Cache.Lists.{
  Unique, Distinct, find-remove, Unique-remove, remove_absent, length-remove, mem-append,
  mem-remove_first, Distinct-remove_first, Distinct-append, length-remove_first,
}

-- `q` stands in front of the queue.
abbrev pub is_front : ℕ → List ℕ → Bool
is_front q [] = false
is_front q (p ∷ ps) = p == q

-- The queue holds the offsets of the blocks, each once, and there are at most `cap`.
pub record IsCache (c : BlockCache) : Type 0 where
  pub unique : Unique c.blocks
  pub distinct : Distinct c.lru
  pub queued : (o : ℕ) → has o c.blocks ≡ mem o c.lru
  pub counted : length c.blocks ≡ length c.lru
  pub bounded : length c.blocks ≤ c.cap

pub new-IsCache : (cap : ℕ) → IsCache (new cap)
unfolding new find mem
new-IsCache cap = record {
  unique = tt;
  distinct = tt;
  queued = λ o. refl;
  counted = refl;
  bounded = omega arith;
}

mem-touched :
    (q o : ℕ) (ps : List ℕ)
    → Distinct ps
    → mem q (remove_first o ps ++ (o ∷ [])) ≡ (if o == q then true else mem q ps)
mem-touched q o ps d = ground (arith, mem-append q o (remove_first o ps), mem-remove_first q o ps d)

Distinct-touched : (o : ℕ) (ps : List ℕ) → Distinct ps → Distinct (remove_first o ps ++ (o ∷ []))
Distinct-touched o ps d =
    Distinct-append o (remove_first o ps) (Distinct-remove_first o ps d)
      (ground (arith, mem-remove_first o o ps d))

length-touched :
    (o : ℕ) (ps : List ℕ)
    → length (remove_first o ps ++ (o ∷ [])) + (if mem o ps then 1 else 0) ≡ length ps + 1
length-touched o ps =
    omega (arith, length-append (remove_first o ps) (o ∷ []), length-remove_first o ps)

-- `touch` of an offset that is there keeps the invariant.
touch-IsCache : (o : ℕ) (c : BlockCache) → IsCache c → has o c.blocks ≡ true → IsCache (touch o c)
unfolding touch
touch-IsCache o c v h = record {
  unique = v.unique;
  distinct = Distinct-touched o c.lru v.distinct;
  queued = λ q. ground (arith, mem-touched q o c.lru v.distinct, v.queued q, v.queued o);
  counted = ground (arith, length-touched o c.lru, v.queued o, v.counted);
  bounded = v.bounded;
}

-- `get` keeps the cache well formed, whether it hits or misses.
pub get-IsCache : (o : ℕ) (c : BlockCache) → IsCache c → IsCache (get o c).1
unfolding get
get-IsCache o c v = elim (Option-cases (find o c.blocks)) [
  | inl miss ↦ rw (miss, get) v
  | inr (b, hit) ↦ rw (hit, get) (touch-IsCache o c v (ground arith))
]

-- Evicting takes the front of the queue out of both.
evict-IsCache : (lru : List ℕ) (c : BlockCache) → c.lru ≡ lru → IsCache c → IsCache (evict lru c)
unfolding evict mem
evict-IsCache [] c e v = v
evict-IsCache (oldest ∷ rest) c e v =
    let d = rw e at v.distinct in
    let here : has oldest c.blocks ≡ true = ground (arith, v.queued oldest, e) in
    record {
      unique = Unique-remove oldest c.blocks v.unique;
      distinct = d.1;
      queued = λ q. ground (arith, find-remove q oldest c.blocks, v.queued q, e, d.0);
      counted = ground (arith, length-remove oldest c.blocks v.unique here, v.counted, e);
      bounded = ground (arith, length-remove oldest c.blocks v.unique here, v.bounded);
    }

-- The cache is not full, or holds `o` already.
abbrev HasRoom : ℕ → BlockCache → Type 0
HasRoom o c = (has o c.blocks ≡ true) ⊎ (length c.blocks < c.cap)

evict-HasRoom :
    (o : ℕ) (lru : List ℕ) (c : BlockCache)
    → c.lru ≡ lru
    → IsCache c
    → 0 < c.cap
    → HasRoom o (evict lru c)
unfolding evict mem
evict-HasRoom o [] c e v pos = inr (omega (arith, v.counted, ap length e))
evict-HasRoom o (oldest ∷ rest) c e v pos =
    let here : has oldest c.blocks ≡ true = ground (arith, v.queued oldest, e) in
    inr (omega (arith, length-remove oldest c.blocks v.unique here, v.bounded))

pub cap-evict : (lru : List ℕ) (c : BlockCache) → (evict lru c).cap ≡ c.cap
unfolding evict
cap-evict [] c = refl
cap-evict (oldest ∷ rest) c = refl

make_room_lem :
    (o : ℕ) (c : BlockCache)
    → IsCache c
    → 0 < c.cap
    → IsCache (make_room o c) × HasRoom o (make_room o c)
unfolding make_room
make_room_lem o c v pos = elim (Bool-cases (not (has o c.blocks) && leb c.cap (length c.blocks))) [
  | inl full ↦ rw full (evict-IsCache c.lru c refl v, evict-HasRoom o c.lru c refl v pos)
  | inr fits ↦ rw fits (v, ground arith)
]

store-IsCache :
    (o : ℕ) (b : Bytes) (c : BlockCache) → IsCache c → HasRoom o c → IsCache (store o b c)
unfolding store
store-IsCache o b c v room = record {
  unique = (ground (arith, find-remove o o c.blocks), Unique-remove o c.blocks v.unique);
  distinct = Distinct-touched o c.lru v.distinct;
  queued = λ q.
      unfold find in
      ground (arith, find-remove q o c.blocks, mem-touched q o c.lru v.distinct, v.queued q);
  counted = ground (
    arith,
    length-touched o c.lru,
    v.queued o,
    v.counted,
    length-remove o c.blocks v.unique,
    remove_absent o c.blocks,
  );
  bounded =
      ground (arith, v.bounded, length-remove o c.blocks v.unique, remove_absent o c.blocks, room);
}

-- `put` keeps the cache well formed: its queue holds the offsets of its blocks, each once, and
-- there are at most `cap` of them.
pub put-IsCache : (o : ℕ) (b : Bytes) (c : BlockCache) → IsCache c → IsCache (put o b c)
unfolding put
put-IsCache o b c v = elim (Bool-cases (c.cap == 0)) [
  | inl off ↦ rw off v
  | inr on ↦
      let (valid, room) = make_room_lem o c v (ground arith) in
      rw on (store-IsCache o b (make_room o c) valid room)
]

find-evict :
    (q : ℕ) (lru : List ℕ) (c : BlockCache)
    → find q (evict lru c).blocks ≡ (if is_front q lru then none else find q c.blocks)
unfolding evict
find-evict q [] c = refl
find-evict q (oldest ∷ rest) c = find-remove q oldest c.blocks

find-make_room :
    (q o : ℕ) (c : BlockCache)
    → find q (make_room o c).blocks ≡ (
        if not (has o c.blocks) && leb c.cap (length c.blocks) && is_front q c.lru
        then none
        else find q c.blocks)
unfolding make_room
find-make_room q o c = ground (arith, find-evict q c.lru c)

-- What a `put` of `o` leaves under each offset, where `cap` is positive: the new bytes under `o`;
-- nothing under the offset in front of the queue, where `o` was not there and the cache was full;
-- elsewhere what was there.
pub find-put :
    (q o : ℕ) (b : Bytes) (c : BlockCache)
    → 0 < c.cap
    → find q (put o b c).blocks ≡ (
        if o == q
        then some b
        else if not (has o c.blocks) && leb c.cap (length c.blocks) && is_front q c.lru
        then none
        else find q c.blocks)
unfolding put store find
find-put q o b c pos = ground (arith, find-remove q o (make_room o c).blocks, find-make_room q o c)

-- A hit returns the bytes under the offset and moves it to the most recently used end.
pub get_lem :
    (o : ℕ) (c : BlockCache)
    → ((get o c).0 ≡ find o c.blocks)
      × ((get o c).1.blocks ≡ c.blocks)
      × ((get o c).1.lru ≡ (if has o c.blocks then remove_first o c.lru ++ (o ∷ []) else c.lru))
unfolding get touch
get_lem o c = ground arith

-- Whatever `put` leaves is the new bytes under `o`, or was there before.
pub find-put_either :
    (q o : ℕ) (b x : Bytes) (c : BlockCache)
    → find q (put o b c).blocks ≡ some x
    → ((q ≡ o) × (x ≡ b)) ⊎ (find q c.blocks ≡ some x)
find-put_either q o b x c h = elim (Bool-cases (c.cap == 0)) [
  | inl off ↦ inr (unfold put in (rw off at h))
  | inr on ↦ ground (arith, find-put q o b c (ground arith))
]

pub get_miss : (o : ℕ) (c : BlockCache) → find o c.blocks ≡ none → get o c ≡ (none, c)
unfolding get
get_miss o c miss = rw (miss, get)

pub get_hit :
    (o : ℕ) (c : BlockCache) (b : Bytes)
    → find o c.blocks ≡ some b
    → get o c ≡ (some b, (get o c).1)
unfolding get
get_hit o c b hit = rw (hit, get)
