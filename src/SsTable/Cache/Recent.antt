-- ===== src/SsTable/Cache/Recent.antt =====
-- `BlockCache` of ferrumdb-core/src/sstable.rs holds what was used last.
use ferrum_db.Base.{
  ℕ, zero, suc, ◌<◌, ◌≡◌, refl, ap, ◌∙◌, sym, subst, true, false, not, ◌&&◌, some, List, [], ◌∷◌,
  ◌++◌, length, take, leb, if◌then◌else◌, ◌==◌, arith, Bool-cases, Option-cases, inl, inr, leb→le,
}
use ferrum_db.Base.Bytes.{Bytes}
use ferrum_db.SsTable.Cache.{
  BlockCache, Blocks, find, has, remove_first, new, touch, get, evict, make_room, store, put,
}
use ferrum_db.SsTable.Cache.Lists.{find-remove}
use ferrum_db.SsTable.Cache.Valid.{
  IsCache, is_front, new-IsCache, put-IsCache, get-IsCache, get_lem, find-put, cap-evict, get_miss,
}
use ferrum_db.SsTable.Cache.History.{
  Call, after, last_uses, recent, uses, Unique-last_uses, backwards, length-backwards,
  mem-backwards, remove_first_absent, remove_first-backwards, take-remove, take-remove_absent,
  has-take_le, take_short, backwards-full, Unique-take, puts, gets,
}

-- The queue without its front.
abbrev behind : List ℕ → List ℕ
behind [] = []
behind (o ∷ os) = os

lru-evict : (lru : List ℕ) (c : BlockCache) → c.lru ≡ lru → (evict lru c).lru ≡ behind lru
unfolding evict
lru-evict [] c e = e
lru-evict (o ∷ os) c e = refl

lru-put :
    (o : ℕ) (b : Bytes) (c : BlockCache)
    → 0 < c.cap
    → (put o b c).lru
      ≡ remove_first o
          (if not (has o c.blocks) && leb c.cap (length c.blocks) then behind c.lru else c.lru)
        ++ (o ∷ [])
unfolding put store touch make_room
lru-put o b c pos = ground (arith, lru-evict c.lru c refl)

cap-put : (o : ℕ) (b : Bytes) (c : BlockCache) → (put o b c).cap ≡ c.cap
unfolding put store touch make_room
cap-put o b c = ground (arith, cap-evict c.lru c)

cap-get : (o : ℕ) (c : BlockCache) → (get o c).1.cap ≡ c.cap
unfolding get touch
cap-get o c = ground arith

-- The cache holds the offsets that were used last, in their order.
record Tracks (n : ℕ) (us : Blocks) (c : BlockCache) : Type 0 where
  valid : IsCache c
  cap_is : c.cap ≡ suc n
  queue : c.lru ≡ backwards (recent (suc n) us)
  shows : (q : ℕ) → find q c.blocks ≡ find q (recent (suc n) us)

-- A use of an offset that is among them.
queue-used :
    (n o : ℕ) (b : Bytes) (us : Blocks)
    → has o (recent (suc n) us) ≡ true
    → remove_first o (backwards (recent (suc n) us)) ++ (o ∷ [])
      ≡ backwards (recent (suc n) ((o, b) ∷ us))
unfolding last_uses backwards
queue-used n o b us there =
    let m = last_uses us in
    ap (λ l. l ++ (o ∷ []))
      (remove_first-backwards o (take (suc n) m) (Unique-take (suc n) m (Unique-last_uses us))
        ∙ ap backwards (sym (take-remove o n m (Unique-last_uses us) there)))

find-used :
    (n o q : ℕ) (b : Bytes) (us : Blocks)
    → has o (recent (suc n) us) ≡ true
    → find q (recent (suc n) ((o, b) ∷ us))
      ≡ (if o == q then some b else find q (recent (suc n) us))
unfolding last_uses find
find-used n o q b us there =
    let m = last_uses us in
    rw (take-remove o n m (Unique-last_uses us) there)
      (ground (arith, find-remove q o (take (suc n) m)))

get-Tracks :
    (n o : ℕ) (b : Bytes) (us : Blocks) (c : BlockCache)
    → Tracks n us c
    → find o c.blocks ≡ some b
    → Tracks n ((o, b) ∷ us) (get o c).1
get-Tracks n o b us c t hit =
    let (_, same, moved) = get_lem o c in
    let there : has o (recent (suc n) us) ≡ true = ground (arith, hit, t.shows o) in
    record {
      valid = get-IsCache o c t.valid;
      cap_is = cap-get o c ∙ t.cap_is;
      queue = moved ∙ (rw (hit, has, t.queue) (queue-used n o b us there));
      shows = λ q.
          ap (find q) same ∙ ground (arith, find-used n o q b us there, t.shows q, t.shows o, hit);
    }

-- A use of an offset that is not among them, where there is room, and where there is none.
recent-new :
    (n o : ℕ) (b : Bytes) (us : Blocks)
    → has o (recent (suc n) us) ≡ false
    → recent (suc n) ((o, b) ∷ us) ≡ (o, b) ∷ recent n us
unfolding last_uses
recent-new n o b us absent =
    let m = last_uses us in ap (◌∷◌ (o, b)) (take-remove_absent o n m (has-take_le o n m absent))

-- A `put` that finds the offset among them, one that pushes another offset out, and one with room.
module _ (n o : ℕ) (b : Bytes) (us : Blocks) (c : BlockCache) (t : Tracks n us c) where
  length-recent : length c.blocks ≡ length (recent (suc n) us)
  length-recent = t.valid.counted ∙ (ap length t.queue ∙ length-backwards (recent (suc n) us))

  positive : 0 < c.cap
  positive = omega (arith, t.cap_is)

  -- What is left to show of a `put`.
  put-is :
      (put o b c).lru ≡ backwards (recent (suc n) ((o, b) ∷ us))
      → ((q : ℕ) → find q (put o b c).blocks ≡ find q (recent (suc n) ((o, b) ∷ us)))
      → Tracks n ((o, b) ∷ us) (put o b c)
  put-is queue shows = record {
    valid = put-IsCache o b c t.valid;
    cap_is = cap-put o b c ∙ t.cap_is;
    queue = queue;
    shows = shows;
  }

  put-again : has o c.blocks ≡ true → Tracks n ((o, b) ∷ us) (put o b c)
  put-again there =
      let inside : has o (recent (suc n) us) ≡ true = ground (arith, there, t.shows o) in
      put-is (lru-put o b c positive ∙ rw (there, t.queue) (queue-used n o b us inside)) (λ q.
        find-put q o b c positive ∙ ground (arith, there, find-used n o q b us inside, t.shows q))

  module _ (absent : has o c.blocks ≡ false) where
    out : has o (recent (suc n) us) ≡ false
    out = ground (arith, absent, t.shows o)

    -- The offset goes to the end of a queue that does not have it.
    queue-new :
        remove_first o (backwards (recent n us)) ++ (o ∷ [])
        ≡ backwards (recent (suc n) ((o, b) ∷ us))
    unfolding backwards
    queue-new =
        ap (λ l. l ++ (o ∷ []))
          (remove_first_absent o (backwards (recent n us))
            (mem-backwards o (recent n us) ∙ has-take_le o n (last_uses us) out))
        ∙ ap backwards (sym (recent-new n o b us out))

    put-full : leb c.cap (length c.blocks) ≡ true → Tracks n ((o, b) ∷ us) (put o b c)
    unfolding find
    put-full full =
        let filled : length (recent (suc n) us) ≡ suc n =
          omega (
            arith,
            length-recent,
            t.valid.bounded,
            t.cap_is,
            leb→le c.cap (length c.blocks) full,
          ) in
        let (p, e, others, there) = backwards-full n (last_uses us) (Unique-last_uses us) filled in
        let fallen : behind c.lru ≡ backwards (recent n us) = ap behind (t.queue ∙ e) in
        put-is (lru-put o b c positive ∙ rw (absent, full, fallen) queue-new) (λ q.
          let front : is_front q c.lru ≡ (p == q) = ap (is_front q) (t.queue ∙ e) in
          find-put q o b c positive
          ∙ rw (recent-new n o b us out) (ground (arith, absent, full, front, others q, t.shows q)))

    put-room : leb c.cap (length c.blocks) ≡ false → Tracks n ((o, b) ∷ us) (put o b c)
    unfolding find
    put-room room =
        let same : recent n us ≡ recent (suc n) us =
          take_short n (last_uses us) (ground (arith, length-recent, t.cap_is, room)) in
        put-is (lru-put o b c positive ∙ rw (absent, room, t.queue) (rw same at queue-new)) (λ q.
          find-put q o b c positive
          ∙ rw (absent, room, recent-new n o b us out, same)
              (ap (λ x. if o == q then some b else x) (t.shows q)))

  put-Tracks : Tracks n ((o, b) ∷ us) (put o b c)
  put-Tracks = elim (Bool-cases (has o c.blocks)) [
    | inl there ↦ put-again there
    | inr absent ↦ elim (Bool-cases (leb c.cap (length c.blocks))) [
      | inl full ↦ put-full absent full
      | inr room ↦ put-room absent room
    ]
  ]

after-Tracks : (n : ℕ) (calls : List Call) → Tracks n (uses (suc n) calls) (after (suc n) calls)
unfolding after uses last_uses backwards new find
after-Tracks n [] = record {
  valid = new-IsCache (suc n);
  cap_is = refl;
  queue = refl;
  shows = λ q. refl;
}
after-Tracks n (puts o b ∷ calls) =
    put-Tracks n o b (uses (suc n) calls) (after (suc n) calls) (after-Tracks n calls)
after-Tracks n (gets o ∷ calls) =
    let us = uses (suc n) calls in
    let c = after (suc n) calls in
    let t = after-Tracks n calls in
    elim (Option-cases (find o (recent (suc n) us))) [
      | inl out ↦
          rw (out, uses) (subst (λ x. Tracks n us x.1) (sym (get_miss o c (t.shows o ∙ out))) t)
      | inr (b, inside) ↦ rw (inside, uses) (get-Tracks n o b us c t (t.shows o ∙ inside))
    ]

-- After any sequence of `put` and `get` on a new cache whose `cap` is positive, `get` answers the
-- bytes of an offset if it is among the `cap` offsets that were used last, and nothing otherwise. A
-- use is a `put`, which gives the offset its bytes, or a `get` that hits.
pub get-recent :
    (cap o : ℕ) (calls : List Call)
    → 0 < cap
    → (get o (after cap calls)).0 ≡ find o (recent cap (uses cap calls))
get-recent zero o calls pos = absurd (omega arith)
get-recent (suc n) o calls pos =
    let t = after-Tracks n calls in (get_lem o (after (suc n) calls)).0 ∙ t.shows o
