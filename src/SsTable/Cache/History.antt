-- ===== src/SsTable/Cache/History.antt =====
-- `BlockCache` of ferrumdb-core/src/sstable.rs and the history of its calls: which offsets
-- were used last.
use ferrum_db.Base.{
  ℕ, zero, suc, ◌≤◌, ◌≡◌, refl, ap, ◌∙◌, true, false, none, some, List, [], ◌∷◌, ◌++◌, length,
  length-append, take, if◌then◌else◌, ◌==◌, arith,
}
use ferrum_db.Base.Bytes.{Bytes}
use ferrum_db.SsTable.Cache.{
  BlockCache, Blocks, find, has, mem, remove, remove_first, new, get, put,
}
use ferrum_db.SsTable.Cache.Lists.{Unique, find-remove, Unique-remove, remove_absent, mem-append}

pub data Call : Type 0 where
  puts : ℕ → Bytes → Call
  gets : ℕ → Call

-- The cache after the calls, the last of which stands first.
unfoldable pub after : ℕ → List Call → BlockCache
after cap [] = new cap
after cap (puts o b ∷ calls) = put o b (after cap calls)
after cap (gets o ∷ calls) = (get o (after cap calls)).1

-- Of all uses, the last one first, only the last of each offset.
unfoldable pub last_uses : Blocks → Blocks
last_uses [] = []
last_uses ((o, b) ∷ uses) = (o, b) ∷ remove o (last_uses uses)

-- The `cap` offsets that were used last, with their bytes.
abbrev pub recent : ℕ → Blocks → Blocks
recent cap uses = take cap (last_uses uses)

-- The uses of offsets: each `put`, and each `get` of one of the `cap` offsets that were used last.
unfoldable pub uses : ℕ → List Call → Blocks
uses cap [] = []
uses cap (puts o b ∷ calls) = (o, b) ∷ uses cap calls
uses cap (gets o ∷ calls) =
    let before = uses cap calls in
    elim (find o (recent cap before)) [ none ↦ before | some b ↦ (o, b) ∷ before ]

pub Unique-last_uses : (us : Blocks) → Unique (last_uses us)
unfolding last_uses
Unique-last_uses [] = tt
Unique-last_uses ((o, b) ∷ us) = (
  ground (arith, find-remove o o (last_uses us)),
  Unique-remove o (last_uses us) (Unique-last_uses us),
)

-- The offsets from the last one on.
unfoldable pub backwards : Blocks → List ℕ
backwards [] = []
backwards ((o, b) ∷ m) = backwards m ++ (o ∷ [])

pub length-backwards : (m : Blocks) → length (backwards m) ≡ length m
unfolding backwards
length-backwards [] = refl
length-backwards ((o, b) ∷ m) =
    omega (arith, length-append (backwards m) (o ∷ []), length-backwards m)

pub mem-backwards : (q : ℕ) (m : Blocks) → mem q (backwards m) ≡ has q m
unfolding backwards mem find
mem-backwards q [] = refl
mem-backwards q ((o, b) ∷ m) = ground (arith, mem-append q o (backwards m), mem-backwards q m)

pub remove_first_absent : (o : ℕ) (ps : List ℕ) → mem o ps ≡ false → remove_first o ps ≡ ps
unfolding remove_first mem
remove_first_absent o [] h = refl
remove_first_absent o (p ∷ ps) h = ground (arith, remove_first_absent o ps)

pub remove_first-append :
    (o p : ℕ) (ps : List ℕ)
    → remove_first o (ps ++ (p ∷ []))
      ≡ (if mem o ps then remove_first o ps ++ (p ∷ []) else if p == o then ps else ps ++ (p ∷ []))
unfolding remove_first mem
remove_first-append o p [] = ground arith
remove_first-append o p (q ∷ ps) = ground (arith, remove_first-append o p ps)

pub remove_first-backwards :
    (o : ℕ) (m : Blocks) → Unique m → remove_first o (backwards m) ≡ backwards (remove o m)
unfolding backwards remove_first remove find
remove_first-backwards o [] u = refl
remove_first-backwards o ((p, b) ∷ m) u =
    remove_first-append o p (backwards m)
    ∙ ground (
      arith,
      remove_first-backwards o m u.1,
      mem-backwards o m,
      remove_absent o m,
      remove_first_absent o (backwards m),
      u.0,
    )

pub find-take_absent : (o n : ℕ) (m : Blocks) → find o m ≡ none → find o (take n m) ≡ none
unfolding find
find-take_absent o zero [] h = refl
find-take_absent o (suc n) [] h = refl
find-take_absent o zero ((p, b) ∷ m) h = refl
find-take_absent o (suc n) ((p, b) ∷ m) h = ground (arith, find-take_absent o n m)

-- The first `n` of the others, where `o` is among the first `n + 1`, and where it is not.
pub take-remove :
    (o n : ℕ) (m : Blocks)
    → Unique m
    → has o (take (suc n) m) ≡ true
    → take n (remove o m) ≡ remove o (take (suc n) m)
unfolding remove find
take-remove o n [] u h = cc
take-remove o zero ((p, b) ∷ m) u h = ground arith
take-remove o (suc n) ((p, b) ∷ m) u h = ground (
  arith,
  take-remove o n m u.1,
  remove_absent o m,
  remove_absent o (take (suc n) m),
  find-take_absent o (suc n) m,
  u.0,
)

pub take-remove_absent :
    (o n : ℕ) (m : Blocks) → has o (take n m) ≡ false → take n (remove o m) ≡ take n m
unfolding remove find
take-remove_absent o n [] h = refl
take-remove_absent o zero ((p, b) ∷ m) h = refl
take-remove_absent o (suc n) ((p, b) ∷ m) h = ground (arith, take-remove_absent o n m)

pub has-take_le : (o n : ℕ) (m : Blocks) → has o (take (suc n) m) ≡ false → has o (take n m) ≡ false
unfolding find
has-take_le o zero [] h = refl
has-take_le o (suc n) [] h = refl
has-take_le o zero ((p, b) ∷ m) h = refl
has-take_le o (suc n) ((p, b) ∷ m) h = ground (arith, has-take_le o n m)

pub take_short : (n : ℕ) (m : Blocks) → length (take (suc n) m) ≤ n → take n m ≡ take (suc n) m
take_short zero [] h = refl
take_short (suc n) [] h = refl
take_short zero ((p, b) ∷ m) h = absurd (omega arith)
take_short (suc n) ((p, b) ∷ m) h = ap (◌∷◌ (p, b)) (take_short n m (omega arith))

-- Of a full list, the queue starts with the offset that falls out.
pub backwards-full :
    (n : ℕ) (m : Blocks)
    → Unique m
    → length (take (suc n) m) ≡ suc n
    → (p : ℕ) × (backwards (take (suc n) m) ≡ p ∷ backwards (take n m))
      × ((q : ℕ) → find q (take n m) ≡ (if p == q then none else find q (take (suc n) m)))
      × (has p (take (suc n) m) ≡ true)
unfolding backwards find
backwards-full n [] u full = absurd (omega arith)
backwards-full zero ((o, b) ∷ m) u full = (o, refl, λ q. ground arith, ground arith)
backwards-full (suc n) ((o, b) ∷ m) u full =
    let (p, e, others, there) = backwards-full n m u.1 (omega arith) in
    let apart = find-take_absent o (suc n) m u.0 in
    (
      p,
      ap (λ l. l ++ (o ∷ [])) e,
      λ q. ground (arith, others q, there, apart),
      ground (arith, there),
    )

pub Unique-take : (n : ℕ) (m : Blocks) → Unique m → Unique (take n m)
Unique-take zero [] u = tt
Unique-take (suc n) [] u = tt
Unique-take zero ((p, b) ∷ m) u = tt
Unique-take (suc n) ((p, b) ∷ m) (absent, u) = (find-take_absent p n m absent, Unique-take n m u)
