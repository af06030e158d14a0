-- ===== src/SsTable/Cache/Lists.antt =====
-- The cache's association list and queue.
use ferrum_db.Base.{
  ℕ, ◌+◌, ◌≡◌, refl, true, false, none, List, [], ◌∷◌, ◌++◌, length, if◌then◌else◌, ◌==◌, arith,
}
use ferrum_db.SsTable.Cache.{Blocks, find, remove, has, mem, remove_first}

-- No offset stands twice.
abbrev pub Unique : Blocks → Type 0
Unique [] = Unit
Unique ((o, b) ∷ m) = (find o m ≡ none) × Unique m

abbrev pub Distinct : List ℕ → Type 0
Distinct [] = Unit
Distinct (o ∷ os) = (mem o os ≡ false) × Distinct os

pub find-remove : (q o : ℕ) (m : Blocks) → find q (remove o m) ≡ (if o == q then none else find q m)
unfolding find remove
find-remove q o [] = ground arith
find-remove q o ((p, b) ∷ m) = ground (arith, find-remove q o m)

pub Unique-remove : (o : ℕ) (m : Blocks) → Unique m → Unique (remove o m)
unfolding remove
Unique-remove o [] u = tt
Unique-remove o ((p, b) ∷ m) u = ground (arith, Unique-remove o m u.1, find-remove p o m)

pub remove_absent : (o : ℕ) (m : Blocks) → find o m ≡ none → remove o m ≡ m
unfolding find remove
remove_absent o [] h = refl
remove_absent o ((p, b) ∷ m) h = ground (arith, remove_absent o m)

pub length-remove :
    (o : ℕ) (m : Blocks) → Unique m → has o m ≡ true → length (remove o m) + 1 ≡ length m
unfolding find remove
length-remove o [] u h = cc
length-remove o ((p, b) ∷ m) u h = ground (arith, length-remove o m u.1, remove_absent o m, u.0)

pub mem-append :
    (q o : ℕ) (ps : List ℕ) → mem q (ps ++ (o ∷ [])) ≡ (if o == q then true else mem q ps)
unfolding mem
mem-append q o [] = refl
mem-append q o (p ∷ ps) = ground (arith, mem-append q o ps)

pub mem-remove_first :
    (q o : ℕ) (ps : List ℕ)
    → Distinct ps
    → mem q (remove_first o ps) ≡ (if o == q then false else mem q ps)
unfolding mem remove_first
mem-remove_first q o [] d = ground arith
mem-remove_first q o (p ∷ ps) d = ground (arith, mem-remove_first q o ps d.1, d.0)

pub Distinct-remove_first : (o : ℕ) (ps : List ℕ) → Distinct ps → Distinct (remove_first o ps)
unfolding mem remove_first
Distinct-remove_first o [] d = tt
Distinct-remove_first o (p ∷ ps) d =
    ground (arith, Distinct-remove_first o ps d.1, mem-remove_first p o ps d.1)

pub Distinct-append :
    (o : ℕ) (ps : List ℕ) → Distinct ps → mem o ps ≡ false → Distinct (ps ++ (o ∷ []))
unfolding mem
Distinct-append o [] d h = (refl, tt)
Distinct-append o (p ∷ ps) d h = ground (arith, Distinct-append o ps d.1, mem-append p o ps)

pub length-remove_first :
    (o : ℕ) (ps : List ℕ) → length (remove_first o ps) + (if mem o ps then 1 else 0) ≡ length ps
unfolding mem remove_first
length-remove_first o [] = omega arith
length-remove_first o (p ∷ ps) = ground (arith, length-remove_first o ps)
