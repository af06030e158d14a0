-- ===== src/SsTable/Bloom/Membership.antt =====
-- A filter never denies a key that was added to it.
use ferrum_db.Base.{
  ℕ, zero, suc, ◌+◌, ◌*◌, ◌/◌, ◌<◌, ◌≡◌, refl, ◌∙◌, Bool, true, List, [], ◌∷◌, length, All, arith,
  max, All-replicate, length-replicate, All-imp,
}
use ferrum_db.Base.Bytes.{Bytes, IsByte}
use ferrum_db.Errors.{ok}
use ferrum_db.SsTable.Bloom.{
  BloomFilter, new, positions_from, positions, set_bit, test_bit, set_bits, test_bits, add,
  maybe_contains, add_all,
}
use ferrum_db.SsTable.Bloom.Bits.{
  length-set_bit, set_bit-IsByte, test_bit-set_bit_self, test_bit-set_bit,
}

pub record IsFilter (f : BloomFilter) : Type 0 where
  pub all_bytes : All IsByte f.bits
  pub nonempty : 0 < length f.bits

pub length-set_bits : (bits : Bytes) (ps : List ℕ) → length (set_bits bits ps) ≡ length bits
unfolding set_bits
length-set_bits bits [] = refl
length-set_bits bits (p ∷ ps) = length-set_bits (set_bit bits p) ps ∙ length-set_bit bits p

set_bits-IsByte : (bits : Bytes) (ps : List ℕ) → All IsByte bits → All IsByte (set_bits bits ps)
unfolding set_bits
set_bits-IsByte bits [] h = h
set_bits-IsByte bits (p ∷ ps) h = set_bits-IsByte (set_bit bits p) ps (set_bit-IsByte bits p h)

test_bit-set_bits :
    (bits : Bytes) (ps : List ℕ) (q : ℕ)
    → All IsByte bits
    → test_bit bits q ≡ true
    → test_bit (set_bits bits ps) q ≡ true
unfolding set_bits
test_bit-set_bits bits [] q h t = t
test_bit-set_bits bits (p ∷ ps) q h t =
    test_bit-set_bits (set_bit bits p) ps q (set_bit-IsByte bits p h)
      (test_bit-set_bit bits p q h t)

test_bits-set_bits :
    (bits : Bytes) (ps qs : List ℕ)
    → All IsByte bits
    → test_bits bits qs ≡ true
    → test_bits (set_bits bits ps) qs ≡ true
unfolding test_bits
test_bits-set_bits bits ps [] h t = refl
test_bits-set_bits bits ps (q ∷ qs) h t =
    ground (arith, test_bit-set_bits bits ps q h, test_bits-set_bits bits ps qs h)

test_bits-set_bits_self :
    (bits : Bytes) (ps : List ℕ)
    → All IsByte bits
    → All (λ p. p < length bits * 8) ps
    → test_bits (set_bits bits ps) ps ≡ true
unfolding test_bits set_bits
test_bits-set_bits_self bits [] h r = refl
test_bits-set_bits_self bits (p ∷ ps) h r =
    let next = set_bit bits p in
    let bytes = set_bit-IsByte bits p h in
    let in_next : All (λ q. q < length next * 8) ps =
      All-imp (λ q (lt : q < length bits * 8). omega (arith, length-set_bit bits p)) ps r.1 in
    ground (
      arith,
      test_bit-set_bits next ps p bytes (test_bit-set_bit_self bits p h r.0),
      test_bits-set_bits_self next ps bytes in_next,
    )

positions_from_bound : (h1 h2 m n i : ℕ) → 0 < m → All (λ p. p < m) (positions_from h1 h2 m n i)
unfolding positions_from
positions_from_bound h1 h2 m zero i pos = tt
positions_from_bound h1 h2 m (suc n) i pos =
    (omega arith, positions_from_bound h1 h2 m n (i + 1) pos)

-- The positions depend on the filter's size alone.
positions-add : (f : BloomFilter) (key q : Bytes) → positions (add f key) q ≡ positions f q
unfolding positions add
positions-add f key q = rw (length-set_bits f.bits (positions f key))

-- The filter answers that `key` may be there.
abbrev pub Admits : BloomFilter → Bytes → Type 0
Admits f key = maybe_contains f key ≡ ok true

tests_of_Admits :
    (f : BloomFilter) (key : Bytes) → Admits f key → test_bits f.bits (positions f key) ≡ true
unfolding maybe_contains
tests_of_Admits f key h = ground arith

Admits-test_bits :
    (f : BloomFilter) (key : Bytes)
    → IsFilter f
    → test_bits f.bits (positions f key) ≡ true
    → Admits f key
unfolding maybe_contains
Admits-test_bits f key v h = ground arith

-- `add` keeps a filter well formed.
pub add-IsFilter : (f : BloomFilter) (key : Bytes) → IsFilter f → IsFilter (add f key)
unfolding add
add-IsFilter f key v = record {
  all_bytes = set_bits-IsByte f.bits (positions f key) v.all_bytes;
  nonempty = omega (arith, length-set_bits f.bits (positions f key), v.nonempty);
}

pub Admits-add_self : (f : BloomFilter) (key : Bytes) → IsFilter f → Admits (add f key) key
Admits-add_self f key v = Admits-test_bits (add f key) key (add-IsFilter f key v) (
    rw (positions-add f key key) (
      unfold add positions in
      test_bits-set_bits_self f.bits (positions f key) v.all_bytes
        (positions_from_bound _ _ _ _ _ (omega (arith, v.nonempty)))))

pub Admits-add : (f : BloomFilter) (key q : Bytes) → IsFilter f → Admits f q → Admits (add f key) q
Admits-add f key q v h = Admits-test_bits (add f key) q (add-IsFilter f key v) (
    rw (positions-add f key q) (
      unfold add in
      test_bits-set_bits f.bits (positions f key) (positions f q) v.all_bytes
        (tests_of_Admits f q h)))

Admits-add_all :
    (f : BloomFilter) (keys : List Bytes) (q : Bytes)
    → IsFilter f
    → Admits f q
    → Admits (add_all f keys) q
unfolding add_all
Admits-add_all f [] q v h = h
Admits-add_all f (key ∷ keys) q v h =
    Admits-add_all (add f key) keys q (add-IsFilter f key v) (Admits-add f key q v h)

pub new-IsFilter : (n : ℕ) → IsFilter (new n)
unfolding new
new-IsFilter n =
    let size = (max (n * 10) 64 + 7) / 8 in
    record {
      all_bytes = All-replicate IsByte size 0 (omega arith);
      nonempty = omega (arith, length-replicate {A = ℕ} size 0);
    }

pub add_all-IsFilter :
    (f : BloomFilter) (keys : List Bytes) → IsFilter f → IsFilter (add_all f keys)
unfolding add_all
add_all-IsFilter f [] v = v
add_all-IsFilter f (key ∷ keys) v = add_all-IsFilter (add f key) keys (add-IsFilter f key v)

-- A well-formed filter admits every key that is added to it.
pub add_all-Admits :
    (f : BloomFilter) (keys : List Bytes) → IsFilter f → All (Admits (add_all f keys)) keys
unfolding add_all
add_all-Admits f [] v = tt
add_all-Admits f (key ∷ keys) v =
    let next = add-IsFilter f key v in
    (
      Admits-add_all (add f key) keys key next (Admits-add_self f key v),
      add_all-Admits (add f key) keys next,
    )

-- A filter that `new` makes for any count and that any keys are added to answers true for each of
-- these keys: it has no false negatives.
pub new-Admits : (n : ℕ) (keys : List Bytes) → All (Admits (add_all (new n) keys)) keys
new-Admits n keys = add_all-Admits (new n) keys (new-IsFilter n)

-- A well-formed filter answers every question.
pub maybe_contains-total :
    (f : BloomFilter) (q : Bytes) → IsFilter f → (b : Bool) × (maybe_contains f q ≡ ok b)
unfolding maybe_contains
maybe_contains-total f q v = (test_bits f.bits (positions f q), ground (arith, v.nonempty))
