-- ===== src/SsTable/Bloom.antt =====
-- `BloomFilter` and `hash64` of ferrumdb-core/src/sstable.rs.
pub mod Bits
pub mod Membership
use ferrum_db.Base.{
  ℕ, zero, suc, ◌+◌, ◌*◌, ◌/◌, ◌%◌, ◌^◌, ◌≡◌, refl, Bool, true, false, not, ◌&&◌, Option, none,
  some, List, [], ◌∷◌, length, get_elem?, set, replicate, max, if◌then◌else◌, ◌==◌,
}
use ferrum_db.Base.Bytes.{Bytes}
use ferrum_db.Base.Words.{xor64, u64_mod}
use ferrum_db.Errors.{Result, ok, panic}
use Prim.Native.Nat.{bit_and, bit_or}

pub record BloomFilter : Type 0 where
  pub bits : Bytes
  pub k : ℕ

hash_loop : ℕ → Bytes → ℕ
hash_loop h [] = h
hash_loop h (b ∷ bs) = hash_loop (xor64 h b * 0x0000_0100_0000_01b3 % u64_mod) bs

-- `hash64`: FNV-1a.
unfoldable pub hash64 : Bytes → ℕ
unfolding hash_loop xor64
hash64 bytes = hash_loop 0xcbf2_9ce4_8422_2325 bytes

-- `BloomFilter::new`
unfoldable pub new : ℕ → BloomFilter
new num_keys =
    let m_bits = max (num_keys * 10) 64 in record { bits = replicate ((m_bits + 7) / 8) 0; k = 7 }

-- The positions for `i`, `i + 1`, …, `n` of them.
unfoldable pub positions_from : ℕ → ℕ → ℕ → ℕ → ℕ → List ℕ
positions_from h1 h2 m zero i = []
positions_from h1 h2 m (suc n) i =
    ((h1 + i * h2 % u64_mod) % u64_mod % m) ∷ positions_from h1 h2 m n (i + 1)

-- `BloomFilter::positions`
unfoldable pub positions : BloomFilter → Bytes → List ℕ
positions f key =
    let h = hash64 key in
    positions_from (bit_and h 0xffff_ffff) (bit_or (h / 2 ^ 32) 1) (length f.bits * 8) f.k 0

-- `self.bits[bit / 8] |= 1 << (bit % 8)`
unfoldable pub set_bit : Bytes → ℕ → Bytes
set_bit bits bit = elim (get_elem? bits (bit / 8)) [
  | none ↦ bits
  | some b ↦ set bits (bit / 8) (bit_or b (2 ^ (bit % 8)))
]

-- `self.bits[bit / 8] & (1 << (bit % 8)) != 0`
unfoldable pub test_bit : Bytes → ℕ → Bool
test_bit bits bit = elim (get_elem? bits (bit / 8)) [
  | none ↦ false
  | some b ↦ not (bit_and b (2 ^ (bit % 8)) == 0)
]

unfoldable pub set_bits : Bytes → List ℕ → Bytes
set_bits bits [] = bits
set_bits bits (p ∷ ps) = set_bits (set_bit bits p) ps

unfoldable pub test_bits : Bytes → List ℕ → Bool
test_bits bits [] = true
test_bits bits (p ∷ ps) = test_bit bits p && test_bits bits ps

-- `BloomFilter::add`
unfoldable pub add : BloomFilter → Bytes → BloomFilter
add f key = record f { bits = set_bits f.bits (positions f key) }

-- `BloomFilter::maybe_contains`; with no bits at all the remainder by zero panics.
unfoldable pub maybe_contains : BloomFilter → Bytes → Result Bool
maybe_contains f key =
    if length f.bits == 0 && not (f.k == 0) then panic else ok (test_bits f.bits (positions f key))

-- `for k in &keys { b.add(k) }`
unfoldable pub add_all : BloomFilter → List Bytes → BloomFilter
add_all f [] = f
add_all f (key ∷ keys) = add_all (add f key) keys
