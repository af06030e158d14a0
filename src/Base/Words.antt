-- ===== src/Base/Words.antt =====
-- Big-endian words: `to_be_bytes` and `from_be_bytes` of u32 and u64, and arithmetic on them.
use ferrum_db.Base.Bytes.{Bytes}
use ferrum_db.Base.Lists.{length}
use Prim.Native.Nat.{ℕ, ◌+◌, ◌*◌, ◌/◌, ◌%◌, ◌^◌, ◌<◌, bit_xor}
use mathlib.Core.Path.{◌≡◌, refl}
use mathlib.Core.List.{[], ◌∷◌}
use native.Mathlib.Omega.{arith}

abbrev pub u32_mod : ℕ
u32_mod = 2 ^ 32

abbrev pub u64_mod : ℕ
u64_mod = 2 ^ 64

-- `(v as u32).to_be_bytes()`
unfoldable pub u32_bytes : ℕ → Bytes
u32_bytes v = (v / 2 ^ 24 % 256) ∷ (v / 2 ^ 16 % 256) ∷ (v / 2 ^ 8 % 256) ∷ (v % 256) ∷ []

-- `(v as u64).to_be_bytes()`
unfoldable pub u64_bytes : ℕ → Bytes
u64_bytes v =
    (v / 2 ^ 56 % 256)
    ∷ (v / 2 ^ 48 % 256)
    ∷ (v / 2 ^ 40 % 256)
    ∷ (v / 2 ^ 32 % 256)
    ∷ (v / 2 ^ 24 % 256)
    ∷ (v / 2 ^ 16 % 256)
    ∷ (v / 2 ^ 8 % 256)
    ∷ (v % 256)
    ∷ []

-- The number that big-endian bytes stand for, read on from `acc`.
unfoldable pub from_be : ℕ → Bytes → ℕ
from_be acc [] = acc
from_be acc (b ∷ bs) = from_be (acc * 256 + b) bs

pub from_be-u32_bytes : (v : ℕ) → v < 2 ^ 32 → from_be 0 (u32_bytes v) ≡ v
unfolding from_be u32_bytes
from_be-u32_bytes v h = omega arith

pub from_be-u64_bytes : (v : ℕ) → v < 2 ^ 64 → from_be 0 (u64_bytes v) ≡ v
unfolding from_be u64_bytes
from_be-u64_bytes v h = omega arith

pub length-u32_bytes : (v : ℕ) → length (u32_bytes v) ≡ 4
unfolding u32_bytes
length-u32_bytes v = refl

pub length-u64_bytes : (v : ℕ) → length (u64_bytes v) ≡ 8
unfolding u64_bytes
length-u64_bytes v = refl

-- `a ^ b` on u32 and on u64; the remainder keeps the width in sight.
unfoldable pub xor32 : ℕ → ℕ → ℕ
xor32 a b = bit_xor a b % u32_mod

unfoldable pub xor64 : ℕ → ℕ → ℕ
xor64 a b = bit_xor a b % u64_mod
