-- ===== src/SsTable/Reader.antt =====
-- The primitive readers, and the CRC, of ferrumdb-core/src/sstable.rs. A buffer with a cursor is
-- the bytes from the cursor on.
use ferrum_db.Base.{
  ℕ, zero, suc, ◌-◌, ◌/◌, ◌%◌, ◌^◌, ◌<◌, ◌≡◌, [], ◌∷◌, ◌++◌, length, take, drop, ltb, if◌then◌else◌,
  ◌==◌, arith, take-append, drop-append, length-append,
}
use ferrum_db.Base.Bytes.{Bytes}
use ferrum_db.Base.Words.{
  from_be, xor32, u32_bytes, u64_bytes, from_be-u32_bytes, from_be-u64_bytes,
}
use ferrum_db.Errors.{Result, ok, err, panic, ◌>>=◌, decode_error, unexpected_end}

-- `buf[*c]`, and the slice `buf[*c..*c + n]` with what follows it: both panic behind the end.
unfoldable pub byte_at : Bytes → Result (ℕ × Bytes)
byte_at [] = panic
byte_at (b ∷ buf) = ok (b, buf)

unfoldable pub slice : ℕ → Bytes → Result (Bytes × Bytes)
slice n buf = if ltb (length buf) n then panic else ok (take n buf, drop n buf)

-- The number whose big-endian bytes were sliced off.
unfoldable pub number : Result (Bytes × Bytes) → Result (ℕ × Bytes)
number x = do (bytes, rest) ← x; ok (from_be 0 bytes, rest)

-- `read_u8`, `read_u32`, `read_u64`
unfoldable pub read_u8 : Bytes → Result (ℕ × Bytes)
read_u8 buf = if ltb (length buf) 1 then err (decode_error unexpected_end) else byte_at buf

unfoldable pub read_u32 : Bytes → Result (ℕ × Bytes)
read_u32 buf =
    if ltb (length buf) 4 then err (decode_error unexpected_end) else number (slice 4 buf)

unfoldable pub read_u64 : Bytes → Result (ℕ × Bytes)
read_u64 buf =
    if ltb (length buf) 8 then err (decode_error unexpected_end) else number (slice 8 buf)

-- `read_bytes`
unfoldable pub read_bytes : ℕ → Bytes → Result (Bytes × Bytes)
read_bytes len buf =
    if ltb (length buf) len then err (decode_error unexpected_end) else slice len buf

-- One round of the inner loop of `crc32`.
crc_bit : ℕ → ℕ
crc_bit crc = if crc % 2 == 1 then xor32 (crc / 2) 0xedb8_8320 else crc / 2

crc_bits : ℕ → ℕ → ℕ
crc_bits zero crc = crc
crc_bits (suc n) crc = crc_bits n (crc_bit crc)

crc_loop : ℕ → Bytes → ℕ
crc_loop crc [] = crc
crc_loop crc (b ∷ bs) = crc_loop (crc_bits 8 (xor32 crc b)) bs

-- `crc32`; `!crc` on a u32 is the distance from the largest one.
unfoldable pub crc32 : Bytes → ℕ
unfolding crc_bit crc_bits crc_loop xor32
crc32 bytes = 0xffff_ffff - crc_loop 0xffff_ffff bytes

pub crc32-lt : (bytes : Bytes) → crc32 bytes < 2 ^ 32
unfolding crc32
crc32-lt bytes = omega arith

-- A byte is there.
pub read_u8-cons : (b : ℕ) (rest : Bytes) → read_u8 (b ∷ rest) ≡ ok (b, rest)
unfolding read_u8 byte_at
read_u8-cons b rest = ground arith

-- Each reader takes off what was written in front of the rest.
pub read_u32-u32_bytes :
    (v : ℕ) (rest : Bytes) → v < 2 ^ 32 → read_u32 (u32_bytes v ++ rest) ≡ ok (v, rest)
unfolding read_u32 u32_bytes number slice
read_u32-u32_bytes v rest h = ground (arith, from_be-u32_bytes v)

pub read_u64-u64_bytes :
    (v : ℕ) (rest : Bytes) → v < 2 ^ 64 → read_u64 (u64_bytes v ++ rest) ≡ ok (v, rest)
unfolding read_u64 u64_bytes number slice
read_u64-u64_bytes v rest h = ground (arith, from_be-u64_bytes v)

pub read_bytes-append : (xs rest : Bytes) → read_bytes (length xs) (xs ++ rest) ≡ ok (xs, rest)
unfolding read_bytes slice
read_bytes-append xs rest =
    ground (
      arith,
      length-append xs rest,
      take-append xs rest (length xs),
      drop-append xs rest (length xs),
    )
