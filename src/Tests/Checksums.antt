-- ===== src/Tests/Checksums.antt =====
-- Published values of the checksums of ferrumdb-core/src/sstable.rs.
use ferrum_db.Base.{◌≡◌, refl, ◌∷◌, []}
use ferrum_db.SsTable.Reader.{crc32}
use ferrum_db.SsTable.Bloom.{hash64}

-- The check value of CRC-32: the ASCII digits 1 to 9.
crc32_check :
    crc32 (b'1' ∷ b'2' ∷ b'3' ∷ b'4' ∷ b'5' ∷ b'6' ∷ b'7' ∷ b'8' ∷ b'9' ∷ []) ≡ 0xcbf4_3926
unfolding crc32
crc32_check = refl

-- The FNV-1a value of "a".
hash64_a : hash64 (b'a' ∷ []) ≡ 0xaf63_dc4c_8601_ec8c
unfolding hash64
hash64_a = refl
