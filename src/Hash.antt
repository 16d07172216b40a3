-- ===== src/Hash.antt =====
-- hash.h: the hash functions for 32-bit keys.
use gcache.Common.{ℕ, ◌*◌, ◌/◌, ◌%◌, ◌^◌, bit_xor}
pub mod Xor
pub mod Perfect

unfoldable pub xxhash_u32 : ℕ → ℕ
xxhash_u32 x =
    let x = bit_xor x (x / 2 ^ 15) in
    let x = x * 0x85EBCA77 % 2 ^ 32 in
    let x = bit_xor x (x / 2 ^ 13) in
    let x = x * 0xC2B2AE3D % 2 ^ 32 in let x = bit_xor x (x / 2 ^ 16) in x

unfoldable pub murmurhash_u32 : ℕ → ℕ
murmurhash_u32 x =
    let x = bit_xor x (x / 2 ^ 16) in
    let x = x * 0x85ebca6b % 2 ^ 32 in
    let x = bit_xor x (x / 2 ^ 13) in
    let x = x * 0xc2b2ae35 % 2 ^ 32 in let x = bit_xor x (x / 2 ^ 16) in x

-- `operator()` of `ghash`, over the CRC instruction of the processor.
unfoldable pub ghash : (ℕ → ℕ → ℕ) → ℕ → ℕ
ghash crc32_u32 x = crc32_u32 0x537 x

unfoldable pub idhash : ℕ → ℕ
idhash x = x

unfoldable pub xxhash : ℕ → ℕ
xxhash x = xxhash_u32 x

unfoldable pub murmurhash : ℕ → ℕ
murmurhash x = murmurhash_u32 x
