-- ===== src/Wire.antt =====
-- The byte-level helpers of src/unicore_transport.cpp: the search for the sync pattern, the
-- little-endian reads and the CRC. A buffer is a list of byte values; a pointer `raw + n` is the
-- list without its first n bytes.
pub mod Crc
pub mod Fields
pub mod Search
use unicore_ros.Base.{
  ℕ, zero, suc, ◌+◌, ◌*◌, ◌/◌, ◌%◌, ◌^◌, ◌<◌, min, bit_and, bit_or, bit_xor, Bool, true, false, not,
  ◌&&◌, Option, none, some, List, [], ◌∷◌, ◌==◌, if◌then◌else◌,
}

abbrev pub Bytes : Type 0
Bytes = List ℕ

abbrev pub IsByte : ℕ → Type 0
IsByte b = b < 256

abbrev pub next_position : Option ℕ → Option ℕ
next_position none = none
next_position (some n) = some (suc n)

-- `std::string::find` for one character; `none` is `npos`.
unfoldable pub find_byte : ℕ → Bytes → Option ℕ
find_byte c [] = none
find_byte c (x ∷ xs) = if x == c then some 0 else next_position (find_byte c xs)

-- The three comparisons with `kBinarySync` at one position.
unfoldable pub is_sync : Bytes → Bool
is_sync (a ∷ b ∷ c ∷ _) = a == 0xAA && (b == 0x44 && c == 0xB5)
is_sync _ = false

-- The loop over positions of `find_binary_sync`.
unfoldable pub find_binary_sync : Bytes → Option ℕ
find_binary_sync [] = none
find_binary_sync (x ∷ xs) = if is_sync (x ∷ xs) then some 0 else next_position (find_binary_sync xs)

-- `count` is the smaller of the size and 2.
unfoldable pub begins_with_binary_sync_prefix : Bytes → Bool
begins_with_binary_sync_prefix [] = false
begins_with_binary_sync_prefix (a ∷ []) = a == 0xAA
begins_with_binary_sync_prefix (a ∷ b ∷ _) = a == 0xAA && b == 0x44

-- The callers check the size first, so the last clauses are never reached.
unfoldable pub read_le16 : Bytes → ℕ
read_le16 (a ∷ b ∷ _) = bit_or a (b * 2 ^ 8) % 2 ^ 16
read_le16 _ = 0

unfoldable pub read_le32 : Bytes → ℕ
read_le32 (a ∷ b ∷ c ∷ d ∷ _) =
    bit_or (bit_or (bit_or a (b * 2 ^ 8)) (c * 2 ^ 16)) (d * 2 ^ 24 % 2 ^ 32)
read_le32 _ = 0

-- One round of the inner loop: the lowest bit is shifted out, and selects the polynomial.
unfoldable pub crc_bit : ℕ → ℕ
crc_bit crc = if not (bit_and crc 1 == 0) then bit_xor (crc / 2) 0xEDB88320 else crc / 2

unfoldable pub crc_bits : ℕ → ℕ → ℕ
crc_bits zero crc = crc
crc_bits (suc n) crc = crc_bits n (crc_bit crc)

-- One round of the outer loop.
unfoldable pub crc_byte : ℕ → ℕ → ℕ
unfolding crc_bits
crc_byte crc byte = crc_bits 8 (bit_xor crc byte)

unfoldable pub crc32_from : ℕ → Bytes → ℕ
crc32_from crc [] = crc
crc32_from crc (b ∷ bs) = crc32_from (crc_byte crc b) bs

unfoldable pub crc32_unicore_binary : Bytes → ℕ
crc32_unicore_binary = crc32_from 0
