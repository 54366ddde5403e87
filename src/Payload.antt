-- ===== src/Payload.antt =====
-- The reads of src/unicore_binary_nav.cpp from a frame's payload. A failed range check is `none`, as
-- `false` is in the source.
pub mod Range
pub mod BitField
pub mod Signed
use unicore_ros.Base.{
  ℕ, zero, suc, ◌+◌, ◌-◌, ◌*◌, ◌/◌, ◌%◌, ◌^◌, bit_and, bit_or, Bool, true, false, not, ◌&&◌, Option,
  none, some, List, [], ◌∷◌, leb, ltb, ◌==◌, if◌then◌else◌, length, drop, get_or,
}
use unicore_ros.Base.Int.{ℤ, pos, negsuc, signed, sub_ℕ}
use unicore_ros.Base.Text.{Text}

abbrev pub Payload : Type 0
Payload = List ℕ

-- `payload[offset]` at a checked offset.
abbrev pub byte : Payload → ℕ → ℕ
byte payload offset = get_or payload offset 0

unfoldable pub has_range : Payload → ℕ → ℕ → Bool
has_range payload offset size = leb offset (length payload) && leb size (length payload - offset)

unfoldable pub read_u8 : Payload → ℕ → Option ℕ
unfolding has_range
read_u8 payload offset =
    if not (has_range payload offset 1) then none else some (byte payload offset)

-- The shifts and ors of `uint16_t`, `uint32_t` and `uint64_t` words.
abbrev pub word16 : Payload → ℕ → ℕ
word16 p o = bit_or (byte p o) (byte p (o + 1) * 2 ^ 8) % 2 ^ 16

abbrev pub word32 : Payload → ℕ → ℕ
word32 p o =
    bit_or (bit_or (bit_or (byte p o) (byte p (o + 1) * 2 ^ 8)) (byte p (o + 2) * 2 ^ 16))
      (byte p (o + 3) * 2 ^ 24 % 2 ^ 32)

unfoldable pub read_u32 : Payload → ℕ → Option ℕ
unfolding has_range
read_u32 payload offset =
    if not (has_range payload offset 4) then none else some (word32 payload offset)

unfoldable pub read_u16 : Payload → ℕ → Option ℕ
unfolding has_range
read_u16 payload offset =
    if not (has_range payload offset 2) then none else some (word16 payload offset)

unfoldable pub read_i16 : Payload → ℕ → Option ℤ
unfolding has_range
read_i16 payload offset =
    if not (has_range payload offset 2) then none else some (signed 16 (word16 payload offset))

-- The loop over `i` of `read_float64`: the rounds left, `i`, and the bits so far.
word64_loop : Payload → ℕ → ℕ → ℕ → ℕ → ℕ
word64_loop payload offset zero i bits = bits
word64_loop payload offset (suc n) i bits =
    word64_loop payload offset n (i + 1)
      (bit_or bits (byte payload (offset + i) * 2 ^ (8 * i) % 2 ^ 64))

-- The bits that `read_float64` hands to `memcpy`.
unfoldable pub read_bits64 : Payload → ℕ → Option ℕ
unfolding has_range word64_loop
read_bits64 payload offset =
    if not (has_range payload offset 8) then none else some (word64_loop payload offset 8 0 0)

char_loop : Payload → ℕ → ℕ → Text
char_loop payload offset zero = []
char_loop payload offset (suc n) =
    let rest = char_loop payload (offset + 1) n in
    if byte payload offset == 0 then [] else byte payload offset ∷ rest

unfoldable pub read_char_array : Payload → ℕ → ℕ → Text
unfolding has_range char_loop
read_char_array payload offset size =
    if not (has_range payload offset size) then [] else char_loop payload offset size

unfoldable pub bit_mask : ℕ → ℕ
bit_mask bit_count = if leb 64 bit_count then 2 ^ 64 - 1 else 2 ^ bit_count % 2 ^ 64 - 1

-- The loop over `bit` of `read_bits_le`: the rounds left, `bit`, and the value so far.
unfoldable pub bits_loop : List ℕ → ℕ → ℕ → ℕ → ℕ → ℕ
bits_loop bytes bit_offset zero bit value = value
bits_loop bytes bit_offset (suc n) bit value =
    let absolute_bit = bit_offset + bit in
    let set = not (bit_and (byte bytes (absolute_bit / 8) / 2 ^ (absolute_bit % 8)) 1 == 0) in
    bits_loop bytes bit_offset n (bit + 1) (if set then bit_or value (2 ^ bit % 2 ^ 64) else value)

unfoldable pub read_bits_le : List ℕ → ℕ → ℕ → ℕ
unfolding bits_loop
read_bits_le bytes bit_offset bit_count = bits_loop bytes bit_offset bit_count 0 0

unfoldable pub sign_extend : ℕ → ℕ → ℤ
sign_extend value bit_count =
    if bit_count == 0
    then signed 64 value
    else if leb 64 bit_count
    then signed 64 value
    else let truncated = bit_and value (bit_mask bit_count) in
      let sign_bit = 2 ^ (bit_count - 1) in
      if bit_and truncated sign_bit == 0
      then signed 64 truncated
      else let magnitude = bit_and ((2 ^ 64 - 1 - truncated + 1) % 2 ^ 64) (bit_mask bit_count) in
        sub_ℕ 0 (magnitude)
