-- ===== src/Payload/Range.antt =====
-- The whole-byte reads of src/unicore_binary_nav.cpp against the little-endian value of the bytes
-- they cover.
use unicore_ros.Base.{
  ℕ, zero, suc, ◌+◌, ◌*◌, ◌%◌, ◌^◌, ◌≤◌, ◌<◌, ◌≡◌, refl, ap, ◌∙◌, inl, inr, bit_or, true, false,
  not, Option, none, some, List, [], ◌∷◌, arith, All, leb, if◌then◌else◌, Bool-cases, length, take,
  drop,
}
use native.Mathlib.Nat.{mul-le-mul_right, pow-suc, pow-le-pow_right, mod-eq_of_lt}
use unicore_ros.Base.Bits.{bit_or-shifted}
use unicore_ros.Wire.{IsByte, read_le32}
use unicore_ros.Wire.Fields.{read_le32_value}
use unicore_ros.Payload.{
  Payload, byte, has_range, read_u8, read_u16, read_u32, read_bits64, word16, word32, word64_loop,
}

-- The number that bytes stand for, the lowest byte first.
unfoldable pub le_value : List ℕ → ℕ
le_value [] = 0
le_value (b ∷ bytes) = b + 256 * le_value bytes

-- The value of the `size` bytes at `offset`, when the payload has them.
unfoldable pub read_le : ℕ → Payload → ℕ → Option ℕ
read_le size payload offset =
    if leb (offset + size) (length payload)
    then some (le_value (take size (drop offset payload)))
    else none

-- The same value, byte by byte.
le_at : Payload → ℕ → ℕ → ℕ
le_at p o zero = 0
le_at p o (suc n) = byte p o + 256 * le_at p (o + 1) n

suc_add : (o : ℕ) → suc o ≡ o + 1
suc_add o = omega arith

drop-get_or : (p : Payload) (o : ℕ) → o < length p → drop o p ≡ byte p o ∷ drop (suc o) p
drop-get_or [] o h = absurd (omega arith)
drop-get_or (x ∷ p) zero h = refl
drop-get_or (x ∷ p) (suc o) h = drop-get_or p o (omega arith)

le_value-at :
    (n o : ℕ) (p : Payload) → o + n ≤ length p → le_value (take n (drop o p)) ≡ le_at p o n
unfolding le_value le_at
le_value-at zero o p h = refl
le_value-at (suc n) o p h =
    ap (λ (r : List ℕ). le_value (take (suc n) r)) (drop-get_or p o (omega arith))
    ∙ ap (λ (k : ℕ). byte p o + 256 * le_value (take n (drop k p))) (suc_add o)
    ∙ ap (λ (v : ℕ). byte p o + 256 * v) (le_value-at n (o + 1) p (omega arith))

pub byte-IsByte : (p : Payload) (o : ℕ) → All IsByte p → IsByte (byte p o)
byte-IsByte [] o h = omega arith
byte-IsByte (x ∷ p) zero h = h.0
byte-IsByte (x ∷ p) (suc o) h = byte-IsByte p o h.1

has_range-leb : (p : Payload) (o n : ℕ) → has_range p o n ≡ leb (o + n) (length p)
unfolding has_range
has_range-leb p o n = ground arith

-- A read that has its bytes, and one that has not.
module _ (p : Payload) (o : ℕ) (n : ℕ) where
  read_le-in : leb (o + n) (length p) ≡ true → read_le n p o ≡ some (le_at p o n)
  unfolding read_le
  read_le-in h = rw h (ap (λ (v : ℕ). some v) (le_value-at n o p (ground arith)))

  read_le-out : leb (o + n) (length p) ≡ false → read_le n p o ≡ none
  unfolding read_le
  read_le-out h = rw h refl

  same_read :
      (word : ℕ)
      → word ≡ le_at p o n
      → (if not (has_range p o n) then none else some word) ≡ read_le n p o
  same_read word e = elim (Bool-cases (leb (o + n) (length p))) [
    | inl h ↦ rw (has_range-leb p o n, h, read_le-in h) (ap (λ (v : ℕ). some v) e)
    | inr h ↦ rw (has_range-leb p o n, h, read_le-out h) refl
  ]

-- One more byte on top of a value that fits below it.
byte_fits : (b q : ℕ) → IsByte b → b * q ≤ 255 * q
byte_fits b q h = mul-le-mul_right q (omega arith)

pow_nibble : (k : ℕ) → 2 ^ suc (suc (suc (suc k))) ≡ 2 ^ k * 16
pow_nibble k =
    omega (
      arith,
      pow-suc 2 k,
      pow-suc 2 (suc k),
      pow-suc 2 (suc (suc k)),
      pow-suc 2 (suc (suc (suc k))),
    )

pub next_power : (i : ℕ) → 2 ^ (8 * (i + 1)) ≡ 2 ^ (8 * i) * 256
next_power i =
    ap (◌^◌ 2) eight_more
    ∙ omega (arith, pow_nibble (8 * i), pow_nibble (suc (suc (suc (suc (8 * i))))))
  where
    eight_more : 8 * (i + 1) ≡ suc (suc (suc (suc (suc (suc (suc (suc (8 * i))))))))
    eight_more = omega arith

power_limit : (i n : ℕ) → i + suc n ≤ 8 → 2 ^ (8 * i) * 256 ≤ 2 ^ 64
power_limit i n h = omega (
  arith,
  next_power i,
  pow-le-pow_right {n = 2} (omega arith) {i = 8 * (i + 1)} {j = 64} (omega arith),
)

join_byte :
    (b i n bits : ℕ)
    → IsByte b
    → bits < 2 ^ (8 * i)
    → i + suc n ≤ 8
    → (bit_or bits (b * 2 ^ (8 * i) % 2 ^ 64) ≡ bits + b * 2 ^ (8 * i))
      × (bits + b * 2 ^ (8 * i) < 2 ^ (8 * (i + 1)))
join_byte b i n bits h less few = (
  ap (bit_or bits) (mod-eq_of_lt (omega (arith, byte_fits b (2 ^ (8 * i)) h, power_limit i n few)))
      ∙ bit_or-shifted (8 * i) bits b less,
  omega (arith, byte_fits b (2 ^ (8 * i)) h, next_power i),
)

next_digit : (q b l bits r : ℕ) → r ≡ q * 256 → bits + b * q + r * l ≡ bits + q * (b + 256 * l)
next_digit q b l bits r e = rw e (omega arith)

word64_loop-value :
    (p : Payload) (o n i bits : ℕ)
    → All IsByte p
    → bits < 2 ^ (8 * i)
    → i + n ≤ 8
    → word64_loop p o n i bits ≡ bits + 2 ^ (8 * i) * le_at p (o + i) n
unfolding word64_loop le_at
word64_loop-value p o zero i bits h less few = omega arith
word64_loop-value p o (suc n) i bits h less few =
    let b = byte p (o + i) in
    let (joined, fits) = join_byte b i n bits (byte-IsByte p (o + i) h) less few in
    ap (word64_loop p o n (i + 1)) joined
    ∙ word64_loop-value p o n (i + 1) (bits + b * 2 ^ (8 * i)) h fits (omega arith)
    ∙ ap (λ (k : ℕ). bits + b * 2 ^ (8 * i) + 2 ^ (8 * (i + 1)) * le_at p k n) (next_place)
    ∙ next_digit (2 ^ (8 * i)) b (le_at p (o + i + 1) n) bits (2 ^ (8 * (i + 1))) (next_power i)
  where
    next_place : o + (i + 1) ≡ o + i + 1
    next_place = omega arith

word16-value : (p : Payload) (o : ℕ) → All IsByte p → word16 p o ≡ le_at p o 2
unfolding le_at
word16-value p o h =
    ap (λ (w : ℕ). w % 2 ^ 16) (bit_or-shifted 8 (byte p o) (byte p (o + 1)) (byte-IsByte p o h))
    ∙ omega (arith, byte-IsByte p o h, byte-IsByte p (o + 1) h)

or_bytes :
    (a b c d : ℕ)
    → IsByte a
    → IsByte b
    → IsByte c
    → IsByte d
    → bit_or (bit_or (bit_or a (b * 2 ^ 8)) (c * 2 ^ 16)) (d * 2 ^ 24 % 2 ^ 32)
      ≡ a + 256 * (b + 256 * (c + 256 * (d + 256 * 0)))
unfolding read_le32
or_bytes a b c d ha hb hc hd = read_le32_value a b c d [] ha hb hc hd ∙ omega arith

word32-value : (p : Payload) (o : ℕ) → All IsByte p → word32 p o ≡ le_at p o 4
unfolding le_at
word32-value p o h =
    or_bytes (byte p o) (byte p (o + 1)) (byte p (o + 2)) (byte p (o + 3)) (byte-IsByte p o h)
      (byte-IsByte p (o + 1) h) (byte-IsByte p (o + 2) h) (byte-IsByte p (o + 3) h)
    ∙ ap
        (λ (k : ℕ).
          byte p o + 256 * (byte p (o + 1) + 256 * (byte p k + 256 * (byte p (o + 3) + 256 * 0))))
        (second)
    ∙ ap
        (λ (k : ℕ).
          byte p o
          + 256 * (byte p (o + 1) + 256 * (byte p (o + 1 + 1) + 256 * (byte p k + 256 * 0))))
        (third)
  where
    second : o + 2 ≡ o + 1 + 1
    second = omega arith

    third : o + 3 ≡ o + 1 + 1 + 1
    third = omega arith

word64-value : (p : Payload) (o : ℕ) → All IsByte p → word64_loop p o 8 0 0 ≡ le_at p o 8
word64-value p o h =
    word64_loop-value p o 8 0 0 h (omega arith) (omega arith)
    ∙ ap (λ (k : ℕ). 0 + 1 * le_at p k 8) (first)
    ∙ omega arith
  where
    first : o + 0 ≡ o
    first = omega arith

-- From a payload of bytes, the reads of 1, 2, 4 and 8 bytes give the little-endian value of the
-- bytes at the offset when the payload reaches that far, and fail when it does not.
pub read-read_le :
    (p : Payload) (o : ℕ)
    → All IsByte p
    → (read_u8 p o ≡ read_le 1 p o)
      × (read_u16 p o ≡ read_le 2 p o)
      × (read_u32 p o ≡ read_le 4 p o)
      × (read_bits64 p o ≡ read_le 8 p o)
unfolding read_u8 read_u16 read_u32 read_bits64 le_at
read-read_le p o h = (
  same_read p o 1 (byte p o) (omega arith),
  same_read p o 2 (word16 p o) (word16-value p o h),
  same_read p o 4 (word32 p o) (word32-value p o h),
  same_read p o 8 (word64_loop p o 8 0 0) (word64-value p o h),
)
