-- ===== src/Wire/Fields.antt =====
-- The little-endian reads of src/unicore_transport.cpp in plain arithmetic, and their inverses.
use unicore_ros.Base.{
  ℕ, ◌+◌, ◌*◌, ◌/◌, ◌%◌, ◌^◌, ◌<◌, ◌≡◌, ap, ◌∙◌, bit_or, [], ◌∷◌, ◌++◌, arith, All,
}
use unicore_ros.Base.Bits.{bit_or-shifted}
use unicore_ros.Wire.{Bytes, IsByte, read_le16, read_le32}

abbrev pub le16 : ℕ → Bytes
le16 n = n % 256 ∷ n / 256 % 256 ∷ []

abbrev pub le32 : ℕ → Bytes
le32 n = n % 256 ∷ n / 256 % 256 ∷ n / 65536 % 256 ∷ n / 16777216 % 256 ∷ []

pub read_le16_value :
    (a b : ℕ) (rest : Bytes) → IsByte a → IsByte b → read_le16 (a ∷ b ∷ rest) ≡ a + 256 * b
unfolding read_le16
read_le16_value a b rest ha hb = omega (arith, bit_or-shifted 8 a b ha)

pub read_le32_value :
    (a b c d : ℕ) (rest : Bytes)
    → IsByte a
    → IsByte b
    → IsByte c
    → IsByte d
    → read_le32 (a ∷ b ∷ c ∷ d ∷ rest) ≡ a + 256 * b + 65536 * c + 16777216 * d
unfolding read_le32
read_le32_value a b c d rest ha hb hc hd =
    ap (bit_or (bit_or (bit_or a (b * 2 ^ 8)) (c * 2 ^ 16))) top
    ∙ ap (λ (t : ℕ). bit_or t (d * 2 ^ 24)) (ap (λ (t : ℕ). bit_or t (c * 2 ^ 16)) low ∙ middle)
    ∙ bit_or-shifted 24 (a + b * 2 ^ 8 + c * 2 ^ 16) d (omega arith)
    ∙ omega arith
  where
    top : d * 2 ^ 24 % 2 ^ 32 ≡ d * 2 ^ 24
    top = omega arith

    low : bit_or a (b * 2 ^ 8) ≡ a + b * 2 ^ 8
    low = bit_or-shifted 8 a b ha

    middle : bit_or (a + b * 2 ^ 8) (c * 2 ^ 16) ≡ a + b * 2 ^ 8 + c * 2 ^ 16
    middle = bit_or-shifted 16 (a + b * 2 ^ 8) c (omega arith)

pub read_le16-le16 : (n : ℕ) (rest : Bytes) → n < 2 ^ 16 → read_le16 (le16 n ++ rest) ≡ n
read_le16-le16 n rest h =
    omega (arith, read_le16_value (n % 256) (n / 256 % 256) rest (omega arith) (omega arith))

pub read_le32-le32 : (n : ℕ) (rest : Bytes) → n < 2 ^ 32 → read_le32 (le32 n ++ rest) ≡ n
read_le32-le32 n rest h = omega (
  arith,
  read_le32_value (n % 256) (n / 256 % 256) (n / 65536 % 256) (n / 16777216 % 256) rest
      (omega arith) (omega arith) (omega arith) (omega arith),
)

pub le16-IsByte : (n : ℕ) → All IsByte (le16 n)
le16-IsByte n = omega arith

pub le32-IsByte : (n : ℕ) → All IsByte (le32 n)
le32-IsByte n = omega arith

pub read_le16_bound : (bs : Bytes) → read_le16 bs < 2 ^ 16
unfolding read_le16
read_le16_bound [] = omega arith
read_le16_bound (a ∷ []) = omega arith
read_le16_bound (a ∷ b ∷ bs) = omega arith
