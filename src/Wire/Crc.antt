-- ===== src/Wire/Crc.antt =====
-- Laws of the CRC of src/unicore_transport.cpp: every round is a bijection on 32-bit words, so one
-- changed byte always changes the CRC, and a message followed by its own CRC has CRC 0.
use unicore_ros.Base.{
  ℕ, zero, suc, ◌+◌, ◌*◌, ◌/◌, ◌%◌, ◌^◌, ◌<◌, bit_xor, ◌≡◌, refl, sym, ap, ◌∙◌, ◌≢◌, ◌⊎◌, inl, inr,
  [], ◌∷◌, ◌++◌, arith, All,
}
use unicore_ros.Base.Bits.{bit_and-one, double_shift}
use unicore_ros.Wire.Fields.{le32}
use unicore_ros.Base.Xor.{
  bit_xor-cancel, bit_xor-injective, bit_xor_bound, bit_xor_comm, bit_xor_clear,
}
use unicore_ros.Wire.{Bytes, IsByte, crc_bit, crc_bits, crc_byte, crc32_from, crc32_unicore_binary}

abbrev polynomial : ℕ
polynomial = 0xEDB88320

abbrev pub IsU32 : ℕ → Type 0
IsU32 x = x < 2 ^ 32

crc_bit_even : (x : ℕ) → x % 2 ≡ 0 → crc_bit x ≡ x / 2
unfolding crc_bit
crc_bit_even x h = ground (arith, bit_and-one x)

crc_bit_odd : (x : ℕ) → x % 2 ≡ 1 → crc_bit x ≡ bit_xor (x / 2) polynomial
unfolding crc_bit
crc_bit_odd x h = ground (arith, bit_and-one x)

crc_bit-IsU32 : (x : ℕ) → IsU32 x → IsU32 (crc_bit x)
unfolding crc_bit
crc_bit-IsU32 x h = ground (arith, bit_xor_bound 32 (x / 2) polynomial)

-- The top bit of the result tells which branch made it.
crc_bit_top : (x y : ℕ) → IsU32 x → IsU32 y → bit_xor (x / 2) polynomial ≢ y / 2
crc_bit_top x y hx hy e = absurd (
    omega (
      arith,
      bit_xor_bound 31 (x / 2) (y / 2) (omega arith) (omega arith),
      ap (λ (t : ℕ). bit_xor (x / 2) t) e,
      bit_xor_comm (x / 2) (bit_xor (x / 2) polynomial),
      bit_xor_comm (x / 2) polynomial,
      bit_xor-cancel polynomial (x / 2),
      ap (λ (t : ℕ). bit_xor t (x / 2)) (bit_xor_comm (x / 2) polynomial),
    ))

parity : (x : ℕ) → (x % 2 ≡ 0) ⊎ (x % 2 ≡ 1)
parity x = omega arith

crc_bit-injective : (x y : ℕ) → IsU32 x → IsU32 y → crc_bit x ≡ crc_bit y → x ≡ y
crc_bit-injective x y hx hy e = elim (parity x) [
  | inl px ↦ elim (parity y) [
    | inl py ↦ omega (arith, crc_bit_even x px, crc_bit_even y py)
    | inr py ↦ absurd (crc_bit_top y x hy hx (sym (crc_bit_odd y py) ∙ sym e ∙ crc_bit_even x px))
  ]
  | inr px ↦ elim (parity y) [
    | inl py ↦ absurd (crc_bit_top x y hx hy (sym (crc_bit_odd x px) ∙ e ∙ crc_bit_even y py))
    | inr py ↦ omega (
      arith,
      bit_xor-injective (x / 2) (y / 2) polynomial (sym (crc_bit_odd x px) ∙ e ∙ crc_bit_odd y py),
    )
  ]
]

crc_bits-IsU32 : (n x : ℕ) → IsU32 x → IsU32 (crc_bits n x)
unfolding crc_bits
crc_bits-IsU32 zero x h = h
crc_bits-IsU32 (suc n) x h = crc_bits-IsU32 n (crc_bit x) (crc_bit-IsU32 x h)

crc_bits-injective : (n x y : ℕ) → IsU32 x → IsU32 y → crc_bits n x ≡ crc_bits n y → x ≡ y
unfolding crc_bits
crc_bits-injective zero x y hx hy e = e
crc_bits-injective (suc n) x y hx hy e =
    crc_bit-injective x y hx hy
      (crc_bits-injective n (crc_bit x) (crc_bit y) (crc_bit-IsU32 x hx) (crc_bit-IsU32 y hy) e)

xor_word : (crc b : ℕ) → IsU32 crc → IsByte b → IsU32 (bit_xor crc b)
xor_word crc b hc hb = bit_xor_bound 32 crc b hc (omega arith)

pub crc_byte-IsU32 : (crc b : ℕ) → IsU32 crc → IsByte b → IsU32 (crc_byte crc b)
unfolding crc_byte
crc_byte-IsU32 crc b hc hb = crc_bits-IsU32 8 (bit_xor crc b) (xor_word crc b hc hb)

crc_byte-injective :
    (c d b : ℕ) → IsU32 c → IsU32 d → IsByte b → crc_byte c b ≡ crc_byte d b → c ≡ d
unfolding crc_byte
crc_byte-injective c d b hc hd hb e =
    bit_xor-injective c d b
      (crc_bits-injective 8 (bit_xor c b) (bit_xor d b) (xor_word c b hc hb) (xor_word d b hd hb) e)

crc_byte-injective_byte :
    (c a b : ℕ) → IsU32 c → IsByte a → IsByte b → crc_byte c a ≡ crc_byte c b → a ≡ b
unfolding crc_byte
crc_byte-injective_byte c a b hc ha hb e =
    bit_xor-injective a b c (bit_xor_comm a c ∙ same ∙ bit_xor_comm c b)
  where
    same : bit_xor c a ≡ bit_xor c b
    same =
        crc_bits-injective 8 (bit_xor c a) (bit_xor c b) (xor_word c a hc ha) (xor_word c b hc hb) e

pub crc32_from-IsU32 :
    (crc : ℕ) (bs : Bytes) → IsU32 crc → All IsByte bs → IsU32 (crc32_from crc bs)
unfolding crc32_from
crc32_from-IsU32 crc [] h hb = h
crc32_from-IsU32 crc (b ∷ bs) h (hb, hbs) =
    crc32_from-IsU32 (crc_byte crc b) bs (crc_byte-IsU32 crc b h hb) hbs

pub crc32_from-append :
    (crc : ℕ) (xs ys : Bytes) → crc32_from crc (xs ++ ys) ≡ crc32_from (crc32_from crc xs) ys
unfolding crc32_from
crc32_from-append crc [] ys = refl
crc32_from-append crc (x ∷ xs) ys = crc32_from-append (crc_byte crc x) xs ys

crc32_from-injective :
    (c d : ℕ) (bs : Bytes)
    → IsU32 c
    → IsU32 d
    → All IsByte bs
    → crc32_from c bs ≡ crc32_from d bs
    → c ≡ d
unfolding crc32_from
crc32_from-injective c d [] hc hd hb e = e
crc32_from-injective c d (b ∷ bs) hc hd (hb, hbs) e = crc_byte-injective c d b hc hd hb (
    crc32_from-injective (crc_byte c b) (crc_byte d b) bs (crc_byte-IsU32 c b hc hb)
      (crc_byte-IsU32 d b hd hb) hbs e)

-- Replacing one byte of a message by another byte changes its CRC, wherever the byte stands.
pub crc32_one_byte :
    (front back : Bytes) (a b : ℕ)
    → All IsByte front
    → All IsByte back
    → IsByte a
    → IsByte b
    → a ≢ b
    → crc32_unicore_binary (front ++ (a ∷ back)) ≢ crc32_unicore_binary (front ++ (b ∷ back))
unfolding crc32_unicore_binary crc32_from
crc32_one_byte front back a b hf hk ha hb ne e = ne (
    crc_byte-injective_byte c a b hc ha hb (
      crc32_from-injective (crc_byte c a) (crc_byte c b) back (crc_byte-IsU32 c a hc ha)
        (crc_byte-IsU32 c b hc hb) hk
        (sym (crc32_from-append 0 front (a ∷ back)) ∙ e ∙ crc32_from-append 0 front (b ∷ back))))
  where
    c : ℕ
    c = crc32_from 0 front

    hc : IsU32 c
    hc = crc32_from-IsU32 0 front (omega arith) hf

crc_bits_shift : (n q : ℕ) → crc_bits n (q * 2 ^ n) ≡ q
unfolding crc_bits
crc_bits_shift zero q = omega arith
crc_bits_shift (suc n) q =
    ap (crc_bits n) (crc_bit_even (q * 2 ^ suc n) even ∙ halved) ∙ crc_bits_shift n q
  where
    even : q * 2 ^ suc n % 2 ≡ 0
    even = omega (arith, double_shift q n)

    halved : q * 2 ^ suc n / 2 ≡ q * 2 ^ n
    halved = omega (arith, double_shift q n)

-- Feeding a word its own lowest byte shifts that byte out.
crc_byte_own : (x : ℕ) → crc_byte x (x % 256) ≡ x / 256
unfolding crc_byte
crc_byte_own x =
    ap (crc_bits 8) (
      ap (λ (t : ℕ). bit_xor t (x % 256)) split ∙ bit_xor_clear 8 (x / 256) (x % 256) (omega arith))
    ∙ crc_bits_shift 8 (x / 256)
  where
    split : x ≡ x / 256 * 2 ^ 8 + x % 256
    split = omega arith

crc_byte_low : (x b : ℕ) → b ≡ x % 256 → crc_byte x b ≡ x / 256
crc_byte_low x b e = ap (crc_byte x) e ∙ crc_byte_own x

crc32_own : (x : ℕ) → IsU32 x → crc32_from x (le32 x) ≡ 0
unfolding crc32_from
crc32_own x h = ap (λ (t : ℕ). crc_byte t (x / 16777216 % 256)) third ∙ last
  where
    first : crc_byte x (x % 256) ≡ x / 256
    first = crc_byte_own x

    second : crc_byte (crc_byte x (x % 256)) (x / 256 % 256) ≡ x / 256 / 256
    second = ap (λ (t : ℕ). crc_byte t (x / 256 % 256)) first ∙ crc_byte_own (x / 256)

    third :
        crc_byte (crc_byte (crc_byte x (x % 256)) (x / 256 % 256)) (x / 65536 % 256)
        ≡ x / 256 / 256 / 256
    third =
        ap (λ (t : ℕ). crc_byte t (x / 65536 % 256)) second
        ∙ crc_byte_low (x / 256 / 256) (x / 65536 % 256) (omega arith)

    last : crc_byte (x / 256 / 256 / 256) (x / 16777216 % 256) ≡ 0
    last = crc_byte_low (x / 256 / 256 / 256) (x / 16777216 % 256) (omega arith) ∙ omega arith

-- A message followed by its CRC, lowest byte first, has CRC 0.
pub crc32_residue :
    (bs : Bytes) → All IsByte bs → crc32_unicore_binary (bs ++ le32 (crc32_unicore_binary bs)) ≡ 0
unfolding crc32_unicore_binary
crc32_residue bs h =
    crc32_from-append 0 bs (le32 (crc32_from 0 bs))
    ∙ crc32_own (crc32_from 0 bs) (crc32_from-IsU32 0 bs (omega arith) h)
