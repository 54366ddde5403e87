-- ===== src/Payload/BitField.antt =====
-- `read_bits_le` of src/unicore_binary_nav.cpp reads a field of the number that the bytes stand for,
-- and `sign_extend` reads that field as a signed number.
use native.Mathlib.Nat
use native.Mathlib.Nat.{
  div-div-eq-div-mul, pow-suc, pow-le-pow_right, mod-eq_of_lt, div-add-mod, add-mul-mod_self_left,
  two-pow-succ, one-le-pow,
}
use unicore_ros.Base.{
  ℕ, zero, suc, ◌+◌, ◌*◌, ◌/◌, ◌%◌, ◌^◌, ◌≤◌, ◌<◌, ◌≡◌, sym, ap, ◌∙◌, bit_or, bit_and, not, List,
  [], ◌∷◌, arith, All, ◌==◌, if◌then◌else◌,
}
use unicore_ros.Base.Bits.{bit_or-shifted, bit_and-one}
use unicore_ros.Wire.{IsByte}
use unicore_ros.Payload.{byte, bits_loop, read_bits_le}
use unicore_ros.Payload.Range.{le_value}

div_pow : (w k : ℕ) → w / 2 ^ suc k ≡ w / 2 ^ k / 2
div_pow w k = ap (λ (q : ℕ). w / q) (pow-suc 2 k) ∙ sym (div-div-eq-div-mul w (2 ^ k) 2)

div_pow_front : (w k : ℕ) → w / 2 ^ suc k ≡ w / 2 / 2 ^ k
div_pow_front w k = ap (λ (q : ℕ). w / q) (two_front) ∙ sym (div-div-eq-div-mul w 2 (2 ^ k))
  where
    two_front : 2 ^ suc k ≡ 2 * 2 ^ k
    two_front = omega (arith, pow-suc 2 k)

-- Eight bits of the exponent are one byte.
div_byte : (w k : ℕ) → w / 2 ^ suc (suc (suc (suc (suc (suc (suc (suc k))))))) ≡ w / 256 / 2 ^ k
div_byte w k =
    div_pow_front w (suc (suc (suc (suc (suc (suc (suc k)))))))
    ∙ div_pow_front (w / 2) (suc (suc (suc (suc (suc (suc k))))))
    ∙ div_pow_front (w / 2 / 2) (suc (suc (suc (suc (suc k)))))
    ∙ div_pow_front (w / 2 / 2 / 2) (suc (suc (suc (suc k))))
    ∙ div_pow_front (w / 2 / 2 / 2 / 2) (suc (suc (suc k)))
    ∙ div_pow_front (w / 2 / 2 / 2 / 2 / 2) (suc (suc k))
    ∙ div_pow_front (w / 2 / 2 / 2 / 2 / 2 / 2) (suc k)
    ∙ div_pow_front (w / 2 / 2 / 2 / 2 / 2 / 2 / 2) k
    ∙ ap (λ (q : ℕ). q / 2 ^ k) eighth
  where
    eighth : w / 2 / 2 / 2 / 2 / 2 / 2 / 2 / 2 ≡ w / 256
    eighth = omega arith

-- Bit `a` of the number.
bit : ℕ → ℕ → ℕ
bit w a = w / 2 ^ a % 2

-- The bit of the byte that `read_bits_le` looks at.
byte_bit : List ℕ → ℕ → ℕ
byte_bit bytes a = byte bytes (a / 8) / 2 ^ (a % 8) % 2

byte_bit-step :
    (x : ℕ) (xs : List ℕ) (a : ℕ)
    → byte_bit (x ∷ xs) (suc (suc (suc (suc (suc (suc (suc (suc a)))))))) ≡ byte_bit xs a
unfolding byte_bit
byte_bit-step x xs a =
    ap
      (λ (k : ℕ). byte (x ∷ xs) k / 2 ^ ((suc (suc (suc (suc (suc (suc (suc (suc a)))))))) % 8) % 2)
      quotient
    ∙ ap (λ (k : ℕ). byte xs (a / 8) / 2 ^ k % 2) remainder
  where
    quotient : (suc (suc (suc (suc (suc (suc (suc (suc a)))))))) / 8 ≡ suc (a / 8)
    quotient = omega arith

    remainder : (suc (suc (suc (suc (suc (suc (suc (suc a)))))))) % 8 ≡ a % 8
    remainder = omega arith

low_bit : (x v a : ℕ) → a < 8 → bit (x + 256 * v) a ≡ bit x a
unfolding bit
low_bit x v zero h = omega arith
low_bit x v (suc zero) h = omega arith
low_bit x v (suc (suc zero)) h = omega arith
low_bit x v (suc (suc (suc zero))) h = omega arith
low_bit x v (suc (suc (suc (suc zero)))) h = omega arith
low_bit x v (suc (suc (suc (suc (suc zero))))) h = omega arith
low_bit x v (suc (suc (suc (suc (suc (suc zero)))))) h = omega arith
low_bit x v (suc (suc (suc (suc (suc (suc (suc zero))))))) h = omega arith
low_bit x v (suc (suc (suc (suc (suc (suc (suc (suc a)))))))) h = absurd (omega arith)

byte_bit-bit :
    (bytes : List ℕ) (a : ℕ) → All IsByte bytes → byte_bit bytes a ≡ bit (le_value bytes) a
unfolding byte_bit bit le_value
byte_bit-bit [] a h = refl_zero
  where
    zero-div : (k : ℕ) → 0 / 2 ^ k % 2 ≡ 0
    zero-div k = omega (arith, Nat.zero-div (2 ^ k))

    refl_zero : byte_bit [] a ≡ bit 0 a
    refl_zero = zero-div (a % 8) ∙ sym (zero-div a)
byte_bit-bit (x ∷ xs) (suc (suc (suc (suc (suc (suc (suc (suc a)))))))) h =
    byte_bit-step x xs a
    ∙ byte_bit-bit xs a h.1
    ∙ ap (λ (v : ℕ). v / 2 ^ a % 2) second_byte
    ∙ sym (ap (λ (q : ℕ). q % 2) (div_byte (x + 256 * le_value xs) a))
  where
    second_byte : le_value xs ≡ (x + 256 * le_value xs) / 256
    second_byte = omega (arith, h.0)
byte_bit-bit (x ∷ xs) a h = sym (low_bit x (le_value xs) a (omega arith))

one_more : (b : ℕ) → b + 1 ≡ suc b
one_more b = omega arith

-- A field is its lowest bit and the field above that.
mod_step : (v n : ℕ) → v % 2 ^ suc n ≡ v % 2 + 2 * (v / 2 % 2 ^ n)
mod_step v n =
    ap (◌%◌ v) (sym (twice n)) ∙ ap (λ (x : ℕ). x % (2 * 2 ^ n)) (sym (halves (v / 2))) ∙ low_part
  where
    twice : (n : ℕ) → 2 * 2 ^ n ≡ 2 ^ suc n
    twice n = omega (arith, pow-suc 2 n)

    halves : (h : ℕ) → v % 2 + 2 * (2 ^ n * (v / 2 / 2 ^ n) + v / 2 % 2 ^ n) ≡ v
    halves h = omega (arith, div-add-mod (v / 2) (2 ^ n))

    regroup :
        v % 2 + 2 * (2 ^ n * (v / 2 / 2 ^ n) + v / 2 % 2 ^ n)
        ≡ v % 2 + 2 * (v / 2 % 2 ^ n) + 2 * 2 ^ n * (v / 2 / 2 ^ n)
    regroup = omega arith

    low_part :
        (v % 2 + 2 * (2 ^ n * (v / 2 / 2 ^ n) + v / 2 % 2 ^ n)) % (2 * 2 ^ n)
        ≡ v % 2 + 2 * (v / 2 % 2 ^ n)
    low_part =
        ap (λ (x : ℕ). x % (2 * 2 ^ n)) regroup
        ∙ add-mul-mod_self_left (v % 2 + 2 * (v / 2 % 2 ^ n)) (2 * 2 ^ n) (v / 2 / 2 ^ n)
        ∙ mod-eq_of_lt
            (omega (arith, Nat.mod-lt (v / 2) {m = 2 ^ n} (omega (arith, one-le-pow n 2))))

or_bit :
    (b n value set : ℕ)
    → value < 2 ^ b
    → b + suc n ≤ 64
    → set < 2
    → (if not (set == 0) then bit_or value (2 ^ b % 2 ^ 64) else value) ≡ value + set * 2 ^ b
or_bit b n value zero less few h = omega arith
or_bit b n value (suc zero) less few h =
    ap (bit_or value) (mod-eq_of_lt below ∙ once) ∙ bit_or-shifted b value 1 less
  where
    below : 2 ^ b < 2 ^ 64
    below = omega (
      arith,
      pow-le-pow_right {n = 2} (omega arith) {i = suc b} {j = 64} (omega arith),
      pow-suc 2 b,
      one-le-pow b 2,
    )

    once : 2 ^ b ≡ 1 * 2 ^ b
    once = omega arith
or_bit b n value (suc (suc set)) less few h = absurd (omega arith)

-- The bit that the loop tests, as a digit of the number.
tested_bit :
    (bytes : List ℕ) (a : ℕ)
    → All IsByte bytes
    → bit_and (byte bytes (a / 8) / 2 ^ (a % 8)) 1 ≡ le_value bytes / 2 ^ a % 2
unfolding byte_bit bit
tested_bit bytes a h = bit_and-one (byte bytes (a / 8) / 2 ^ (a % 8)) ∙ byte_bit-bit bytes a h

loop_digit : (q s l value p r : ℕ) → r ≡ p * 2 → value + s * p + r * l ≡ value + p * (s + 2 * l)
loop_digit q s l value p r e = rw e (omega arith)

next_weight : (b : ℕ) → 2 ^ (b + 1) ≡ 2 ^ b * 2
next_weight b = ap (◌^◌ 2) (one_more b) ∙ pow-suc 2 b

next_place : (w o b : ℕ) → w / 2 ^ (o + (b + 1)) ≡ w / 2 ^ (o + b) / 2
next_place w o b = ap (λ (k : ℕ). w / 2 ^ k) further ∙ div_pow w (o + b)
  where
    further : o + (b + 1) ≡ suc (o + b)
    further = omega arith

bit_below : (b value q : ℕ) → value < 2 ^ b → value + q % 2 * 2 ^ b < 2 ^ (b + 1)
bit_below b value q less =
    omega (arith, next_weight b, Nat.mul-le-mul_right {m = q % 2} {n = 1} (2 ^ b) (omega arith))

bits_loop-value :
    (bytes : List ℕ) (o n b value : ℕ)
    → All IsByte bytes
    → value < 2 ^ b
    → b + n ≤ 64
    → bits_loop bytes o n b value ≡ value + 2 ^ b * (le_value bytes / 2 ^ (o + b) % 2 ^ n)
unfolding bits_loop
bits_loop-value bytes o zero b value h less few =
    omega (arith, ap (λ (x : ℕ). 2 ^ b * x) (Nat.mod-one (le_value bytes / 2 ^ (o + b))))
bits_loop-value bytes o (suc n) b value h less few =
    let q = le_value bytes / 2 ^ (o + b) in
    let s = q % 2 in
    ap
      (λ (x : ℕ).
        bits_loop bytes o n (b + 1) (if not (x == 0) then bit_or value (2 ^ b % 2 ^ 64) else value))
      (tested_bit bytes (o + b) h)
    ∙ ap (bits_loop bytes o n (b + 1)) (or_bit b n value s less few (omega arith))
    ∙ bits_loop-value bytes o n (b + 1) (value + s * 2 ^ b) h (bit_below b value q less)
        (omega arith)
    ∙ ap (λ (x : ℕ). value + s * 2 ^ b + 2 ^ (b + 1) * (x % 2 ^ n))
        (next_place (le_value bytes) o b)
    ∙ loop_digit q s (q / 2 % 2 ^ n) value (2 ^ b) (2 ^ (b + 1)) (next_weight b)
    ∙ sym (ap (λ (x : ℕ). value + 2 ^ b * x) (mod_step q n))

-- From bytes, `read_bits_le` of at most 64 bits gives the field of `count` bits that starts at bit
-- `offset` of the little-endian number they stand for; bits beyond the last byte are 0.
pub read_bits_le-value :
    (bytes : List ℕ) (offset count : ℕ)
    → All IsByte bytes
    → count ≤ 64
    → read_bits_le bytes offset count ≡ le_value bytes / 2 ^ offset % 2 ^ count
unfolding read_bits_le
read_bits_le-value bytes o n h few =
    bits_loop-value bytes o n 0 0 h (omega arith) (omega arith)
    ∙ ap (λ (k : ℕ). 0 + 1 * (le_value bytes / 2 ^ k % 2 ^ n)) no_more
    ∙ omega arith
  where
    no_more : o + 0 ≡ o
    no_more = omega arith
