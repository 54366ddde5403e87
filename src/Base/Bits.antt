-- ===== src/Base/Bits.antt =====
-- The bit operations at variables: each goes by its law for the lowest digit, and a field that is
-- shifted or masked at a fixed width is plain arithmetic.
use Prim.Native.Nat.{
  ℕ, zero, suc, ◌+◌, ◌-◌, ◌*◌, ◌/◌, ◌%◌, ◌^◌, ◌≤◌, ◌<◌, min, max, bit_and, bit_or, bit_xor, digits,
  bitwise, differ, bit_and-bitwise, bit_or-bitwise, bit_xor-bitwise,
}
use mathlib.Core.Path.{◌≡◌, refl, ap}
use native.Mathlib.Nat.{pow-suc, one-le-pow}
use native.Mathlib.Omega.{arith}

-- The count that bounds the recursion on digits is no part of the result.
module _ (z : ℕ → ℕ) (f : ℕ → ℕ → ℕ) where
  digits_count : (n m a b : ℕ) → a ≤ n → a ≤ m → digits z f n a b ≡ digits z f m a b
  digits_count zero zero zero b p q = refl
  digits_count zero (suc m) zero b p q = refl
  digits_count (suc n) zero zero b p q = refl
  digits_count (suc n) (suc m) zero b p q = refl
  digits_count zero m (suc a) b p q = absurd (omega arith)
  digits_count (suc n) zero (suc a) b p q = absurd (omega arith)
  digits_count (suc n) (suc m) (suc a) b p q =
      ap (λ (r : ℕ). r * 2 + f (suc a % 2) (b % 2))
        (digits_count n m (suc a / 2) (b / 2) (omega arith) (omega arith))

  digits_lowest :
      (a b : ℕ)
      → bitwise z f (suc a) b ≡ bitwise z f (suc a / 2) (b / 2) * 2 + f (suc a % 2) (b % 2)
  digits_lowest a b =
      omega (arith, digits_count a (suc a / 2) (suc a / 2) (b / 2) (omega arith) (omega arith))

pub bit_and_lowest : (a b : ℕ) → bit_and a b ≡ bit_and (a / 2) (b / 2) * 2 + min (a % 2) (b % 2)
bit_and_lowest zero b = simp bit_and-bitwise (omega arith)
bit_and_lowest (suc a) b = simp bit_and-bitwise (digits_lowest (λ y. 0) min a b)

pub bit_or_lowest : (a b : ℕ) → bit_or a b ≡ bit_or (a / 2) (b / 2) * 2 + max (a % 2) (b % 2)
bit_or_lowest zero b = simp bit_or-bitwise (omega arith)
bit_or_lowest (suc a) b = simp bit_or-bitwise (digits_lowest (λ y. y) max a b)

differ-add : (x y : ℕ) → x < 2 → y < 2 → differ x y ≡ (x + y) % 2
differ-add zero y p q = omega arith
differ-add (suc zero) zero p q = omega arith
differ-add (suc zero) (suc zero) p q = omega arith
differ-add (suc zero) (suc (suc y)) p q = absurd (omega arith)
differ-add (suc (suc x)) y p q = absurd (omega arith)

pub bit_xor_lowest : (a b : ℕ) → bit_xor a b ≡ bit_xor (a / 2) (b / 2) * 2 + (a + b) % 2
bit_xor_lowest zero b = simp bit_xor-bitwise (omega arith)
bit_xor_lowest (suc a) b = simp bit_xor-bitwise (
    omega (
      arith,
      digits_lowest (λ y. y) differ a b,
      differ-add (suc a % 2) (b % 2) (omega arith) (omega arith),
    ))

zero-bit_and : (b : ℕ) → bit_and 0 b ≡ 0
zero-bit_and b = bit_and-bitwise 0 b

zero-bit_or : (b : ℕ) → bit_or 0 b ≡ b
zero-bit_or b = bit_or-bitwise 0 b

bit_and-zero_upto : (n a : ℕ) → a ≤ n → bit_and a 0 ≡ 0
bit_and-zero_upto n zero h = refl
bit_and-zero_upto zero (suc a) h = absurd (omega arith)
bit_and-zero_upto (suc n) (suc a) h =
    omega (arith, bit_and_lowest (suc a) 0, bit_and-zero_upto n (suc a / 2) (omega arith))

pub bit_and-zero : (a : ℕ) → bit_and a 0 ≡ 0
bit_and-zero a = bit_and-zero_upto a a (omega arith)

bit_or-zero_upto : (n a : ℕ) → a ≤ n → bit_or a 0 ≡ a
bit_or-zero_upto n zero h = refl
bit_or-zero_upto zero (suc a) h = absurd (omega arith)
bit_or-zero_upto (suc n) (suc a) h =
    omega (arith, bit_or_lowest (suc a) 0, bit_or-zero_upto n (suc a / 2) (omega arith))

pub double_shift : (b k : ℕ) → b * 2 ^ suc k ≡ 2 * (b * 2 ^ k)
double_shift b k = omega (arith, ap (λ (t : ℕ). b * t) (pow-suc 2 k))

-- `a | (b << k)` is a sum when `a` fits `k` bits.
pub bit_or-shifted : (k a b : ℕ) → a < 2 ^ k → bit_or a (b * 2 ^ k) ≡ a + b * 2 ^ k
bit_or-shifted zero zero b h = omega (arith, zero-bit_or (b * 1))
bit_or-shifted zero (suc a) b h = absurd (omega arith)
bit_or-shifted (suc k) a b h = omega (
  arith,
  bit_or_lowest a (b * 2 ^ suc k),
  double_shift b k,
  pow-suc 2 k,
  ap (bit_or (a / 2)) (halved k b),
  bit_or-shifted k (a / 2) b (omega (arith, pow-suc 2 k)),
)
  where
    halved : (k b : ℕ) → b * 2 ^ suc k / 2 ≡ b * 2 ^ k
    halved k b = omega (arith, double_shift b k)

-- A mask of `k` ones keeps the low `k` bits.
bit_and_low : (k q r : ℕ) → r < 2 ^ k → bit_and (q * 2 ^ k + r) (2 ^ k - 1) ≡ r
bit_and_low zero q r h = omega (arith, bit_and-zero (q * 1 + r))
bit_and_low (suc k) q r h = omega (
  arith,
  bit_and_lowest (q * 2 ^ suc k + r) (2 ^ suc k - 1),
  ap (λ (t : ℕ). bit_and t ((2 ^ suc k - 1) / 2)) (halved_sum),
  ap (bit_and (q * 2 ^ k + r / 2)) halved_mask,
  pow-suc 2 k,
  one-le-pow k 2,
  double_shift q k,
  bit_and_low k q (r / 2) (omega (arith, pow-suc 2 k)),
)
  where
    halved_sum : (q * 2 ^ suc k + r) / 2 ≡ q * 2 ^ k + r / 2
    halved_sum = omega (arith, double_shift q k)

    halved_mask : (2 ^ suc k - 1) / 2 ≡ 2 ^ k - 1
    halved_mask = omega (arith, pow-suc 2 k)

-- `a & (2 ^ k - 1)` is the remainder by `2 ^ k`.
pub bit_and-mask : (k a : ℕ) → bit_and a (2 ^ k - 1) ≡ a % 2 ^ k
bit_and-mask k a = ground (arith, one-le-pow k 2, bit_and_low k (a / 2 ^ k) (a % 2 ^ k))

pub bit_and-one : (a : ℕ) → bit_and a 1 ≡ a % 2
bit_and-one a = omega (arith, bit_and_lowest a 1, bit_and-zero (a / 2))
