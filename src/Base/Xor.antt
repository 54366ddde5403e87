-- ===== src/Base/Xor.antt =====
-- Exclusive or as a group operation on words of a fixed width.
use Prim.Native.Nat.{ℕ, zero, suc, ◌+◌, ◌*◌, ◌/◌, ◌^◌, ◌≤◌, ◌<◌, bit_xor, bit_xor-bitwise}
use mathlib.Core.Path.{◌≡◌, refl, sym, ap, ◌∙◌}
use native.Mathlib.Nat.{pow-suc}
use native.Mathlib.Omega.{arith}
use unicore_ros.Base.Bits.{bit_xor_lowest, double_shift}

xor_self_upto : (n a : ℕ) → a ≤ n → bit_xor a a ≡ 0
xor_self_upto n zero h = refl
xor_self_upto zero (suc a) h = absurd (omega arith)
xor_self_upto (suc n) (suc a) h =
    omega (arith, bit_xor_lowest (suc a) (suc a), xor_self_upto n (suc a / 2) (omega arith))

pub bit_xor_self : (a : ℕ) → bit_xor a a ≡ 0
bit_xor_self a = xor_self_upto a a (omega arith)

-- `a ^ b ^ b` is `a`.
xor_cancel_upto : (n a b : ℕ) → a + b ≤ n → bit_xor (bit_xor a b) b ≡ a
xor_cancel_upto zero zero zero h = refl
xor_cancel_upto zero zero (suc b) h = absurd (omega arith)
xor_cancel_upto zero (suc a) b h = absurd (omega arith)
xor_cancel_upto (suc n) a b h = omega (
  arith,
  bit_xor_lowest (bit_xor a b) b,
  bit_xor_lowest a b,
  ap (λ (t : ℕ). bit_xor t (b / 2)) (halved a b),
  xor_cancel_upto n (a / 2) (b / 2) (omega arith),
)
  where
    halved : (a b : ℕ) → bit_xor a b / 2 ≡ bit_xor (a / 2) (b / 2)
    halved a b = omega (arith, bit_xor_lowest a b)

pub bit_xor_bound : (k a b : ℕ) → a < 2 ^ k → b < 2 ^ k → bit_xor a b < 2 ^ k
bit_xor_bound zero zero zero p q = omega arith
bit_xor_bound zero (suc a) b p q = absurd (omega arith)
bit_xor_bound zero zero (suc b) p q = absurd (omega arith)
bit_xor_bound (suc k) a b p q = omega (
  arith,
  bit_xor_lowest a b,
  pow-suc 2 k,
  bit_xor_bound k (a / 2) (b / 2) (omega (arith, pow-suc 2 k)) (omega (arith, pow-suc 2 k)),
)

pub bit_xor-cancel : (a b : ℕ) → bit_xor (bit_xor a b) b ≡ a
bit_xor-cancel a b = xor_cancel_upto (a + b) a b (omega arith)

pub bit_xor-injective : (a b c : ℕ) → bit_xor a c ≡ bit_xor b c → a ≡ b
bit_xor-injective a b c h =
    sym (bit_xor-cancel a c) ∙ ap (λ (t : ℕ). bit_xor t c) h ∙ bit_xor-cancel b c

xor_comm_upto : (n a b : ℕ) → a + b ≤ n → bit_xor a b ≡ bit_xor b a
xor_comm_upto zero zero zero h = refl
xor_comm_upto zero zero (suc b) h = absurd (omega arith)
xor_comm_upto zero (suc a) b h = absurd (omega arith)
xor_comm_upto (suc n) a b h =
    omega
      (arith, bit_xor_lowest a b, bit_xor_lowest b a, xor_comm_upto n (a / 2) (b / 2) (omega arith))

pub bit_xor_comm : (a b : ℕ) → bit_xor a b ≡ bit_xor b a
bit_xor_comm a b = xor_comm_upto (a + b) a b (omega arith)

pub bit_xor-zero : (a : ℕ) → bit_xor a 0 ≡ a
bit_xor-zero a = bit_xor_comm a 0 ∙ bit_xor-bitwise 0 a

-- A word exclusive-or its own low `k` bits loses those bits.
pub bit_xor_clear : (k q r : ℕ) → r < 2 ^ k → bit_xor (q * 2 ^ k + r) r ≡ q * 2 ^ k
bit_xor_clear zero q zero h = omega (arith, bit_xor-zero (q * 1 + 0))
bit_xor_clear zero q (suc r) h = absurd (omega arith)
bit_xor_clear (suc k) q r h = omega (
  arith,
  bit_xor_lowest (q * 2 ^ suc k + r) r,
  ap (λ (t : ℕ). bit_xor t (r / 2)) halved_sum,
  double_shift q k,
  bit_xor_clear k q (r / 2) (omega (arith, pow-suc 2 k)),
)
  where
    halved_sum : (q * 2 ^ suc k + r) / 2 ≡ q * 2 ^ k + r / 2
    halved_sum = omega (arith, double_shift q k)
