-- ===== src/Payload/Signed.antt =====
-- `sign_extend` of src/unicore_binary_nav.cpp reads the low bits of a word in two's complement.
use native.Mathlib.Nat
use native.Mathlib.Nat.{pow-suc, pow-le-pow_right, mod-eq_of_lt, one-le-pow, add-mul-mod_self_left}
use unicore_ros.Base.{
  ℕ, zero, suc, ◌+◌, ◌-◌, ◌*◌, ◌/◌, ◌%◌, ◌^◌, ◌≤◌, ◌<◌, ◌≡◌, refl, sym, ap, ◌∙◌, inl, inr, bit_and,
  min, true, false, arith, ◌==◌, ltb, leb, if◌then◌else◌, Bool-cases, ltb-false→le,
}
use unicore_ros.Base.Bits.{bit_and-mask, bit_and_lowest}
use unicore_ros.Base.Int.{signed, sub_ℕ}
use unicore_ros.Payload.{bit_mask, sign_extend}

-- The highest bit of a number below 2 ^ (k + 1).
top_bit : (k t : ℕ) → t < 2 ^ suc k → bit_and t (2 ^ k) ≡ (if ltb t (2 ^ k) then 0 else 2 ^ k)
top_bit zero zero h = refl
top_bit zero (suc zero) h = refl
top_bit zero (suc (suc t)) h = absurd (omega arith)
top_bit (suc k) t h =
    bit_and_lowest t (2 ^ suc k)
    ∙ ap (λ (x : ℕ). bit_and (t / 2) x * 2 + min (t % 2) (2 ^ suc k % 2)) half
    ∙ ap (λ (x : ℕ). x * 2 + min (t % 2) (2 ^ suc k % 2)) (top_bit k (t / 2) below)
    ∙ both
  where
    half : 2 ^ suc k / 2 ≡ 2 ^ k
    half = omega (arith, pow-suc 2 k)

    below : t / 2 < 2 ^ suc k
    below = omega (arith, pow-suc 2 (suc k))

    both :
        (if ltb (t / 2) (2 ^ k) then 0 else 2 ^ k) * 2 + min (t % 2) (2 ^ suc k % 2)
        ≡ (if ltb t (2 ^ suc k) then 0 else 2 ^ suc k)
    both = ground (arith, pow-suc 2 k)

bit_mask-pow : (n : ℕ) → n < 64 → bit_mask n ≡ 2 ^ n - 1
unfolding bit_mask
bit_mask-pow n h = rw (not_leb n h, mod-eq_of_lt (pow_less n h)) refl
  where
    not_leb : (n : ℕ) → n < 64 → leb 64 n ≡ false
    not_leb n h = ground arith

    pow_less : (n : ℕ) → n < 64 → 2 ^ n < 2 ^ 64
    pow_less n h = omega (
      arith,
      pow-le-pow_right {n = 2} (omega arith) {i = suc n} {j = 64} (omega arith),
      pow-suc 2 n,
      one-le-pow n 2,
    )

pow_sum : (n d : ℕ) → 2 ^ (n + d) ≡ 2 ^ n * 2 ^ d
pow_sum n zero = ap (◌^◌ 2) none_more ∙ omega arith
  where
    none_more : n + 0 ≡ n
    none_more = omega arith
pow_sum n (suc d) =
    ap (◌^◌ 2) one_more
    ∙ omega (arith, pow-suc 2 (n + d), pow_sum n d, ap (λ (x : ℕ). 2 ^ n * x) (pow-suc 2 d))
  where
    one_more : n + suc d ≡ suc (n + d)
    one_more = omega arith

complement : (a q w t : ℕ) → a * q ≡ w → 1 ≤ q → t < a → w - 1 - t + 1 ≡ a - t + a * (q - 1)
complement a zero w t e h less = absurd (omega arith)
complement a (suc q) w t e h less = omega (arith, ap (λ (x : ℕ). a * x) (pred q))
  where
    pred : (q : ℕ) → suc q - 1 ≡ q
    pred q = omega arith

-- The two's complement negation of a word, cut to `n` bits.
negated : (n t : ℕ) → n < 64 → 0 < t → t < 2 ^ n → (2 ^ 64 - 1 - t + 1) % 2 ^ 64 % 2 ^ n ≡ 2 ^ n - t
negated n t h positive less =
    ap (λ (x : ℕ). x % 2 ^ n) (mod-eq_of_lt small ∙ regroup)
    ∙ add-mul-mod_self_left (2 ^ n - t) (2 ^ n) (2 ^ (64 - n) - 1)
    ∙ mod-eq_of_lt (omega arith)
  where
    filled : n + (64 - n) ≡ 64
    filled = omega arith

    whole : 2 ^ n * 2 ^ (64 - n) ≡ 2 ^ 64
    whole = sym (pow_sum n (64 - n)) ∙ ap (◌^◌ 2) filled

    small : 2 ^ 64 - 1 - t + 1 < 2 ^ 64
    small = omega (arith, pow-le-pow_right {n = 2} (omega arith) {i = n} {j = 64} (omega arith))

    regroup : 2 ^ 64 - 1 - t + 1 ≡ 2 ^ n - t + 2 ^ n * (2 ^ (64 - n) - 1)
    regroup =
        complement (2 ^ n) (2 ^ (64 - n)) (2 ^ 64) t whole (one-le-pow (64 - n) 2 (omega arith))
          less

low_signed : (k t : ℕ) → suc k < 64 → ltb t (2 ^ k) ≡ true → signed 64 t ≡ signed (suc k) t
low_signed k t h low =
    ground (
      arith,
      pow-suc 2 k,
      pow-le-pow_right {n = 2} (omega arith) {i = suc k} {j = 64} (omega arith),
    )

last_case :
    (k t : ℕ)
    → suc k < 64
    → t < 2 ^ suc k
    → (if bit_and t (2 ^ k) == 0
        then signed 64 t
        else sub_ℕ 0 (bit_and ((2 ^ 64 - 1 - t + 1) % 2 ^ 64) (bit_mask (suc k))))
      ≡ signed (suc k) t
last_case k t h less = elim (Bool-cases (ltb t (2 ^ k))) [
  | inl low ↦ rw (top_bit k t less, low) (low_signed k t h low)
  | inr high ↦
      rw
        (
          top_bit k t less,
          high,
          bit_mask-pow (suc k) h,
          bit_and-mask (suc k) ((2 ^ 64 - 1 - t + 1) % 2 ^ 64),
          negated (suc k) t h (omega (arith, one-le-pow k 2, ltb-false→le t (2 ^ k) high)) less,
        )
        (ground (arith, pow-suc 2 k))
]

small_count :
    (k : ℕ) → suc k < 64 → ((suc k == 0) ≡ false) × (leb 64 (suc k) ≡ false) × (suc k - 1 ≡ k)
small_count k h = (ground arith, ground arith, omega arith)

-- For 1 to 63 bits, `sign_extend` gives the signed number that the low `count` bits of the word stand
-- for in two's complement; the higher bits have no effect.
pub sign_extend-signed :
    (value count : ℕ)
    → 0 < count
    → count < 64
    → sign_extend value count ≡ signed count (value % 2 ^ count)
unfolding sign_extend
sign_extend-signed value zero h less = absurd (omega arith)
sign_extend-signed value (suc k) h less =
    let (some_bits, few, lower) = small_count k less in
    rw (some_bits, few, lower, bit_and-masked)
      (last_case k (value % 2 ^ suc k) less (Nat.mod-lt value (one-le-pow (suc k) 2 (omega arith))))
  where
    bit_and-masked : bit_and value (bit_mask (suc k)) ≡ value % 2 ^ suc k
    bit_and-masked = ap (bit_and value) (bit_mask-pow (suc k) less) ∙ bit_and-mask (suc k) value
