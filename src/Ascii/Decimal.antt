-- ===== src/Ascii/Decimal.antt =====
-- `parse_int` of src/unicore_parser.cpp reads back what `std::to_string` prints of an `int`.
use native.Mathlib.Nat.{pow-suc}
use unicore_ros.Base.{
  ℕ, zero, suc, ◌+◌, ◌*◌, ◌/◌, ◌%◌, ◌^◌, ◌≤◌, ◌<◌, ◌≡◌, refl, sym, ap, ◌∙◌, inl, inr, true, false,
  some, [], ◌∷◌, ◌++◌, append-nil, append_assoc, arith, ltb, Bool-cases, ltb→lt, ltb-false→le,
}
use unicore_ros.Base.Int.{ℤ, pos, negsuc}
use unicore_ros.Base.Text.{Text, decimal, to_string, to_string_int}
use unicore_ros.Ascii.Numbers.{
  isspace, skip_space, sign, skip_prefix, digit_value, digits, scan, strtol, int_of_long, parse_int,
}

digit_value-decimal : (d : ℕ) → d < 10 → digit_value 10 (d + 48) ≡ some d
unfolding digit_value
digit_value-decimal d h = ground arith

digits-decimal_digit :
    (d acc : ℕ) (rest : Text)
    → d < 10
    → digits 10 acc ((d + 48) ∷ rest) ≡ digits 10 (acc * 10 + d) rest
unfolding digits
digits-decimal_digit d acc rest h = rw (digit_value-decimal d h, digits) refl

-- The two shapes of a printed number.
decimal-last : (k n : ℕ) → n < 10 → decimal (suc k) n ≡ (n + 48) ∷ []
unfolding decimal
decimal-last k n h = ground arith

decimal-more : (k n : ℕ) → 10 ≤ n → decimal (suc k) n ≡ decimal k (n / 10) ++ ((n % 10 + 48) ∷ [])
unfolding decimal
decimal-more k n h = ground arith

-- `n` may be 0 only if there is room for a digit.
digits-decimal :
    (k n : ℕ) (rest : Text)
    → n < 10 ^ k
    → 0 < k
    → digits 10 0 (decimal k n ++ rest) ≡ digits 10 n rest
digits-decimal zero n rest h room = elim room [ ]
digits-decimal (suc k) n rest h room = elim (Bool-cases (ltb n 10)) [
  | inl small ↦
      ap (λ t. digits 10 0 (t ++ rest)) (decimal-last k n (ltb→lt n 10 small))
      ∙ digits-decimal_digit n 0 rest (ltb→lt n 10 small)
      ∙ ap (λ a. digits 10 a rest) (omega arith)
  | inr large ↦
      let many = ltb-false→le n 10 large in
      ap (λ t. digits 10 0 (t ++ rest)) (decimal-more k n many)
      ∙ ap (digits 10 0) (append_assoc (decimal k (n / 10)) ((n % 10 + 48) ∷ []) rest)
      ∙ digits-decimal k (n / 10) ((n % 10 + 48) ∷ rest) (omega (arith, pow-suc 10 k))
          (room_left k many h)
      ∙ digits-decimal_digit (n % 10) (n / 10) rest (omega arith)
      ∙ ap (λ a. digits 10 a rest) (omega arith)
]
  where
    room_left : (k : ℕ) → 10 ≤ n → n < 10 ^ suc k → 0 < k
    room_left zero many h = absurd (omega arith)
    room_left (suc k) many h = omega arith

decimal-front :
    (k n : ℕ)
    → n < 10 ^ k
    → 0 < k
    → (d : ℕ) × (rest : Text) × (d < 10) × (decimal k n ≡ (d + 48) ∷ rest)
decimal-front zero n h room = elim room [ ]
decimal-front (suc k) n h room = elim (Bool-cases (ltb n 10)) [
  | inl small ↦ (n, [], ltb→lt n 10 small, decimal-last k n (ltb→lt n 10 small))
  | inr large ↦
      let many = ltb-false→le n 10 large in
      let (d, rest, dh, front) =
        decimal-front k (n / 10) (omega (arith, pow-suc 10 k)) (room_left k many h) in
      (
        d,
        rest ++ ((n % 10 + 48) ∷ []),
        dh,
        decimal-more k n many ∙ ap (λ t. t ++ ((n % 10 + 48) ∷ [])) front,
      )
]
  where
    room_left : (k : ℕ) → 10 ≤ n → n < 10 ^ suc k → 0 < k
    room_left zero many h = absurd (omega arith)
    room_left (suc k) many h = omega arith

pub to_string-front :
    (n : ℕ) → n < 2 ^ 32 → (d : ℕ) × (rest : Text) × (d < 10) × (to_string n ≡ (d + 48) ∷ rest)
unfolding to_string
to_string-front n h = decimal-front 20 n (omega arith) (omega arith)

digits-to_string : (n : ℕ) → n < 2 ^ 32 → digits 10 0 (to_string n) ≡ (n, [])
unfolding to_string digits
digits-to_string n h =
    ap (digits 10 0) (sym (append-nil (decimal 20 n)))
    ∙ digits-decimal 20 n [] (omega arith) (omega arith)

skip_prefix-ten : (text : Text) → skip_prefix 10 text ≡ text
unfolding skip_prefix
skip_prefix-ten [] = refl
skip_prefix-ten (x ∷ []) = refl
skip_prefix-ten (x ∷ y ∷ text) = refl

isspace-decimal : (d : ℕ) → d < 10 → isspace (d + 48) ≡ false
unfolding isspace
isspace-decimal d h = ground arith

sign-decimal : (d : ℕ) (rest : Text) → d < 10 → sign ((d + 48) ∷ rest) ≡ (false, (d + 48) ∷ rest)
unfolding sign
sign-decimal d rest h = ground arith

scan-decimal :
    (d : ℕ) (rest text : Text)
    → d < 10
    → text ≡ (d + 48) ∷ rest
    → (scan 10 text ≡ ((false, (digits 10 0 text).0), (digits 10 0 text).1))
      × (scan 10 (b'-' ∷ text) ≡ ((true, (digits 10 0 text).0), (digits 10 0 text).1))
unfolding scan isspace
scan-decimal d rest text h same = (
  rw
      (
        same,
        scan,
        skip_space,
        isspace-decimal d h,
        sign-decimal d rest h,
        skip_prefix-ten ((d + 48) ∷ rest),
        digit_value-decimal d h,
      )
      refl,
  rw
      (
        same,
        scan,
        skip_space,
        isspace,
        sign,
        skip_prefix-ten ((d + 48) ∷ rest),
        digit_value-decimal d h,
      )
      refl,
)

-- The values of an `int`.
unfoldable pub IsInt : ℤ → Type 0
IsInt (pos n) = n < 2 ^ 31
IsInt (negsuc n) = n < 2 ^ 31

pub parse_int-pos : (n : ℕ) → n < 2 ^ 31 → parse_int (to_string n) ≡ some (pos n)
unfolding parse_int strtol int_of_long
parse_int-pos n h =
    let (d, rest, dh, front) = to_string-front n (omega arith) in
    rw ((scan-decimal d rest (to_string n) dh front).0, digits-to_string n (omega arith), front)
      (ground arith)

parse_int-negsuc : (n : ℕ) → n < 2 ^ 31 → parse_int (b'-' ∷ to_string (suc n)) ≡ some (negsuc n)
unfolding parse_int strtol int_of_long
parse_int-negsuc n h =
    let (d, rest, dh, front) = to_string-front (suc n) (omega arith) in
    rw
      ((scan-decimal d rest (to_string (suc n)) dh front).1, digits-to_string (suc n) (omega arith))
      (ground arith)

-- `parse_int` reads every value of an `int` back from the text that `std::to_string` makes of it.
pub parse_int-to_string_int : (z : ℤ) → IsInt z → parse_int (to_string_int z) ≡ some z
unfolding IsInt to_string_int
parse_int-to_string_int (pos n) h = parse_int-pos n h
parse_int-to_string_int (negsuc n) h = parse_int-negsuc n h
