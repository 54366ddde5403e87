-- ===== src/Ascii/Numbers.antt =====
-- `parse_int` and `parse_uint32` of src/unicore_parser.cpp, with `isspace`, `strtol` and `strtoul` of
-- the C library in the "C" locale and with a 64-bit `long`.
use unicore_ros.Base.{
  ℕ, zero, suc, ◌+◌, ◌-◌, ◌*◌, ◌%◌, ◌^◌, Bool, true, false, not, ◌&&◌, ◌||◌, Option, none, some, [],
  ◌∷◌, ltb, leb, ◌==◌, if◌then◌else◌,
}
use unicore_ros.Base.Int.{ℤ, pos, negsuc, signed}
use unicore_ros.Base.Text.{Text}

abbrev pub between : ℕ → ℕ → ℕ → Bool
between low c high = leb low c && leb c high

unfoldable pub isspace : ℕ → Bool
isspace c = c == b' ' || between 9 c 13

unfoldable pub skip_space : Text → Text
skip_space [] = []
skip_space (c ∷ text) = let rest = skip_space text in if isspace c then rest else c ∷ text

-- The value of a digit of the base, which is 10 or 16 here.
unfoldable pub digit_value : ℕ → ℕ → Option ℕ
digit_value base c =
    if between b'0' c b'9'
    then some (c - 48)
    else if base == 16 && between b'a' c b'f'
    then some (c - 87)
    else if base == 16 && between b'A' c b'F'
    then some (c - 55)
    else none

-- The number that the leading digits make after `acc`, and the text behind them.
unfoldable pub digits : ℕ → ℕ → Text → ℕ × Text
digits base acc [] = (acc, [])
digits base acc (c ∷ text) = elim (digit_value base c) [
  | none ↦ (acc, c ∷ text)
  | some d ↦ digits base (acc * base + d) text
]

-- An optional sign: whether it is a minus, and the text behind it.
unfoldable pub sign : Text → Bool × Text
sign [] = (false, [])
sign (c ∷ text) =
    if c == b'-' then (true, text) else if c == b'+' then (false, text) else (false, c ∷ text)

abbrev is_some {ℓ} : {A : Type ℓ} → Option A → Bool
is_some none = false
is_some (some a) = true

abbrev pub starts_with_digit : ℕ → Text → Bool
starts_with_digit base [] = false
starts_with_digit base (c ∷ text) = is_some (digit_value base c)

-- In base 16, `0x` before a digit is skipped.
unfoldable pub skip_prefix : ℕ → Text → Text
unfolding digit_value
skip_prefix base (z ∷ x ∷ text) =
    if base == 16 && (z == b'0' && ((x == b'x' || x == b'X') && starts_with_digit 16 text))
    then text
    else z ∷ x ∷ text
skip_prefix base text = text

-- Sign and magnitude, and the text from `*end` on; without digits, 0 and the whole text.
unfoldable pub scan : ℕ → Text → (Bool × ℕ) × Text
unfolding skip_space sign skip_prefix digits digit_value
scan base text =
    let signed_part = sign (skip_space text) in
    let body = skip_prefix base signed_part.1 in
    if starts_with_digit base body
    then ((signed_part.0, (digits base 0 body).0), (digits base 0 body).1)
    else ((false, 0), text)

-- A `long`: out of range it is the limit.
abbrev to_long : Bool → ℕ → ℤ
to_long false n = if ltb n (2 ^ 63) then pos n else pos (2 ^ 63 - 1)
to_long true zero = pos 0
to_long true (suc n) = if ltb n (2 ^ 63) then negsuc n else negsuc (2 ^ 63 - 1)

unfoldable pub strtol : Text → ℕ → ℤ × Text
unfolding scan
strtol text base = let ((minus, n), rest) = scan base text in (to_long minus n, rest)

-- An `unsigned long`: a minus negates modulo 2 ^ 64, and out of range it is the largest.
abbrev to_unsigned_long : Bool → ℕ → ℕ
to_unsigned_long minus n =
    if leb (2 ^ 64) n then 2 ^ 64 - 1 else if minus then (2 ^ 64 - n) % 2 ^ 64 else n

unfoldable pub strtoul : Text → ℕ → ℕ × Text
unfolding scan
strtoul text base = let ((minus, n), rest) = scan base text in (to_unsigned_long minus n, rest)

-- `*end == '\0'`: the end of the text, or a byte 0 in it.
abbrev pub at_end : Text → Bool
at_end [] = true
at_end (c ∷ rest) = c == 0

-- `static_cast<int>` of a `long`.
unfoldable pub int_of_long : ℤ → ℤ
int_of_long (pos n) = signed 32 (n % 2 ^ 32)
int_of_long (negsuc n) = signed 32 (2 ^ 32 - 1 - n % 2 ^ 32)

abbrev pub is_empty : Text → Bool
is_empty [] = true
is_empty (c ∷ text) = false

-- `none` is the result `false`, with `value` left as it was.
unfoldable pub parse_int : Text → Option ℤ
unfolding strtol int_of_long
parse_int field =
    let (parsed, rest) = strtol field 10 in
    if is_empty field then none else if not (at_end rest) then none else some (int_of_long parsed)

unfoldable pub parse_uint32 : Text → ℕ → Option ℕ
unfolding strtoul
parse_uint32 field base =
    let (parsed, rest) = strtoul field base in
    if is_empty field
    then none
    else if not (at_end rest) || ltb (2 ^ 32 - 1) parsed
    then none
    else some parsed
