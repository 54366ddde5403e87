-- ===== src/Ascii/Hex.antt =====
-- The hexadecimal text of a check as the receiver prints it, read back by `strtoul`.
use unicore_ros.Base.{
  ℕ, zero, suc, ◌+◌, ◌*◌, ◌/◌, ◌%◌, ◌^◌, ◌<◌, ◌≡◌, refl, sym, ap, ◌∙◌, false, some, [], ◌∷◌, ◌++◌,
  append-nil, append_assoc, length-append, arith, ltb, if◌then◌else◌, length,
}
use mathlib.Core.Path.{subst⁻¹}
use mathlib.Core.List.{reverse, reverse-append}
use native.Mathlib.Nat.{pow-suc}
use unicore_ros.Ascii.Trim.{StartsInk}
use unicore_ros.Base.Text.{Text}
use unicore_ros.Ascii.Numbers.{
  digit_value, digits, scan, strtoul, skip_space, sign, skip_prefix, isspace,
}

-- The digit 0-9 or A-F of a value below 16.
unfoldable pub hex_digit : ℕ → ℕ
hex_digit d = if ltb d 10 then d + 48 else d + 55

-- `n` in `k` digits.
unfoldable pub hex : ℕ → ℕ → Text
hex zero n = []
hex (suc k) n = hex k (n / 16) ++ (hex_digit (n % 16) ∷ [])

digit_value-hex_digit : (d : ℕ) → d < 16 → digit_value 16 (hex_digit d) ≡ some d
unfolding digit_value hex_digit
digit_value-hex_digit d h = ground arith

digits-hex_digit :
    (d acc : ℕ) (rest : Text)
    → d < 16
    → digits 16 acc (hex_digit d ∷ rest) ≡ digits 16 (acc * 16 + d) rest
unfolding digits
digits-hex_digit d acc rest h = rw (digit_value-hex_digit d h, digits) refl

hex_shift : (b k : ℕ) → b * 16 ^ suc k ≡ 16 * (b * 16 ^ k)
hex_shift b k = omega (arith, ap (λ (t : ℕ). b * t) (pow-suc 16 k))

digits-hex :
    (k n acc : ℕ) (rest : Text)
    → n < 16 ^ k
    → digits 16 acc (hex k n ++ rest) ≡ digits 16 (acc * 16 ^ k + n) rest
unfolding digits hex
digits-hex zero n acc rest h = ap (λ a. digits 16 a rest) (omega arith)
digits-hex (suc k) n acc rest h =
    ap (digits 16 acc) (append_assoc (hex k (n / 16)) (hex_digit (n % 16) ∷ []) rest)
    ∙ digits-hex k (n / 16) acc (hex_digit (n % 16) ∷ rest) (omega (arith, pow-suc 16 k))
    ∙ digits-hex_digit (n % 16) (acc * 16 ^ k + n / 16) rest (omega arith)
    ∙ ap (λ a. digits 16 a rest) (omega (arith, hex_shift acc k))

-- The text of two or more digits by its first two.
hex-front :
    (k n : ℕ)
    → (d : ℕ) × (e : ℕ) × (rest : Text) × (d < 16)
      × (e < 16)
      × (hex (suc (suc k)) n ≡ hex_digit d ∷ hex_digit e ∷ rest)
unfolding hex
hex-front zero n = (n / 16 % 16, n % 16, [], omega arith, omega arith, refl)
hex-front (suc k) n =
    let (d, e, rest, dh, eh, front) = hex-front k (n / 16) in
    (
      d,
      e,
      rest ++ (hex_digit (n % 16) ∷ []),
      dh,
      eh,
      ap (λ t. t ++ (hex_digit (n % 16) ∷ [])) front,
    )

isspace-hex_digit : (d : ℕ) → d < 16 → isspace (hex_digit d) ≡ false
unfolding isspace hex_digit
isspace-hex_digit d h = ground arith

sign-hex_digit :
    (d : ℕ) (text : Text) → d < 16 → sign (hex_digit d ∷ text) ≡ (false, hex_digit d ∷ text)
unfolding sign hex_digit
sign-hex_digit d text h = ground arith

skip_prefix-hex_digit :
    (z e : ℕ) (text : Text)
    → e < 16
    → skip_prefix 16 (z ∷ hex_digit e ∷ text) ≡ z ∷ hex_digit e ∷ text
unfolding skip_prefix hex_digit
skip_prefix-hex_digit z e text h = ground arith

-- Neither the skipped spaces, nor a sign, nor `0x` take part of such a text.
scan-hex_digit :
    (d e : ℕ) (rest text : Text)
    → d < 16
    → e < 16
    → text ≡ hex_digit d ∷ hex_digit e ∷ rest
    → scan 16 text ≡ ((false, (digits 16 0 text).0), (digits 16 0 text).1)
unfolding scan
scan-hex_digit d e rest text dh eh same =
    rw
      (
        same,
        scan,
        skip_space,
        isspace-hex_digit d dh,
        sign-hex_digit d (hex_digit e ∷ rest) dh,
        skip_prefix-hex_digit (hex_digit d) e rest eh,
        digit_value-hex_digit d dh,
      )
      refl

digits-hex_all : (k n : ℕ) → n < 16 ^ k → digits 16 0 (hex k n) ≡ (n, [])
unfolding digits
digits-hex_all k n h =
    ap (digits 16 0) (sym (append-nil (hex k n)))
    ∙ digits-hex k n 0 [] h
    ∙ ap (λ (a : ℕ). (a, [])) (omega arith)

-- Reading back two digits or more gives the number and uses up the text.
pub strtoul-hex :
    (k n : ℕ) → n < 16 ^ suc (suc k) → n < 2 ^ 64 → strtoul (hex (suc (suc k)) n) 16 ≡ (n, [])
unfolding strtoul
strtoul-hex k n h small =
    let (d, e, rest, dh, eh, front) = hex-front k n in
    rw (scan-hex_digit d e rest (hex (suc (suc k)) n) dh eh front, digits-hex_all (suc (suc k)) n h)
      (ground arith)

pub length-hex : (k n : ℕ) → length (hex k n) ≡ k
unfolding hex
length-hex zero n = refl
length-hex (suc k) n =
    omega (arith, length-append (hex k (n / 16)) (hex_digit (n % 16) ∷ []), length-hex k (n / 16))

-- Nothing of it is trimmed off the end of a line.
pub StartsInk-hex_digit : (d : ℕ) (text : Text) → d < 16 → StartsInk (hex_digit d ∷ text)
unfolding StartsInk
StartsInk-hex_digit d text h = isspace-hex_digit d h

pub StartsInk-hex : (k n : ℕ) (text : Text) → StartsInk (reverse (text ++ hex (suc k) n))
unfolding hex
StartsInk-hex k n text =
    subst⁻¹ StartsInk
      (ap reverse (sym (append_assoc text (hex k (n / 16)) (hex_digit (n % 16) ∷ [])))
        ∙ reverse-append (text ++ hex k (n / 16)) (hex_digit (n % 16) ∷ []))
      (StartsInk-hex_digit (n % 16) (reverse (text ++ hex k (n / 16))) (omega arith))
