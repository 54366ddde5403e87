-- ===== src/Ascii/Accept.antt =====
-- What the two checks of src/unicore_parser.cpp accept of a line with its check in hexadecimal.
use unicore_ros.Base.{
  ℕ, suc, ◌+◌, ◌-◌, ◌^◌, ◌<◌, ◌≡◌, ◌≢◌, sym, ap, ◌∙◌, some, ◌∷◌, ◌++◌, arith, ◌==◌, length, take,
  drop, length-append, take-append_length, drop-append_add,
}
use unicore_ros.Base.Text.{Text}
use unicore_ros.Wire.{find_byte}
use unicore_ros.Wire.Search.{Absent, find_byte-at}
use unicore_ros.Ascii.Checksum.{
  crc32_unicore, xor_from, body, nmea_matches, validate_nmea_checksum, crc_matches,
  validate_unicore_crc,
}
use unicore_ros.Ascii.Hex.{hex, length-hex, strtoul-hex}

-- `$` or `#`, the text that the check covers, and what follows from the star on.
abbrev pub line_of : ℕ → Text → Text → Text
line_of start text check = start ∷ (text ++ (b'*' ∷ check))

pub find_byte-star :
    (start : ℕ) (text check : Text)
    → start ≢ b'*'
    → Absent b'*' text
    → find_byte b'*' (line_of start text check) ≡ some (suc (length text))
find_byte-star start text check other free = find_byte-at b'*' (start ∷ text) check (other, free)

pub body-line_of :
    (start : ℕ) (text check : Text) → body (line_of start text check) (suc (length text)) ≡ text
body-line_of start text check =
    ap (λ (n : ℕ). take n (text ++ (b'*' ∷ check))) less ∙ take-append_length text (b'*' ∷ check)
  where
    less : suc (length text) - 1 ≡ length text
    less = omega arith

after_star :
    (start : ℕ) (text check : Text)
    → drop (suc (length text) + 1) (line_of start text check) ≡ check
after_star start text check = drop-append_add (start ∷ text) (b'*' ∷ check) 1

-- The digits at the front of what follows the star.
take-hex : (k n : ℕ) (rest : Text) → take k (hex k n ++ rest) ≡ hex k n
take-hex k n rest =
    ap (λ (m : ℕ). take m (hex k n ++ rest)) (sym (length-hex k n))
    ∙ take-append_length (hex k n) rest

digits_after_star :
    (k n start : ℕ) (text rest : Text)
    → take k (drop (suc (length text) + 1) (line_of start text (hex k n ++ rest))) ≡ hex k n
digits_after_star k n start text rest =
    ap (take k) (after_star start text (hex k n ++ rest)) ∙ take-hex k n rest

nmea_matches-hex :
    (n : ℕ) (text rest : Text)
    → n < 2 ^ 8
    → nmea_matches (line_of b'$' text (hex 2 n ++ rest)) (suc (length text))
      ≡ (xor_from 0 text == n)
unfolding nmea_matches
nmea_matches-hex n text rest small =
    rw
      (
        digits_after_star 2 n b'$' text rest,
        strtoul-hex 0 n small (omega arith),
        body-line_of b'$' text (hex 2 n ++ rest),
      )
      (ap (◌==◌ (xor_from 0 text)) (omega arith))

crc_matches-hex :
    (n : ℕ) (text rest : Text)
    → n < 2 ^ 32
    → crc_matches (line_of b'#' text (hex 8 n ++ rest)) (suc (length text))
      ≡ (crc32_unicore text == n)
unfolding crc_matches
crc_matches-hex n text rest small =
    rw
      (
        digits_after_star 8 n b'#' text rest,
        strtoul-hex 6 n small (omega arith),
        body-line_of b'#' text (hex 8 n ++ rest),
      )
      (ap (◌==◌ (crc32_unicore text)) (omega arith))

-- How long such a line is.
length-line_of :
    (k n start : ℕ) (text rest : Text)
    → length (line_of start text (hex k n ++ rest)) ≡ suc (suc (length text)) + k + length rest
length-line_of k n start text rest = omega (
  arith,
  length-append text (b'*' ∷ (hex k n ++ rest)),
  length-append (hex k n) rest,
  length-hex k n,
)

-- A line `$<text>*HH...` with two uppercase hexadecimal digits passes exactly when they are the
-- exclusive or of the text, which has no star; what follows the digits does not matter.
pub validate_nmea_checksum_iff :
    (n : ℕ) (text rest : Text)
    → n < 2 ^ 8
    → Absent b'*' text
    → validate_nmea_checksum (line_of b'$' text (hex 2 n ++ rest)) ≡ (xor_from 0 text == n)
unfolding validate_nmea_checksum
validate_nmea_checksum_iff n text rest small free =
    rw
      (
        find_byte-star b'$' text (hex 2 n ++ rest) (omega arith) free,
        length-line_of 2 n b'$' text rest,
        nmea_matches-hex n text rest small,
      )
      (ground arith)

-- A line `#<text>*HHHHHHHH...` with eight uppercase hexadecimal digits passes exactly when they are
-- the CRC of the text, which has no star and at least one byte; what follows the digits does not matter.
pub validate_unicore_crc_iff :
    (n : ℕ) (text rest : Text)
    → n < 2 ^ 32
    → 0 < length text
    → Absent b'*' text
    → validate_unicore_crc (line_of b'#' text (hex 8 n ++ rest)) ≡ (crc32_unicore text == n)
unfolding validate_unicore_crc
validate_unicore_crc_iff n text rest small some_text free =
    rw
      (
        find_byte-star b'#' text (hex 8 n ++ rest) (omega arith) free,
        length-line_of 8 n b'#' text rest,
        crc_matches-hex n text rest small,
      )
      (ground arith)
