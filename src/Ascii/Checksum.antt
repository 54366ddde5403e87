-- ===== src/Ascii/Checksum.antt =====
-- The two checks of a line in src/unicore_parser.cpp: the XOR of an NMEA sentence and the CRC of a
-- Unicore one.
use unicore_ros.Base.{
  ℕ, ◌+◌, ◌-◌, ◌%◌, ◌^◌, bit_xor, Bool, false, not, ◌&&◌, ◌||◌, none, some, [], ◌∷◌, ltb, leb, ◌==◌,
  if◌then◌else◌, length, take, drop, get_or,
}
use unicore_ros.Base.Text.{Text}
use unicore_ros.Wire.{find_byte, crc32_from}
use unicore_ros.Ascii.Numbers.{strtoul, at_end}

unfoldable pub crc32_unicore : Text → ℕ
crc32_unicore text = crc32_from 0 text

-- The loop over `i` from 1 to the star, on the bytes before the star.
unfoldable pub xor_from : ℕ → Text → ℕ
xor_from checksum [] = checksum
xor_from checksum (c ∷ text) = xor_from (bit_xor checksum c) text

-- `line.substr(1, star - 1)`.
abbrev pub body : Text → ℕ → Text
body line star = take (star - 1) (drop 1 line)

-- The comparison with the hexadecimal text of `digits` bytes behind the star.
unfoldable pub nmea_matches : Text → ℕ → Bool
nmea_matches line star =
    let (received, rest) = strtoul (take 2 (drop (star + 1) line)) 16 in
    at_end rest && xor_from 0 (body line star) == received % 2 ^ 8

unfoldable pub validate_nmea_checksum : Text → Bool
unfolding nmea_matches
validate_nmea_checksum line =
    if ltb (length line) 4 || not (get_or line 0 0 == b'$')
    then false
    else elim (find_byte b'*' line) [
      | none ↦ false
      | some star ↦ if leb (length line) (star + 2) then false else nmea_matches line star
    ]

unfoldable pub crc_matches : Text → ℕ → Bool
crc_matches line star =
    let (received, rest) = strtoul (take 8 (drop (star + 1) line)) 16 in
    at_end rest && crc32_unicore (body line star) == received % 2 ^ 32

unfoldable pub validate_unicore_crc : Text → Bool
unfolding crc_matches
validate_unicore_crc line =
    if ltb (length line) 11 || not (get_or line 0 0 == b'#')
    then false
    else elim (find_byte b'*' line) [
      | none ↦ false
      | some star ↦ if leb (length line) (star + 8) then false else crc_matches line star
    ]
