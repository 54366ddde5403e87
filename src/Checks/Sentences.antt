-- ===== src/Checks/Sentences.antt =====
-- The theorems on src/unicore_parser.cpp at concrete texts, with natural numbers in the place of the
-- floating-point values.
use mathlib.Core.List.{reverse}
use unicore_ros.Base.{
  leb, ℕ, ◌+◌, ◌-◌, ◌*◌, ◌<◌, ◌≤◌, ◌≡◌, refl, Bool, true, none, some, List, [], ◌∷◌, ◌++◌, arith,
  All, length, ltb, not, ◌&&◌, ◌==◌,
}
use unicore_ros.Base.Int.{negsuc, pos_part}
use unicore_ros.Base.Text.{Text, codes, to_string, to_string_int}
use unicore_ros.Wire.{IsByte}
use unicore_ros.Wire.Search.{Absent}
use unicore_ros.Transport.{increment}
use unicore_ros.Floats.{Floats}
use unicore_ros.Sentence.{ParserCounters, default_parser_counters}
use unicore_ros.Nav.Names
use unicore_ros.Ascii.Numbers.{isspace, parse_int}
use unicore_ros.Ascii.Names.{position_type_to_gga_quality}
use unicore_ros.Ascii.Fields.{trim, split_fields}
use unicore_ros.Ascii.Checksum.{crc32_unicore, xor_from, validate_unicore_crc}
use unicore_ros.Ascii.Line.{parse_nmea, parse_unicore, parse_line}
use unicore_ros.Ascii.Split.{join, AreFields, join-split_fields}
use unicore_ros.Ascii.Trim.{AreSpaces, StartsInk, trim-parts}
use unicore_ros.Ascii.Hex.{hex}
use unicore_ros.Ascii.Accept.{line_of, validate_unicore_crc_iff}
use unicore_ros.Ascii.Sent.{spaced, parse_line-damaged}
use unicore_ros.Ascii.Outcome.{IsOutcome, parse_line-sent}
use unicore_ros.Ascii.Decimal.{IsInt, parse_int-to_string_int}
use unicore_ros.Ascii.Agree.{quality-agree}
use unicore_ros.Ascii.Counts.{total, parse_lines, parse_lines-bound}
use unicore_ros.Checks.{fit, fit-All}

abbrev pub numbers : Floats
numbers = record {
  D = ℕ;
  of_int = pos_part;
  literal = λ units decimals. units;
  negate = λ a. a;
  add = λ a b. a + b;
  sub = λ a b. a - b;
  mul = λ a b. a * b;
  div = λ a b. a;
  less = ltb;
  less_equal = leb;
  floor = λ a. a;
  sin = λ a. a;
  cos = λ a. a;
  pi = 3;
  is_finite = λ a. true;
  of_bits32 = λ a. a;
  of_bits64 = λ a. a;
  strtod = λ text. (length text, []);
}

-- A test for bytes that are all different from one.
abbrev apart : ℕ → Text → Bool
apart c [] = true
apart c (x ∷ text) = not (x == c) && apart c text

apart-Absent : (c : ℕ) (text : Text) → apart c text ≡ true → Absent c text
apart-Absent c [] h = tt
apart-Absent c (x ∷ text) h = ground (arith, apart-Absent c text)

-- A sentence with 7 satellites in view.
abbrev in_view : List Text
in_view = codes "GPGSV" ∷ codes "1" ∷ codes "1" ∷ codes "7" ∷ []

in_view-AreFields : AreFields in_view
in_view-AreFields = (
  omega arith,
  (
    apart-Absent b',' (codes "GPGSV") refl,
    (
      apart-Absent b',' (codes "1") refl,
      (apart-Absent b',' (codes "1") refl, (apart-Absent b',' (codes "7") refl, tt)),
    ),
  ),
)

join-split_fields_example :
    (join (split_fields (codes "a,b")) ≡ codes "a,b") × AreFields (split_fields (codes "a,b"))
join-split_fields_example = join-split_fields (codes "a,b")

trim-parts_example :
    (front : Text) × (back : Text) × AreSpaces front
    × AreSpaces back
    × (codes " $GP " ≡ front ++ (trim (codes " $GP ") ++ back))
    × StartsInk (trim (codes " $GP "))
    × StartsInk (reverse (trim (codes " $GP ")))
trim-parts_example = trim-parts (codes " $GP ")

-- With a line feed behind the digits.
validate_unicore_crc_iff_example :
    validate_unicore_crc (line_of b'#' (codes "AGCA") (hex 8 0x12345678 ++ []))
    ≡ (crc32_unicore (codes "AGCA") == 0x12345678)
validate_unicore_crc_iff_example =
    validate_unicore_crc_iff 0x12345678 (codes "AGCA") [] (omega arith) (omega arith)
      (apart-Absent b'*' (codes "AGCA") refl)

in_view-IsByte : All IsByte (join in_view)
unfolding join fit
in_view-IsByte = fit-All (join in_view) refl

in_view-Absent : Absent b'*' (join in_view)
unfolding join
in_view-Absent = apart-Absent b'*' (join in_view) refl

in_view-length : 0 < length (join in_view)
unfolding join
in_view-length = omega arith

carriage_return-AreSpaces : AreSpaces (13 ∷ [])
unfolding isspace
carriage_return-AreSpaces = (refl, tt)

abbrev fresh : ParserCounters
fresh = default_parser_counters

-- The line comes with a carriage return behind it.
parse_line-sent_example :
    IsOutcome numbers fresh (parse_nmea numbers in_view) (
      parse_line numbers
        (spaced b'$' 2 (join in_view) (xor_from 0 (join in_view)) [] (13 ∷ []))
        fresh)
    × IsOutcome numbers fresh (parse_unicore numbers in_view) (
        parse_line numbers
          (spaced b'#' 8 (join in_view) (crc32_unicore (join in_view)) [] (13 ∷ []))
          fresh)
parse_line-sent_example =
    parse_line-sent numbers in_view [] (13 ∷ []) fresh in_view-AreFields in_view-length
      in_view-IsByte in_view-Absent tt carriage_return-AreSpaces

-- The 7 arrives as a 9.
parse_line-damaged_example :
    (parse_line numbers
        (spaced b'$' 2
          (codes "GPGSV,1,1," ++ (b'9' ∷ []))
          (xor_from 0 (codes "GPGSV,1,1," ++ (b'7' ∷ [])))
          []
          (13 ∷ []))
        fresh
      ≡ (record fresh { nmea_checksum_errors = increment fresh.nmea_checksum_errors }, none))
    × (parse_line numbers
          (spaced b'#' 8
            (codes "GPGSV,1,1," ++ (b'9' ∷ []))
            (crc32_unicore (codes "GPGSV,1,1," ++ (b'7' ∷ [])))
            []
            (13 ∷ []))
          fresh
        ≡ (record fresh { unicore_crc_errors = increment fresh.unicore_crc_errors }, none))
unfolding fit
parse_line-damaged_example =
    parse_line-damaged numbers (codes "GPGSV,1,1,") [] b'7' b'9' [] (13 ∷ []) fresh
      (fit-All (codes "GPGSV,1,1,7") refl) (omega arith) (omega arith)
      (apart-Absent b'*' (codes "GPGSV,1,1,9") refl) tt carriage_return-AreSpaces

parse_int-to_string_int_example :
    parse_int (to_string_int (negsuc 2147483647)) ≡ some (negsuc 2147483647)
unfolding IsInt
parse_int-to_string_int_example = parse_int-to_string_int (negsuc 2147483647) (omega arith)

quality-agree_example :
    (position_type_to_gga_quality (Names.position_type_name 50)
      ≡ Names.position_type_to_gga_quality 50)
    × (position_type_to_gga_quality (to_string 50) ≡ Names.position_type_to_gga_quality 50)
quality-agree_example = quality-agree 50 (omega arith)

-- A sentence, an empty line, and a line that is none.
abbrev three_lines : List Text
three_lines = codes "$GPGSV,1,1,7*4E" ∷ [] ∷ codes "$GPGSV" ∷ []

parse_lines-bound_example :
    ((parse_lines numbers three_lines fresh).0.parsed_sentences
      ≡ fresh.parsed_sentences + length (parse_lines numbers three_lines fresh).1)
    × (total fresh ≤ total (parse_lines numbers three_lines fresh).0)
    × (total (parse_lines numbers three_lines fresh).0 ≤ total fresh + length three_lines)
parse_lines-bound_example = parse_lines-bound numbers three_lines fresh (omega arith)
