-- ===== src/Ascii/Outcome.antt =====
-- What `UnicoreParser::parse_line` of src/unicore_parser.cpp returns and counts for a line that a receiver
-- sent.
use mathlib.Core.Path.{subst⁻¹}
use unicore_ros.Base.{◌+◌, ◌%◌, ◌^◌, ◌<◌, ◌≡◌, refl, Option, none, some, List, All, length}
use unicore_ros.Base.Text.{Text}
use unicore_ros.Wire.{IsByte}
use unicore_ros.Wire.Search.{Absent}
use unicore_ros.Floats.{Floats}
use unicore_ros.Sentence.{ParsedSentence, ParserCounters}
use unicore_ros.Ascii.Checksum.{crc32_unicore, xor_from}
use unicore_ros.Ascii.Split.{join, AreFields}
use unicore_ros.Ascii.Trim.{AreSpaces}
use unicore_ros.Ascii.Line.{parse_nmea, parse_unicore, count_parsed, parse_line}
use unicore_ros.Ascii.Sent.{spaced, parse_line-count_parsed}

module _ (F : Floats) where
  -- What is returned and counted, by what the sentence parser gives: nothing for a type that has no
  -- parser, one parse error for a sentence that its parser refuses, or one parsed sentence, counted
  -- modulo 2^64.
  pub data IsOutcome (c : ParserCounters) (parsed : Option (Option (ParsedSentence F.D)))
      (result : ParserCounters × Option (ParsedSentence F.D)) : Type 0 where
    ignored : parsed ≡ none → result ≡ (c, none) → IsOutcome c parsed result
    refused :
        parsed ≡ some none
        → result ≡ (record c { parse_errors = (c.parse_errors + 1) % 2 ^ 64 }, none)
        → IsOutcome c parsed result
    taken :
        (sentence : ParsedSentence F.D)
        → parsed ≡ some (some sentence)
        → result
          ≡ (record c { parsed_sentences = (c.parsed_sentences + 1) % 2 ^ 64 }, some sentence)
        → IsOutcome c parsed result

  count_parsed-IsOutcome :
      (parsed : Option (Option (ParsedSentence F.D))) (c : ParserCounters)
      → IsOutcome c parsed (count_parsed F parsed c)
  unfolding count_parsed
  count_parsed-IsOutcome none c = ignored refl refl
  count_parsed-IsOutcome (some none) c = refused refl refl
  count_parsed-IsOutcome (some (some sentence)) c = taken sentence refl refl

  sent_to :
      (parsed : Option (Option (ParsedSentence F.D))) (c : ParserCounters)
      {result : ParserCounters × Option (ParsedSentence F.D)}
      → result ≡ count_parsed F parsed c
      → IsOutcome c parsed result
  sent_to parsed c e = subst⁻¹ (IsOutcome c parsed) e (count_parsed-IsOutcome parsed c)

  -- A sentence of comma-free fields of bytes without a star, at least one byte in all, sent with any
  -- spaces around its line, `$...*HH` with the exclusive or of the text for NMEA and `#...*HHHHHHHH` with
  -- its CRC for Unicore, both in uppercase digits, has the outcome of its sentence parser on exactly
  -- these fields: the parsed sentence, counted as one, or one parse error, or, for a type that has no
  -- parser, nothing; no other counter changes.
  pub parse_line-sent :
      (fields : List Text) (front back : Text) (c : ParserCounters)
      → AreFields fields
      → 0 < length (join fields)
      → All IsByte (join fields)
      → Absent b'*' (join fields)
      → AreSpaces front
      → AreSpaces back
      → IsOutcome c
          (parse_nmea F fields)
          (parse_line F (spaced b'$' 2 (join fields) (xor_from 0 (join fields)) front back) c)
        × IsOutcome c
            (parse_unicore F fields)
            (parse_line F (spaced b'#' 8 (join fields) (crc32_unicore (join fields)) front back) c)
  parse_line-sent fields front back c are some_text bytes free hf hb =
      let (nmea, unicore) =
        parse_line-count_parsed F fields front back c are some_text bytes free hf hb in
      (sent_to (parse_nmea F fields) c nmea, sent_to (parse_unicore F fields) c unicore)
