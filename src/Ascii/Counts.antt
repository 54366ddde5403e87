-- ===== src/Ascii/Counts.antt =====
-- The counters of `UnicoreParser`, src/unicore_parser.cpp, over a sequence of lines.
use unicore_ros.Base.{
  ℕ, ◌+◌, ◌^◌, ◌≤◌, ◌<◌, ◌≡◌, Bool, true, false, Option, none, some, List, [], ◌∷◌, arith, length,
  if◌then◌else◌, not, ◌==◌, get_or,
}
use unicore_ros.Base.Text.{Text}
use unicore_ros.Floats.{Floats}
use unicore_ros.Sentence.{ParsedSentence, ParserCounters}
use unicore_ros.Ascii.Numbers.{is_empty}
use unicore_ros.Ascii.Fields.{trim}
use unicore_ros.Ascii.Checksum.{validate_nmea_checksum, validate_unicore_crc}
use unicore_ros.Ascii.Line.{fields_of, parse_nmea, parse_unicore, count_parsed, parse_line}

abbrev pub total : ParserCounters → ℕ
total c = c.parsed_sentences + c.parse_errors + c.nmea_checksum_errors + c.unicore_crc_errors

abbrev count_some {ℓ} : {A : Type ℓ} → Option A → ℕ
count_some none = 0
count_some (some a) = 1

abbrev with_result {ℓ} : {A : Type ℓ} → Option A → List A → List A
with_result none sentences = sentences
with_result (some sentence) sentences = sentence ∷ sentences

length-with_result {ℓ} :
    {A : Type ℓ} (result : Option A) (sentences : List A)
    → length (with_result result sentences) ≡ count_some result + length sentences
length-with_result none sentences = omega arith
length-with_result (some sentence) sentences = omega arith

module _ (F : Floats) where
  -- The lines in order, and the sentences that they give.
  unfoldable pub parse_lines :
      List Text → ParserCounters → ParserCounters × List (ParsedSentence F.D)
  parse_lines [] c = (c, [])
  parse_lines (line ∷ lines) c =
      let (after, result) = parse_line F line c in
      let (final, sentences) = parse_lines lines after in (final, with_result result sentences)

  -- What one line does to the counters: at most one of them grows, by one, and that of the parsed
  -- sentences exactly with a sentence as the result.
  abbrev Counts : ParserCounters → ParserCounters × Option (ParsedSentence F.D) → Type 0
  Counts c r =
      (r.0.parsed_sentences ≡ c.parsed_sentences + count_some r.1)
      × (total c ≤ total r.0)
      × (total r.0 ≤ total c + 1)

  Counts-if :
      (c : ParserCounters) (b : Bool) (x y : ParserCounters × Option (ParsedSentence F.D))
      → Counts c x
      → Counts c y
      → Counts c (if b then x else y)
  Counts-if c true x y hx hy = hx
  Counts-if c false x y hx hy = hy

  count_parsed-Counts :
      (parsed : Option (Option (ParsedSentence F.D))) (c : ParserCounters)
      → total c + 1 < 2 ^ 64
      → Counts c (count_parsed F parsed c)
  unfolding count_parsed
  count_parsed-Counts none c h = (omega arith, omega arith, omega arith)
  count_parsed-Counts (some none) c h = (omega arith, omega arith, omega arith)
  count_parsed-Counts (some (some sentence)) c h = (omega arith, omega arith, omega arith)

  parse_line-Counts :
      (line : Text) (c : ParserCounters) → total c + 1 < 2 ^ 64 → Counts c (parse_line F line c)
  unfolding parse_line
  parse_line-Counts line c h =
      let text = trim line in
      Counts-if c (is_empty text) _ _ (omega arith, omega arith, omega arith)
        (Counts-if c (get_or text 0 0 == b'$') _ _
          (Counts-if c (not (validate_nmea_checksum text)) _ _
            (omega arith, omega arith, omega arith)
            (count_parsed-Counts (parse_nmea F (fields_of text)) c h))
          (Counts-if c (get_or text 0 0 == b'#') _ _
            (Counts-if c (not (validate_unicore_crc text)) _ _
              (omega arith, omega arith, omega arith)
              (count_parsed-Counts (parse_unicore F (fields_of text)) c h))
            (omega arith, omega arith, omega arith)))

  -- From counters whose sum leaves room for one more per line in 64 bits: after any lines the count
  -- of parsed sentences has grown by the number of sentences returned, and all four counters
  -- together by at most the number of lines.
  pub parse_lines-bound :
      (lines : List Text) (c : ParserCounters)
      → total c + length lines < 2 ^ 64
      → ((parse_lines lines c).0.parsed_sentences
          ≡ c.parsed_sentences + length (parse_lines lines c).1)
        × (total c ≤ total (parse_lines lines c).0)
        × (total (parse_lines lines c).0 ≤ total c + length lines)
  unfolding parse_lines
  parse_lines-bound [] c h = (omega arith, omega arith, omega arith)
  parse_lines-bound (line ∷ lines) c h =
      let (grown, more, less) = parse_line-Counts line c (omega arith) in
      let (later, more', less') = parse_lines-bound lines (parse_line F line c).0 (omega arith) in
      (
        omega (
          arith,
          length-with_result (parse_line F line c).1 (parse_lines lines (parse_line F line c).0).1,
        ),
        omega arith,
        omega arith,
      )
