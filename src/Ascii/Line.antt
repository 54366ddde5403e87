-- ===== src/Ascii/Line.antt =====
-- `UnicoreParser::parse_line` of src/unicore_parser.cpp: the choice of the parser and the counters,
-- which are `std::size_t`.
use unicore_ros.Base.{
  ℕ, not, Option, none, some, List, leb, ◌==◌, if◌then◌else◌, length, take, get_or,
}
use unicore_ros.Base.Text.{Text, codes, text_eq}
use unicore_ros.Wire.{find_byte}
use unicore_ros.Transport.{increment}
use unicore_ros.Floats.{Floats}
use unicore_ros.Sentence.{ParsedSentence, ParserCounters}
use unicore_ros.Ascii.Numbers.{is_empty}
use unicore_ros.Ascii.Fields.{trim, split_fields, at, sentence_suffix}
use unicore_ros.Ascii.Checksum.{body, validate_nmea_checksum, validate_unicore_crc}
use unicore_ros.Ascii.Position.{
  parse_gga, parse_hdt, parse_hpr, parse_pvtslna, parse_bestnava, parse_hwstatusa,
}
use unicore_ros.Ascii.Status.{
  parse_rtkstatusa, parse_rtcmstatusa, parse_agca, parse_jamstatusa, parse_freqjamstatusa,
  parse_gsv,
}
use unicore_ros.Ascii.Satellites.{parse_bestsata, parse_satsinfoa}

-- `line.find('*')` of a line that has been validated.
abbrev star_of : Text → ℕ
star_of line = elim (find_byte b'*' line) [ none ↦ 0 | some star ↦ star ]

unfoldable pub fields_of : Text → List Text
unfolding split_fields
fields_of line = split_fields (body line (star_of line))

unfoldable pub talker_of : Text → Text
talker_of first = if leb 5 (length first) then take 2 first else codes "GN"

module _ (F : Floats) where
  -- A sentence type that no branch asks for is `none`; otherwise the parser's result.
  abbrev Parsed : Type 0
  Parsed = Option (Option (ParsedSentence F.D))

  unfoldable pub parse_nmea : List Text → Parsed
  unfolding talker_of
  parse_nmea fields =
      let suffix = sentence_suffix (at fields 0) in
      if text_eq suffix (codes "GGA")
      then some (parse_gga F fields)
      else if text_eq suffix (codes "HDT")
      then some (parse_hdt F fields)
      else if text_eq suffix (codes "HPR")
      then some (parse_hpr F fields)
      else if text_eq suffix (codes "GSV")
      then some (parse_gsv F.D (talker_of (at fields 0)) fields)
      else none

  unfoldable pub parse_unicore : List Text → Parsed
  parse_unicore fields =
      let first = at fields 0 in
      if text_eq first (codes "PVTSLNA")
      then some (parse_pvtslna F fields)
      else if text_eq first (codes "BESTNAVA")
      then some (parse_bestnava F fields)
      else if text_eq first (codes "RTKSTATUSA")
      then some (parse_rtkstatusa F.D fields)
      else if text_eq first (codes "RTCMSTATUSA")
      then some (parse_rtcmstatusa F.D fields)
      else if text_eq first (codes "BESTSATA")
      then some (parse_bestsata F.D fields)
      else if text_eq first (codes "SATSINFOA")
      then some (parse_satsinfoa F fields)
      else if text_eq first (codes "AGCA")
      then some (parse_agca F.D fields)
      else if text_eq first (codes "HWSTATUSA")
      then some (parse_hwstatusa F fields)
      else if text_eq first (codes "JAMSTATUSA")
      then some (parse_jamstatusa F.D fields)
      else if text_eq first (codes "FREQJAMSTATUSA")
      then some (parse_freqjamstatusa F.D fields)
      else none

  -- `parsed.has_value() ? ++parsed_sentences : ++parse_errors`, and the result.
  unfoldable pub count_parsed :
      Parsed → ParserCounters → ParserCounters × Option (ParsedSentence F.D)
  count_parsed none c = (c, none)
  count_parsed (some none) c = (record c { parse_errors = increment c.parse_errors }, none)
  count_parsed (some (some sentence)) c =
      (record c { parsed_sentences = increment c.parsed_sentences }, some sentence)

  unfoldable pub parse_line : Text → ParserCounters → ParserCounters × Option (ParsedSentence F.D)
  unfolding count_parsed fields_of
  parse_line line c =
      let trimmed = trim line in
      if is_empty trimmed
      then (c, none)
      else if get_or trimmed 0 0 == b'$'
      then if not (validate_nmea_checksum trimmed)
        then (record c { nmea_checksum_errors = increment c.nmea_checksum_errors }, none)
        else count_parsed (parse_nmea (fields_of trimmed)) c
      else if get_or trimmed 0 0 == b'#'
      then if not (validate_unicore_crc trimmed)
        then (record c { unicore_crc_errors = increment c.unicore_crc_errors }, none)
        else count_parsed (parse_unicore (fields_of trimmed)) c
      else (c, none)
