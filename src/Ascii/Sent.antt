-- ===== src/Ascii/Sent.antt =====
-- What `UnicoreParser::parse_line` of src/unicore_parser.cpp does with a line that a receiver sent,
-- and with one whose check does not fit.
use mathlib.Core.Path.{subst⁻¹}
use mathlib.Core.List.{reverse}
use unicore_ros.Base.{
  ℕ, suc, ◌^◌, ◌<◌, ◌≡◌, ◌≢◌, refl, sym, ap, ◌∙◌, Bool, true, false, not, Option, none, some,
  if◌then◌else◌, List, [], ◌∷◌, ◌++◌, append-nil, append_assoc, arith, ◌==◌, All, All-split, length,
  length-append, bit_xor,
}
use unicore_ros.Base.Xor.{bit_xor_bound, bit_xor_comm, bit_xor-injective}
use unicore_ros.Base.Text.{Text}
use unicore_ros.Wire.{IsByte, crc32_unicore_binary}
use unicore_ros.Wire.Search.{Absent}
use unicore_ros.Wire.Crc.{crc32_from-IsU32, crc32_one_byte}
use unicore_ros.Transport.{increment}
use unicore_ros.Floats.{Floats}
use unicore_ros.Sentence.{ParserCounters}
use unicore_ros.Ascii.Numbers.{isspace}
use unicore_ros.Ascii.Fields.{trim, split_fields}
use unicore_ros.Ascii.Checksum.{
  body, crc32_unicore, xor_from, validate_nmea_checksum, validate_unicore_crc,
}
use unicore_ros.Ascii.Split.{join, AreFields, split_fields-join}
use unicore_ros.Ascii.Trim.{AreSpaces, StartsInk, trim-around}
use unicore_ros.Ascii.Hex.{hex, StartsInk-hex}
use unicore_ros.Ascii.Accept.{
  line_of, find_byte-star, body-line_of, validate_nmea_checksum_iff, validate_unicore_crc_iff,
}
use unicore_ros.Ascii.Line.{fields_of, parse_nmea, parse_unicore, count_parsed, parse_line}

-- A line with its check in `k` digits and spaces around it.
abbrev pub spaced : ℕ → ℕ → Text → ℕ → Text → Text → Text
spaced start k text n front back = front ++ (line_of start text (hex k n) ++ back)

trim-spaced :
    (start k n : ℕ) (text front back : Text)
    → isspace start ≡ false
    → AreSpaces front
    → AreSpaces back
    → trim (spaced start (suc k) text n front back) ≡ line_of start text (hex (suc k) n)
trim-spaced start k n text front back ink hf hb =
    trim-around front back (line_of start text (hex (suc k) n)) hf hb (unfold StartsInk in ink) (
      subst⁻¹ (λ t. StartsInk (reverse t)) regroup
        (StartsInk-hex k n (start ∷ (text ++ (b'*' ∷ [])))))
  where
    regroup : line_of start text (hex (suc k) n) ≡ (start ∷ (text ++ (b'*' ∷ []))) ++ hex (suc k) n
    regroup = ap (◌∷◌ start) (sym (append_assoc text (b'*' ∷ []) (hex (suc k) n)))

fields_of-line_of :
    (start : ℕ) (fields : List Text) (check : Text)
    → start ≢ b'*'
    → Absent b'*' (join fields)
    → AreFields fields
    → fields_of (line_of start (join fields) check) ≡ fields
unfolding fields_of
fields_of-line_of start fields check other free are =
    ap (λ (o : Option ℕ). split_fields (body line (elim o [ none ↦ 0 | some star ↦ star ])))
      (find_byte-star start (join fields) check other free)
    ∙ ap split_fields (body-line_of start (join fields) check)
    ∙ split_fields-join fields are
  where
    line : Text
    line = line_of start (join fields) check

-- The checks over bytes fit their digits.
xor_from-bound :
    (checksum : ℕ) (text : Text)
    → checksum < 2 ^ 8
    → All IsByte text
    → xor_from checksum text < 2 ^ 8
unfolding xor_from
xor_from-bound checksum [] h bytes = h
xor_from-bound checksum (c ∷ text) h bytes =
    xor_from-bound (bit_xor checksum c) text (bit_xor_bound 8 checksum c h bytes.0) bytes.1

crc32_unicore-bound : (text : Text) → All IsByte text → crc32_unicore text < 2 ^ 32
unfolding crc32_unicore
crc32_unicore-bound text bytes = crc32_from-IsU32 0 text (omega arith) bytes

-- The check at the end of the line.
nmea_at_end :
    (n : ℕ) (text : Text)
    → n < 2 ^ 8
    → Absent b'*' text
    → validate_nmea_checksum (line_of b'$' text (hex 2 n)) ≡ (xor_from 0 text == n)
nmea_at_end n text small free =
    ap (λ t. validate_nmea_checksum (line_of b'$' text t)) (sym (append-nil (hex 2 n)))
    ∙ validate_nmea_checksum_iff n text [] small free

crc_at_end :
    (n : ℕ) (text : Text)
    → n < 2 ^ 32
    → 0 < length text
    → Absent b'*' text
    → validate_unicore_crc (line_of b'#' text (hex 8 n)) ≡ (crc32_unicore text == n)
crc_at_end n text small some_text free =
    ap (λ t. validate_unicore_crc (line_of b'#' text t)) (sym (append-nil (hex 8 n)))
    ∙ validate_unicore_crc_iff n text [] small some_text free

not-if :
    {A : Type 0} (x y : A) (a b : Bool) → a ≡ b → (if not a then x else y) ≡ (if b then y else x)
not-if x y a true e = rw e refl
not-if x y a false e = rw e refl

if-same : {A : Type 0} (x y : A) (n : ℕ) → (if n == n then x else y) ≡ x
if-same x y n = ground arith

if-other : {A : Type 0} (x y : A) (n m : ℕ) → n ≢ m → (if n == m then x else y) ≡ y
if-other x y n m h = ground arith

module _ (F : Floats) where
  -- From the check on, when it has been computed.
  nmea_checked :
      (n : ℕ) (text front back : Text) (c : ParserCounters)
      → n < 2 ^ 8
      → Absent b'*' text
      → AreSpaces front
      → AreSpaces back
      → (parse_line F (spaced b'$' 2 text n front back) c ≡ (
          if xor_from 0 text == n
          then count_parsed F (parse_nmea F (fields_of (line_of b'$' text (hex 2 n)))) c
          else (record c { nmea_checksum_errors = increment c.nmea_checksum_errors }, none)))
  unfolding parse_line
  nmea_checked n text front back c small free hf hb =
      rw (trim-spaced b'$' 1 n text front back (unfold isspace in refl) hf hb, parse_line)
        (not-if _ _ _ _ (nmea_at_end n text small free))

  crc_checked :
      (n : ℕ) (text front back : Text) (c : ParserCounters)
      → n < 2 ^ 32
      → 0 < length text
      → Absent b'*' text
      → AreSpaces front
      → AreSpaces back
      → (parse_line F (spaced b'#' 8 text n front back) c ≡ (
          if crc32_unicore text == n
          then count_parsed F (parse_unicore F (fields_of (line_of b'#' text (hex 8 n)))) c
          else (record c { unicore_crc_errors = increment c.unicore_crc_errors }, none)))
  unfolding parse_line
  crc_checked n text front back c small some_text free hf hb =
      rw (trim-spaced b'#' 7 n text front back (unfold isspace in refl) hf hb, parse_line)
        (not-if _ _ _ _ (crc_at_end n text small some_text free))

  -- Such a line reaches the parser of its sentence, with its fields.
  pub parse_line-count_parsed :
      (fields : List Text) (front back : Text) (c : ParserCounters)
      → AreFields fields
      → 0 < length (join fields)
      → All IsByte (join fields)
      → Absent b'*' (join fields)
      → AreSpaces front
      → AreSpaces back
      → (parse_line F (spaced b'$' 2 (join fields) (xor_from 0 (join fields)) front back) c
          ≡ count_parsed F (parse_nmea F fields) c)
        × (parse_line F (spaced b'#' 8 (join fields) (crc32_unicore (join fields)) front back) c
            ≡ count_parsed F (parse_unicore F fields) c)
  parse_line-count_parsed fields front back c are some_text bytes free hf hb = (nmea, unicore)
    where
      text : Text
      text = join fields

      nmea :
          parse_line F (spaced b'$' 2 text (xor_from 0 text) front back) c
          ≡ count_parsed F (parse_nmea F fields) c
      nmea =
          nmea_checked (xor_from 0 text) text front back c
            (xor_from-bound 0 text (omega arith) bytes) free hf hb
          ∙ if-same _ _ (xor_from 0 text)
          ∙ ap (λ (fs : List Text). count_parsed F (parse_nmea F fs) c)
              (fields_of-line_of b'$' fields (hex 2 (xor_from 0 text)) (omega arith) free are)

      unicore :
          parse_line F (spaced b'#' 8 text (crc32_unicore text) front back) c
          ≡ count_parsed F (parse_unicore F fields) c
      unicore =
          crc_checked (crc32_unicore text) text front back c (crc32_unicore-bound text bytes)
            some_text free hf hb
          ∙ if-same _ _ (crc32_unicore text)
          ∙ ap (λ (fs : List Text). count_parsed F (parse_unicore F fs) c)
              (fields_of-line_of b'#' fields (hex 8 (crc32_unicore text)) (omega arith) free are)

-- One changed byte changes the exclusive or.
xor_from-injective : (a b : ℕ) (text : Text) → xor_from a text ≡ xor_from b text → a ≡ b
unfolding xor_from
xor_from-injective a b [] e = e
xor_from-injective a b (c ∷ text) e =
    bit_xor-injective a b c (xor_from-injective (bit_xor a c) (bit_xor b c) text e)

xor_from-one_byte :
    (checksum : ℕ) (head tail : Text) (x y : ℕ)
    → x ≢ y
    → xor_from checksum (head ++ (x ∷ tail)) ≢ xor_from checksum (head ++ (y ∷ tail))
unfolding xor_from
xor_from-one_byte checksum [] tail x y ne e = ne (
    bit_xor-injective x y checksum (
      bit_xor_comm x checksum
      ∙ xor_from-injective (bit_xor checksum x) (bit_xor checksum y) tail e
      ∙ bit_xor_comm checksum y))
xor_from-one_byte checksum (c ∷ head) tail x y ne e =
    xor_from-one_byte (bit_xor checksum c) head tail x y ne e

crc32_unicore-one_byte :
    (head tail : Text) (x y : ℕ)
    → All IsByte (head ++ (x ∷ tail))
    → IsByte y
    → x ≢ y
    → crc32_unicore (head ++ (x ∷ tail)) ≢ crc32_unicore (head ++ (y ∷ tail))
unfolding crc32_unicore crc32_unicore_binary
crc32_unicore-one_byte head tail x y bytes hy ne =
    let (hh, (hx, ht)) = All-split IsByte head (x ∷ tail) bytes in
    crc32_one_byte head tail x y hh ht hx hy ne

module _ (F : Floats) where
  -- A line whose text was sent as `head x tail` with its check and arrives with another byte `y` in
  -- the place of `x`, the text that arrives having no star, gives no sentence, whatever its fields:
  -- an NMEA line counts one checksum error and a Unicore line one CRC error, and nothing else changes.
  pub parse_line-damaged :
      (head tail : Text) (x y : ℕ) (front back : Text) (c : ParserCounters)
      → All IsByte (head ++ (x ∷ tail))
      → IsByte y
      → x ≢ y
      → Absent b'*' (head ++ (y ∷ tail))
      → AreSpaces front
      → AreSpaces back
      → (parse_line F
            (spaced b'$' 2 (head ++ (y ∷ tail)) (xor_from 0 (head ++ (x ∷ tail))) front back)
            c
          ≡ (record c { nmea_checksum_errors = increment c.nmea_checksum_errors }, none))
        × (parse_line F
              (spaced b'#' 8 (head ++ (y ∷ tail)) (crc32_unicore (head ++ (x ∷ tail))) front back)
              c
            ≡ (record c { unicore_crc_errors = increment c.unicore_crc_errors }, none))
  parse_line-damaged head tail x y front back c bytes hy ne free hf hb = (
    nmea_checked F (xor_from 0 sent) got front back c (xor_from-bound 0 sent (omega arith) bytes)
          free hf hb
        ∙ if-other _ _ (xor_from 0 got) (xor_from 0 sent)
            (λ e. xor_from-one_byte 0 head tail x y ne (sym e)),
    crc_checked F (crc32_unicore sent) got front back c (crc32_unicore-bound sent bytes)
          (omega (arith, length-append head (y ∷ tail))) free hf hb
        ∙ if-other _ _ (crc32_unicore got) (crc32_unicore sent)
            (λ e. crc32_unicore-one_byte head tail x y bytes hy ne (sym e)),
  )
    where
      sent : Text
      sent = head ++ (x ∷ tail)

      got : Text
      got = head ++ (y ∷ tail)
