-- ===== src/Ntrip/ReadBack.antt =====
-- How src/unicore_parser.cpp reads a printed angle with its hemisphere.
use unicore_ros.Base.{ℕ, ◌≡◌, ◌⊎◌, Bool, not, some, [], ◌∷◌, arith, if◌then◌else◌, true, false}
use unicore_ros.Base.Int.{pos}
use unicore_ros.Base.Text.{Text, codes, decimal, to_string}
use unicore_ros.Floats.{Floats, zero_double}
use unicore_ros.Ascii.Numbers.{is_empty, parse_int}
use unicore_ros.Ascii.Position.{toupper, parse_double, need_double, degrees_of, parse_latlon}
use unicore_ros.Ascii.Decimal.{parse_int-pos}

-- The latitude or longitude that the parser makes of a printed angle of sign `angle`, of whose text
-- `strtod` gives `value`.
unfoldable pub degrees_back : (F : Floats) → (angle value : F.D) → F.D
degrees_back F angle value =
    if not (F.less_equal (zero_double F) angle)
    then F.negate (degrees_of F value)
    else degrees_of F value

-- `strtod` reads the text to its end and gives this finite value.
pub record Reads (F : Floats) (text : Text) (value : F.D) : Type 0 where
  pub to_end : F.strtod text ≡ (value, [])
  pub finite : F.is_finite value ≡ true

pub parse_int-ten : parse_int (codes "10") ≡ some (pos 10)
unfolding to_string decimal
parse_int-ten = parse_int-pos 10 (omega arith)

module _ (F : Floats) where
  pub need_double-Reads :
      (text : Text) (value : F.D)
      → is_empty text ≡ false
      → Reads F text value
      → need_double F text ≡ some value
  unfolding need_double parse_double
  need_double-Reads text value some_text r = ground arith

  pub parse_latlon-letter :
      (text : Text) (value : F.D) (c : ℕ) (is_negative : Bool)
      → need_double F text ≡ some value
      → (c ≡ (if is_negative then b'S' else b'N')) ⊎ (c ≡ (if is_negative then b'W' else b'E'))
      → parse_latlon F text (c ∷ [])
        ≡ some (if is_negative then F.negate (degrees_of F value) else degrees_of F value)
  unfolding parse_latlon toupper
  parse_latlon-letter text value c is_negative e letter = rw e (ground arith)
