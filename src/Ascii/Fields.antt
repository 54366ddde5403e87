-- ===== src/Ascii/Fields.antt =====
-- The text functions of src/unicore_parser.cpp.
use mathlib.Core.List.{reverse}
use unicore_ros.Base.{
  ℕ, zero, suc, ◌+◌, ◌-◌, ◌&&◌, ◌||◌, none, some, List, [], ◌∷◌, leb, ◌==◌, if◌then◌else◌, length,
  take, drop, get_or,
}
use unicore_ros.Base.Text.{Text, codes, text_eq}
use unicore_ros.Wire.{find_byte}
use unicore_ros.Ascii.Numbers.{skip_space}

unfoldable pub trim : Text → Text
unfolding skip_space
trim text = reverse (skip_space (reverse (skip_space text)))

-- The rounds allowed, and the text from `start` on.
unfoldable pub split_loop : ℕ → Text → List Text
split_loop zero text = []
split_loop (suc fuel) text = elim (find_byte b',' text) [
  | none ↦ text ∷ []
  | some comma ↦ take comma text ∷ split_loop fuel (drop (comma + 1) text)
]

-- Each round but the last takes a comma.
unfoldable pub split_fields : Text → List Text
unfolding split_loop
split_fields payload = split_loop (suc (length payload)) payload

-- `fields[n]`, at a position that the caller has checked.
abbrev pub at : List Text → ℕ → Text
at fields n = get_or fields n []

unfoldable pub sentence_suffix : Text → Text
sentence_suffix type = if leb (length type) 3 then type else drop (length type - 3) type

unfoldable pub field_after_semicolon : Text → Text
field_after_semicolon field = elim (find_byte b';' field) [
  | none ↦ field
  | some semi ↦ drop (semi + 1) field
]

abbrev last_byte : Text → ℕ
last_byte text = get_or text (length text - 1) 0

unfoldable pub trim_ascii_quotes : Text → Text
trim_ascii_quotes text =
    if leb 2 (length text) && (get_or text 0 0 == b'"' && last_byte text == b'"')
    then take (length text - 2) (drop 1 text)
    else text

unfoldable pub normalize_constellation_name : Text → Text
normalize_constellation_name text =
    if text_eq text (codes "GPS")
    then codes "GPS"
    else if text_eq text (codes "GLONASS") || text_eq text (codes "GLO")
    then codes "GLO"
    else if text_eq text (codes "GALILEO") || text_eq text (codes "GAL")
    then codes "GAL"
    else if text_eq text (codes "BEIDOU") || text_eq text (codes "BDS")
    then codes "BDS"
    else if text_eq text (codes "QZSS")
    then codes "QZSS"
    else if text_eq text (codes "IRNSS") || text_eq text (codes "NAVIC")
    then codes "IRNSS"
    else if text_eq text (codes "SBAS")
    then codes "SBAS"
    else text
