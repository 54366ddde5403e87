-- ===== src/Ascii/Names.antt =====
-- The tables of names of src/unicore_parser.cpp. Three of them repeat the text of those in
-- src/unicore_binary_nav.cpp.
use unicore_ros.Base.{ℕ, Bool, ◌||◌, none, some, List, [], ◌∷◌, if◌then◌else◌}
use unicore_ros.Base.Int.{ℤ, pos, negsuc}
use unicore_ros.Base.Text.{Text, codes, text_eq}
use unicore_ros.Ascii.Numbers.{parse_int}
use unicore_ros.Nav.Names
use unicore_ros.Nav.Names.{switch}
use unicore_ros.Nav.Signals

unfoldable pub constellation_name_from_system_id : ℤ → Text
constellation_name_from_system_id (pos n) = Names.satsinfo_constellation_name_from_system_id n
constellation_name_from_system_id (negsuc n) = codes "UNKNOWN"

unfoldable pub bestsat_signal_bands : Text → ℕ → List Text
bestsat_signal_bands constellation signal_mask =
    Names.bestsat_signal_bands constellation signal_mask

unfoldable pub signal_band_from_frequency_id : Text → ℤ → Text
signal_band_from_frequency_id constellation frequency_id =
    Signals.signal_band_from_frequency_id constellation frequency_id

-- The cases of the `switch` on the numeric form.
abbrev pub numeric_qualities : List (ℕ × ℤ)
numeric_qualities =
    (0, pos 0)
    ∷ (1, pos 1)
    ∷ (2, pos 1)
    ∷ (16, pos 1)
    ∷ (17, pos 2)
    ∷ (18, pos 9)
    ∷ (32, pos 5)
    ∷ (33, pos 5)
    ∷ (34, pos 5)
    ∷ (48, pos 4)
    ∷ (49, pos 4)
    ∷ (50, pos 4)
    ∷ (52, pos 1)
    ∷ (53, pos 1)
    ∷ (54, pos 2)
    ∷ (55, pos 5)
    ∷ (56, pos 4)
    ∷ (68, pos 1)
    ∷ (69, pos 1)
    ∷ []

unfoldable pub quality_of_code : ℤ → ℤ
unfolding switch
quality_of_code (negsuc n) = pos 0
quality_of_code (pos n) = switch n numeric_qualities (pos 0)

unfoldable pub text_is_one_of : Text → List Text → Bool
text_is_one_of text [] = Bool.false
text_is_one_of text (name ∷ names) = text_eq text name || text_is_one_of text names

unfoldable pub position_type_to_gga_quality : Text → ℤ
unfolding text_is_one_of
position_type_to_gga_quality text =
    if text_eq text (codes "NONE")
    then pos 0
    else if text_is_one_of text (codes "FIXEDPOS" ∷ codes "FIXEDHEIGHT" ∷ [])
    then pos 1
    else if text_eq text (codes "SINGLE")
    then pos 1
    else if text_is_one_of text (codes "PSRDIFF" ∷ codes "DGPS" ∷ [])
    then pos 2
    else if text_is_one_of text (codes "WAAS" ∷ codes "SBAS" ∷ [])
    then pos 9
    else if text_is_one_of text
        (codes "L1_FLOAT" ∷ codes "IONOFREE_FLOAT" ∷ codes "NARROW_FLOAT" ∷ codes "RTK_FLOAT" ∷ [])
    then pos 5
    else if text_is_one_of text
        (codes "L1_INT" ∷ codes "WIDE_INT" ∷ codes "NARROW_INT" ∷ codes "RTK_FIXED" ∷ [])
    then pos 4
    else if text_eq text (codes "INS")
    then pos 1
    else if text_eq text (codes "INS_PSRSP")
    then pos 1
    else if text_eq text (codes "INS_PSRDIFF")
    then pos 2
    else if text_eq text (codes "INS_RTKFLOAT")
    then pos 5
    else if text_eq text (codes "INS_RTKFIXED")
    then pos 4
    else if text_is_one_of text (codes "PPP_CONVERGING" ∷ codes "PPP" ∷ [])
    then pos 1
    else elim (parse_int text) [ none ↦ pos 0 | some code ↦ quality_of_code code ]
