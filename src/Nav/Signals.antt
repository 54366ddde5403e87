-- ===== src/Nav/Signals.antt =====
-- The signal bands of SATSINFO and the tracking status of OBSVMCMP, src/unicore_binary_nav.cpp.
use unicore_ros.Base.{
  ℕ, ◌/◌, ◌^◌, bit_and, Bool, false, not, ◌&&◌, ◌||◌, List, [], ◌∷◌, ◌++◌, ◌==◌, leb, if◌then◌else◌,
}
use unicore_ros.Base.Int.{ℤ, pos, negsuc}
use unicore_ros.Base.Text.{Text, codes, text_eq, to_string, to_string_int}
use unicore_ros.Nav.Names.{positive}

-- `id == a || id == b || ...`
abbrev one_of : ℤ → List ℕ → Bool
one_of id [] = false
one_of (negsuc n) (a ∷ rest) = false
one_of (pos n) (a ∷ rest) = n == a || one_of (pos n) rest

abbrev qzss_l6 : Text → ℤ → Text
qzss_l6 constellation frequency_id =
    if text_eq constellation (codes "QZSS") && one_of frequency_id (18 ∷ 22 ∷ 24 ∷ 25 ∷ [])
    then codes "L6"
    else []

unfoldable pub signal_band_from_frequency_id : Text → ℤ → Text
signal_band_from_frequency_id constellation frequency_id =
    if text_eq constellation (codes "GPS") || text_eq constellation (codes "QZSS")
    then if one_of frequency_id (0 ∷ 3 ∷ 11 ∷ [])
      then codes "L1"
      else if one_of frequency_id (9 ∷ 17 ∷ [])
      then codes "L2"
      else if one_of frequency_id (6 ∷ 14 ∷ [])
      then codes "L5"
      else qzss_l6 constellation frequency_id
    else if text_eq constellation (codes "GLO")
    then if one_of frequency_id (0 ∷ [])
      then codes "L1"
      else if one_of frequency_id (5 ∷ [])
      then codes "L2"
      else if one_of frequency_id (6 ∷ 7 ∷ [])
      then codes "L3"
      else []
    else if text_eq constellation (codes "GAL")
    then if one_of frequency_id (1 ∷ 2 ∷ [])
      then codes "E1"
      else if one_of frequency_id (12 ∷ 17 ∷ [])
      then codes "E5"
      else if one_of frequency_id (18 ∷ 22 ∷ [])
      then codes "E6"
      else []
    else if text_eq constellation (codes "BDS")
    then if one_of frequency_id (0 ∷ 4 ∷ 8 ∷ 23 ∷ [])
      then codes "B1"
      else if one_of frequency_id (5 ∷ 17 ∷ 12 ∷ 28 ∷ 13 ∷ [])
      then codes "B2"
      else if one_of frequency_id (6 ∷ 21 ∷ [])
      then codes "B3"
      else []
    else if text_eq constellation (codes "SBAS")
    then if one_of frequency_id (0 ∷ [])
      then codes "L1"
      else if one_of frequency_id (6 ∷ [])
      then codes "L5"
      else []
    else if text_eq constellation (codes "IRNSS")
    then if one_of frequency_id (6 ∷ 14 ∷ []) then codes "L5" else []
    else []

unfoldable pub obsvmcmp_system_id : ℕ → ℕ
obsvmcmp_system_id tracking_status = bit_and (tracking_status / 2 ^ 16) 0x07

unfoldable pub obsvmcmp_signal_type : ℕ → ℕ
obsvmcmp_signal_type tracking_status = bit_and (tracking_status / 2 ^ 21) 0x1F

unfoldable pub obsvmcmp_l2c_flag : ℕ → Bool
obsvmcmp_l2c_flag tracking_status = not (bit_and (tracking_status / 2 ^ 26) 0x01 == 0)

unfoldable pub obsvmcmp_carrier_phase_valid : ℕ → Bool
obsvmcmp_carrier_phase_valid tracking_status = not (bit_and (tracking_status / 2 ^ 19) 0x01 == 0)

unfoldable pub obsvmcmp_pseudorange_valid : ℕ → Bool
obsvmcmp_pseudorange_valid tracking_status = not (bit_and (tracking_status / 2 ^ 20) 0x01 == 0)

-- The flag has no effect in the source.
unfoldable pub obsvmcmp_signal_band : Text → ℕ → Bool → Text
obsvmcmp_signal_band constellation signal_type l2c_flag =
    if text_eq constellation (codes "GPS") || text_eq constellation (codes "QZSS")
    then if leb signal_type 3
      then codes "L1"
      else if leb signal_type 8
      then codes "L2"
      else if leb signal_type 15
      then codes "L5"
      else if text_eq constellation (codes "QZSS")
      then codes "L6"
      else []
    else if text_eq constellation (codes "GLO")
    then if leb signal_type 1
      then codes "L1"
      else if leb signal_type 4
      then codes "L2"
      else codes "L3"
    else if text_eq constellation (codes "GAL")
    then if leb signal_type 2
      then codes "E1"
      else if leb signal_type 5
      then codes "E5"
      else codes "E6"
    else if text_eq constellation (codes "BDS")
    then if leb signal_type 2
      then codes "B1"
      else if leb signal_type 5
      then codes "B2"
      else codes "B3"
    else if text_eq constellation (codes "SBAS")
    then if leb signal_type 1 then codes "L1" else codes "L5"
    else if text_eq constellation (codes "IRNSS")
    then codes "L5"
    else []

abbrev is_minus_one : ℤ → Bool
is_minus_one (pos n) = false
is_minus_one (negsuc n) = n == 0

unfoldable pub obsvmcmp_satellite_id : Text → ℕ → ℤ → Text
unfolding to_string to_string_int
obsvmcmp_satellite_id constellation prn glonass_frequency_channel =
    if text_eq constellation (codes "GLO") && not (is_minus_one glonass_frequency_channel)
    then to_string prn
      ++ ((if positive glonass_frequency_channel then codes "+" else [])
          ++ to_string_int glonass_frequency_channel)
    else to_string prn
