-- ===== src/Report/Describe.antt =====
-- The functions of the anonymous namespace of src/unicore_node.cpp that describe codes, masks and
-- numbers.
use unicore_ros.Base.{
  ℕ, zero, suc, ◌+◌, ◌/◌, ◌%◌, ◌^◌, Bool, true, false, not, ◌&&◌, ◌||◌, Option, none, some, List,
  [], ◌∷◌, ◌++◌, ltb, leb, ◌==◌, if◌then◌else◌, length, get_or,
}
use unicore_ros.Base.Int.{ℤ, pos, negsuc}
use unicore_ros.Base.Text.{Text, codes, to_string}
use unicore_ros.Floats.{Floats, zero_double}
use unicore_ros.Sentence.{FixSource, HeadingSource, FixData}
use unicore_ros.Ascii.Hex.{hex_digit}

-- What the report needs of `double` beside `Floats`.
pub record Display (F : Floats) : Type 0 where
  pub sqrt : F.D → F.D
  pub fabs : F.D → F.D
  pub infinity : F.D
  pub quiet_nan : F.D
  -- A stream with `std::ios::fixed` and three decimals.
  pub fixed : F.D → Text

unfoldable pub fix_source_name : FixSource → Text
fix_source_name FixSource.gga = codes "GGA"
fix_source_name FixSource.pvtslna = codes "PVTSLNA"
fix_source_name FixSource.pvtslnb = codes "PVTSLNB"

unfoldable pub heading_source_name : HeadingSource → Text
heading_source_name HeadingSource.hdt = codes "HDT"
heading_source_name HeadingSource.hpr = codes "HPR"
heading_source_name HeadingSource.pvtslnb = codes "PVTSLNB"

-- `value == n` of an `int` and a literal.
abbrev pub is_int : ℤ → ℕ → Bool
is_int (pos m) n = m == n
is_int (negsuc m) n = false

unfoldable pub fix_type_from_quality : ℤ → Text
fix_type_from_quality quality =
    if is_int quality 4
    then codes "3D-RTK-Fixed"
    else if is_int quality 5
    then codes "3D-RTK-Float"
    else if is_int quality 2 || is_int quality 9
    then codes "3D-DGPS"
    else if is_int quality 1
    then codes "3D"
    else codes "no-fix"

unfoldable pub carrier_solution_from_quality : ℤ → Text
carrier_solution_from_quality quality =
    if is_int quality 4
    then codes "fixed"
    else if is_int quality 5
    then codes "float"
    else codes "none"

-- Uppercase hexadecimal digits of a number of at most `k` digits, without leading zeros.
unfoldable pub hexadecimal : ℕ → ℕ → Text
hexadecimal zero n = []
hexadecimal (suc k) n =
    let front = hexadecimal k (n / 16) in
    if ltb n 16 then hex_digit n ∷ [] else front ++ (hex_digit (n % 16) ∷ [])

unfoldable pub to_hex_byte : ℤ → Text
unfolding hexadecimal
to_hex_byte (negsuc n) = codes "n/a"
to_hex_byte (pos n) = codes "0x" ++ ((if ltb n 16 then codes "0" else []) ++ hexadecimal 8 n)

unfoldable pub to_hex_word : ℕ → Text
unfolding hexadecimal
to_hex_word n = codes "0x" ++ hexadecimal 8 n

abbrev pub is_blank : Text → Bool
is_blank [] = true
is_blank (_ ∷ _) = false

-- The loop of `join_strings`.
unfoldable pub join_from : Text → List Text → Text
join_from joined [] = joined
join_from joined (value ∷ values) =
    join_from
      (if is_blank value
        then joined
        else (if is_blank joined then joined else joined ++ codes ", ") ++ value)
      values

unfoldable pub join_strings : List Text → Text
unfolding join_from
join_strings values =
    let joined = join_from [] values in if is_blank joined then codes "n/a" else joined

unfoldable pub texts_of : List ℕ → List Text
texts_of [] = []
texts_of (value ∷ values) = to_string value ∷ texts_of values

unfoldable pub join_message_ids : List ℕ → Text
unfolding join_strings texts_of
join_message_ids [] = codes "none"
join_message_ids (value ∷ values) = join_strings (texts_of (value ∷ values))

-- `(mask & (1 << k)) != 0` of a mask that is not negative.
abbrev pub has_bit : ℕ → ℕ → Bool
has_bit mask k = mask / 2 ^ k % 2 == 1

-- The names of the bits that are set, by their positions.
unfoldable pub bit_names : ℕ → List (ℕ × Text) → List Text
bit_names mask [] = []
bit_names mask ((k, name) ∷ rest) =
    if has_bit mask k then name ∷ bit_names mask rest else bit_names mask rest

abbrev pub gps_glo_bds2_bits : List (ℕ × Text)
gps_glo_bds2_bits =
    (0, codes "GPS L1")
    ∷ (1, codes "GPS L2")
    ∷ (2, codes "GPS L5")
    ∷ (3, codes "BDS2 B3I")
    ∷ (4, codes "GLO L1")
    ∷ (5, codes "GLO L2")
    ∷ (6, codes "BDS2 B1I")
    ∷ (7, codes "BDS2 B2I")
    ∷ []

abbrev pub galileo_bds3_bits : List (ℕ × Text)
galileo_bds3_bits =
    (0, codes "GAL E1")
    ∷ (1, codes "GAL E5b")
    ∷ (2, codes "GAL E5a")
    ∷ (4, codes "BDS3 B1I")
    ∷ (5, codes "BDS3 B3I")
    ∷ (6, codes "BDS3 B2a")
    ∷ (7, codes "BDS3 B1C")
    ∷ []

unfoldable pub describe_gps_glo_bds2_signal_mask : ℤ → Text
unfolding bit_names join_strings
describe_gps_glo_bds2_signal_mask (negsuc n) = codes "n/a"
describe_gps_glo_bds2_signal_mask (pos mask) = join_strings (bit_names mask gps_glo_bds2_bits)

unfoldable pub describe_galileo_bds3_signal_mask : ℤ → Text
unfolding bit_names join_strings
describe_galileo_bds3_signal_mask (negsuc n) = codes "n/a"
describe_galileo_bds3_signal_mask (pos mask) = join_strings (bit_names mask galileo_bds3_bits)

unfoldable pub iono_text : ℕ → Text
iono_text mode =
    if mode == 1
    then codes "klobuchar"
    else if mode == 2
    then codes "sbas_grid"
    else if mode == 3
    then codes "multi_freq"
    else if mode == 4
    then codes "pseudorange_diff"
    else codes "unknown"

unfoldable pub describe_ext_solution_status : ℤ → Text
unfolding iono_text
describe_ext_solution_status (negsuc n) = codes "n/a"
describe_ext_solution_status (pos value) =
    codes "rtk_checked="
    ++ ((if has_bit value 0 then codes "true" else codes "false")
        ++ (codes ", iono=" ++ iono_text (value / 2 % 8)))

unfoldable pub describe_rtk_calculate_status : ℤ → Text
describe_rtk_calculate_status value =
    if is_int value 0
    then codes "no differential data"
    else if is_int value 1
    then codes "base insufficient obs"
    else if is_int value 2
    then codes "high differential latency"
    else if is_int value 3
    then codes "active ionosphere"
    else if is_int value 4
    then codes "rover insufficient obs"
    else if is_int value 5
    then codes "rtk solution available"
    else codes "unknown"

unfoldable pub describe_dual_rtk_flag : ℤ → Text
describe_dual_rtk_flag value =
    if is_int value 0
    then codes "baseline unsolved"
    else if is_int value 1
    then codes "within limit"
    else if is_int value 2
    then codes "out of limit"
    else if is_int value 255
    then codes "baseline length not configured"
    else codes "unknown"

-- The rounds of `count_bits`, at most one for each bit of the word.
unfoldable pub count_bits_loop : ℕ → ℕ → ℕ → ℕ
count_bits_loop zero value count = count
count_bits_loop (suc rounds) value count =
    let rest = count_bits_loop rounds (value / 2) (count + value % 2) in
    if value == 0 then count else rest

unfoldable pub count_bits : ℕ → ℕ
unfolding count_bits_loop
count_bits value = count_bits_loop 32 value 0

unfoldable pub describe_hw_flag_bits : ℤ → Text
unfolding join_strings
describe_hw_flag_bits (negsuc n) = codes "n/a"
describe_hw_flag_bits (pos flag) = join_strings (
    (if has_bit flag 0 then codes "crystal" else codes "oscillator")
    ∷ (if has_bit flag 1 then codes "tcxo" else codes "vcxo")
    ∷ (if has_bit flag 2 then codes "20mhz" else codes "26mhz")
    ∷ (if has_bit flag 3 then codes "osc+crystal" else codes "osc-only")
    ∷ (if has_bit flag 4 then codes "external_clock" else codes "internal_clock")
    ∷ (if has_bit flag 7 then codes "flag_valid" else codes "flag_unknown")
    ∷ [])

abbrev clock_side : ℤ → Text
clock_side (negsuc n) = []
clock_side (pos flag) =
    codes ", " ++ (if has_bit flag 4 then codes "external" else codes "internal")

unfoldable pub describe_clock_status : (clock_flag hw_flag : ℤ) → Text
describe_clock_status (negsuc n) hw_flag = codes "n/a"
describe_clock_status (pos n) hw_flag =
    (if n == 1 then codes "valid" else codes "invalid") ++ clock_side hw_flag

unfoldable pub describe_pll_status : ℤ → Text
unfolding to_hex_word
describe_pll_status (negsuc n) = codes "n/a"
describe_pll_status (pos n) =
    if n == 0 then codes "unlocked" else codes "lock-mask=" ++ to_hex_word n

unfoldable pub describe_jam_flag : ℤ → Text
describe_jam_flag flag =
    if is_int flag 0
    then codes "none"
    else if is_int flag 1
    then codes "cw_jam"
    else if is_int flag 2
    then codes "strong_cw_jam"
    else codes "unknown"

module _ (F : Floats) (P : Display F) where
  unfoldable pub to_string_or_nan : F.D → Text
  to_string_or_nan value = if F.is_finite value then P.fixed value else codes "nan"

  unfoldable pub horizontal_position_delta_m : (lhs rhs : FixData F.D) → F.D
  horizontal_position_delta_m lhs rhs =
      let earth_radius_m = F.literal 6378137 0 in
      let deg_to_rad = F.div F.pi (F.literal 180 0) in
      let avg_lat_rad =
        F.mul (F.mul (F.add lhs.latitude_deg rhs.latitude_deg) (F.literal 5 1)) deg_to_rad in
      let d_lat = F.mul (F.sub rhs.latitude_deg lhs.latitude_deg) deg_to_rad in
      let d_lon = F.mul (F.sub rhs.longitude_deg lhs.longitude_deg) deg_to_rad in
      let north = F.mul d_lat earth_radius_m in
      let east = F.mul (F.mul d_lon earth_radius_m) (F.cos avg_lat_rad) in
      P.sqrt (F.add (F.mul north north) (F.mul east east))

  unfoldable pub covariance_stddev : FixData F.D → ℕ → Option F.D
  covariance_stddev fix index =
      let value = get_or fix.covariance index (zero_double F) in
      if not fix.has_covariance
        || (leb (length fix.covariance) index || F.less value (zero_double F))
      then none
      else some (P.sqrt value)

  unfoldable pub voltage_in_range : (value min_value max_value : F.D) → Bool
  voltage_in_range value min_value max_value =
      F.is_finite value && (F.less_equal min_value value && F.less_equal value max_value)
