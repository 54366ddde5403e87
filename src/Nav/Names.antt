-- ===== src/Nav/Names.antt =====
-- The tables of names of src/unicore_binary_nav.cpp.
use unicore_ros.Base.{
  ℕ, ◌/◌, ◌^◌, bit_and, Bool, false, not, List, [], ◌∷◌, ◌++◌, ◌==◌, ltb, if◌then◌else◌, ◌&&◌,
}
use unicore_ros.Base.Int.{ℤ, pos, negsuc, signed}
use unicore_ros.Base.Text.{Text, codes, text_eq, to_string, to_string_int}

-- A `switch` over cases that return, and its default.
unfoldable pub switch {ℓ} : {A : Type ℓ} → ℕ → List (ℕ × A) → A → A
switch code [] other = other
switch code ((key, a) ∷ rest) other = if key == code then a else switch code rest other

unfoldable pub bestsat_constellation_name_from_system_id : ℕ → Text
unfolding switch
bestsat_constellation_name_from_system_id system_id =
    switch system_id
      ((0, codes "GPS")
        ∷ (1, codes "GLO")
        ∷ (2, codes "SBAS")
        ∷ (5, codes "GAL")
        ∷ (6, codes "BDS")
        ∷ (7, codes "QZSS")
        ∷ (9, codes "IRNSS")
        ∷ [])
      (codes "UNKNOWN")

unfoldable pub satsinfo_constellation_name_from_system_id : ℕ → Text
unfolding switch
satsinfo_constellation_name_from_system_id system_id =
    switch system_id
      ((0, codes "GPS")
        ∷ (1, codes "GLO")
        ∷ (2, codes "SBAS")
        ∷ (3, codes "GAL")
        ∷ (4, codes "BDS")
        ∷ (5, codes "QZSS")
        ∷ (6, codes "IRNSS")
        ∷ [])
      (codes "UNKNOWN")

-- One `if` of `bestsat_signal_bands`.
abbrev band_of : ℕ → ℕ → Text → List Text
band_of signal_mask flag name = if not (bit_and signal_mask flag == 0) then name ∷ [] else []

unfoldable pub bestsat_signal_bands : Text → ℕ → List Text
bestsat_signal_bands constellation signal_mask =
    if text_eq constellation (codes "GPS")
    then band_of signal_mask 0x01 (codes "L1")
      ++ (band_of signal_mask 0x02 (codes "L2") ++ band_of signal_mask 0x04 (codes "L5"))
    else if text_eq constellation (codes "GLO")
    then band_of signal_mask 0x01 (codes "L1")
      ++ (band_of signal_mask 0x02 (codes "L2") ++ band_of signal_mask 0x04 (codes "L3"))
    else if text_eq constellation (codes "BDS")
    then band_of signal_mask 0x01 (codes "B1")
      ++ (band_of signal_mask 0x02 (codes "B2") ++ band_of signal_mask 0x04 (codes "B3"))
    else if text_eq constellation (codes "GAL")
    then band_of signal_mask 0x01 (codes "E1")
      ++ (band_of signal_mask 0x02 (codes "E5")
          ++ (band_of signal_mask 0x04 (codes "E5") ++ band_of signal_mask 0x08 (codes "E6")))
    else []

unfoldable pub solution_status_name : ℕ → Text
unfolding switch to_string
solution_status_name code =
    switch code
      ((0, codes "SOL_COMPUTED")
        ∷ (1, codes "INSUFFICIENT_OBS")
        ∷ (2, codes "NO_CONVERGENCE")
        ∷ (4, codes "COV_TRACE")
        ∷ [])
      (codes "UNKNOWN_" ++ to_string code)

-- The cases of `position_type_name`.
abbrev pub position_type_names : List (ℕ × Text)
position_type_names =
    (0, codes "NONE")
    ∷ (1, codes "FIXEDPOS")
    ∷ (2, codes "FIXEDHEIGHT")
    ∷ (8, codes "DOPPLER_VELOCITY")
    ∷ (16, codes "SINGLE")
    ∷ (17, codes "PSRDIFF")
    ∷ (18, codes "SBAS")
    ∷ (32, codes "L1_FLOAT")
    ∷ (33, codes "IONOFREE_FLOAT")
    ∷ (34, codes "NARROW_FLOAT")
    ∷ (48, codes "L1_INT")
    ∷ (49, codes "WIDE_INT")
    ∷ (50, codes "NARROW_INT")
    ∷ (52, codes "INS")
    ∷ (53, codes "INS_PSRSP")
    ∷ (54, codes "INS_PSRDIFF")
    ∷ (55, codes "INS_RTKFLOAT")
    ∷ (56, codes "INS_RTKFIXED")
    ∷ (68, codes "PPP_CONVERGING")
    ∷ (69, codes "PPP")
    ∷ []

unfoldable pub position_type_name : ℕ → Text
unfolding switch to_string
position_type_name code = switch code position_type_names (codes "UNKNOWN_" ++ to_string code)

-- The cases of `position_type_to_gga_quality`.
abbrev pub position_type_qualities : List (ℕ × ℤ)
position_type_qualities =
    (0, pos 0)
    ∷ (1, pos 1)
    ∷ (2, pos 1)
    ∷ (16, pos 1)
    ∷ (52, pos 1)
    ∷ (53, pos 1)
    ∷ (68, pos 1)
    ∷ (69, pos 1)
    ∷ (17, pos 2)
    ∷ (54, pos 2)
    ∷ (18, pos 9)
    ∷ (32, pos 5)
    ∷ (33, pos 5)
    ∷ (34, pos 5)
    ∷ (55, pos 5)
    ∷ (48, pos 4)
    ∷ (49, pos 4)
    ∷ (50, pos 4)
    ∷ (56, pos 4)
    ∷ []

unfoldable pub position_type_to_gga_quality : ℕ → ℤ
unfolding switch
position_type_to_gga_quality code = switch code position_type_qualities (pos 0)

abbrev pub positive : ℤ → Bool
positive (pos n) = ltb 0 n
positive (negsuc n) = false

abbrev is_zero : ℤ → Bool
is_zero (pos n) = n == 0
is_zero (negsuc n) = false

unfoldable pub bestsat_satellite_id : ℕ → ℕ → Text
unfolding to_string to_string_int
bestsat_satellite_id system_id raw_satellite_id =
    let identifier = bit_and raw_satellite_id 0xFFFF in
    let glo_channel = signed 16 (bit_and (raw_satellite_id / 2 ^ 16) 0xFFFF) in
    if system_id == 1 && not (is_zero glo_channel)
    then to_string identifier
      ++ ((if positive glo_channel then codes "+" else []) ++ to_string_int glo_channel)
    else to_string identifier

unfoldable pub bestsat_status_name : ℕ → Text
unfolding to_string
bestsat_status_name status_code =
    if status_code == 0 then codes "GOOD" else codes "STATUS_" ++ to_string status_code
