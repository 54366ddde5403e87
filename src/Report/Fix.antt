-- ===== src/Report/Fix.antt =====
-- `gps_fix_status` of src/unicore_node.cpp.
use unicore_ros.Base.{
  ℕ, Bool, not, ◌&&◌, ◌||◌, Option, none, some, List, [], ◌∷◌, ◌++◌, if◌then◌else◌, get_or,
}
use unicore_ros.Base.Int.{ℤ, pos}
use unicore_ros.Base.Text.{Text, codes, to_string_int}
use unicore_ros.Floats.{Floats, zero_double, minus_one_double}
use unicore_ros.Sentence.{FixSource, FixData, BestNavData}
use unicore_ros.Ascii.Position.{diagonal}
use unicore_ros.Nav.Names.{positive}
use unicore_ros.Node.State.{Settings, AsciiLatest, BinaryLatest}
use unicore_ros.Node.Active.{
  active_bestnav, active_ascii_bestnav, active_binary_bestnav, active_ascii_fix, active_binary_fix,
}
use unicore_ros.Report.Describe.{
  Display, is_int, fix_source_name, fix_type_from_quality, carrier_solution_from_quality,
  to_hex_byte, describe_ext_solution_status, to_string_or_nan, horizontal_position_delta_m,
  covariance_stddev,
}
use unicore_ros.Report.Status.{
  Level, ok, warn, error, KeyValue, DiagnosticStatus, ReportSettings, kv, yes_no, has_value,
  text_or_na, values_of, both, int_eq, at_least, show_age, age_or_inf, bestnav_values,
}

-- The bytes of an em dash between two spaces.
abbrev dash : Text
dash = b' ' ∷ 0xE2 ∷ 0x80 ∷ 0x94 ∷ b' ' ∷ []

abbrev quality_or_zero : {D : Type 0} → Option (BestNavData D) → ℤ
quality_or_zero none = pos 0
quality_or_zero (some n) = n.fix_quality

-- The quality of a fix if it is positive, or else that of BESTNAV.
unfoldable pub quality_in_use : {D : Type 0} → Option (FixData D) → Option (BestNavData D) → ℤ
quality_in_use none bestnav = quality_or_zero bestnav
quality_in_use (some fix) bestnav =
    if positive fix.fix_quality then fix.fix_quality else quality_or_zero bestnav

unfoldable pub fix_verdict : (port_open : Bool) → (has_fix : Bool) → ℤ → Level × Text
unfolding fix_type_from_quality
fix_verdict port_open has_fix q =
    if not port_open
    then (error, codes "serial disconnected")
    else if not has_fix || not (positive q)
    then (error, codes "no fix")
    else if is_int q 4
    then (ok, codes "RTK Fixed")
    else if is_int q 5
    then (warn, codes "RTK Float" ++ (dash ++ codes "converging, not yet validated"))
    else (warn, fix_type_from_quality q ++ codes " fix, no RTK")

module _ (F : Floats) (P : Display F) (o : Settings F.D) (r : ReportSettings F.D) (now : ℕ) where
  -- `value >= 0.0`.
  abbrev is_natural_double : F.D → Bool
  is_natural_double value = F.less_equal (zero_double F) value

  -- The fix that a BESTNAV stands for.
  unfoldable pub fix_of_bestnav : BestNavData F.D → FixData F.D
  fix_of_bestnav n =
      let known =
        is_natural_double n.latitude_std_m
        && (is_natural_double n.longitude_std_m && is_natural_double n.height_std_m) in
      record {
        source = FixSource.pvtslnb;
        valid_fix = positive n.fix_quality;
        latitude_deg = n.latitude_deg;
        longitude_deg = n.longitude_deg;
        altitude_m = F.add n.height_msl_m n.undulation_m;
        fix_quality = n.fix_quality;
        satellites = n.satellites_used;
        hdop = minus_one_double F;
        has_covariance = known;
        covariance =
            if known
            then diagonal F (F.mul n.longitude_std_m n.longitude_std_m)
                (F.mul n.latitude_std_m n.latitude_std_m) (F.mul n.height_std_m n.height_std_m)
            else diagonal F (zero_double F) (zero_double F) (zero_double F);
      }

  unfoldable pub active_binary_fix_for_comparison : BinaryLatest F.D → Option (FixData F.D)
  unfolding fix_of_bestnav active_binary_fix active_binary_bestnav
  active_binary_fix_for_comparison b = elim (active_binary_fix F o now b) [
    | some fix ↦ some fix
    | none ↦ elim (active_binary_bestnav F o now b) [
      | none ↦ none
      | some n ↦ some (fix_of_bestnav n)
    ]
  ]

  -- `std::max(0.0, value)`.
  abbrev at_least_zero : F.D → F.D
  at_least_zero value = if F.less (zero_double F) value then value else zero_double F

  unfoldable pub sigma_xy_mm : Option (FixData F.D) → F.D
  sigma_xy_mm none = minus_one_double F
  sigma_xy_mm (some fix) =
      let cxx = get_or fix.covariance 0 (zero_double F) in
      let cyy = get_or fix.covariance 4 (zero_double F) in
      if fix.has_covariance
      then F.mul (P.sqrt (at_least_zero (F.add cxx cyy))) (F.literal 10000 1)
      else minus_one_double F

  unfoldable pub fix_values : FixData F.D → List KeyValue
  unfolding to_string_or_nan fix_source_name
  fix_values fix =
      kv "latitude_deg" (to_string_or_nan F P fix.latitude_deg)
      ∷ kv "longitude_deg" (to_string_or_nan F P fix.longitude_deg)
      ∷ kv "altitude_m" (to_string_or_nan F P fix.altitude_m)
      ∷ kv "fix_source" (fix_source_name fix.source)
      ∷ []

  unfoldable pub fix_bestnav_values : BestNavData F.D → List KeyValue
  unfolding bestnav_values to_hex_byte describe_ext_solution_status
  fix_bestnav_values n =
      bestnav_values F P n
      ++ (kv "ext_solution_status" (to_hex_byte n.extended_solution_status)
          ∷ kv "ext_solution_detail" (describe_ext_solution_status n.extended_solution_status)
          ∷ [])

  -- The difference of two standard deviations, if both are known.
  unfoldable pub std_delta : (ascii binary : FixData F.D) → ℕ → Text
  unfolding covariance_stddev to_string_or_nan
  std_delta ascii binary index =
      text_or_na (λ p. to_string_or_nan F P (P.fabs (F.sub p.1 p.0)))
        (both (covariance_stddev F P ascii index) (covariance_stddev F P binary index))

  unfoldable pub position_comparison : Option (FixData F.D × FixData F.D) → List KeyValue
  unfolding horizontal_position_delta_m to_string_or_nan std_delta
  position_comparison none =
      kv "binary_ascii_position_delta_m" (codes "n/a")
      ∷ kv "binary_ascii_altitude_delta_m" (codes "n/a")
      ∷ kv "binary_ascii_latitude_delta_deg" (codes "n/a")
      ∷ kv "binary_ascii_longitude_delta_deg" (codes "n/a")
      ∷ kv "binary_ascii_lon_std_delta_m" (codes "n/a")
      ∷ kv "binary_ascii_lat_std_delta_m" (codes "n/a")
      ∷ kv "binary_ascii_alt_std_delta_m" (codes "n/a")
      ∷ []
  position_comparison (some (ascii, binary)) =
      kv "binary_ascii_position_delta_m"
        (to_string_or_nan F P (horizontal_position_delta_m F P ascii binary))
      ∷ kv "binary_ascii_altitude_delta_m"
          (to_string_or_nan F P (P.fabs (F.sub binary.altitude_m ascii.altitude_m)))
      ∷ kv "binary_ascii_latitude_delta_deg"
          (to_string_or_nan F P (F.sub binary.latitude_deg ascii.latitude_deg))
      ∷ kv "binary_ascii_longitude_delta_deg"
          (to_string_or_nan F P (F.sub binary.longitude_deg ascii.longitude_deg))
      ∷ kv "binary_ascii_lon_std_delta_m" (std_delta ascii binary 0)
      ∷ kv "binary_ascii_lat_std_delta_m" (std_delta ascii binary 4)
      ∷ kv "binary_ascii_alt_std_delta_m" (std_delta ascii binary 8)
      ∷ []

  -- Whether the two sides agree on the quality, if both have one.
  unfoldable pub quality_match : (ascii binary : ℤ) → Text
  quality_match ascii binary =
      if positive ascii && positive binary then yes_no (int_eq ascii binary) else codes "n/a"

  module _ (a : AsciiLatest F.D) (b : BinaryLatest F.D) where
    unfoldable pub fix_nav_age : F.D
    unfolding age_or_inf
    fix_nav_age =
        if has_value b.latest_binary_pvtsln_fix
        then age_or_inf F P now b.latest_binary_pvtsln_fix
        else age_or_inf F P now b.latest_binary_bestnav

    unfoldable pub fix_head : Option (FixData F.D) → ℤ → List KeyValue
    unfolding fix_nav_age carrier_solution_from_quality fix_type_from_quality sigma_xy_mm show_age
        to_string_or_nan
    fix_head fix q =
        kv "carr_soln" (carrier_solution_from_quality q)
        ∷ kv "fix_type" (fix_type_from_quality q)
        ∷ kv "gps_fix_ok" (yes_no (positive q))
        ∷ kv "diff_corr" (yes_no (at_least 2 q))
        ∷ kv "fix_quality" (to_string_int q)
        ∷ kv "use_binary_nav" (yes_no o.use_binary_nav)
        ∷ kv "binary_compare_ascii" (yes_no r.binary_compare_ascii)
        ∷ kv "binary_bestnav_available" (yes_no (has_value (active_binary_bestnav F o now b)))
        ∷ kv "binary_pvtsln_available" (yes_no (has_value (active_binary_fix F o now b)))
        ∷ kv "binary_nav_age_s" (show_age F P fix_nav_age)
        ∷ kv "sigma_xy_mm" (
            if is_natural_double (sigma_xy_mm fix)
            then to_string_or_nan F P (sigma_xy_mm fix)
            else codes "n/a")
        ∷ []

    unfoldable pub fix_comparison : List KeyValue
    unfolding position_comparison quality_match quality_in_use active_binary_fix_for_comparison
    fix_comparison =
        let ascii = active_ascii_fix F o now a in
        let binary = active_binary_fix_for_comparison b in
        position_comparison (both ascii binary)
        ++ (kv "binary_ascii_fix_type_match" (
              quality_match (quality_in_use ascii (active_ascii_bestnav F o now a))
                (quality_in_use binary (active_binary_bestnav F o now b)))
            ∷ [])

    unfoldable pub gps_fix_status : (port_open : Bool) → Option (FixData F.D) → DiagnosticStatus
    unfolding fix_head fix_values fix_bestnav_values fix_comparison fix_verdict quality_in_use
    gps_fix_status port_open fix =
        let bestnav = active_bestnav F o now a b in
        let q = quality_in_use fix bestnav in
        let verdict = fix_verdict port_open (has_value fix) q in
        record {
          name = codes "GPS: fix";
          values =
              fix_head fix q
              ++ (values_of fix_values fix
                  ++ (values_of fix_bestnav_values bestnav
                      ++ (if r.binary_compare_ascii then fix_comparison else [])));
          level = verdict.0;
          message = verdict.1;
        }
