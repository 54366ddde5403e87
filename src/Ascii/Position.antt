-- ===== src/Ascii/Position.antt =====
-- The sentences of src/unicore_parser.cpp with positions, headings, velocities and voltages: GGA,
-- HDT, HPR, PVTSLNA, BESTNAVA and HWSTATUSA.
use unicore_ros.Base.{
  ℕ, ◌-◌, Bool, true, false, not, ◌&&◌, ◌||◌, Option, none, some, List, [], ◌∷◌, ltb, leb, ◌==◌,
  if◌then◌else◌, length, get_or,
}
use unicore_ros.Base.Int.{ℤ, pos, negsuc, minus_one}
use unicore_ros.Base.Text.{Text, codes}
use unicore_ros.Base.Maybe.{◌>>=◌}
use unicore_ros.Floats.{Floats, zero_double, minus_one_double}
use unicore_ros.Sentence.{FixSource, HeadingSource, VelocityData, ParsedSentence, sentence_of}
use unicore_ros.Ascii.Numbers.{between, is_empty, at_end, parse_int, parse_uint32}
use unicore_ros.Ascii.Fields.{at, field_after_semicolon, trim_ascii_quotes}
use unicore_ros.Ascii.Names.{position_type_to_gga_quality}
use unicore_ros.Nav.Names.{positive}
use unicore_ros.Nav.Status.{to_int}

-- `std::toupper` of the "C" locale.
unfoldable pub toupper : ℕ → ℕ
toupper c = if between b'a' c b'z' then c - 32 else c

-- A number that a failed read leaves as it was.
abbrev pub or_else {ℓ} : {A : Type ℓ} → Option A → A → A
or_else none old = old
or_else (some a) old = a

abbrev is_natural : ℤ → Bool
is_natural (pos n) = true
is_natural (negsuc n) = false

module _ (F : Floats) where
  -- The result and the new `value`: only an empty field leaves it as it was.
  unfoldable pub parse_double : Text → F.D → Bool × F.D
  parse_double field value =
      if is_empty field
      then (false, value)
      else (at_end (F.strtod field).1 && F.is_finite (F.strtod field).0, (F.strtod field).0)

  -- A `parse_double` whose failure ends the parser.
  unfoldable pub need_double : Text → Option F.D
  unfolding parse_double
  need_double field =
      if (parse_double field (zero_double F)).0
      then some (parse_double field (zero_double F)).1
      else none

  -- A `parse_double` whose value counts only if it succeeds.
  unfoldable pub double_or : Text → F.D → F.D
  unfolding need_double
  double_or field other = or_else (need_double field) other

  -- `degrees` before the hemisphere's sign.
  unfoldable pub degrees_of : F.D → F.D
  degrees_of raw =
      let divisor = F.literal 100 0 in
      let whole = F.floor (F.div raw divisor) in
      let minutes = F.sub raw (F.mul whole divisor) in F.add whole (F.div minutes (F.literal 60 0))

  unfoldable pub parse_latlon : Text → Text → Option F.D
  unfolding need_double degrees_of toupper
  parse_latlon value_field hemi_field = do
    raw ← need_double value_field
    let hemi = toupper (get_or hemi_field 0 0)
    if not (length hemi_field == 1)
        then none
        else if hemi == b'S' || hemi == b'W'
        then some (F.negate (degrees_of raw))
        else if hemi == b'N' || hemi == b'E'
        then some (degrees_of raw)
        else none

  -- A 3 by 3 matrix, row by row.
  abbrev pub diagonal : F.D → F.D → F.D → List F.D
  diagonal a b c = let z = zero_double F in a ∷ z ∷ z ∷ z ∷ b ∷ z ∷ z ∷ z ∷ c ∷ []

  unfoldable pub parse_gga : List Text → Option (ParsedSentence F.D)
  unfolding parse_latlon need_double double_or
  parse_gga fields = if ltb (length fields) 10 then none else do
    latitude ← parse_latlon (at fields 2) (at fields 3)
    longitude ← parse_latlon (at fields 4) (at fields 5)
    let quality = parse_int (at fields 6)
    let geoid = if ltb 11 (length fields) then need_double (at fields 11) else none
    some (record (sentence_of F.D (codes "GGA")) {
      fix = some (record {
        source = FixSource.gga;
        valid_fix = positive (or_else quality (pos 0));
        latitude_deg = latitude;
        longitude_deg = longitude;
        altitude_m = elim (need_double (at fields 9)) [
          | none ↦ zero_double F
          | some altitude_msl ↦ F.add altitude_msl (or_else geoid (zero_double F))
        ];
        fix_quality = or_else quality (pos 0);
        satellites = or_else (parse_int (at fields 7)) minus_one;
        hdop = double_or (at fields 8) (minus_one_double F);
        has_covariance = false;
        covariance = diagonal (zero_double F) (zero_double F) (zero_double F);
      });
    })

  unfoldable pub parse_hdt : List Text → Option (ParsedSentence F.D)
  unfolding need_double
  parse_hdt fields = if ltb (length fields) 2 then none else do
    heading ← need_double (at fields 1)
    some (record (sentence_of F.D (codes "HDT")) {
      heading = some (record {
        source = HeadingSource.hdt;
        heading_deg = heading;
        pitch_deg = none;
        roll_deg = none;
        baseline_m = none;
        variance_deg2 = zero_double F;
      });
    })

  unfoldable pub parse_hpr : List Text → Option (ParsedSentence F.D)
  unfolding need_double
  parse_hpr fields = if ltb (length fields) 5 then none else do
    heading ← need_double (at fields 2)
    pitch ← need_double (at fields 3)
    roll ← need_double (at fields 4)
    some (record (sentence_of F.D (codes "HPR")) {
      heading = some (record {
        source = HeadingSource.hpr;
        heading_deg = heading;
        pitch_deg = some pitch;
        roll_deg = some roll;
        baseline_m = none;
        variance_deg2 = zero_double F;
      });
    })

  -- `(void)parse_int(fields[n], value)` with `value` at -1, if the field is there.
  abbrev int_at : List Text → ℕ → ℤ
  int_at fields n =
      if ltb n (length fields) then or_else (parse_int (at fields n)) minus_one else minus_one

  unfoldable pub parse_pvtslna : List Text → Option (ParsedSentence F.D)
  unfolding need_double double_or parse_double
  parse_pvtslna fields = if leb (length fields) 15 then none else do
    bestpos_height_msl ← need_double (at fields 10)
    latitude ← need_double (at fields 11)
    longitude ← need_double (at fields 12)
    altitude_std ← need_double (at fields 13)
    latitude_std ← need_double (at fields 14)
    longitude_std ← need_double (at fields 15)
    let quality = position_type_to_gga_quality (field_after_semicolon (at fields 9))
    let undulation =
        if ltb 21 (length fields) then double_or (at fields 21) (zero_double F) else zero_double F
    let tracked = int_at fields 22
    let solution = int_at fields 23
    some (record (sentence_of F.D (codes "PVTSLNA")) {
      fix = some (record {
        source = FixSource.pvtslna;
        valid_fix = positive quality;
        latitude_deg = latitude;
        longitude_deg = longitude;
        altitude_m = F.add bestpos_height_msl undulation;
        fix_quality = quality;
        satellites = if is_natural solution then solution else tracked;
        hdop =
            if ltb 39 (length fields)
            then (parse_double (at fields 39) (minus_one_double F)).1
            else minus_one_double F;
        has_covariance = true;
        covariance =
            diagonal (F.mul longitude_std longitude_std) (F.mul latitude_std latitude_std)
              (F.mul altitude_std altitude_std);
      });
    })

  -- The east and north parts of a speed along a track in degrees.
  unfoldable pub velocity_of : F.D → F.D → F.D → F.D → F.D → VelocityData F.D
  velocity_of horizontal_speed track_deg up_speed vertical_std horizontal_std =
      let track_rad = F.div (F.mul track_deg F.pi) (F.literal 180 0) in
      record {
        east_mps = F.mul horizontal_speed (F.sin track_rad);
        north_mps = F.mul horizontal_speed (F.cos track_rad);
        up_mps = up_speed;
        horizontal_std_mps = horizontal_std;
        vertical_std_mps = vertical_std;
      }

  -- The older shape with the velocity alone, in the last five fields.
  unfoldable pub parse_bestnava_velocity : List Text → Option (ParsedSentence F.D)
  unfolding need_double velocity_of
  parse_bestnava_velocity fields = if ltb (length fields) 6 then none else do
    horizontal_speed ← need_double (at fields (length fields - 5))
    track_deg ← need_double (at fields (length fields - 4))
    up_speed ← need_double (at fields (length fields - 3))
    vertical_std ← need_double (at fields (length fields - 2))
    horizontal_std ← need_double (at fields (length fields - 1))
    some (record (sentence_of F.D (codes "BESTNAVA")) {
      velocity = some (velocity_of horizontal_speed track_deg up_speed vertical_std horizontal_std);
    })

  unfoldable pub parse_bestnava : List Text → Option (ParsedSentence F.D)
  unfolding need_double velocity_of
  parse_bestnava fields = if leb (length fields) 38 then parse_bestnava_velocity fields else do
    latitude ← need_double (at fields 11)
    longitude ← need_double (at fields 12)
    height_msl ← need_double (at fields 13)
    undulation ← need_double (at fields 14)
    latitude_std ← need_double (at fields 16)
    longitude_std ← need_double (at fields 17)
    height_std ← need_double (at fields 18)
    diff_age ← need_double (at fields 20)
    sol_age ← need_double (at fields 21)
    tracked ← parse_int (at fields 22)
    solution ← parse_int (at fields 23)
    extended ← parse_uint32 (at fields 27) 16
    velocity_latency ← need_double (at fields 32)
    velocity_age ← need_double (at fields 33)
    horizontal_speed ← need_double (at fields 34)
    track_deg ← need_double (at fields 35)
    vertical_speed ← need_double (at fields 36)
    vertical_std ← need_double (at fields 37)
    horizontal_std ← need_double (at fields 38)
    some (record (sentence_of F.D (codes "BESTNAVA")) {
      bestnav = some (record {
        solution_status = field_after_semicolon (at fields 9);
        position_type = at fields 10;
        fix_quality = position_type_to_gga_quality (at fields 10);
        latitude_deg = latitude;
        longitude_deg = longitude;
        height_msl_m = height_msl;
        undulation_m = undulation;
        latitude_std_m = latitude_std;
        longitude_std_m = longitude_std;
        height_std_m = height_std;
        base_station_id = trim_ascii_quotes (at fields 19);
        diff_age_sec = diff_age;
        sol_age_sec = sol_age;
        satellites_tracked = tracked;
        satellites_used = solution;
        extended_solution_status = to_int extended;
        galileo_bds3_signal_mask = to_int (or_else (parse_uint32 (at fields 28) 16) 0);
        gps_glonass_bds2_signal_mask = to_int (or_else (parse_uint32 (at fields 29) 16) 0);
        velocity_solution_status = at fields 30;
        velocity_type = at fields 31;
        velocity_latency_sec = velocity_latency;
        velocity_age_sec = velocity_age;
        horizontal_speed_mps = horizontal_speed;
        track_over_ground_deg = track_deg;
        vertical_speed_mps = vertical_speed;
        vertical_speed_std_mps = vertical_std;
        horizontal_speed_std_mps = horizontal_std;
      });
      velocity =
          some (velocity_of horizontal_speed track_deg vertical_speed vertical_std horizontal_std);
    })

  unfoldable pub parse_hwstatusa : List Text → Option (ParsedSentence F.D)
  unfolding need_double
  parse_hwstatusa fields = if leb (length fields) 18 then none else do
    dc09 ← need_double (at fields 10)
    dc10 ← need_double (at fields 11)
    dc18 ← need_double (at fields 12)
    clock ← parse_int (at fields 13)
    clock_drift ← need_double (at fields 14)
    hw ← parse_uint32 (at fields 16) 16
    pll ← parse_uint32 (at fields 18) 16
    some (record (sentence_of F.D (codes "HWSTATUSA")) {
      hw_status = some (record {
        dc09_v = dc09;
        dc10_v = dc10;
        dc18_v = dc18;
        clock_flag = clock;
        clock_drift_mps = clock_drift;
        hw_flag = to_int hw;
        pll_lock = to_int pll;
      });
    })
