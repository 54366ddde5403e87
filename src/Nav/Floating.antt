-- ===== src/Nav/Floating.antt =====
-- The messages of src/unicore_binary_nav.cpp with floating-point values: HWSTATUS, BESTNAV and PVTSLN.
use unicore_ros.Base.{ℕ, true, ◌||◌, Option, none, some, [], ◌∷◌, ltb, ◌==◌, if◌then◌else◌, length}
use unicore_ros.Base.Int.{pos}
use unicore_ros.Base.Text.{codes}
use unicore_ros.Base.Maybe.{◌>>=◌}
use unicore_ros.Floats.{Floats, zero_double}
use unicore_ros.Payload.{Payload, read_u8, read_u16, read_u32, read_bits64, read_char_array}
use unicore_ros.Sentence.{FixSource, HeadingSource, HeadingData, ParsedSentence, sentence_of}
use unicore_ros.Nav.Names.{
  solution_status_name, position_type_name, position_type_to_gga_quality, positive,
}
use unicore_ros.Nav.Status.{to_int}

abbrev pub bestnav_payload_size : ℕ
bestnav_payload_size = 116

abbrev pub hwstatus_payload_size : ℕ
hwstatus_payload_size = 40

abbrev pub pvtsln_minimum_payload_size : ℕ
pvtsln_minimum_payload_size = 140

module _ (F : Floats) where
  abbrev if_finite : F.D → Option F.D
  if_finite value = if F.is_finite value then some value else none

  -- A failed read and a value that is not finite are `none`.
  unfoldable pub read_float32 : Payload → ℕ → Option F.D
  read_float32 payload offset = do bits ← read_u32 payload offset; if_finite (F.of_bits32 bits)

  unfoldable pub read_float64 : Payload → ℕ → Option F.D
  read_float64 payload offset = do bits ← read_bits64 payload offset; if_finite (F.of_bits64 bits)

  unfoldable pub parse_hwstatusb : Payload → Option (ParsedSentence F.D)
  unfolding read_float32
  parse_hwstatusb p = if ltb (length p) hwstatus_payload_size then none else do
    dc09 ← read_float32 p 4
    dc10 ← read_float32 p 8
    dc18 ← read_float32 p 12
    clock ← read_u32 p 16
    clock_drift ← read_float32 p 20
    hw ← read_u8 p 28
    pll ← read_u16 p 30
    some (record (sentence_of F.D (codes "HWSTATUSB")) {
      hw_status = some (record {
        dc09_v = dc09;
        dc10_v = dc10;
        dc18_v = dc18;
        clock_flag = to_int clock;
        clock_drift_mps = clock_drift;
        hw_flag = pos hw;
        pll_lock = pos pll;
      });
    })

  unfoldable pub parse_bestnavb : Payload → Option (ParsedSentence F.D)
  unfolding read_float32 read_float64
  parse_bestnavb p = if ltb (length p) bestnav_payload_size then none else do
    solution_status_code ← read_u32 p 0
    position_type_code ← read_u32 p 4
    latitude ← read_float64 p 8
    longitude ← read_float64 p 16
    height_msl ← read_float64 p 24
    undulation ← read_float32 p 32
    latitude_std ← read_float32 p 40
    longitude_std ← read_float32 p 44
    height_std ← read_float32 p 48
    diff_age ← read_float32 p 56
    sol_age ← read_float32 p 60
    tracked ← read_u8 p 64
    used ← read_u8 p 65
    extended ← read_u8 p 69
    galileo_mask ← read_u8 p 70
    gps_mask ← read_u8 p 71
    velocity_solution_status_code ← read_u32 p 72
    velocity_type_code ← read_u32 p 76
    velocity_latency ← read_float32 p 80
    velocity_age ← read_float32 p 84
    horizontal_speed ← read_float64 p 88
    track_deg ← read_float64 p 96
    vertical_speed ← read_float32 p 104
    vertical_speed_std ← read_float32 p 108
    horizontal_speed_std ← read_float32 p 112
    let track_rad = F.div (F.mul track_deg F.pi) (F.literal 180 0)
    some (record (sentence_of F.D (codes "BESTNAVB")) {
      bestnav = some (record {
        solution_status = solution_status_name solution_status_code;
        position_type = position_type_name position_type_code;
        fix_quality = position_type_to_gga_quality position_type_code;
        latitude_deg = latitude;
        longitude_deg = longitude;
        height_msl_m = height_msl;
        undulation_m = undulation;
        latitude_std_m = latitude_std;
        longitude_std_m = longitude_std;
        height_std_m = height_std;
        base_station_id = read_char_array p 52 4;
        diff_age_sec = diff_age;
        sol_age_sec = sol_age;
        satellites_tracked = pos tracked;
        satellites_used = pos used;
        extended_solution_status = pos extended;
        galileo_bds3_signal_mask = pos galileo_mask;
        gps_glonass_bds2_signal_mask = pos gps_mask;
        velocity_solution_status = solution_status_name velocity_solution_status_code;
        velocity_type = position_type_name velocity_type_code;
        velocity_latency_sec = velocity_latency;
        velocity_age_sec = velocity_age;
        horizontal_speed_mps = horizontal_speed;
        track_over_ground_deg = track_deg;
        vertical_speed_mps = vertical_speed;
        vertical_speed_std_mps = vertical_speed_std;
        horizontal_speed_std_mps = horizontal_speed_std;
      });
      velocity = some (record {
        east_mps = F.mul horizontal_speed (F.sin track_rad);
        north_mps = F.mul horizontal_speed (F.cos track_rad);
        up_mps = vertical_speed;
        horizontal_std_mps = horizontal_speed_std;
        vertical_std_mps = vertical_speed_std;
      });
    })

  -- The heading block, when the code exposes it.
  unfoldable pub pvtsln_heading : ℕ → F.D → F.D → F.D → Option (HeadingData F.D)
  pvtsln_heading type_code baseline degree pitch =
      if type_code == 0 || F.less (zero_double F) baseline
      then some (record {
        source = HeadingSource.pvtslnb;
        heading_deg = degree;
        pitch_deg = some pitch;
        roll_deg = none;
        baseline_m = some baseline;
        variance_deg2 = zero_double F;
      })
      else none

  unfoldable pub parse_pvtslnb : Payload → Option (ParsedSentence F.D)
  unfolding read_float32 read_float64 pvtsln_heading
  parse_pvtslnb p = if ltb (length p) pvtsln_minimum_payload_size then none else do
    bestpos_type_code ← read_u32 p 0
    bestpos_height_msl ← read_float32 p 4
    latitude ← read_float64 p 8
    longitude ← read_float64 p 16
    altitude_std ← read_float32 p 24
    latitude_std ← read_float32 p 28
    longitude_std ← read_float32 p 32
    diff_age ← read_float32 p 36
    psrpos_type_code ← read_u32 p 40
    undulation ← read_float32 p 64
    bestpos_svs ← read_u8 p 68
    bestpos_solnsvs ← read_u8 p 69
    psrvel_north ← read_float64 p 72
    psrvel_east ← read_float64 p 80
    psrvel_ground ← read_float64 p 88
    heading_type_code ← read_u32 p 96
    heading_length ← read_float32 p 100
    heading_degree ← read_float32 p 104
    heading_pitch ← read_float32 p 108
    heading_trackedsvs ← read_u8 p 112
    heading_solnsvs ← read_u8 p 113
    dilution ← read_float32 p 124
    let quality = position_type_to_gga_quality bestpos_type_code
    let z = zero_double F
    some (record (sentence_of F.D (codes "PVTSLNB")) {
      fix = some (record {
        source = FixSource.pvtslnb;
        valid_fix = positive quality;
        latitude_deg = latitude;
        longitude_deg = longitude;
        altitude_m = F.add bestpos_height_msl undulation;
        fix_quality = quality;
        satellites = pos (if ltb 0 bestpos_solnsvs then bestpos_solnsvs else bestpos_svs);
        hdop = dilution;
        has_covariance = true;
        covariance =
            F.mul longitude_std longitude_std
            ∷ z
            ∷ z
            ∷ z
            ∷ F.mul latitude_std latitude_std
            ∷ z
            ∷ z
            ∷ z
            ∷ F.mul altitude_std altitude_std
            ∷ [];
      });
      heading = pvtsln_heading heading_type_code heading_length heading_degree heading_pitch;
    })
