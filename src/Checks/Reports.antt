-- ===== src/Checks/Reports.antt =====
-- The theorems on the diagnostics of src/unicore_node.cpp at concrete states.
use unicore_ros.Base.{ℕ, ◌≡◌, ◌↔◌, refl, true, false, none, some, List, [], ◌∷◌, arith}
use unicore_ros.Base.Int.{ℤ, pos}
use unicore_ros.Base.Text.{Text, codes, to_string_int}
use unicore_ros.Transport.{default_counters}
use unicore_ros.Dispatch.{default_dispatch_counters}
use unicore_ros.Sentence.{BestNavData, RtkStatusData, ParserCounters, default_parser_counters}
use unicore_ros.Node.State.{AsciiLatest, initial_state}
use unicore_ros.Node.Active.{active_bestnav, active_rtk_status}
use unicore_ros.Report.Describe.{Display, join_strings, join_from}
use unicore_ros.Report.Counts.{
  describe_ordered_counts, preferred_parts, extra_parts, count_of, insert_text, sort_texts,
  text_leb,
}
use unicore_ros.Report.Status.{ok, DiagnosticStatus, ReportSettings}
use unicore_ros.Report.Rtk.{gps_rtk_status}
use unicore_ros.Report.Parser.{Snapshot, snapshot_of, gps_parser_status}
use unicore_ros.Report.Verdict.{IsCurrent, gps_rtk_status-ok}
use unicore_ros.Report.Anomalies.{gps_parser_status-ok_iff}
use unicore_ros.Report.Order.{swap, under, after, describe_ordered_counts-SameMap}
use unicore_ros.Checks.Sentences.{numbers}
use unicore_ros.Checks.Nodes.{settings}

abbrev pub display : Display numbers
display = record {
  sqrt = λ a. a;
  fabs = λ a. a;
  infinity = 1000;
  quiet_nan = 0;
  fixed = λ a. codes "0";
}

abbrev pub report_settings : ReportSettings ℕ
report_settings = record {
  enable_rtk_status = true;
  enable_rtcm_status = true;
  enable_satellite_status = true;
  enable_satsinfo = true;
  enable_rf_status = true;
  enable_hw_status = true;
  enable_jamming_status = true;
  enable_raw_observation_diag = false;
  enable_unicore_binary = false;
  binary_compare_ascii = true;
  max_diff_age_sec = 5;
  raw_observation_max_debug_entries = pos 0;
}

abbrev solution : BestNavData ℕ
solution = record {
  solution_status = codes "SOL_COMPUTED";
  position_type = codes "NARROW_INT";
  fix_quality = pos 4;
  latitude_deg = 48;
  longitude_deg = 2;
  height_msl_m = 35;
  undulation_m = 44;
  latitude_std_m = 1;
  longitude_std_m = 1;
  height_std_m = 1;
  base_station_id = codes "1";
  diff_age_sec = 1;
  sol_age_sec = 0;
  satellites_tracked = pos 20;
  satellites_used = pos 18;
  extended_solution_status = pos 1;
  galileo_bds3_signal_mask = pos 3;
  gps_glonass_bds2_signal_mask = pos 3;
  velocity_solution_status = codes "SOL_COMPUTED";
  velocity_type = codes "DOPPLER";
  velocity_latency_sec = 0;
  velocity_age_sec = 0;
  horizontal_speed_mps = 0;
  track_over_ground_deg = 0;
  vertical_speed_mps = 0;
  vertical_speed_std_mps = 0;
  horizontal_speed_std_mps = 0;
}

abbrev rtk : RtkStatusData
rtk = record {
  gps_source_mask = 255;
  bds_source_mask_1 = 0;
  bds_source_mask_2 = 0;
  glonass_source_mask = 0;
  galileo_source_mask_1 = 0;
  galileo_source_mask_2 = 0;
  qzss_source_mask = 0;
  position_type = codes "NARROW_INT";
  fix_quality = pos 4;
  calculate_status = pos 5;
  ion_detected = pos 0;
  dual_rtk_flag = pos 0;
  adr_observation_count = pos 30;
}

abbrev pub fixed_state : AsciiLatest ℕ
fixed_state = record (initial_state ℕ).ascii {
  latest_bestnav = some (record { data_of = solution; received_at = 7 });
  latest_rtk_status = some (record { data_of = rtk; received_at = 7 });
}

abbrev rtk_report : DiagnosticStatus
rtk_report =
    gps_rtk_status numbers display settings report_settings 7 fixed_state (initial_state ℕ).binary

rtk_report_level : rtk_report.level ≡ ok
unfolding gps_rtk_status active_bestnav active_rtk_status
rtk_report_level = refl

gps_rtk_status-ok_example :
    (n : BestNavData ℕ) × (s : RtkStatusData) × IsCurrent numbers settings 7 fixed_state
      (initial_state ℕ).binary
      n
    × (active_rtk_status numbers settings 7 fixed_state (initial_state ℕ).binary ≡ some s)
    × (n.solution_status ≡ codes "SOL_COMPUTED")
    × (numbers.less 5 n.diff_age_sec ≡ false)
    × (n.fix_quality ≡ pos 4)
gps_rtk_status-ok_example =
    gps_rtk_status-ok numbers display settings report_settings 7 fixed_state
      (initial_state ℕ).binary refl rtk_report_level

-- One line was no sentence, which the last report has not seen.
abbrev one_error : ParserCounters
one_error = record default_parser_counters { parse_errors = 1 }

abbrev nothing_seen : Snapshot
nothing_seen = record {
  parse_errors = 0;
  nmea_checksum_errors = 0;
  unicore_crc_errors = 0;
  crc_errors = 0;
  resync_count = 0;
  unknown_frames = 0;
}

abbrev parser_report : DiagnosticStatus × Snapshot
parser_report =
    gps_parser_status numbers display true 9 one_error default_counters default_dispatch_counters
      none nothing_seen

gps_parser_status-ok_iff_example :
    ((parser_report.0.level ≡ ok)
      ↔ (snapshot_of one_error default_counters default_dispatch_counters ≡ nothing_seen))
    × (parser_report.1 ≡ snapshot_of one_error default_counters default_dispatch_counters)
unfolding snapshot_of
gps_parser_status-ok_iff_example =
    gps_parser_status-ok_iff numbers display true 9 one_error default_counters
      default_dispatch_counters none nothing_seen
      (record {
        parse_errors_fit = omega arith;
        nmea_checksum_errors_fit = omega arith;
        unicore_crc_errors_fit = omega arith;
        crc_errors_fit = omega arith;
        resync_count_fit = omega arith;
        unknown_frames_fit = omega arith;
      })
      (record {
        parse_errors_fit = omega arith;
        nmea_checksum_errors_fit = omega arith;
        unicore_crc_errors_fit = omega arith;
        crc_errors_fit = omega arith;
        resync_count_fit = omega arith;
        unknown_frames_fit = omega arith;
      })

-- Two extra signals, one preferred one, and one that was not seen.
abbrev signals : List (Text × ℤ)
signals =
    (codes "L9", pos 2) ∷ (codes "L1", pos 12) ∷ (codes "E9", pos 3) ∷ (codes "L2", pos 0) ∷ []

abbrev signals_again : List (Text × ℤ)
signals_again =
    (codes "E9", pos 3) ∷ (codes "L1", pos 12) ∷ (codes "L9", pos 2) ∷ (codes "L2", pos 0) ∷ []

abbrev preferred : List Text
preferred = codes "L1" ∷ codes "L2" ∷ []

describe_signals : describe_ordered_counts signals preferred ≡ codes "L1=12, E9=3, L9=2"
unfolding describe_ordered_counts preferred_parts extra_parts count_of insert_text sort_texts
    text_leb join_strings join_from to_string_int
describe_signals = refl

describe_ordered_counts-SameMap_example :
    describe_ordered_counts signals preferred ≡ describe_ordered_counts signals_again preferred
describe_ordered_counts-SameMap_example = describe_ordered_counts-SameMap preferred (
    after (swap (codes "L9", pos 2) (codes "L1", pos 12) _ refl) (
      after (under (codes "L1", pos 12) (swap (codes "L9", pos 2) (codes "E9", pos 3) _ refl))
        (swap (codes "L1", pos 12) (codes "E9", pos 3) _ refl)))
