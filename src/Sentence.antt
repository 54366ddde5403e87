-- ===== src/Sentence.antt =====
-- The data of include/mowgli_unicore_gnss/unicore_parser.hpp that a parsed message fills, over a type
-- `D` of `double` values. Arrays are lists of their length.
use unicore_ros.Base.{ℕ, Bool, Option, none, List}
use unicore_ros.Base.Int.{ℤ}
use unicore_ros.Base.Text.{Text}

pub data FixSource : Type 0 where
  gga pvtslna pvtslnb : FixSource

pub data HeadingSource : Type 0 where
  hdt hpr pvtslnb : HeadingSource

pub record FixData (D : Type 0) : Type 0 where
  pub source : FixSource
  pub valid_fix : Bool
  pub latitude_deg : D
  pub longitude_deg : D
  pub altitude_m : D
  pub fix_quality : ℤ
  pub satellites : ℤ
  pub hdop : D
  pub has_covariance : Bool
  pub covariance : List D

pub record HeadingData (D : Type 0) : Type 0 where
  pub source : HeadingSource
  pub heading_deg : D
  pub pitch_deg : Option D
  pub roll_deg : Option D
  pub baseline_m : Option D
  pub variance_deg2 : D

pub record VelocityData (D : Type 0) : Type 0 where
  pub east_mps : D
  pub north_mps : D
  pub up_mps : D
  pub horizontal_std_mps : D
  pub vertical_std_mps : D

pub record BestNavData (D : Type 0) : Type 0 where
  pub solution_status : Text
  pub position_type : Text
  pub fix_quality : ℤ
  pub latitude_deg : D
  pub longitude_deg : D
  pub height_msl_m : D
  pub undulation_m : D
  pub latitude_std_m : D
  pub longitude_std_m : D
  pub height_std_m : D
  pub base_station_id : Text
  pub diff_age_sec : D
  pub sol_age_sec : D
  pub satellites_tracked : ℤ
  pub satellites_used : ℤ
  pub extended_solution_status : ℤ
  pub galileo_bds3_signal_mask : ℤ
  pub gps_glonass_bds2_signal_mask : ℤ
  pub velocity_solution_status : Text
  pub velocity_type : Text
  pub velocity_latency_sec : D
  pub velocity_age_sec : D
  pub horizontal_speed_mps : D
  pub track_over_ground_deg : D
  pub vertical_speed_mps : D
  pub vertical_speed_std_mps : D
  pub horizontal_speed_std_mps : D

pub record RtkStatusData : Type 0 where
  pub gps_source_mask : ℕ
  pub bds_source_mask_1 : ℕ
  pub bds_source_mask_2 : ℕ
  pub glonass_source_mask : ℕ
  pub galileo_source_mask_1 : ℕ
  pub galileo_source_mask_2 : ℕ
  pub qzss_source_mask : ℕ
  pub position_type : Text
  pub fix_quality : ℤ
  pub calculate_status : ℤ
  pub ion_detected : ℤ
  pub dual_rtk_flag : ℤ
  pub adr_observation_count : ℤ

pub record RtcmStatusData : Type 0 where
  pub message_id : ℤ
  pub message_count : ℤ
  pub base_station_id : ℤ
  pub satellite_count : ℤ
  pub observable_count : List ℤ

pub record BestSatEntry : Type 0 where
  pub constellation : Text
  pub satellite_id : Text
  pub status : Text
  pub signal_mask : ℤ
  pub common_view : Bool
  pub used_signal_bands : List Text

pub record BestSatData : Type 0 where
  pub entry_count : ℤ
  pub entries : List BestSatEntry

pub record SatsInfoSignal (D : Type 0) : Type 0 where
  pub constellation : Text
  pub band : Text
  pub system_id : ℤ
  pub frequency_id : ℤ
  pub cn0_db_hz : D

pub record SatsInfoEntry (D : Type 0) : Type 0 where
  pub constellation : Text
  pub prn : ℤ
  pub azimuth_deg : ℤ
  pub elevation_deg : ℤ
  pub signals : List (SatsInfoSignal D)

pub record SatsInfoData (D : Type 0) : Type 0 where
  pub satellite_count : ℤ
  pub version : ℤ
  pub frequency_flag : ℤ
  pub entries : List (SatsInfoEntry D)

pub record RawObservationEntry (D : Type 0) : Type 0 where
  pub constellation : Text
  pub satellite_id : Text
  pub signal_band : Text
  pub system_id : ℤ
  pub signal_type : ℤ
  pub glonass_frequency_channel : ℤ
  pub tracking_status : ℕ
  pub pseudorange_valid : Bool
  pub carrier_phase_valid : Bool
  pub pseudorange_m : D
  pub carrier_phase_cycles : D
  pub doppler_hz : D
  pub cn0_db_hz : D
  pub lock_time_sec : D
  pub pseudorange_std_m : D
  pub carrier_phase_std_cycles : D

pub record RawObservationData (D : Type 0) : Type 0 where
  pub observation_count : ℤ
  pub entries : List (RawObservationEntry D)

pub record AgcData : Type 0 where
  pub antenna1 : List ℤ
  pub antenna2 : List ℤ

pub record HwStatusData (D : Type 0) : Type 0 where
  pub dc09_v : D
  pub dc10_v : D
  pub dc18_v : D
  pub clock_flag : ℤ
  pub clock_drift_mps : D
  pub hw_flag : ℤ
  pub pll_lock : ℤ

pub record JamStatusData : Type 0 where
  pub position_type : Text
  pub cw_ratio : ℤ
  pub cw_flag : ℤ

pub record FreqJamStatusData : Type 0 where
  pub position_type : Text
  pub cw_ratio : List ℤ
  pub cw_flag : List ℤ

pub record GsvData : Type 0 where
  pub talker : Text
  pub satellites_in_view : ℤ

pub record ParserCounters : Type 0 where
  pub parsed_sentences : ℕ
  pub parse_errors : ℕ
  pub nmea_checksum_errors : ℕ
  pub unicore_crc_errors : ℕ

abbrev pub default_parser_counters : ParserCounters
default_parser_counters = record {
  parsed_sentences = 0;
  parse_errors = 0;
  nmea_checksum_errors = 0;
  unicore_crc_errors = 0;
}

pub record ParsedSentence (D : Type 0) : Type 0 where
  pub sentence_type : Text
  pub fix : Option (FixData D)
  pub heading : Option (HeadingData D)
  pub velocity : Option (VelocityData D)
  pub bestnav : Option (BestNavData D)
  pub rtk_status : Option RtkStatusData
  pub rtcm_status : Option RtcmStatusData
  pub bestsat : Option BestSatData
  pub satsinfo : Option (SatsInfoData D)
  pub raw_observations : Option (RawObservationData D)
  pub agc : Option AgcData
  pub hw_status : Option (HwStatusData D)
  pub jam_status : Option JamStatusData
  pub freq_jam_status : Option FreqJamStatusData
  pub gsv : Option GsvData

-- A sentence with nothing but its type set.
abbrev pub sentence_of : (D : Type 0) → Text → ParsedSentence D
sentence_of D name = record {
  sentence_type = name;
  fix = none;
  heading = none;
  velocity = none;
  bestnav = none;
  rtk_status = none;
  rtcm_status = none;
  bestsat = none;
  satsinfo = none;
  raw_observations = none;
  agc = none;
  hw_status = none;
  jam_status = none;
  freq_jam_status = none;
  gsv = none;
}
