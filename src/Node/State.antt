-- ===== src/Node/State.antt =====
-- The state of `UnicoreNode`, src/unicore_node.cpp, that its sentences and frames change, and the
-- parameters that choose among them. A time of the steady clock is its nanoseconds.
use unicore_ros.Base.{ℕ, Bool, Option, none, List, []}
use unicore_ros.Base.Int.{ℤ}
use unicore_ros.Base.Text.{Text}
use unicore_ros.Dispatch.{DispatchCounters, default_dispatch_counters}
use unicore_ros.Sentence.{
  FixData, HeadingData, VelocityData, BestNavData, RtkStatusData, RtcmStatusData, BestSatData,
  SatsInfoData, RawObservationData, AgcData, HwStatusData, JamStatusData, FreqJamStatusData,
  ParserCounters, default_parser_counters,
}

pub record TimedData (A : Type 0) : Type 0 where
  pub data_of : A
  pub received_at : ℕ

-- The latest of its kind.
abbrev pub Latest : Type 0 → Type 0
Latest A = Option (TimedData A)

pub record Settings (D : Type 0) : Type 0 where
  pub data_timeout_sec : D
  pub rtcm_timeout_sec : D
  pub satellite_diag_timeout_sec : D
  pub rf_diag_timeout_sec : D
  pub raw_observation_timeout_sec : D
  pub binary_nav_timeout_sec : D
  pub use_binary_nav : Bool
  pub use_binary_rtk_diag : Bool
  pub use_binary_satellite_diag : Bool
  pub use_binary_rtcm_diag : Bool
  pub use_binary_rf_diag : Bool
  pub use_binary_hw_diag : Bool
  pub use_binary_jamming_diag : Bool
  pub use_binary_raw_observations : Bool

-- What the ASCII sentences leave.
pub record AsciiLatest (D : Type 0) : Type 0 where
  pub latest_gga_fix : Latest (FixData D)
  pub latest_pvtslna_fix : Latest (FixData D)
  pub latest_bestnav : Latest (BestNavData D)
  pub latest_hdt_heading : Latest (HeadingData D)
  pub latest_hpr_heading : Latest (HeadingData D)
  pub latest_velocity : Latest (VelocityData D)
  pub latest_rtk_status : Latest (RtkStatusData)
  pub latest_rtcm_status : Latest (RtcmStatusData)
  pub latest_bestsat : Latest (BestSatData)
  pub latest_satsinfo : Latest (SatsInfoData D)
  pub latest_agc : Latest (AgcData)
  pub latest_hw_status : Latest (HwStatusData D)
  pub latest_jam_status : Latest (JamStatusData)
  pub latest_freq_jam_status : Latest (FreqJamStatusData)
  pub last_rtkstatus_time : Option ℕ
  pub last_rtcmstatus_time : Option ℕ
  pub recent_rtcm_message_ids : List ℤ
  pub sentence_counts : List (Text × ℕ)
  pub gsv_counts : List (Text × TimedData ℤ)

-- What the binary frames leave.
pub record BinaryLatest (D : Type 0) : Type 0 where
  pub latest_binary_pvtsln_fix : Latest (FixData D)
  pub latest_binary_heading : Latest (HeadingData D)
  pub latest_binary_velocity : Latest (VelocityData D)
  pub latest_binary_bestnav : Latest (BestNavData D)
  pub latest_binary_rtk_status : Latest (RtkStatusData)
  pub latest_binary_rtcm_status : Latest (RtcmStatusData)
  pub latest_binary_bestsat : Latest (BestSatData)
  pub latest_binary_satsinfo : Latest (SatsInfoData D)
  pub latest_binary_raw_observations : Latest (RawObservationData D)
  pub latest_binary_agc : Latest (AgcData)
  pub latest_binary_hw_status : Latest (HwStatusData D)
  pub latest_binary_jam_status : Latest (JamStatusData)
  pub latest_binary_freq_jam_status : Latest (FreqJamStatusData)
  pub last_binary_frame_time : Option ℕ
  pub last_binary_msg_id : Option ℕ
  pub recent_binary_rtcm_message_ids : List ℤ

pub record NodeState (D : Type 0) : Type 0 where
  pub parser : ParserCounters
  pub binary_dispatcher : DispatchCounters
  pub ascii : AsciiLatest D
  pub binary : BinaryLatest D

-- As the node is constructed.
abbrev pub initial_state : (D : Type 0) → NodeState D
initial_state D = record {
  parser = default_parser_counters;
  binary_dispatcher = default_dispatch_counters;
  ascii = record {
    latest_gga_fix = none;
    latest_pvtslna_fix = none;
    latest_bestnav = none;
    latest_hdt_heading = none;
    latest_hpr_heading = none;
    latest_velocity = none;
    latest_rtk_status = none;
    latest_rtcm_status = none;
    latest_bestsat = none;
    latest_satsinfo = none;
    latest_agc = none;
    latest_hw_status = none;
    latest_jam_status = none;
    latest_freq_jam_status = none;
    last_rtkstatus_time = none;
    last_rtcmstatus_time = none;
    recent_rtcm_message_ids = [];
    sentence_counts = [];
    gsv_counts = [];
  };
  binary = record {
    latest_binary_pvtsln_fix = none;
    latest_binary_heading = none;
    latest_binary_velocity = none;
    latest_binary_bestnav = none;
    latest_binary_rtk_status = none;
    latest_binary_rtcm_status = none;
    latest_binary_bestsat = none;
    latest_binary_satsinfo = none;
    latest_binary_raw_observations = none;
    latest_binary_agc = none;
    latest_binary_hw_status = none;
    latest_binary_jam_status = none;
    latest_binary_freq_jam_status = none;
    last_binary_frame_time = none;
    last_binary_msg_id = none;
    recent_binary_rtcm_message_ids = [];
  };
}
