-- ===== src/Checks/Nodes.antt =====
-- The theorems on src/unicore_node.cpp at a state with two fixes, a few sentences, and an open port.
use unicore_ros.Base.{ℕ, ◌≡◌, refl, true, false, none, some, List, [], ◌∷◌, arith}
use unicore_ros.Base.Int.{pos}
use unicore_ros.Base.Text.{codes}
use unicore_ros.Transport.{Frame, init}
use unicore_ros.Sentence.{FixSource, FixData}
use unicore_ros.Node.State.{Settings, NodeState, AsciiLatest, initial_state}
use unicore_ros.Node.Active.{active_fix, active_heading}
use unicore_ros.Node.Process.{Readings, process_binary_frame}
use unicore_ros.Node.Fresh.{Choice, active_fix-Choice}
use unicore_ros.Node.Apart.{process_binary_frame-apart}
use unicore_ros.Node.History.{
  NodeEvent, process_all, all_ascii_ids, all_binary_ids, HoldsLast, process_all-recent,
}
use unicore_ros.Node.Rtcm.{Link, handle_rtcm}
use unicore_ros.Node.Delivery.{IsDelivery, handle_rtcm-IsDelivery}
use unicore_ros.Checks.{example_frame}
use unicore_ros.Checks.Sentences.{numbers}
use unicore_ros.Checks.Ports.{small_system, writer, patient, start, open_one}

-- One second everywhere, without binary sources.
abbrev pub settings : Settings ℕ
settings = record {
  data_timeout_sec = 1;
  rtcm_timeout_sec = 1;
  satellite_diag_timeout_sec = 1;
  rf_diag_timeout_sec = 1;
  raw_observation_timeout_sec = 1;
  binary_nav_timeout_sec = 1;
  use_binary_nav = false;
  use_binary_rtk_diag = false;
  use_binary_satellite_diag = false;
  use_binary_rtcm_diag = false;
  use_binary_rf_diag = false;
  use_binary_hw_diag = false;
  use_binary_jamming_diag = false;
  use_binary_raw_observations = false;
}

abbrev gga : FixData ℕ
gga = record {
  source = FixSource.gga;
  valid_fix = true;
  latitude_deg = 48;
  longitude_deg = 2;
  altitude_m = 35;
  fix_quality = pos 4;
  satellites = pos 12;
  hdop = 1;
  has_covariance = false;
  covariance = [];
}

-- The PVTSLNA fix is invalid.
abbrev two_fixes : AsciiLatest ℕ
two_fixes = record (initial_state ℕ).ascii {
  latest_gga_fix = some (record { data_of = gga; received_at = 5 });
  latest_pvtslna_fix = some (record {
    data_of = record gga { source = FixSource.pvtslna; valid_fix = false };
    received_at = 6;
  });
}

active_fix-Choice_example :
    Choice numbers settings 6 two_fixes
      (initial_state ℕ).binary
      (active_fix numbers settings 6 two_fixes (initial_state ℕ).binary)
active_fix-Choice_example = active_fix-Choice numbers settings 6 two_fixes (initial_state ℕ).binary

abbrev readings : Readings
readings = record { received_at = 7; fix_at = 8; heading_at = 9 }

abbrev state : NodeState ℕ
state = record (initial_state ℕ) { ascii = two_fixes }

process_binary_frame-apart_example :
    ((process_binary_frame numbers settings readings example_frame state).1 ≡ [])
    × ((process_binary_frame numbers settings readings example_frame state).0.ascii ≡ state.ascii)
    × ((process_binary_frame numbers settings readings example_frame state).0.parser ≡ state.parser)
    × (active_fix numbers settings 10
          (process_binary_frame numbers settings readings example_frame state).0.ascii
          (process_binary_frame numbers settings readings example_frame state).0.binary
        ≡ active_fix numbers settings 10 state.ascii state.binary)
    × (active_heading numbers settings 10
          (process_binary_frame numbers settings readings example_frame state).0.ascii
          (process_binary_frame numbers settings readings example_frame state).0.binary
        ≡ active_heading numbers settings 10 state.ascii state.binary)
process_binary_frame-apart_example =
    process_binary_frame-apart numbers settings readings example_frame state 10 refl

-- An RTCMSTATUS frame of 22 zero bytes but the first.
abbrev status_frame : Frame
status_frame = record example_frame {
  message_id = 2125;
  payload =
      77 ∷ 0 ∷ 0 ∷ 0 ∷ 0 ∷ 0 ∷ 0 ∷ 0 ∷ 0 ∷ 0 ∷ 0 ∷ 0 ∷ 0 ∷ 0 ∷ 0 ∷ 0 ∷ 0 ∷ 0 ∷ 0 ∷ 0 ∷ 0 ∷ 0 ∷ [];
}

-- A line that is none, a frame, and a line with satellites in view.
abbrev three_events : List NodeEvent
three_events =
    NodeEvent.line readings (codes "noise")
    ∷ NodeEvent.frame readings status_frame
    ∷ NodeEvent.line readings (codes "$GPGSV,1,1,7*4E")
    ∷ []

process_all-recent_example :
    HoldsLast numbers settings
      (all_ascii_ids numbers settings three_events (initial_state ℕ))
      (all_binary_ids numbers settings three_events)
      (process_all numbers settings three_events (initial_state ℕ))
process_all-recent_example = process_all-recent numbers settings three_events

-- An open port, on which two calls are interrupted.
abbrev pub link : Link
link = record {
  serial = open_one;
  transport =
      init
        (record { enable_binary = true; strict_binary_crc = true; binary_max_frame_size = 4096 });
  last_open_attempt = none;
  rtcm_message_count = 0;
  rtcm_byte_count = 0;
  rtcm_history = [];
}

handle_rtcm-IsDelivery_example :
    (final : Link × small_system.World) × (handle_rtcm numbers small_system 1 20 10 11
        (0xD3 ∷ 0 ∷ 1 ∷ [])
        link
        start
      ≡ some final)
    × IsDelivery numbers small_system writer patient 1 7 11 (0xD3 ∷ 0 ∷ 1 ∷ []) link start final
handle_rtcm-IsDelivery_example =
    handle_rtcm-IsDelivery numbers small_system writer patient 1 20 10 11 0xD3 (0 ∷ 1 ∷ []) link 7
      start refl (omega arith)
