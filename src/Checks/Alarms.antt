-- ===== src/Checks/Alarms.antt =====
-- The theorems on the corrections and on jamming of src/unicore_node.cpp at concrete states.
use unicore_ros.Base.{ℕ, ◌≡◌, ◌↔◌, refl, true, false, ◌&&◌, some, [], ◌∷◌, arith}
use unicore_ros.Base.Int.{pos}
use unicore_ros.Base.Text.{codes}
use unicore_ros.Node.State.{AsciiLatest, initial_state}
use unicore_ros.Node.Active.{
  age_seconds, active_jam_status, active_freq_jam_status, active_binary_jam_status,
  active_binary_freq_jam_status,
}
use unicore_ros.Node.Rtcm.{Link}
use unicore_ros.Report.Status.{ok, error}
use unicore_ros.Report.Caster.{gps_ntrip_status}
use unicore_ros.Report.Window.{KeepsOrder, recent, gps_ntrip_status-recent}
use unicore_ros.Report.Jamming.{gps_jamming_status, strongest_flag}
use unicore_ros.Report.Quiet.{is_informed, quiet_jam, quiet_bands, gps_jamming_status-ok_iff}
use unicore_ros.Report.Construct.{Declared, declare_max_frame_size}
use unicore_ros.Checks.Sentences.{numbers}
use unicore_ros.Checks.Nodes.{settings, link}
use unicore_ros.Checks.Reports.{display, report_settings, fixed_state}

numbers-KeepsOrder : KeepsOrder numbers
numbers-KeepsOrder = record {
  of_int_mono = λ now s t h. ground arith;
  div_mono = λ x y e. e;
  less_trans = λ x y z e f. ground arith;
}

-- Three messages, of which one is not older than the window.
abbrev three_sent : Link
three_sent = record link { rtcm_history = 10 ∷ 40 ∷ 90 ∷ [] }

recent_one : recent numbers 100 50 (10 ∷ 40 ∷ 90 ∷ []) ≡ 90 ∷ []
unfolding recent age_seconds
recent_one = refl

gps_ntrip_status-recent_example :
    ((gps_ntrip_status numbers display settings report_settings 100 fixed_state
        (initial_state ℕ).binary
        three_sent).1
      ≡ record three_sent { rtcm_history = recent numbers 100 50 (10 ∷ 40 ∷ 90 ∷ []) })
    × (((gps_ntrip_status numbers display settings report_settings 100 fixed_state
            (initial_state ℕ).binary
            three_sent).0.level
          ≡ error)
        ↔ (recent numbers 100 50 (10 ∷ 40 ∷ 90 ∷ []) ≡ []))
gps_ntrip_status-recent_example =
    gps_ntrip_status-recent numbers display settings report_settings 100 fixed_state
      (initial_state ℕ).binary numbers-KeepsOrder three_sent
      ((omega arith, (omega arith, tt)), ((omega arith, tt), (tt, tt)))

-- A receiver that reports interference on L2 only.
abbrev jammed_state : AsciiLatest ℕ
jammed_state = record fixed_state {
  latest_jam_status = some (record {
    data_of = record { position_type = codes "NARROW_INT"; cw_ratio = pos 0; cw_flag = pos 0 };
    received_at = 7;
  });
  latest_freq_jam_status = some (record {
    data_of = record {
      position_type = codes "NARROW_INT";
      cw_ratio = pos 0 ∷ pos 70 ∷ pos 0 ∷ [];
      cw_flag = pos 0 ∷ pos 2 ∷ pos 0 ∷ [];
    };
    received_at = 7;
  });
}

gps_jamming_status-ok_iff_example :
    ((gps_jamming_status numbers display settings report_settings 7 jammed_state
        (initial_state ℕ).binary).level
      ≡ ok)
    ↔ (is_informed false
            (active_binary_jam_status numbers settings 7 (initial_state ℕ).binary)
            (active_jam_status numbers settings 7 jammed_state (initial_state ℕ).binary)
            (active_binary_freq_jam_status numbers settings 7 (initial_state ℕ).binary)
            (active_freq_jam_status numbers settings 7 jammed_state (initial_state ℕ).binary)
          && (quiet_jam (active_jam_status numbers settings 7 jammed_state (initial_state ℕ).binary)
              && quiet_bands
                  (active_freq_jam_status numbers settings 7 jammed_state (initial_state ℕ).binary))
        ≡ true)
gps_jamming_status-ok_iff_example =
    gps_jamming_status-ok_iff numbers display settings report_settings 7 jammed_state
      (initial_state ℕ).binary refl

jammed_level :
    (gps_jamming_status numbers display settings report_settings 7 jammed_state
      (initial_state ℕ).binary).level
    ≡ error
unfolding gps_jamming_status strongest_flag active_jam_status active_freq_jam_status
jammed_level = refl

-- Every parameter at its default but the size of a frame.
abbrev small_frames : Declared ℕ
small_frames = record {
  string = λ name value. value;
  integer = λ name value. pos 100;
  double = λ name value. value;
  boolean = λ name value. value;
}

small_frames_limit : declare_max_frame_size numbers small_frames ≡ 256
unfolding declare_max_frame_size
small_frames_limit = refl
