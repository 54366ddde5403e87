-- ===== src/Report/Construct.antt =====
-- The constructor of `UnicoreNode`, src/unicore_node.cpp, up to the publishers and the timers: the
-- parameters and what they configure.
use Prim.Native.String.{String}
use unicore_ros.Base.{ℕ, Bool, true, false, none, [], max}
use unicore_ros.Base.Int.{ℤ, pos, pos_part}
use unicore_ros.Base.Text.{Text, codes}
use unicore_ros.Floats.{Floats}
use unicore_ros.Transport.{Options, init, set_options}
use unicore_ros.Serial.System.{System}
use unicore_ros.Serial.Port.{configure, make}
use unicore_ros.Node.State.{Settings, NodeState, initial_state}
use unicore_ros.Node.Active.{max_double}
use unicore_ros.Node.Rtcm.{Link}
use unicore_ros.Report.Status.{ReportSettings}
use unicore_ros.Report.Jamming.{max_int}

-- `declare_parameter` of rclcpp: from the name and the default to the value.
pub record Declared (D : Type 0) : Type 0 where
  pub string : String → Text → Text
  pub integer : String → ℤ → ℤ
  pub double : String → D → D
  pub boolean : String → Bool → Bool

pub record Topics : Type 0 where
  pub fix_topic : Text
  pub heading_topic : Text
  pub diagnostics_topic : Text
  pub rtcm_topic : Text

-- What the constructor sets.
pub record Constructed (D : Type 0) : Type 0 where
  pub settings : Settings D
  pub report : ReportSettings D
  pub topics : Topics
  pub frame_id : Text
  pub reconnect_interval_sec : D
  -- The period of the timer of `poll_serial`, before it is cut to milliseconds.
  pub poll_period : D
  pub binary_max_frame_size : ℕ
  pub binary_debug_unknown_ids : Bool
  pub link : Link
  pub state : NodeState D

abbrev pub default_options : Options
default_options = record {
  enable_binary = false;
  strict_binary_crc = true;
  binary_max_frame_size = 4096;
}

module _ (F : Floats) (d : Declared F.D) where
  unfoldable pub declare_settings : Settings F.D
  declare_settings = record {
    data_timeout_sec = d.double "data_timeout_sec" (F.literal 10 1);
    rtcm_timeout_sec = d.double "rtcm_timeout_sec" (F.literal 50 1);
    satellite_diag_timeout_sec = d.double "satellite_diag_timeout_sec" (F.literal 50 1);
    rf_diag_timeout_sec = d.double "rf_diag_timeout_sec" (F.literal 50 1);
    raw_observation_timeout_sec = d.double "raw_observation_timeout_sec" (F.literal 50 1);
    binary_nav_timeout_sec = d.double "binary_nav_timeout_sec" (F.literal 20 1);
    use_binary_nav = d.boolean "use_binary_nav" false;
    use_binary_rtk_diag = d.boolean "use_binary_rtk_diag" false;
    use_binary_satellite_diag = d.boolean "use_binary_satellite_diag" false;
    use_binary_rtcm_diag = d.boolean "use_binary_rtcm_diag" false;
    use_binary_rf_diag = d.boolean "use_binary_rf_diag" false;
    use_binary_hw_diag = d.boolean "use_binary_hw_diag" false;
    use_binary_jamming_diag = d.boolean "use_binary_jamming_diag" false;
    use_binary_raw_observations = d.boolean "use_binary_raw_observations" false;
  }

  unfoldable pub declare_report : ReportSettings F.D
  declare_report = record {
    enable_rtk_status = d.boolean "enable_rtk_status" true;
    enable_rtcm_status = d.boolean "enable_rtcm_status" true;
    enable_satellite_status = d.boolean "enable_satellite_status" true;
    enable_satsinfo = d.boolean "enable_satsinfo" true;
    enable_rf_status = d.boolean "enable_rf_status" true;
    enable_hw_status = d.boolean "enable_hw_status" true;
    enable_jamming_status = d.boolean "enable_jamming_status" true;
    enable_raw_observation_diag = d.boolean "enable_raw_observation_diag" false;
    enable_unicore_binary = d.boolean "enable_unicore_binary" false;
    binary_compare_ascii = d.boolean "binary_compare_ascii" true;
    max_diff_age_sec = d.double "max_diff_age_sec" (F.literal 50 1);
    raw_observation_max_debug_entries =
        max_int (pos 0) (d.integer "raw_observation_max_debug_entries" (pos 0));
  }

  unfoldable pub declare_topics : Topics
  declare_topics = record {
    fix_topic = d.string "fix_topic" (codes "/gps/fix");
    heading_topic = d.string "heading_topic" (codes "/gps/azimuth");
    diagnostics_topic = d.string "diagnostics_topic" (codes "/gps/diagnostics");
    rtcm_topic = d.string "rtcm_topic" (codes "/ntrip_client/rtcm");
  }

  -- A size of at least 256.
  unfoldable pub declare_max_frame_size : ℕ
  declare_max_frame_size = max 256 (pos_part (d.integer "binary_max_frame_size" (pos 4096)))

  -- The port is configured, and the transport takes its options. No baud rate below 1 is supported, so
  -- that one below 0 is as good as 0.
  unfoldable pub construct : (S : System) → S.World → Constructed F.D × S.World
  unfolding configure set_options init declare_settings declare_report declare_topics
      declare_max_frame_size
  construct S w =
      let configured =
        configure S (d.string "port" (codes "/dev/gps"))
          (pos_part (d.integer "baudrate" (pos 921600))) (make [] 115200) w in
      (
        record {
          settings = declare_settings;
          report = declare_report;
          topics = declare_topics;
          frame_id = d.string "frame_id" (codes "gps");
          reconnect_interval_sec = d.double "reconnect_interval_sec" (F.literal 10 1);
          poll_period =
              F.div (F.literal 10 1)
                (max_double F (F.literal 10 1) (d.double "read_poll_hz" (F.literal 2000 1)));
          binary_max_frame_size = declare_max_frame_size;
          binary_debug_unknown_ids = d.boolean "binary_debug_unknown_ids" false;
          link = record {
            serial = configured.0;
            transport =
                set_options
                  (record {
                    enable_binary = d.boolean "enable_unicore_binary" false;
                    strict_binary_crc = d.boolean "binary_parser_strict_crc" true;
                    binary_max_frame_size = declare_max_frame_size;
                  })
                  (init default_options);
            last_open_attempt = none;
            rtcm_message_count = 0;
            rtcm_byte_count = 0;
            rtcm_history = [];
          };
          state = initial_state F.D;
        },
        configured.1,
      )
