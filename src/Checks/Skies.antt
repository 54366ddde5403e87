-- ===== src/Checks/Skies.antt =====
-- The theorem on the satellites of src/unicore_node.cpp at three satellites, of which one is used.
use unicore_ros.Base.{ℕ, ◌≡◌, refl, true, some, List, [], ◌∷◌, ◌++◌, All, arith}
use unicore_ros.Base.Int.{pos}
use unicore_ros.Base.Text.{Text, codes, to_string}
use unicore_ros.Sentence.{SatsInfoEntry, SatsInfoData, BestSatData}
use unicore_ros.Node.State.{AsciiLatest, initial_state}
use unicore_ros.Node.Active.{active_satsinfo, active_bestsat}
use unicore_ros.Report.Status.{KeyValue}
use unicore_ros.Report.Satellites.{primary_constellations}
use unicore_ros.Report.Sky.{gps_satellites_status}
use unicore_ros.Report.Tally.{visible_in, used_in}
use unicore_ros.Report.Sums.{value_of, gps_satellites_status-counts}
use unicore_ros.Checks.Sentences.{numbers}
use unicore_ros.Checks.Nodes.{settings}
use unicore_ros.Checks.Reports.{display, report_settings, fixed_state}

abbrev satellite : Text → SatsInfoEntry ℕ
satellite constellation = record {
  constellation = constellation;
  prn = pos 3;
  azimuth_deg = pos 90;
  elevation_deg = pos 45;
  signals =
      record {
        constellation = constellation;
        band = codes "L1";
        system_id = pos 0;
        frequency_id = pos 0;
        cn0_db_hz = 40;
      }
      ∷ [];
}

abbrev sky : SatsInfoData ℕ
sky = record {
  satellite_count = pos 3;
  version = pos 1;
  frequency_flag = pos 0;
  entries = satellite (codes "GPS") ∷ satellite (codes "GAL") ∷ satellite (codes "GPS") ∷ [];
}

abbrev used_one : BestSatData
used_one = record {
  entry_count = pos 1;
  entries =
      record {
        constellation = codes "GPS";
        satellite_id = codes "3";
        status = codes "GOOD";
        signal_mask = pos 1;
        common_view = true;
        used_signal_bands = [];
      }
      ∷ [];
}

abbrev sky_state : AsciiLatest ℕ
sky_state = record fixed_state {
  latest_satsinfo = some (record { data_of = sky; received_at = 7 });
  latest_bestsat = some (record { data_of = used_one; received_at = 7 });
  gsv_counts = (codes "GP", record { data_of = pos 9; received_at = 7 }) ∷ [];
}

sky_is_current : active_satsinfo numbers settings 7 sky_state (initial_state ℕ).binary ≡ some sky
unfolding active_satsinfo
sky_is_current = refl

used_is_current :
    active_bestsat numbers settings 7 sky_state (initial_state ℕ).binary ≡ some used_one
unfolding active_bestsat
used_is_current = refl

abbrev sky_report : List KeyValue
sky_report =
    (gps_satellites_status numbers display settings report_settings 7 sky_state
      (initial_state ℕ).binary).values

gps_satellites_status-counts_example :
    ((value_of (codes "visible") sky_report ≡ some (to_string 3))
      × (value_of (codes "used") sky_report ≡ some (to_string 1)))
    × All
        (λ name.
          (value_of (codes "visible_" ++ name) sky_report
            ≡ some (to_string (visible_in name sky.entries)))
          × (value_of (codes "used_" ++ name) sky_report
              ≡ some (to_string (used_in name used_one.entries))))
        primary_constellations
gps_satellites_status-counts_example =
    gps_satellites_status-counts numbers display settings report_settings 7 sky_state
      (initial_state ℕ).binary sky used_one refl refl sky_is_current used_is_current (omega arith)
