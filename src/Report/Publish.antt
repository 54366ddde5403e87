-- ===== src/Report/Publish.antt =====
-- `publish_diagnostics` of src/unicore_node.cpp.
use unicore_ros.Base.{ℕ, List, [], ◌∷◌}
use unicore_ros.Floats.{Floats}
use unicore_ros.Serial.Port.{is_open}
use unicore_ros.Node.State.{Settings, NodeState}
use unicore_ros.Node.Active.{active_fix}
use unicore_ros.Node.Rtcm.{Link}
use unicore_ros.Report.Describe.{Display}
use unicore_ros.Report.Status.{DiagnosticStatus, ReportSettings}
use unicore_ros.Report.Parser.{Snapshot, gps_parser_status}
use unicore_ros.Report.Rtk.{gps_rtk_status}
use unicore_ros.Report.Rf.{gps_rf_status}
use unicore_ros.Report.Caster.{gps_ntrip_status}
use unicore_ros.Report.Fix.{gps_fix_status}
use unicore_ros.Report.Sky.{gps_satellites_status}
use unicore_ros.Report.Hardware.{gps_hardware_status}
use unicore_ros.Report.Jamming.{gps_jamming_status}
use unicore_ros.Report.Raw.{gps_raw_observation_status}

module _ (F : Floats) (P : Display F) (o : Settings F.D) (r : ReportSettings F.D) (now : ℕ) where
  -- The statuses in order, and what the report changes: the history and the snapshot.
  unfoldable pub publish_diagnostics :
      NodeState F.D → Link → Snapshot → List DiagnosticStatus × Link × Snapshot
  unfolding active_fix is_open gps_fix_status gps_satellites_status gps_rtk_status gps_ntrip_status
      gps_rf_status gps_hardware_status gps_jamming_status gps_raw_observation_status
      gps_parser_status
  publish_diagnostics s link snapshot =
      let a = s.ascii in
      let b = s.binary in
      let (caster, pruned) = gps_ntrip_status F P o r now a b link in
      let (parser, current) =
        gps_parser_status F P r.enable_unicore_binary now s.parser pruned.transport.counters
          s.binary_dispatcher b.last_binary_frame_time snapshot in
      (
        gps_fix_status F P o r now a b (is_open link.serial) (active_fix F o now a b)
            ∷ gps_satellites_status F P o r now a b
            ∷ gps_rtk_status F P o r now a b
            ∷ caster
            ∷ gps_rf_status F P o r now a b
            ∷ gps_hardware_status F P o r now a b
            ∷ gps_jamming_status F P o r now a b
            ∷ gps_raw_observation_status F P o r now b
            ∷ parser
            ∷ [],
        pruned,
        current,
      )
