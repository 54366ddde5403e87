-- ===== src/Report/Rtk.antt =====
-- `gps_rtk_status` of src/unicore_node.cpp.
use unicore_ros.Base.{
  ℕ, ◌+◌, true, not, ◌&&◌, Option, none, some, List, [], ◌∷◌, ◌++◌, if◌then◌else◌,
}
use unicore_ros.Base.Int.{ℤ, pos}
use unicore_ros.Base.Text.{Text, codes, text_eq, to_string, to_string_int}
use unicore_ros.Floats.{Floats}
use unicore_ros.Sentence.{BestNavData, RtkStatusData}
use unicore_ros.Nav.Names.{positive}
use unicore_ros.Node.State.{Settings, AsciiLatest, BinaryLatest}
use unicore_ros.Node.Active.{
  active_bestnav, active_binary_bestnav, active_binary_fix, active_ascii_rtk_status,
  active_binary_rtk_status, active_rtk_status,
}
use unicore_ros.Report.Describe.{
  Display, is_int, fix_type_from_quality, to_hex_byte, to_hex_word,
  describe_galileo_bds3_signal_mask, describe_gps_glo_bds2_signal_mask,
  describe_ext_solution_status, describe_rtk_calculate_status, describe_dual_rtk_flag, count_bits,
}
use unicore_ros.Report.Status.{
  Level, ok, warn, error, KeyValue, DiagnosticStatus, ReportSettings, kv, yes_no, has_value,
  text_or_na, values_of, both, minus_int, feed_state, feed_of_disabled, show_age, age_or_inf,
  age_of_time, age_in_use, bestnav_values,
}

-- The values of an RTKSTATUS.
unfoldable pub rtk_values : RtkStatusData → List KeyValue
unfolding describe_rtk_calculate_status describe_dual_rtk_flag count_bits to_hex_word
rtk_values s =
    kv "rtkstatus_position_type" s.position_type
    ∷ kv "rtk_calculate_status" (describe_rtk_calculate_status s.calculate_status)
    ∷ kv "adr_observations" (to_string_int s.adr_observation_count)
    ∷ kv "ion_detected" (to_string_int s.ion_detected)
    ∷ kv "dual_rtk_flag" (describe_dual_rtk_flag s.dual_rtk_flag)
    ∷ kv "gps_corr_sats" (to_string (count_bits s.gps_source_mask))
    ∷ kv "bds_corr_sats"
        (to_string (count_bits s.bds_source_mask_1 + count_bits s.bds_source_mask_2))
    ∷ kv "glo_corr_sats" (to_string (count_bits s.glonass_source_mask))
    ∷ kv "gal_corr_sats"
        (to_string (count_bits s.galileo_source_mask_1 + count_bits s.galileo_source_mask_2))
    ∷ kv "qzss_corr_sats" (to_string (count_bits s.qzss_source_mask))
    ∷ kv "gps_source_mask" (to_hex_word s.gps_source_mask)
    ∷ kv "bds_source_mask_1" (to_hex_word s.bds_source_mask_1)
    ∷ kv "bds_source_mask_2" (to_hex_word s.bds_source_mask_2)
    ∷ kv "glonass_source_mask" (to_hex_word s.glonass_source_mask)
    ∷ kv "galileo_source_mask_1" (to_hex_word s.galileo_source_mask_1)
    ∷ kv "galileo_source_mask_2" (to_hex_word s.galileo_source_mask_2)
    ∷ kv "qzss_source_mask" (to_hex_word s.qzss_source_mask)
    ∷ []

-- The comparison of the binary RTKSTATUS with the ASCII one.
unfoldable pub rtk_comparison : Option RtkStatusData → Option RtkStatusData → List KeyValue
rtk_comparison ascii binary =
    let pair = both ascii binary in
    kv "binary_ascii_rtk_position_type_match"
      (text_or_na (λ p. yes_no (text_eq p.0.position_type p.1.position_type)) pair)
    ∷ kv "binary_ascii_rtk_calculate_status_delta"
        (text_or_na (λ p. to_string_int (minus_int p.1.calculate_status p.0.calculate_status)) pair)
    ∷ kv "binary_ascii_adr_observations_delta" (
        text_or_na
          (λ p. to_string_int (minus_int p.1.adr_observation_count p.0.adr_observation_count)) pair)
    ∷ []

module _ (F : Floats) (P : Display F) (o : Settings F.D) (r : ReportSettings F.D) (now : ℕ) where
  unfoldable pub rtk_bestnav_values : BestNavData F.D → List KeyValue
  unfolding bestnav_values to_hex_byte describe_galileo_bds3_signal_mask
      describe_gps_glo_bds2_signal_mask describe_ext_solution_status
  rtk_bestnav_values n =
      bestnav_values F P n
      ++ (kv "signal_mask_gal_bds3" (to_hex_byte n.galileo_bds3_signal_mask)
          ∷ kv "signal_mask_gps_glo_bds2" (to_hex_byte n.gps_glonass_bds2_signal_mask)
          ∷ kv "signals_used_gal_bds3"
              (describe_galileo_bds3_signal_mask n.galileo_bds3_signal_mask)
          ∷ kv "signals_used_gps_glo_bds2"
              (describe_gps_glo_bds2_signal_mask n.gps_glonass_bds2_signal_mask)
          ∷ kv "ext_solution_status" (to_hex_byte n.extended_solution_status)
          ∷ kv "ext_solution_detail" (describe_ext_solution_status n.extended_solution_status)
          ∷ [])

  -- The last branches, by quality.
  unfoldable pub rtk_grade : ℤ → Level × Text
  rtk_grade quality =
      if is_int quality 4
      then (ok, codes "RTK fixed")
      else if is_int quality 5
      then (warn, codes "RTK float")
      else if positive quality
      then (warn, codes "non-RTK solution")
      else (error, codes "no valid RTK solution")

  -- The verdict on a solution with RTKSTATUS at hand.
  unfoldable pub rtk_solution : ℤ → BestNavData F.D → Level × Text
  unfolding rtk_grade
  rtk_solution quality n =
      if not (text_eq n.solution_status (codes "SOL_COMPUTED"))
      then (error, codes "solution not computed")
      else if F.less r.max_diff_age_sec n.diff_age_sec
      then (warn, codes "RTCM corrections too old")
      else rtk_grade quality

  unfoldable pub rtk_verdict :
      Option (BestNavData F.D) → (binary_rtk rtk : Option RtkStatusData) → ℤ → Level × Text
  unfolding rtk_solution
  rtk_verdict none binary_rtk rtk quality = (
    error,
    if o.use_binary_nav
        then codes "BESTNAVB stale or missing"
        else codes "BESTNAVA stale or missing",
  )
  rtk_verdict (some n) binary_rtk rtk quality =
      if o.use_binary_rtk_diag && not (has_value binary_rtk)
      then (warn, codes "RTKSTATUSB stale or missing")
      else if not (has_value rtk)
      then (warn, codes "RTKSTATUSA stale or missing")
      else rtk_solution quality n

  unfoldable pub rtk_quality : Option (BestNavData F.D) → Option RtkStatusData → ℤ
  rtk_quality (some n) rtk = n.fix_quality
  rtk_quality none (some s) = s.fix_quality
  rtk_quality none none = pos 0

  module _ (a : AsciiLatest F.D) (b : BinaryLatest F.D) where
    unfoldable pub rtk_nav_age : F.D
    unfolding age_or_inf
    rtk_nav_age =
        if has_value b.latest_binary_pvtsln_fix
        then age_or_inf F P now b.latest_binary_pvtsln_fix
        else age_or_inf F P now b.latest_binary_bestnav

    unfoldable pub rtk_bestnav_age : F.D
    unfolding age_or_inf
    rtk_bestnav_age =
        if o.use_binary_nav && has_value b.latest_binary_bestnav
        then age_or_inf F P now b.latest_binary_bestnav
        else age_or_inf F P now a.latest_bestnav

    unfoldable pub rtk_head : List KeyValue
    unfolding rtk_nav_age rtk_bestnav_age age_of_time show_age feed_state fix_type_from_quality
        rtk_quality
    rtk_head =
        let bestnav = active_bestnav F o now a b in
        let rtk = active_rtk_status F o now a b in
        let binary_rtk = active_binary_rtk_status F o now b in
        let binary_age = age_or_inf F P now b.latest_binary_rtk_status in
        kv "feed_state" (feed_state true (has_value bestnav))
        ∷ kv "bestnav_state" (feed_state true (has_value bestnav))
        ∷ kv "rtkstatus_state" (feed_state true (has_value rtk))
        ∷ kv "status_enabled" (codes "True")
        ∷ kv "binary_bestnav_available" (yes_no (has_value (active_binary_bestnav F o now b)))
        ∷ kv "binary_pvtsln_available" (yes_no (has_value (active_binary_fix F o now b)))
        ∷ kv "binary_rtkstatus_available" (yes_no (has_value binary_rtk))
        ∷ kv "binary_nav_enabled" (yes_no r.enable_unicore_binary)
        ∷ kv "use_binary_nav" (yes_no o.use_binary_nav)
        ∷ kv "use_binary_rtk_diag" (yes_no o.use_binary_rtk_diag)
        ∷ kv "binary_nav_age_s" (show_age F P rtk_nav_age)
        ∷ kv "binary_rtkstatus_age_s" (show_age F P binary_age)
        ∷ kv "last_bestnav_age_s" (show_age F P rtk_bestnav_age)
        ∷ kv "last_rtkstatus_age_s" (
            show_age F P (
              age_in_use F P o.use_binary_rtk_diag binary_rtk binary_age
                (age_of_time F P now a.last_rtkstatus_time)))
        ∷ kv "fix_type" (fix_type_from_quality (rtk_quality bestnav rtk))
        ∷ []

    unfoldable pub gps_rtk_status : DiagnosticStatus
    unfolding rtk_head rtk_values rtk_bestnav_values rtk_comparison rtk_verdict rtk_quality
        feed_state
    gps_rtk_status =
        if not r.enable_rtk_status
        then record {
          name = codes "GPS: RTK";
          values = feed_of_disabled ∷ kv "status_enabled" (codes "False") ∷ [];
          level = ok;
          message = codes "RTK diagnostics disabled";
        }
        else let bestnav = active_bestnav F o now a b in
          let rtk = active_rtk_status F o now a b in
          let verdict =
            rtk_verdict bestnav (active_binary_rtk_status F o now b) rtk
              (rtk_quality bestnav rtk) in
          record {
            name = codes "GPS: RTK";
            values =
                rtk_head
                ++ (values_of rtk_bestnav_values bestnav
                    ++ (values_of rtk_values rtk
                        ++ (if r.binary_compare_ascii
                            then rtk_comparison (active_ascii_rtk_status F o now a)
                                (active_binary_rtk_status F o now b)
                            else [])));
            level = verdict.0;
            message = verdict.1;
          }
