-- ===== src/Report/Rf.antt =====
-- `gps_rf_status` of src/unicore_node.cpp.
use unicore_ros.Base.{
  ℕ, Bool, true, false, not, ◌&&◌, Option, none, some, List, [], ◌∷◌, ◌++◌, leb, if◌then◌else◌,
  get_or,
}
use unicore_ros.Base.Int.{ℤ, pos, negsuc, minus_one}
use unicore_ros.Base.Text.{Text, codes, to_string_int}
use unicore_ros.Floats.{Floats}
use unicore_ros.Sentence.{AgcData}
use unicore_ros.Node.State.{Settings, AsciiLatest, BinaryLatest}
use unicore_ros.Node.Active.{active_ascii_agc, active_binary_agc, active_agc}
use unicore_ros.Report.Describe.{Display, to_string_or_nan}
use unicore_ros.Report.Counts.{describe_agc_values, min_valid_agc, mean_valid_agc}
use unicore_ros.Report.Status.{
  Level, ok, warn, KeyValue, DiagnosticStatus, ReportSettings, kv, yes_no, has_value, text_or_na,
  values_of, feed_state, feed_of_disabled, show_age, show_finite, age_or_inf, age_in_use,
}

-- `main_min >= 0 && main_min <= 10`.
unfoldable pub is_saturated : ℤ → Bool
is_saturated (pos n) = leb n 10
is_saturated (negsuc n) = false

unfoldable pub main_min : Option AgcData → ℤ
unfolding min_valid_agc
main_min none = minus_one
main_min (some agc) = min_valid_agc agc.antenna1

unfoldable pub agc_values : AgcData → List KeyValue
agc_values agc =
    kv "agc_main_l1" (to_string_int (get_or agc.antenna1 0 minus_one))
    ∷ kv "agc_main_l2" (to_string_int (get_or agc.antenna1 1 minus_one))
    ∷ kv "agc_main_l5" (to_string_int (get_or agc.antenna1 2 minus_one))
    ∷ kv "agc_aux_l1" (to_string_int (get_or agc.antenna2 0 minus_one))
    ∷ kv "agc_aux_l2" (to_string_int (get_or agc.antenna2 1 minus_one))
    ∷ kv "agc_aux_l5" (to_string_int (get_or agc.antenna2 2 minus_one))
    ∷ []

module _ (F : Floats) (P : Display F) (o : Settings F.D) (r : ReportSettings F.D) (now : ℕ) where
  unfoldable pub mean_of_main : Option AgcData → F.D
  unfolding mean_valid_agc
  mean_of_main none = P.quiet_nan
  mean_of_main (some agc) = mean_valid_agc F P agc.antenna1

  unfoldable pub mean_of_aux : Option AgcData → F.D
  unfolding mean_valid_agc
  mean_of_aux none = P.quiet_nan
  mean_of_aux (some agc) = mean_valid_agc F P agc.antenna2

  -- `rf_signal_low`.
  unfoldable pub is_weak : F.D → Bool
  is_weak mean = F.is_finite mean && F.less_equal (F.literal 80 0) mean

  unfoldable pub rf_verdict : (binary agc : Option AgcData) → Level × Text
  unfolding is_saturated main_min is_weak mean_of_main
  rf_verdict binary none = (
    warn,
    if o.use_binary_rf_diag
        then codes "AGCB/AGCA stale or missing"
        else codes "AGCA stale or missing",
  )
  rf_verdict binary (some agc) =
      if o.use_binary_rf_diag && not (has_value binary)
      then (warn, codes "AGCB stale or missing")
      else if is_saturated (main_min (some agc))
      then (warn, codes "RF saturation/interference suspected")
      else if is_weak (mean_of_main (some agc))
      then (warn, codes "RF signal weak or antenna gain high")
      else (ok, codes "RF gain nominal")

  -- The difference of two means, if both are numbers.
  unfoldable pub show_delta : (binary ascii : F.D) → Text
  show_delta binary ascii =
      if F.is_finite binary && F.is_finite ascii
      then to_string_or_nan F P (F.sub binary ascii)
      else codes "n/a"

  module _ (a : AsciiLatest F.D) (b : BinaryLatest F.D) where
    unfoldable pub rf_head : List KeyValue
    unfolding age_or_inf show_age show_finite feed_state describe_agc_values is_saturated main_min
        is_weak mean_of_main mean_of_aux
    rf_head =
        let agc = active_agc F o now a b in
        let binary = active_binary_agc F o now b in
        let binary_age = age_or_inf F P now b.latest_binary_agc in
        kv "feed_state" (feed_state true (has_value agc))
        ∷ kv "status_enabled" (codes "True")
        ∷ kv "agc_available" (yes_no (has_value agc))
        ∷ kv "binary_rf_available" (yes_no (has_value binary))
        ∷ kv "use_binary_rf_diag" (yes_no o.use_binary_rf_diag)
        ∷ kv "last_agc_age_s" (
            show_age F P (
              age_in_use F P o.use_binary_rf_diag binary binary_age
                (age_or_inf F P now a.latest_agc)))
        ∷ kv "binary_rf_age_s" (show_age F P binary_age)
        ∷ kv "agc_main" (text_or_na (λ d. describe_agc_values d.antenna1) agc)
        ∷ kv "agc_aux" (text_or_na (λ d. describe_agc_values d.antenna2) agc)
        ∷ kv "agc_main_mean" (show_finite F P (mean_of_main agc))
        ∷ kv "agc_aux_mean" (show_finite F P (mean_of_aux agc))
        ∷ kv "rf_signal_low" (yes_no (is_weak (mean_of_main agc)))
        ∷ kv "rf_saturation_suspected" (yes_no (is_saturated (main_min agc)))
        ∷ []

    unfoldable pub rf_comparison : List KeyValue
    unfolding show_delta mean_of_main mean_of_aux
    rf_comparison =
        let ascii = active_ascii_agc F o now a in
        let binary = active_binary_agc F o now b in
        kv "binary_ascii_agc_main_mean_delta"
          (show_delta (mean_of_main binary) (mean_of_main ascii))
        ∷ kv "binary_ascii_agc_aux_mean_delta" (show_delta (mean_of_aux binary) (mean_of_aux ascii))
        ∷ []

    unfoldable pub gps_rf_status : DiagnosticStatus
    unfolding rf_head rf_comparison agc_values rf_verdict feed_state
    gps_rf_status =
        if not r.enable_rf_status
        then record {
          name = codes "GPS: rf";
          values = feed_of_disabled ∷ kv "status_enabled" (codes "False") ∷ [];
          level = ok;
          message = codes "RF diagnostics disabled";
        }
        else let agc = active_agc F o now a b in
          let verdict = rf_verdict (active_binary_agc F o now b) agc in
          record {
            name = codes "GPS: rf";
            values =
                rf_head
                ++ ((if r.binary_compare_ascii then rf_comparison else [])
                    ++ values_of agc_values agc);
            level = verdict.0;
            message = verdict.1;
          }
