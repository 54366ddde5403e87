-- ===== src/Report/Sky.antt =====
-- The body of `gps_satellites_status` of src/unicore_node.cpp.
use unicore_ros.Base.{
  ℕ, true, not, ◌&&◌, ◌||◌, Option, none, some, List, [], ◌∷◌, ◌++◌, if◌then◌else◌,
}
use unicore_ros.Base.Int.{ℤ, pos}
use unicore_ros.Base.Text.{Text, codes, to_string_int}
use unicore_ros.Floats.{Floats}
use unicore_ros.Sentence.{BestSatData, SatsInfoData}
use unicore_ros.Node.State.{Settings, AsciiLatest, BinaryLatest}
use unicore_ros.Node.Active.{
  active_bestnav, active_ascii_bestnav, active_binary_bestnav, active_bestsat, active_ascii_bestsat,
  active_binary_bestsat, active_satsinfo, active_ascii_satsinfo, active_binary_satsinfo,
}
use unicore_ros.Report.Describe.{Display, is_blank, to_string_or_nan}
use unicore_ros.Report.Counts.{count_of, mean_cn0_or_na, max_cn0_or_na}
use unicore_ros.Report.Status.{
  ok, KeyValue, DiagnosticStatus, ReportSettings, kv, yes_no, has_value, text_or_na, both,
  minus_int, feed_state, feed_of_disabled, show_age, age_or_inf,
}
use unicore_ros.Report.Satellites.{
  Counted, primary_constellations, tracked_bands, count_used, summary_from, is_empty_gsv, GsvSums,
  SatsInfoSums, size_of, or_value, or_option, sum_gsv, samples_of, sum_satellites, no_sums,
  side_mean, visible_of, used_of, tracked_of, satellites_verdict,
}

-- What the loops over the satellites leave.
pub record SkyView (D : Type 0) : Type 0 where
  pub gsv : GsvSums
  pub visible_total : ℤ
  pub visible : Counted
  pub used_total : ℤ
  pub used : Counted
  pub sums : SatsInfoSums D

module _ (F : Floats) (P : Display F) (o : Settings F.D) (r : ReportSettings F.D) (now : ℕ)
    (a : AsciiLatest F.D) (b : BinaryLatest F.D) where
  -- SATSINFO takes the place of GSV, and BESTSAT that of the counts of BESTNAV.
  unfoldable pub sky_view : Option (SatsInfoData F.D) → Option BestSatData → SkyView F.D
  unfolding sum_gsv sum_satellites count_used
  sky_view satsinfo bestsat =
      let gsv =
        sum_gsv F P o r now a.gsv_counts (record { total = pos 0; visible = []; values = [] }) in
      let counted : SatsInfoSums F.D = elim satsinfo [
        | none ↦ no_sums F P o r now
        | some info ↦
            if r.enable_satsinfo
            then sum_satellites F P o r now info.entries (no_sums F P o r now)
            else no_sums F P o r now
      ] in
      let from_satsinfo = r.enable_satsinfo && has_value satsinfo in
      record {
        gsv = gsv;
        visible_total = if from_satsinfo then pos counted.visible_total else gsv.total;
        visible = if from_satsinfo then counted.visible else gsv.visible;
        used_total =
            or_value (size_of bestsat)
              (or_value (used_of F P o r now (active_bestnav F o now a b)) gsv.total);
        used = elim bestsat [ none ↦ [] | some data_of ↦ count_used data_of.entries [] ];
        sums = counted;
      }

  unfoldable pub constellation_values : SkyView F.D → List Text → List KeyValue
  unfolding samples_of mean_cn0_or_na count_of
  constellation_values v [] = []
  constellation_values v (name ∷ names) =
      record { key = codes "visible_" ++ name; value = to_string_int (count_of name v.visible) }
      ∷ record { key = codes "used_" ++ name; value = to_string_int (count_of name v.used) }
      ∷ record {
        key = codes "cn0_mean_" ++ (name ++ codes "_db_hz");
        value = mean_cn0_or_na F P (samples_of F P o r now name v.sums.cn0_by_constellation);
      }
      ∷ constellation_values v names

  unfoldable pub band_values : Counted → List Text → List KeyValue
  unfolding count_of
  band_values counts [] = []
  band_values counts (band ∷ bands) =
      record {
        key = codes "tracked_signals_" ++ band;
        value = to_string_int (count_of band counts);
      }
      ∷ band_values counts bands

  unfoldable pub binary_visible_total : Option ℤ
  binary_visible_total = visible_of F P o r now (active_binary_satsinfo F o now b)

  unfoldable pub binary_used_total : Option ℤ
  binary_used_total =
      or_option (size_of (active_binary_bestsat F o now b))
        (used_of F P o r now (active_binary_bestnav F o now b))

  unfoldable pub binary_mean : Option F.D
  unfolding side_mean
  binary_mean = side_mean F P o r now (active_binary_satsinfo F o now b)

  -- The comparison of the binary messages with the ASCII ones; `total` is that of GSV.
  unfoldable pub sky_comparison : ℤ → List KeyValue
  unfolding binary_visible_total binary_used_total binary_mean side_mean to_string_or_nan
  sky_comparison total =
      let ascii_visible =
        or_value (visible_of F P o r now (active_ascii_satsinfo F o now a)) total in
      let ascii_used =
        or_value (size_of (active_ascii_bestsat F o now a))
          (or_value (used_of F P o r now (active_ascii_bestnav F o now a)) total) in
      kv "binary_ascii_visible_satellites_delta"
        (text_or_na (λ n. to_string_int (minus_int n ascii_visible)) binary_visible_total)
      ∷ kv "binary_ascii_used_satellites_delta"
          (text_or_na (λ n. to_string_int (minus_int n ascii_used)) binary_used_total)
      ∷ kv "binary_ascii_cn0_mean_delta_db_hz" (
          text_or_na (λ p. to_string_or_nan F P (F.sub p.1 p.0))
            (both (side_mean F P o r now (active_ascii_satsinfo F o now a)) binary_mean))
      ∷ []

  unfoldable pub sky_summary : SkyView F.D → Text
  unfolding summary_from
  sky_summary v =
      let summary = summary_from v.visible v.used [] primary_constellations in
      if is_blank summary then codes "n/a" else summary

  unfoldable pub sky_values :
      Option (SatsInfoData F.D) → Option BestSatData → SkyView F.D → List KeyValue
  unfolding feed_state age_or_inf show_age binary_visible_total binary_used_total binary_mean
      sky_summary mean_cn0_or_na max_cn0_or_na to_string_or_nan
  sky_values satsinfo bestsat v =
      let binary_bestsat_age = age_or_inf F P now b.latest_binary_bestsat in
      let binary_satsinfo_age = age_or_inf F P now b.latest_binary_satsinfo in
      kv "feed_state" (feed_state true (has_value satsinfo || not r.enable_satsinfo))
      ∷ kv "satellite_status_enabled" (yes_no r.enable_satellite_status)
      ∷ kv "satsinfo_enabled" (yes_no r.enable_satsinfo)
      ∷ kv "bestsat_available" (yes_no (has_value bestsat))
      ∷ kv "satsinfo_available" (yes_no (has_value satsinfo))
      ∷ kv "use_binary_satellite_diag" (yes_no o.use_binary_satellite_diag)
      ∷ kv "binary_bestsat_available" (yes_no (has_value (active_binary_bestsat F o now b)))
      ∷ kv "binary_satsinfo_available" (yes_no (has_value (active_binary_satsinfo F o now b)))
      ∷ kv "last_bestsat_age_s" (
          show_age F P (
            if o.use_binary_satellite_diag
            then binary_bestsat_age
            else age_or_inf F P now a.latest_bestsat))
      ∷ kv "last_satsinfo_age_s" (
          show_age F P (
            if o.use_binary_satellite_diag
            then binary_satsinfo_age
            else age_or_inf F P now a.latest_satsinfo))
      ∷ kv "binary_satellite_age_s" (
          show_age F P (
            if F.less binary_satsinfo_age binary_bestsat_age
            then binary_satsinfo_age
            else binary_bestsat_age))
      ∷ kv "visible" (to_string_int v.visible_total)
      ∷ kv "tracked"
          (to_string_int (tracked_of F P o r now (active_bestnav F o now a b) v.visible_total))
      ∷ kv "used" (to_string_int v.used_total)
      ∷ kv "binary_visible_satellites" (text_or_na to_string_int binary_visible_total)
      ∷ kv "binary_used_satellites" (text_or_na to_string_int binary_used_total)
      ∷ kv "constellations_used" (sky_summary v)
      ∷ kv "cn0_mean_db_hz" (mean_cn0_or_na F P v.sums.cn0_all)
      ∷ kv "cn0_max_db_hz" (max_cn0_or_na F P v.sums.cn0_all)
      ∷ kv "binary_cn0_mean_db_hz" (text_or_na (to_string_or_nan F P) binary_mean)
      ∷ []

  unfoldable pub gps_satellites_status : DiagnosticStatus
  unfolding sky_view sky_values sky_comparison constellation_values band_values satellites_verdict
      feed_state
  gps_satellites_status =
      if not r.enable_satellite_status
      then record {
        name = codes "GPS: satellites";
        values =
            feed_of_disabled
            ∷ kv "satellite_status_enabled" (codes "False")
            ∷ kv "satsinfo_enabled" (yes_no r.enable_satsinfo)
            ∷ [];
        level = ok;
        message = codes "satellite diagnostics disabled";
      }
      else let satsinfo = active_satsinfo F o now a b in
        let bestsat = active_bestsat F o now a b in
        let v = sky_view satsinfo bestsat in
        let verdict =
          satellites_verdict F P o r now (not (is_empty_gsv a.gsv_counts))
            (active_binary_satsinfo F o now b) satsinfo (active_binary_bestsat F o now b) bestsat
            v.visible_total v.used_total in
        record {
          name = codes "GPS: satellites";
          values =
              v.gsv.values
              ++ (sky_values satsinfo bestsat v
                  ++ ((if r.binary_compare_ascii then sky_comparison v.gsv.total else [])
                      ++ (constellation_values v primary_constellations
                          ++ band_values v.sums.signal_count_by_band tracked_bands)));
          level = verdict.0;
          message = verdict.1;
        }
