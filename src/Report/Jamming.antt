-- ===== src/Report/Jamming.antt =====
-- `gps_jamming_status` of src/unicore_node.cpp.
use unicore_ros.Base.{
  ℕ, true, not, ◌&&◌, ◌||◌, Option, none, some, List, [], ◌∷◌, ◌++◌, ltb, if◌then◌else◌, get_or,
}
use unicore_ros.Base.Int.{ℤ, pos, negsuc, minus_one}
use unicore_ros.Base.Text.{Text, codes, to_string_int}
use unicore_ros.Floats.{Floats}
use unicore_ros.Sentence.{JamStatusData, FreqJamStatusData}
use unicore_ros.Nav.Names.{positive}
use unicore_ros.Node.State.{Settings, AsciiLatest, BinaryLatest}
use unicore_ros.Node.Active.{
  active_ascii_jam_status, active_binary_jam_status, active_jam_status,
  active_ascii_freq_jam_status, active_binary_freq_jam_status, active_freq_jam_status,
}
use unicore_ros.Report.Describe.{Display, is_int, join_strings, describe_jam_flag}
use unicore_ros.Report.Status.{
  Level, ok, warn, error, KeyValue, DiagnosticStatus, ReportSettings, kv, yes_no, has_value,
  text_or_na, values_of, both, minus_int, int_eq, at_least, feed_state, feed_of_disabled, show_age,
  age_or_inf, age_in_use,
}

-- `std::max` of two `int`.
abbrev pub max_int : ℤ → ℤ → ℤ
max_int (pos m) (pos n) = if ltb m n then pos n else pos m
max_int (pos m) (negsuc n) = pos m
max_int (negsuc m) (pos n) = pos n
max_int (negsuc m) (negsuc n) = if ltb n m then negsuc n else negsuc m

abbrev at_band : List ℤ → ℕ → ℤ
at_band values i = get_or values i (pos 0)

-- The largest of a value and those of the three bands.
abbrev with_bands : ℤ → List ℤ → ℤ
with_bands value values =
    max_int (max_int (max_int value (at_band values 0)) (at_band values 1)) (at_band values 2)

abbrev flag_of : Option JamStatusData → ℤ
flag_of none = minus_one
flag_of (some jam) = jam.cw_flag

abbrev ratio_of : Option JamStatusData → ℤ
ratio_of none = minus_one
ratio_of (some jam) = jam.cw_ratio

unfoldable pub strongest_flag : Option JamStatusData → Option FreqJamStatusData → ℤ
strongest_flag jam none = flag_of jam
strongest_flag jam (some freq) = with_bands (flag_of jam) freq.cw_flag

unfoldable pub strongest_ratio : Option JamStatusData → Option FreqJamStatusData → ℤ
strongest_ratio jam none = ratio_of jam
strongest_ratio jam (some freq) = with_bands (ratio_of jam) freq.cw_ratio

abbrev band_if : ℤ → Text → List Text
band_if flag name = if positive flag then name ∷ [] else []

unfoldable pub jammed_frequencies : FreqJamStatusData → List Text
jammed_frequencies freq =
    band_if (at_band freq.cw_flag 0) (codes "L1")
    ++ (band_if (at_band freq.cw_flag 1) (codes "L2")
        ++ band_if (at_band freq.cw_flag 2) (codes "L5"))

abbrev none_if_empty : List Text → Text
none_if_empty [] = codes "none"
none_if_empty (t ∷ ts) = join_strings (t ∷ ts)

unfoldable pub jammed_frequency_text : Option FreqJamStatusData → Text
unfolding jammed_frequencies join_strings
jammed_frequency_text none = codes "n/a"
jammed_frequency_text (some freq) = none_if_empty (jammed_frequencies freq)

unfoldable pub jam_values : JamStatusData → List KeyValue
unfolding describe_jam_flag
jam_values jam =
    kv "global_position_type" jam.position_type
    ∷ kv "global_cw_ratio" (to_string_int jam.cw_ratio)
    ∷ kv "global_cw_flag" (describe_jam_flag jam.cw_flag)
    ∷ []

unfoldable pub freq_jam_values : FreqJamStatusData → List KeyValue
unfolding describe_jam_flag
freq_jam_values freq =
    kv "jam_l1_ratio" (to_string_int (at_band freq.cw_ratio 0))
    ∷ kv "jam_l1_flag" (describe_jam_flag (at_band freq.cw_flag 0))
    ∷ kv "jam_l2_ratio" (to_string_int (at_band freq.cw_ratio 1))
    ∷ kv "jam_l2_flag" (describe_jam_flag (at_band freq.cw_flag 1))
    ∷ kv "jam_l5_ratio" (to_string_int (at_band freq.cw_ratio 2))
    ∷ kv "jam_l5_flag" (describe_jam_flag (at_band freq.cw_flag 2))
    ∷ []

abbrev ratio_text : ℤ → Text
ratio_text (pos n) = to_string_int (pos n)
ratio_text (negsuc n) = codes "n/a"

module _ (F : Floats) (P : Display F) (o : Settings F.D) (r : ReportSettings F.D) (now : ℕ) where
  unfoldable pub jamming_verdict :
      (binary_jam jam : Option JamStatusData) (binary_freq freq : Option FreqJamStatusData)
      → Level × Text
  unfolding strongest_flag
  jamming_verdict binary_jam jam binary_freq freq =
      if not (has_value jam) && not (has_value freq)
      then (
        warn,
        if o.use_binary_jamming_diag
            then codes "JAMSTATUSB/FREQJAMSTATUSB stale or missing"
            else codes "JAMSTATUSA/FREQJAMSTATUSA stale or missing",
      )
      else if o.use_binary_jamming_diag
          && (not (has_value binary_jam) && not (has_value binary_freq))
      then (warn, codes "JAMSTATUSB/FREQJAMSTATUSB stale or missing")
      else if at_least 2 (strongest_flag jam freq)
      then (error, codes "strong jamming detected")
      else if is_int (strongest_flag jam freq) 1
      then (warn, codes "jamming detected")
      else (ok, codes "no jamming detected")

  module _ (a : AsciiLatest F.D) (b : BinaryLatest F.D) where
    unfoldable pub jamming_head : List KeyValue
    unfolding age_or_inf show_age feed_state strongest_flag strongest_ratio describe_jam_flag
        jammed_frequency_text
    jamming_head =
        let jam = active_jam_status F o now a b in
        let freq = active_freq_jam_status F o now a b in
        let binary_jam = active_binary_jam_status F o now b in
        let binary_freq = active_binary_freq_jam_status F o now b in
        let jam_age = age_or_inf F P now b.latest_binary_jam_status in
        let freq_age = age_or_inf F P now b.latest_binary_freq_jam_status in
        kv "feed_state" (feed_state true (has_value jam || has_value freq))
        ∷ kv "status_enabled" (codes "True")
        ∷ kv "jamstatus_available" (yes_no (has_value jam))
        ∷ kv "freqjamstatus_available" (yes_no (has_value freq))
        ∷ kv "binary_jamming_available" (yes_no (has_value binary_jam || has_value binary_freq))
        ∷ kv "binary_jamstatus_available" (yes_no (has_value binary_jam))
        ∷ kv "binary_freqjamstatus_available" (yes_no (has_value binary_freq))
        ∷ kv "use_binary_jamming_diag" (yes_no o.use_binary_jamming_diag)
        ∷ kv "last_jamstatus_age_s" (
            show_age F P (
              age_in_use F P o.use_binary_jamming_diag binary_jam jam_age
                (age_or_inf F P now a.latest_jam_status)))
        ∷ kv "last_freqjamstatus_age_s" (
            show_age F P (
              age_in_use F P o.use_binary_jamming_diag binary_freq freq_age
                (age_or_inf F P now a.latest_freq_jam_status)))
        ∷ kv "binary_jamming_age_s"
            (show_age F P (if F.less freq_age jam_age then freq_age else jam_age))
        ∷ kv "binary_jamstatus_age_s" (show_age F P jam_age)
        ∷ kv "binary_freqjamstatus_age_s" (show_age F P freq_age)
        ∷ kv "jamming_detected" (yes_no (positive (strongest_flag jam freq)))
        ∷ kv "jam_level" (describe_jam_flag (strongest_flag jam freq))
        ∷ kv "jam_ratio_max" (ratio_text (strongest_ratio jam freq))
        ∷ kv "jammed_frequencies" (jammed_frequency_text freq)
        ∷ []

    unfoldable pub jamming_comparison : List KeyValue
    jamming_comparison =
        let pair = both (active_ascii_jam_status F o now a) (active_binary_jam_status F o now b) in
        let freq_pair =
          both (active_ascii_freq_jam_status F o now a) (active_binary_freq_jam_status F o now b) in
        kv "binary_ascii_jam_flag_match"
          (text_or_na (λ p. yes_no (int_eq p.0.cw_flag p.1.cw_flag)) pair)
        ∷ kv "binary_ascii_jam_ratio_delta"
            (text_or_na (λ p. to_string_int (minus_int p.1.cw_ratio p.0.cw_ratio)) pair)
        ∷ kv "binary_ascii_l1_jam_flag_match" (
            text_or_na (λ p. yes_no (int_eq (at_band p.0.cw_flag 0) (at_band p.1.cw_flag 0)))
              freq_pair)
        ∷ []

    unfoldable pub gps_jamming_status : DiagnosticStatus
    unfolding jamming_head jam_values freq_jam_values jamming_comparison jamming_verdict feed_state
    gps_jamming_status =
        if not r.enable_jamming_status
        then record {
          name = codes "GPS: jamming";
          values = feed_of_disabled ∷ kv "status_enabled" (codes "False") ∷ [];
          level = ok;
          message = codes "jamming diagnostics disabled";
        }
        else let jam = active_jam_status F o now a b in
          let freq = active_freq_jam_status F o now a b in
          let verdict =
            jamming_verdict (active_binary_jam_status F o now b) jam
              (active_binary_freq_jam_status F o now b) freq in
          record {
            name = codes "GPS: jamming";
            values =
                jamming_head
                ++ (values_of jam_values jam
                    ++ (values_of freq_jam_values freq
                        ++ (if r.binary_compare_ascii then jamming_comparison else [])));
            level = verdict.0;
            message = verdict.1;
          }
