-- ===== src/Report/Hardware.antt =====
-- `gps_hardware_status` of src/unicore_node.cpp.
use unicore_ros.Base.{
  ℕ, ◌-◌, ◌^◌, Bool, true, false, not, ◌&&◌, Option, none, some, List, [], ◌∷◌, ◌++◌, if◌then◌else◌,
}
use unicore_ros.Base.Int.{ℤ, pos, negsuc}
use unicore_ros.Base.Text.{Text, codes}
use unicore_ros.Floats.{Floats, zero_double}
use unicore_ros.Sentence.{HwStatusData}
use unicore_ros.Node.State.{Settings, AsciiLatest, BinaryLatest}
use unicore_ros.Node.Active.{
  active_ascii_hw_status, active_binary_hw_status, active_hw_status, active_agc,
}
use unicore_ros.Report.Describe.{
  Display, is_int, to_hex_byte, to_hex_word, describe_hw_flag_bits, describe_clock_status,
  describe_pll_status, to_string_or_nan, voltage_in_range,
}
use unicore_ros.Report.Counts.{describe_antenna_status}
use unicore_ros.Report.Status.{
  Level, ok, warn, error, KeyValue, DiagnosticStatus, ReportSettings, kv, yes_no, has_value,
  text_or_na, both, int_eq, feed_state, feed_of_disabled, show_age, age_or_inf, age_in_use,
}

-- `static_cast<uint32_t>` of an `int`.
abbrev pub to_uint32 : ℤ → ℕ
to_uint32 (pos n) = n
to_uint32 (negsuc n) = 2 ^ 32 - 1 - n

module _ (F : Floats) (P : Display F) (o : Settings F.D) (r : ReportSettings F.D) (now : ℕ) where
  unfoldable pub voltages_ok : HwStatusData F.D → Bool
  unfolding voltage_in_range
  voltages_ok hw =
      voltage_in_range F P hw.dc09_v (F.literal 85 2) (F.literal 100 2)
      && (voltage_in_range F P hw.dc10_v (F.literal 95 2) (F.literal 110 2)
          && (F.is_finite hw.dc18_v && F.less (zero_double F) hw.dc18_v))

  unfoldable pub clock_ok : HwStatusData F.D → Bool
  clock_ok hw = is_int hw.clock_flag 1

  unfoldable pub pll_ok : HwStatusData F.D → Bool
  pll_ok hw = not (is_int hw.pll_lock 0)

  unfoldable pub hardware_ok : Option (HwStatusData F.D) → Bool
  unfolding voltages_ok clock_ok pll_ok
  hardware_ok none = false
  hardware_ok (some hw) = voltages_ok hw && (clock_ok hw && pll_ok hw)

  unfoldable pub hardware_verdict : (binary hw : Option (HwStatusData F.D)) → Level × Text
  unfolding voltages_ok clock_ok pll_ok
  hardware_verdict binary none = (
    warn,
    if o.use_binary_hw_diag
        then codes "HWSTATUSB/HWSTATUSA stale or missing"
        else codes "HWSTATUSA stale or missing",
  )
  hardware_verdict binary (some hw) =
      if o.use_binary_hw_diag && not (has_value binary)
      then (warn, codes "HWSTATUSB stale or missing")
      else if not (voltages_ok hw)
      then (error, codes "supply rail out of range")
      else if not (clock_ok hw)
      then (warn, codes "clock drift invalid")
      else if not (pll_ok hw)
      then (warn, codes "PLL lock missing")
      else (ok, codes "hardware healthy")

  unfoldable pub hardware_values : Option (HwStatusData F.D) → List KeyValue
  unfolding to_string_or_nan to_hex_byte describe_hw_flag_bits describe_clock_status
      describe_pll_status to_hex_word
  hardware_values none =
      kv "hw_flags" (codes "n/a")
      ∷ kv "clock_status" (codes "n/a")
      ∷ kv "pll_status" (codes "n/a")
      ∷ []
  hardware_values (some hw) =
      kv "dc09_v" (to_string_or_nan F P hw.dc09_v)
      ∷ kv "dc10_v" (to_string_or_nan F P hw.dc10_v)
      ∷ kv "dc18_v" (to_string_or_nan F P hw.dc18_v)
      ∷ kv "clock_drift_mps" (to_string_or_nan F P hw.clock_drift_mps)
      ∷ kv "hw_flags" (to_hex_byte hw.hw_flag)
      ∷ kv "hw_flags_detail" (describe_hw_flag_bits hw.hw_flag)
      ∷ kv "clock_status" (describe_clock_status hw.clock_flag hw.hw_flag)
      ∷ kv "pll_status" (describe_pll_status hw.pll_lock)
      ∷ kv "pll_lock_mask" (to_hex_word (to_uint32 hw.pll_lock))
      ∷ []

  module _ (a : AsciiLatest F.D) (b : BinaryLatest F.D) where
    unfoldable pub hardware_head : List KeyValue
    unfolding age_or_inf show_age feed_state hardware_ok describe_antenna_status
    hardware_head =
        let hw = active_hw_status F o now a b in
        let binary = active_binary_hw_status F o now b in
        let binary_age = age_or_inf F P now b.latest_binary_hw_status in
        kv "feed_state" (feed_state true (has_value hw))
        ∷ kv "status_enabled" (codes "True")
        ∷ kv "hwstatus_available" (yes_no (has_value hw))
        ∷ kv "binary_hwstatus_available" (yes_no (has_value binary))
        ∷ kv "use_binary_hw_diag" (yes_no o.use_binary_hw_diag)
        ∷ kv "last_hwstatus_age_s" (
            show_age F P (
              age_in_use F P o.use_binary_hw_diag binary binary_age
                (age_or_inf F P now a.latest_hw_status)))
        ∷ kv "binary_hwstatus_age_s" (show_age F P binary_age)
        ∷ kv "hardware_ok" (yes_no (hardware_ok hw))
        ∷ kv "antenna_status" (describe_antenna_status (active_agc F o now a b))
        ∷ []

    unfoldable pub hardware_comparison : List KeyValue
    unfolding to_string_or_nan
    hardware_comparison =
        let pair = both (active_ascii_hw_status F o now a) (active_binary_hw_status F o now b) in
        kv "binary_ascii_clock_drift_delta_mps" (
          text_or_na (λ p. to_string_or_nan F P (F.sub p.1.clock_drift_mps p.0.clock_drift_mps))
            pair)
        ∷ kv "binary_ascii_hw_flag_match"
            (text_or_na (λ p. yes_no (int_eq p.0.hw_flag p.1.hw_flag)) pair)
        ∷ []

    unfoldable pub gps_hardware_status : DiagnosticStatus
    unfolding hardware_head hardware_values hardware_comparison hardware_verdict feed_state
    gps_hardware_status =
        if not r.enable_hw_status
        then record {
          name = codes "GPS: hardware";
          values = feed_of_disabled ∷ kv "status_enabled" (codes "False") ∷ [];
          level = ok;
          message = codes "hardware diagnostics disabled";
        }
        else let hw = active_hw_status F o now a b in
          let verdict = hardware_verdict (active_binary_hw_status F o now b) hw in
          record {
            name = codes "GPS: hardware";
            values =
                hardware_head
                ++ (hardware_values hw
                    ++ (if r.binary_compare_ascii then hardware_comparison else []));
            level = verdict.0;
            message = verdict.1;
          }
