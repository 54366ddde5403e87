-- ===== src/Report/Caster.antt =====
-- `gps_ntrip_status` of src/unicore_node.cpp: the corrections that the node has passed on.
use unicore_ros.Base.{
  ℕ, Bool, false, not, ◌&&◌, Option, none, some, List, [], ◌∷◌, ◌++◌, if◌then◌else◌, length, get_or,
}
use unicore_ros.Base.Int.{ℤ, pos}
use unicore_ros.Base.Text.{Text, codes, to_string, to_string_int}
use unicore_ros.Floats.{Floats}
use unicore_ros.Sentence.{RtcmStatusData}
use unicore_ros.Node.State.{Settings, AsciiLatest, BinaryLatest}
use unicore_ros.Node.Active.{
  age_seconds, active_ascii_rtcm_status, active_binary_rtcm_status, active_rtcm_status,
}
use unicore_ros.Node.Rtcm.{Link}
use unicore_ros.Report.Describe.{Display, join_strings, to_string_or_nan}
use unicore_ros.Report.Status.{
  Level, ok, warn, error, KeyValue, DiagnosticStatus, ReportSettings, kv, yes_no, has_value,
  text_or_na, values_of, both, minus_int, int_eq, show_age, age_or_inf, age_of_time, age_in_use,
}

unfoldable pub id_texts : List ℤ → List Text
id_texts [] = []
id_texts (id ∷ ids) = to_string_int id ∷ id_texts ids

unfoldable pub recent_types : List ℤ → Text
unfolding id_texts join_strings
recent_types [] = codes "n/a"
recent_types (id ∷ ids) = join_strings (id_texts (id ∷ ids))

unfoldable pub rtcm_values : RtcmStatusData → List KeyValue
rtcm_values s =
    kv "last_rtcm_msg_id" (to_string_int s.message_id)
    ∷ kv "last_rtcm_counter" (to_string_int s.message_count)
    ∷ kv "last_rtcm_base_id" (to_string_int s.base_station_id)
    ∷ kv "last_rtcm_satellites" (to_string_int s.satellite_count)
    ∷ kv "last_rtcm_l1" (to_string_int (get_or s.observable_count 0 (pos 0)))
    ∷ kv "last_rtcm_l2" (to_string_int (get_or s.observable_count 1 (pos 0)))
    ∷ kv "last_rtcm_l3" (to_string_int (get_or s.observable_count 2 (pos 0)))
    ∷ kv "last_rtcm_l4" (to_string_int (get_or s.observable_count 3 (pos 0)))
    ∷ kv "last_rtcm_l5" (to_string_int (get_or s.observable_count 4 (pos 0)))
    ∷ kv "last_rtcm_l6" (to_string_int (get_or s.observable_count 5 (pos 0)))
    ∷ []

abbrev same_message : Option (RtcmStatusData × RtcmStatusData) → Bool
same_message none = false
same_message (some p) = int_eq p.0.message_id p.1.message_id

unfoldable pub rtcm_comparison : Option RtcmStatusData → Option RtcmStatusData → List KeyValue
rtcm_comparison ascii binary =
    let pair = both ascii binary in
    kv "binary_ascii_rtcm_msg_id_match" (yes_no (same_message pair))
    ∷ kv "binary_ascii_rtcm_counter_delta" (
        if same_message pair
        then text_or_na (λ p. to_string_int (minus_int p.1.message_count p.0.message_count)) pair
        else codes "n/a")
    ∷ kv "binary_ascii_rtcm_satellite_delta"
        (text_or_na (λ p. to_string_int (minus_int p.1.satellite_count p.0.satellite_count)) pair)
    ∷ []

module _ (F : Floats) (P : Display F) (o : Settings F.D) (r : ReportSettings F.D) (now : ℕ) where
  -- `window_s`.
  abbrev pub window_s : F.D
  window_s = F.literal 50 1

  -- The loop that drops the times behind the window.
  unfoldable pub within_window : List ℕ → List ℕ
  within_window [] = []
  within_window (time ∷ times) =
      if F.less window_s (age_seconds F time now) then within_window times else time ∷ times

  -- The age of the last time.
  unfoldable pub injection_age : List ℕ → F.D
  injection_age [] = P.infinity
  injection_age (time ∷ []) = age_seconds F time now
  injection_age (time ∷ next ∷ times) = injection_age (next ∷ times)

  unfoldable pub rate_of : List ℕ → F.D
  rate_of history = F.div (F.of_int (pos (length history))) window_s

  abbrev pub rtcm_label : Text
  rtcm_label = if o.use_binary_rtcm_diag then codes "RTCMSTATUSB" else codes "RTCMSTATUSA"

  unfoldable pub caster_verdict :
      List ℕ → (binary rtcm : Option RtcmStatusData) → F.D → Level × Text
  unfolding injection_age rate_of to_string_or_nan
  caster_verdict [] binary rtcm receiver_age = (error, codes "no RTCM in last 5 s")
  caster_verdict (time ∷ times) binary rtcm receiver_age =
      let injected = injection_age (time ∷ times) in
      if F.less o.rtcm_timeout_sec injected
      then (warn, codes "RTCM injection stale")
      else if r.enable_rtcm_status && (o.use_binary_rtcm_diag && not (has_value binary))
      then (warn, codes "waiting for " ++ rtcm_label)
      else if r.enable_rtcm_status && not (has_value rtcm)
      then (warn, codes "waiting for " ++ rtcm_label)
      else if r.enable_rtcm_status && F.less o.rtcm_timeout_sec receiver_age
      then (warn, rtcm_label ++ codes " stale")
      else (
        ok,
        to_string_or_nan F P (rate_of (time ∷ times))
            ++ (codes " msg/s, last injection "
                ++ (to_string_or_nan F P injected ++ codes " s ago")),
      )

  module _ (a : AsciiLatest F.D) (b : BinaryLatest F.D) where
    unfoldable pub receiver_age : F.D
    unfolding age_or_inf age_of_time
    receiver_age =
        age_in_use F P o.use_binary_rtcm_diag (active_binary_rtcm_status F o now b)
          (age_or_inf F P now b.latest_binary_rtcm_status)
          (age_of_time F P now a.last_rtcmstatus_time)

    unfoldable pub caster_head : Link → List ℕ → List KeyValue
    unfolding rate_of injection_age receiver_age show_age to_string_or_nan age_or_inf recent_types
    caster_head link history =
        kv "msgs_per_sec" (to_string_or_nan F P (rate_of history))
        ∷ kv "age_of_last_injected_corr_s" (show_age F P (injection_age history))
        ∷ kv "age_of_last_rtcmstatus_s" (show_age F P receiver_age)
        ∷ kv "rtcm_messages_total" (to_string link.rtcm_message_count)
        ∷ kv "rtcm_bytes_total" (to_string link.rtcm_byte_count)
        ∷ kv "rtcm_status_enabled" (yes_no r.enable_rtcm_status)
        ∷ kv "use_binary_rtcm_diag" (yes_no o.use_binary_rtcm_diag)
        ∷ kv "binary_rtcmstatus_available"
            (yes_no (has_value (active_binary_rtcm_status F o now b)))
        ∷ kv "binary_rtcm_age_s" (show_age F P (age_or_inf F P now b.latest_binary_rtcm_status))
        ∷ kv "recent_rtcm_types" (
            recent_types (
              if o.use_binary_rtcm_diag
              then b.recent_binary_rtcm_message_ids
              else a.recent_rtcm_message_ids))
        ∷ []

    -- The status, and the history without the times behind the window.
    unfoldable pub gps_ntrip_status : Link → DiagnosticStatus × Link
    unfolding within_window caster_head rtcm_values rtcm_comparison caster_verdict receiver_age
    gps_ntrip_status link =
        let history = within_window link.rtcm_history in
        let rtcm = active_rtcm_status F o now a b in
        let binary = active_binary_rtcm_status F o now b in
        let verdict = caster_verdict history binary rtcm receiver_age in
        (
          record {
            name = codes "GPS: NTRIP/RTCM";
            values =
                caster_head link history
                ++ (values_of rtcm_values rtcm
                    ++ (if r.binary_compare_ascii
                        then rtcm_comparison (active_ascii_rtcm_status F o now a) binary
                        else []));
            level = verdict.0;
            message = verdict.1;
          },
          record link { rtcm_history = history },
        )
