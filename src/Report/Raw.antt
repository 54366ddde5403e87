-- ===== src/Report/Raw.antt =====
-- `gps_raw_observation_status` of src/unicore_node.cpp.
use unicore_ros.Base.{
  ℕ, zero, suc, not, Option, none, some, List, [], ◌∷◌, ◌++◌, if◌then◌else◌, ◌+◌,
}
use unicore_ros.Base.Int.{ℤ, pos, negsuc}
use unicore_ros.Base.Text.{Text, codes, to_string, to_string_int}
use unicore_ros.Floats.{Floats}
use unicore_ros.Sentence.{RawObservationData, RawObservationEntry}
use unicore_ros.Nav.Names.{positive}
use unicore_ros.Node.State.{Settings, BinaryLatest}
use unicore_ros.Node.Active.{fresh_data, active_raw_observations}
use unicore_ros.Report.Describe.{Display, is_blank, to_string_or_nan}
use unicore_ros.Report.Counts.{
  describe_ordered_counts, Cn0Accumulator, no_samples, add_cn0_sample, mean_cn0_or_na,
  max_cn0_or_na,
}
use unicore_ros.Report.Status.{
  Level, ok, warn, KeyValue, DiagnosticStatus, ReportSettings, kv, yes_no, has_value, text_or_na,
  values_of, feed_state, feed_of_disabled, show_age, age_or_inf,
}
use unicore_ros.Report.Satellites.{Counted, bump_count}

abbrev pub constellation_order : List Text
constellation_order = codes "GPS" ∷ codes "GLO" ∷ codes "GAL" ∷ codes "BDS" ∷ codes "QZSS" ∷ []

abbrev pub signal_order : List Text
signal_order =
    codes "L1"
    ∷ codes "L2"
    ∷ codes "L3"
    ∷ codes "L5"
    ∷ codes "L6"
    ∷ codes "E1"
    ∷ codes "E5"
    ∷ codes "E6"
    ∷ codes "B1"
    ∷ codes "B2"
    ∷ codes "B3"
    ∷ []

module _ (F : Floats) (P : Display F) (o : Settings F.D) (r : ReportSettings F.D) (now : ℕ) where
  -- The band of a signal, or `SIG` with its type.
  unfoldable pub signal_key : RawObservationEntry F.D → Text
  signal_key entry =
      if is_blank entry.signal_band
      then codes "SIG" ++ to_string_int entry.signal_type
      else entry.signal_band

  -- The loop over the entries: by constellation, by signal, and the strengths.
  unfoldable pub count_entries :
      List (RawObservationEntry F.D)
      → Counted
      → Counted
      → Cn0Accumulator F.D
      → Counted × Counted × Cn0Accumulator F.D
  unfolding bump_count signal_key add_cn0_sample
  count_entries [] constellations signals cn0 = (constellations, signals, cn0)
  count_entries (entry ∷ entries) constellations signals cn0 =
      count_entries entries (bump_count entry.constellation constellations)
        (bump_count (signal_key entry) signals) (add_cn0_sample F P cn0 entry.cn0_db_hz)

  unfoldable pub entry_text : RawObservationEntry F.D → Text
  unfolding signal_key to_string_or_nan
  entry_text entry =
      entry.constellation
      ++ (entry.satellite_id
          ++ (codes "/"
              ++ (signal_key entry
                  ++ (codes " doppler="
                      ++ (to_string_or_nan F P entry.doppler_hz
                          ++ (codes " cn0="
                              ++ (to_string_or_nan F P entry.cn0_db_hz
                                  ++ (codes " lock="
                                      ++ to_string_or_nan F P entry.lock_time_sec))))))))

  -- At most so many entries, from an index on.
  unfoldable pub debug_entries : ℕ → ℕ → List (RawObservationEntry F.D) → List KeyValue
  unfolding entry_text
  debug_entries zero index entries = []
  debug_entries (suc limit) index [] = []
  debug_entries (suc limit) index (entry ∷ entries) =
      record { key = codes "raw_obs_" ++ to_string index; value = entry_text entry }
      ∷ debug_entries limit (index + 1) entries

  abbrev debug_limit : ℤ → ℕ
  debug_limit (pos n) = n
  debug_limit (negsuc n) = 0

  unfoldable pub raw_values : Option (RawObservationData F.D) → List KeyValue
  unfolding count_entries describe_ordered_counts mean_cn0_or_na max_cn0_or_na
  raw_values raw =
      let (constellations, signals, cn0) =
        count_entries (elim raw [ none ↦ [] | some data_of ↦ data_of.entries ]) [] []
          (no_samples F P) in
      kv "raw_observations_count" (text_or_na (λ d. to_string_int d.observation_count) raw)
      ∷ kv "raw_observations_by_constellation"
          (describe_ordered_counts constellations constellation_order)
      ∷ kv "raw_observations_by_signal" (describe_ordered_counts signals signal_order)
      ∷ kv "raw_cn0_mean_db_hz" (mean_cn0_or_na F P cn0)
      ∷ kv "raw_cn0_max_db_hz" (max_cn0_or_na F P cn0)
      ∷ []

  unfoldable pub raw_verdict : Option (RawObservationData F.D) → Level × Text
  raw_verdict none =
      if not o.use_binary_raw_observations
      then (ok, codes "binary raw observation backend disabled")
      else (warn, codes "OBSVMCMPB stale or missing")
  raw_verdict (some raw) =
      if not o.use_binary_raw_observations
      then (ok, codes "binary raw observation backend disabled")
      else if not (positive raw.observation_count)
      then (warn, codes "no compressed observations")
      else (ok, to_string_int raw.observation_count ++ codes " compressed observations")

  module _ (b : BinaryLatest F.D) where
    unfoldable pub active_binary_raw_observations : Option (RawObservationData F.D)
    unfolding fresh_data
    active_binary_raw_observations =
        fresh_data F o.raw_observation_timeout_sec now b.latest_binary_raw_observations

    unfoldable pub gps_raw_observation_status : DiagnosticStatus
    unfolding active_binary_raw_observations raw_values debug_entries raw_verdict feed_state
        age_or_inf show_age
    gps_raw_observation_status =
        if not r.enable_raw_observation_diag
        then record {
          name = codes "GPS: raw observations";
          values =
              feed_of_disabled
              ∷ kv "status_enabled" (codes "False")
              ∷ kv "use_binary_raw_observations" (codes "False")
              ∷ [];
          level = ok;
          message = codes "raw observation diagnostics disabled";
        }
        else let raw = active_raw_observations F o now b in
          let verdict = raw_verdict active_binary_raw_observations in
          record {
            name = codes "GPS: raw observations";
            values =
                kv "feed_state" (feed_state o.use_binary_raw_observations (has_value raw))
                  ∷ kv "status_enabled" (codes "True")
                  ∷ kv "use_binary_raw_observations" (yes_no o.use_binary_raw_observations)
                  ∷ kv "obsvmcmp_available" (yes_no (has_value raw))
                  ∷ kv "binary_obsvmcmp_available"
                      (yes_no (has_value active_binary_raw_observations))
                  ∷ kv "obsvmcmp_age_s"
                      (show_age F P (age_or_inf F P now b.latest_binary_raw_observations))
                  ∷ raw_values raw
                ++ values_of
                    (λ d.
                      debug_entries (debug_limit r.raw_observation_max_debug_entries) 0 d.entries)
                    raw;
            level = verdict.0;
            message = verdict.1;
          }
