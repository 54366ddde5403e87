-- ===== src/Node/Active.antt =====
-- Which data `UnicoreNode`, src/unicore_node.cpp, takes for current: the freshness of each kind and the
-- choice between the binary and the ASCII source. A query reads the clock once, as `now`.
use unicore_ros.Base.{ℕ, Bool, ◌&&◌, Option, none, some, if◌then◌else◌}
use unicore_ros.Base.Int.{sub_ℕ}
use unicore_ros.Floats.{Floats}
use unicore_ros.Sentence.{
  FixData, HeadingData, BestNavData, RtkStatusData, RtcmStatusData, BestSatData, SatsInfoData,
  RawObservationData, AgcData, HwStatusData, JamStatusData, FreqJamStatusData,
}
use unicore_ros.Node.State.{Latest, Settings, AsciiLatest, BinaryLatest}

-- A value if there is one, else another one.
abbrev pub or_also {ℓ} : {A : Type ℓ} → Option A → Option A → Option A
or_also none other = other
or_also (some a) other = some a

-- The binary value first, if the setting asks for it.
abbrev pub prefer {ℓ} : {A : Type ℓ} → Bool → Option A → Option A → Option A
prefer use_binary binary ascii = if use_binary then or_also binary ascii else ascii

module _ (F : Floats) where
  -- `std::chrono::duration<double>(now - stamp).count()`.
  unfoldable pub age_seconds : ℕ → ℕ → F.D
  age_seconds stamp now = F.div (F.of_int (sub_ℕ now stamp)) (F.literal 1000000000 0)

  unfoldable pub is_fresh : ℕ → F.D → ℕ → Bool
  unfolding age_seconds
  is_fresh stamp timeout_sec now = F.less_equal (age_seconds stamp now) timeout_sec

  -- The data of its kind, if it is there and fresh.
  unfoldable pub fresh_data : {A : Type 0} → F.D → ℕ → Latest A → Option A
  unfolding is_fresh
  fresh_data timeout_sec now none = none
  fresh_data timeout_sec now (some timed) =
      if is_fresh timed.received_at timeout_sec now then some timed.data_of else none

  -- The same for a fix, which must be valid as well.
  unfoldable pub fresh_fix : F.D → ℕ → Latest (FixData F.D) → Option (FixData F.D)
  unfolding is_fresh
  fresh_fix timeout_sec now none = none
  fresh_fix timeout_sec now (some timed) =
      if timed.data_of.valid_fix && is_fresh timed.received_at timeout_sec now
      then some timed.data_of
      else none

  -- `std::max`.
  abbrev pub max_double : F.D → F.D → F.D
  max_double a b = if F.less a b then b else a

  module _ (o : Settings F.D) (now : ℕ) where
    unfoldable pub active_ascii_bestnav : AsciiLatest F.D → Option (BestNavData F.D)
    unfolding fresh_data
    active_ascii_bestnav a =
        fresh_data (max_double (F.literal 20 1) o.rtcm_timeout_sec) now a.latest_bestnav

    unfoldable pub active_binary_bestnav : BinaryLatest F.D → Option (BestNavData F.D)
    unfolding fresh_data
    active_binary_bestnav b = fresh_data o.binary_nav_timeout_sec now b.latest_binary_bestnav

    unfoldable pub active_bestnav : AsciiLatest F.D → BinaryLatest F.D → Option (BestNavData F.D)
    unfolding active_ascii_bestnav active_binary_bestnav
    active_bestnav a b = prefer o.use_binary_nav (active_binary_bestnav b) (active_ascii_bestnav a)

    unfoldable pub active_ascii_rtk_status : AsciiLatest F.D → Option (RtkStatusData)
    unfolding fresh_data
    active_ascii_rtk_status a = fresh_data o.rtcm_timeout_sec now a.latest_rtk_status

    unfoldable pub active_binary_rtk_status : BinaryLatest F.D → Option (RtkStatusData)
    unfolding fresh_data
    active_binary_rtk_status b = fresh_data o.rtcm_timeout_sec now b.latest_binary_rtk_status

    unfoldable pub active_rtk_status : AsciiLatest F.D → BinaryLatest F.D → Option (RtkStatusData)
    unfolding active_ascii_rtk_status active_binary_rtk_status
    active_rtk_status a b =
        prefer o.use_binary_rtk_diag (active_binary_rtk_status b) (active_ascii_rtk_status a)

    unfoldable pub active_ascii_rtcm_status : AsciiLatest F.D → Option (RtcmStatusData)
    unfolding fresh_data
    active_ascii_rtcm_status a = fresh_data o.rtcm_timeout_sec now a.latest_rtcm_status

    unfoldable pub active_binary_rtcm_status : BinaryLatest F.D → Option (RtcmStatusData)
    unfolding fresh_data
    active_binary_rtcm_status b = fresh_data o.rtcm_timeout_sec now b.latest_binary_rtcm_status

    unfoldable pub active_rtcm_status : AsciiLatest F.D → BinaryLatest F.D → Option (RtcmStatusData)
    unfolding active_ascii_rtcm_status active_binary_rtcm_status
    active_rtcm_status a b =
        prefer o.use_binary_rtcm_diag (active_binary_rtcm_status b) (active_ascii_rtcm_status a)

    unfoldable pub active_ascii_bestsat : AsciiLatest F.D → Option (BestSatData)
    unfolding fresh_data
    active_ascii_bestsat a = fresh_data o.satellite_diag_timeout_sec now a.latest_bestsat

    unfoldable pub active_binary_bestsat : BinaryLatest F.D → Option (BestSatData)
    unfolding fresh_data
    active_binary_bestsat b = fresh_data o.satellite_diag_timeout_sec now b.latest_binary_bestsat

    unfoldable pub active_bestsat : AsciiLatest F.D → BinaryLatest F.D → Option (BestSatData)
    unfolding active_ascii_bestsat active_binary_bestsat
    active_bestsat a b =
        prefer o.use_binary_satellite_diag (active_binary_bestsat b) (active_ascii_bestsat a)

    unfoldable pub active_ascii_satsinfo : AsciiLatest F.D → Option (SatsInfoData F.D)
    unfolding fresh_data
    active_ascii_satsinfo a = fresh_data o.satellite_diag_timeout_sec now a.latest_satsinfo

    unfoldable pub active_binary_satsinfo : BinaryLatest F.D → Option (SatsInfoData F.D)
    unfolding fresh_data
    active_binary_satsinfo b = fresh_data o.satellite_diag_timeout_sec now b.latest_binary_satsinfo

    unfoldable pub active_satsinfo : AsciiLatest F.D → BinaryLatest F.D → Option (SatsInfoData F.D)
    unfolding active_ascii_satsinfo active_binary_satsinfo
    active_satsinfo a b =
        prefer o.use_binary_satellite_diag (active_binary_satsinfo b) (active_ascii_satsinfo a)

    unfoldable pub active_ascii_agc : AsciiLatest F.D → Option (AgcData)
    unfolding fresh_data
    active_ascii_agc a = fresh_data o.rf_diag_timeout_sec now a.latest_agc

    unfoldable pub active_binary_agc : BinaryLatest F.D → Option (AgcData)
    unfolding fresh_data
    active_binary_agc b = fresh_data o.rf_diag_timeout_sec now b.latest_binary_agc

    unfoldable pub active_agc : AsciiLatest F.D → BinaryLatest F.D → Option (AgcData)
    unfolding active_ascii_agc active_binary_agc
    active_agc a b = prefer o.use_binary_rf_diag (active_binary_agc b) (active_ascii_agc a)

    unfoldable pub active_ascii_hw_status : AsciiLatest F.D → Option (HwStatusData F.D)
    unfolding fresh_data
    active_ascii_hw_status a = fresh_data o.rf_diag_timeout_sec now a.latest_hw_status

    unfoldable pub active_binary_hw_status : BinaryLatest F.D → Option (HwStatusData F.D)
    unfolding fresh_data
    active_binary_hw_status b = fresh_data o.rf_diag_timeout_sec now b.latest_binary_hw_status

    unfoldable pub active_hw_status : AsciiLatest F.D → BinaryLatest F.D → Option (HwStatusData F.D)
    unfolding active_ascii_hw_status active_binary_hw_status
    active_hw_status a b =
        prefer o.use_binary_hw_diag (active_binary_hw_status b) (active_ascii_hw_status a)

    unfoldable pub active_ascii_jam_status : AsciiLatest F.D → Option (JamStatusData)
    unfolding fresh_data
    active_ascii_jam_status a = fresh_data o.rf_diag_timeout_sec now a.latest_jam_status

    unfoldable pub active_binary_jam_status : BinaryLatest F.D → Option (JamStatusData)
    unfolding fresh_data
    active_binary_jam_status b = fresh_data o.rf_diag_timeout_sec now b.latest_binary_jam_status

    unfoldable pub active_jam_status : AsciiLatest F.D → BinaryLatest F.D → Option (JamStatusData)
    unfolding active_ascii_jam_status active_binary_jam_status
    active_jam_status a b =
        prefer o.use_binary_jamming_diag (active_binary_jam_status b) (active_ascii_jam_status a)

    unfoldable pub active_ascii_freq_jam_status : AsciiLatest F.D → Option (FreqJamStatusData)
    unfolding fresh_data
    active_ascii_freq_jam_status a = fresh_data o.rf_diag_timeout_sec now a.latest_freq_jam_status

    unfoldable pub active_binary_freq_jam_status : BinaryLatest F.D → Option (FreqJamStatusData)
    unfolding fresh_data
    active_binary_freq_jam_status b =
        fresh_data o.rf_diag_timeout_sec now b.latest_binary_freq_jam_status

    unfoldable pub active_freq_jam_status :
        AsciiLatest F.D → BinaryLatest F.D → Option (FreqJamStatusData)
    unfolding active_ascii_freq_jam_status active_binary_freq_jam_status
    active_freq_jam_status a b =
        prefer o.use_binary_jamming_diag (active_binary_freq_jam_status b)
          (active_ascii_freq_jam_status a)

    unfoldable pub active_raw_observations : BinaryLatest F.D → Option (RawObservationData F.D)
    unfolding fresh_data
    active_raw_observations b =
        if o.use_binary_raw_observations
        then fresh_data o.raw_observation_timeout_sec now b.latest_binary_raw_observations
        else none

    unfoldable pub active_ascii_fix : AsciiLatest F.D → Option (FixData F.D)
    unfolding fresh_fix
    active_ascii_fix a =
        or_also (fresh_fix o.data_timeout_sec now a.latest_pvtslna_fix)
          (fresh_fix o.data_timeout_sec now a.latest_gga_fix)

    unfoldable pub active_binary_fix : BinaryLatest F.D → Option (FixData F.D)
    unfolding fresh_fix
    active_binary_fix b = fresh_fix o.binary_nav_timeout_sec now b.latest_binary_pvtsln_fix

    unfoldable pub active_fix : AsciiLatest F.D → BinaryLatest F.D → Option (FixData F.D)
    unfolding active_ascii_fix active_binary_fix
    active_fix a b = prefer o.use_binary_nav (active_binary_fix b) (active_ascii_fix a)

    unfoldable pub active_ascii_heading : AsciiLatest F.D → Option (HeadingData F.D)
    unfolding fresh_data
    active_ascii_heading a =
        or_also (fresh_data o.data_timeout_sec now a.latest_hpr_heading)
          (fresh_data o.data_timeout_sec now a.latest_hdt_heading)

    unfoldable pub active_heading : AsciiLatest F.D → BinaryLatest F.D → Option (HeadingData F.D)
    unfolding fresh_data active_ascii_heading
    active_heading a b =
        prefer o.use_binary_nav (fresh_data o.binary_nav_timeout_sec now b.latest_binary_heading)
          (active_ascii_heading a)
