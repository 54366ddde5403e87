-- ===== src/Nav/Observations.antt =====
-- `parse_obsvmcmpb` of src/unicore_binary_nav.cpp: compressed observations of 24 bytes, and the
-- switch that chooses the parser of a message.
use unicore_ros.Base.{
  ℕ, zero, suc, ◌+◌, ◌*◌, ◌%◌, ◌^◌, bit_and, not, Option, none, some, List, [], ◌∷◌, ltb, ◌==◌,
  if◌then◌else◌, length, drop, get_or,
}
use unicore_ros.Base.Int.{ℤ, pos, minus_one, sub_ℕ}
use unicore_ros.Base.Text.{codes, text_eq}
use unicore_ros.Base.Maybe.{◌>>=◌}
use unicore_ros.Transport.{Frame}
use unicore_ros.Floats.{Floats, minus_one_double}
use unicore_ros.Payload.{Payload, has_range, read_u32, read_bits_le, sign_extend}
use unicore_ros.Sentence.{ParsedSentence, sentence_of, RawObservationEntry}
use unicore_ros.Nav.Names.{satsinfo_constellation_name_from_system_id}
use unicore_ros.Nav.Signals.{
  obsvmcmp_system_id, obsvmcmp_signal_type, obsvmcmp_l2c_flag, obsvmcmp_carrier_phase_valid,
  obsvmcmp_pseudorange_valid, obsvmcmp_signal_band, obsvmcmp_satellite_id,
}
use unicore_ros.Nav.Status.{
  to_int, parse_agcb, parse_jamstatusb, parse_freqjamstatusb, parse_rtkstatusb, parse_rtcmstatusb,
}
use unicore_ros.Nav.BestSat.{parse_bestsatb}
use unicore_ros.Nav.SatsInfo.{parse_satsinfob}
use unicore_ros.Nav.Floating.{parse_hwstatusb, parse_bestnavb, parse_pvtslnb}

abbrev pub obsvmcmp_entry_size : ℕ
obsvmcmp_entry_size = 24

abbrev pub obsvmcmp_minimum_payload_size : ℕ
obsvmcmp_minimum_payload_size = 4

module _ (F : Floats) where
  -- The table of `obsvmcmp_psr_std_m`, in thousandths.
  abbrev psr_std_thousandths : List ℕ
  psr_std_thousandths =
      50 ∷ 75 ∷ 113 ∷ 169 ∷ 253 ∷ 380 ∷ 570 ∷ 854 ∷ 1281 ∷ 2375 ∷ 4750 ∷ 9500 ∷ 19000 ∷ 38000
      ∷ 76000 ∷ 152000 ∷ []

  unfoldable pub obsvmcmp_psr_std_m : ℕ → F.D
  obsvmcmp_psr_std_m index = F.literal (get_or psr_std_thousandths (bit_and index 0x0F) 0) 3

  -- `static_cast<double>(n) / d`.
  abbrev quotient : ℤ → ℕ → F.D
  quotient n d = F.div (F.of_int n) (F.literal d 0)

  -- The entry that the 24 bytes of a record stand for.
  unfoldable pub observation : List ℕ → RawObservationEntry F.D
  unfolding obsvmcmp_psr_std_m
  observation bytes =
      let tracking = read_bits_le bytes 0 32 % 2 ^ 32 in
      let doppler_raw = sign_extend (read_bits_le bytes 32 28) 28 in
      let pseudorange_raw = read_bits_le bytes 60 36 in
      let carrier_phase_raw = sign_extend (read_bits_le bytes 96 32) 32 in
      let pseudorange_std_index = read_bits_le bytes 128 4 in
      let carrier_phase_std_index = read_bits_le bytes 132 4 in
      let prn = read_bits_le bytes 136 8 in
      let lock_time_raw = read_bits_le bytes 144 21 in
      let cn0_raw = read_bits_le bytes 165 5 in
      let glonass_frequency_number = read_bits_le bytes 170 6 in
      let name = satsinfo_constellation_name_from_system_id (obsvmcmp_system_id tracking) in
      let channel =
        if text_eq name (codes "GLO")
        then if ltb 0 glonass_frequency_number then sub_ℕ glonass_frequency_number 7 else minus_one
        else minus_one in
      let pseudorange_ok = obsvmcmp_pseudorange_valid tracking in
      let carrier_phase_ok = obsvmcmp_carrier_phase_valid tracking in
      record {
        constellation = name;
        satellite_id = obsvmcmp_satellite_id name prn channel;
        signal_band =
            obsvmcmp_signal_band name (obsvmcmp_signal_type tracking) (obsvmcmp_l2c_flag tracking);
        system_id = pos (obsvmcmp_system_id tracking);
        signal_type = pos (obsvmcmp_signal_type tracking);
        glonass_frequency_channel = channel;
        tracking_status = tracking;
        pseudorange_valid = pseudorange_ok;
        carrier_phase_valid = carrier_phase_ok;
        pseudorange_m =
            if pseudorange_ok then quotient (pos pseudorange_raw) 128 else minus_one_double F;
        carrier_phase_cycles =
            if carrier_phase_ok then quotient carrier_phase_raw 256 else minus_one_double F;
        doppler_hz = quotient doppler_raw 256;
        cn0_db_hz =
            if cn0_raw == 0 then F.literal 0 0 else F.add (F.literal 20 0) (F.of_int (pos cn0_raw));
        lock_time_sec = quotient (pos lock_time_raw) 32;
        pseudorange_std_m =
            if pseudorange_ok then obsvmcmp_psr_std_m pseudorange_std_index else minus_one_double F;
        carrier_phase_std_cycles =
            if carrier_phase_ok
            then F.div (F.add (F.of_int (pos carrier_phase_std_index)) (F.literal 1 0))
                (F.literal 512 0)
            else minus_one_double F;
      }

  -- The loop: the rounds left, and `obs_index`.
  unfoldable pub observation_loop : Payload → ℕ → ℕ → Option (List (RawObservationEntry F.D))
  unfolding observation
  observation_loop p zero index = some []
  observation_loop p (suc n) index =
      let offset = 4 + index * obsvmcmp_entry_size in
      if not (has_range p offset obsvmcmp_entry_size)
      then none
      else do later ← observation_loop p n (index + 1); some (observation (drop offset p) ∷ later)

  unfoldable pub parse_obsvmcmpb : Payload → Option (ParsedSentence F.D)
  parse_obsvmcmpb p = if ltb (length p) obsvmcmp_minimum_payload_size then none else do
    count ← read_u32 p 0
    if ltb (length p) (4 + count * obsvmcmp_entry_size) then none else do
      read ← observation_loop p count 0
      some (record (sentence_of F.D (codes "OBSVMCMPB")) {
        raw_observations = some (record { observation_count = to_int count; entries = read });
      })

  unfoldable pub parse : Frame → Option (ParsedSentence F.D)
  parse frame =
      if frame.message_id == 138
      then parse_obsvmcmpb frame.payload
      else if frame.message_id == 220
      then parse_agcb F.D frame.payload
      else if frame.message_id == 509
      then parse_rtkstatusb F.D frame.payload
      else if frame.message_id == 511
      then parse_jamstatusb F.D frame.payload
      else if frame.message_id == 519
      then parse_freqjamstatusb F.D frame.payload
      else if frame.message_id == 1021
      then parse_pvtslnb F frame.payload
      else if frame.message_id == 1041
      then parse_bestsatb F.D frame.payload
      else if frame.message_id == 2118
      then parse_bestnavb F frame.payload
      else if frame.message_id == 2124
      then parse_satsinfob F frame.payload
      else if frame.message_id == 2125
      then parse_rtcmstatusb F.D frame.payload
      else if frame.message_id == 218
      then parse_hwstatusb F frame.payload
      else none
