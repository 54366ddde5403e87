-- ===== src/Nav/Status.antt =====
-- The status messages of src/unicore_binary_nav.cpp: AGC, JAMSTATUS, FREQJAMSTATUS, RTKSTATUS and
-- RTCMSTATUS.
use unicore_ros.Base.{ℕ, ◌+◌, Option, none, some, List, [], ◌∷◌, ltb, if◌then◌else◌, length}
use unicore_ros.Base.Int.{ℤ, pos, signed}
use unicore_ros.Base.Text.{codes}
use unicore_ros.Base.Maybe.{◌>>=◌}
use unicore_ros.Payload.{Payload, read_u8, read_u32, read_i16}
use unicore_ros.Sentence.{ParsedSentence, sentence_of}
use unicore_ros.Nav.Names.{position_type_name, position_type_to_gga_quality}

-- `static_cast<int>` of a `uint32_t`.
abbrev pub to_int : ℕ → ℤ
to_int n = signed 32 n

abbrev pub agc_payload_size : ℕ
agc_payload_size = 20

abbrev pub jamstatus_payload_size : ℕ
jamstatus_payload_size = 8

abbrev pub freqjamstatus_payload_size : ℕ
freqjamstatus_payload_size = 12

abbrev pub rtkstatus_payload_size : ℕ
rtkstatus_payload_size = 56

abbrev pub rtcmstatus_payload_size : ℕ
rtcmstatus_payload_size = 22

unfoldable pub parse_agcb : (D : Type 0) → Payload → Option (ParsedSentence D)
parse_agcb D payload = if ltb (length payload) agc_payload_size then none else do
  ant1_l1 ← read_i16 payload 0
  ant1_l2 ← read_i16 payload 2
  ant1_l5 ← read_i16 payload 4
  ant2_l1 ← read_i16 payload 10
  ant2_l2 ← read_i16 payload 12
  ant2_l5 ← read_i16 payload 14
  some (record (sentence_of D (codes "AGCB")) {
    agc = some (record {
      antenna1 = ant1_l1 ∷ ant1_l2 ∷ ant1_l5 ∷ [];
      antenna2 = ant2_l1 ∷ ant2_l2 ∷ ant2_l5 ∷ [];
    });
  })

unfoldable pub parse_jamstatusb : (D : Type 0) → Payload → Option (ParsedSentence D)
parse_jamstatusb D payload = if ltb (length payload) jamstatus_payload_size then none else do
  position_type_code ← read_u32 payload 0
  ratio ← read_u8 payload 4
  flag ← read_u8 payload 5
  some (record (sentence_of D (codes "JAMSTATUSB")) {
    jam_status = some (record {
      position_type = position_type_name position_type_code;
      cw_ratio = pos ratio;
      cw_flag = pos flag;
    });
  })

unfoldable pub parse_freqjamstatusb : (D : Type 0) → Payload → Option (ParsedSentence D)
parse_freqjamstatusb D payload =
    if ltb (length payload) freqjamstatus_payload_size then none else do
      position_type_code ← read_u32 payload 0
      ratio0 ← read_u8 payload 4
      flag0 ← read_u8 payload 5
      ratio1 ← read_u8 payload 6
      flag1 ← read_u8 payload 7
      ratio2 ← read_u8 payload 8
      flag2 ← read_u8 payload 9
      some (record (sentence_of D (codes "FREQJAMSTATUSB")) {
        freq_jam_status = some (record {
          position_type = position_type_name position_type_code;
          cw_ratio = pos ratio0 ∷ pos ratio1 ∷ pos ratio2 ∷ [];
          cw_flag = pos flag0 ∷ pos flag1 ∷ pos flag2 ∷ [];
        });
      })

unfoldable pub parse_rtkstatusb : (D : Type 0) → Payload → Option (ParsedSentence D)
parse_rtkstatusb D payload = if ltb (length payload) rtkstatus_payload_size then none else do
  gps ← read_u32 payload 0
  bds_1 ← read_u32 payload 8
  bds_2 ← read_u32 payload 12
  glonass ← read_u32 payload 20
  galileo_1 ← read_u32 payload 28
  galileo_2 ← read_u32 payload 32
  qzss ← read_u32 payload 36
  position_type_code ← read_u32 payload 44
  calculate ← read_u32 payload 48
  ion ← read_u8 payload 52
  dual ← read_u8 payload 53
  adr ← read_u8 payload 54
  some (record (sentence_of D (codes "RTKSTATUSB")) {
    rtk_status = some (record {
      gps_source_mask = gps;
      bds_source_mask_1 = bds_1;
      bds_source_mask_2 = bds_2;
      glonass_source_mask = glonass;
      galileo_source_mask_1 = galileo_1;
      galileo_source_mask_2 = galileo_2;
      qzss_source_mask = qzss;
      position_type = position_type_name position_type_code;
      fix_quality = position_type_to_gga_quality position_type_code;
      calculate_status = to_int calculate;
      ion_detected = pos ion;
      dual_rtk_flag = pos dual;
      adr_observation_count = pos adr;
    });
  })

-- The loop over the observable counts.
unfoldable pub observable_loop : Payload → ℕ → ℕ → Option (List ℤ)
observable_loop payload ℕ.zero i = some []
observable_loop payload (ℕ.suc n) i = do
  count ← read_u8 payload (16 + i)
  counts ← observable_loop payload n (i + 1)
  some (pos count ∷ counts)

unfoldable pub parse_rtcmstatusb : (D : Type 0) → Payload → Option (ParsedSentence D)
unfolding observable_loop
parse_rtcmstatusb D payload = if ltb (length payload) rtcmstatus_payload_size then none else do
  id ← read_u32 payload 0
  count ← read_u32 payload 4
  station ← read_u32 payload 8
  satellites ← read_u32 payload 12
  observables ← observable_loop payload 6 0
  some (record (sentence_of D (codes "RTCMSTATUSB")) {
    rtcm_status = some (record {
      message_id = to_int id;
      message_count = to_int count;
      base_station_id = to_int station;
      satellite_count = to_int satellites;
      observable_count = observables;
    });
  })
