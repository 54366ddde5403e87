-- ===== src/Ascii/Status.antt =====
-- The status sentences of src/unicore_parser.cpp without floating-point values: RTKSTATUSA,
-- RTCMSTATUSA, AGCA, JAMSTATUSA, FREQJAMSTATUSA and GSV.
use unicore_ros.Base.{
  ℕ, zero, suc, ◌+◌, Option, none, some, List, [], ◌∷◌, ltb, leb, if◌then◌else◌, length,
}
use unicore_ros.Base.Int.{ℤ}
use unicore_ros.Base.Text.{Text, codes}
use unicore_ros.Base.Maybe.{◌>>=◌}
use unicore_ros.Sentence.{ParsedSentence, sentence_of}
use unicore_ros.Ascii.Numbers.{parse_int, parse_uint32}
use unicore_ros.Ascii.Fields.{at, field_after_semicolon}
use unicore_ros.Ascii.Names.{position_type_to_gga_quality}

unfoldable pub parse_rtkstatusa : (D : Type 0) → List Text → Option (ParsedSentence D)
parse_rtkstatusa D fields = if leb (length fields) 24 then none else do
  gps ← parse_uint32 (field_after_semicolon (at fields 9)) 16
  bds_1 ← parse_uint32 (at fields 11) 16
  bds_2 ← parse_uint32 (at fields 12) 16
  glonass ← parse_uint32 (at fields 14) 16
  galileo_1 ← parse_uint32 (at fields 16) 16
  galileo_2 ← parse_uint32 (at fields 17) 16
  qzss ← parse_uint32 (at fields 18) 16
  calculate ← parse_int (at fields 21)
  ion ← parse_int (at fields 22)
  dual ← parse_int (at fields 23)
  adr ← parse_int (at fields 24)
  some (record (sentence_of D (codes "RTKSTATUSA")) {
    rtk_status = some (record {
      gps_source_mask = gps;
      bds_source_mask_1 = bds_1;
      bds_source_mask_2 = bds_2;
      glonass_source_mask = glonass;
      galileo_source_mask_1 = galileo_1;
      galileo_source_mask_2 = galileo_2;
      qzss_source_mask = qzss;
      position_type = at fields 20;
      fix_quality = position_type_to_gga_quality (at fields 20);
      calculate_status = calculate;
      ion_detected = ion;
      dual_rtk_flag = dual;
      adr_observation_count = adr;
    });
  })

-- The loop over the observable counts: the rounds left, and the position.
unfoldable pub count_loop : List Text → ℕ → ℕ → Option (List ℤ)
count_loop fields zero i = some []
count_loop fields (suc n) i = do
  count ← parse_int (at fields i)
  counts ← count_loop fields n (i + 1)
  some (count ∷ counts)

unfoldable pub parse_rtcmstatusa : (D : Type 0) → List Text → Option (ParsedSentence D)
unfolding count_loop
parse_rtcmstatusa D fields = if leb (length fields) 18 then none else do
  id ← parse_int (field_after_semicolon (at fields 9))
  count ← parse_int (at fields 10)
  station ← parse_int (at fields 11)
  satellites ← parse_int (at fields 12)
  observables ← count_loop fields 6 13
  some (record (sentence_of D (codes "RTCMSTATUSA")) {
    rtcm_status = some (record {
      message_id = id;
      message_count = count;
      base_station_id = station;
      satellite_count = satellites;
      observable_count = observables;
    });
  })

unfoldable pub parse_agca : (D : Type 0) → List Text → Option (ParsedSentence D)
parse_agca D fields = if leb (length fields) 16 then none else do
  ant1_l1 ← parse_int (field_after_semicolon (at fields 9))
  ant1_l2 ← parse_int (at fields 10)
  ant1_l5 ← parse_int (at fields 11)
  ant2_l1 ← parse_int (at fields 14)
  ant2_l2 ← parse_int (at fields 15)
  ant2_l5 ← parse_int (at fields 16)
  some (record (sentence_of D (codes "AGCA")) {
    agc = some (record {
      antenna1 = ant1_l1 ∷ ant1_l2 ∷ ant1_l5 ∷ [];
      antenna2 = ant2_l1 ∷ ant2_l2 ∷ ant2_l5 ∷ [];
    });
  })

unfoldable pub parse_jamstatusa : (D : Type 0) → List Text → Option (ParsedSentence D)
parse_jamstatusa D fields = if leb (length fields) 11 then none else do
  ratio ← parse_int (at fields 10)
  flag ← parse_int (at fields 11)
  some (record (sentence_of D (codes "JAMSTATUSA")) {
    jam_status = some (record {
      position_type = field_after_semicolon (at fields 9);
      cw_ratio = ratio;
      cw_flag = flag;
    });
  })

unfoldable pub parse_freqjamstatusa : (D : Type 0) → List Text → Option (ParsedSentence D)
parse_freqjamstatusa D fields = if leb (length fields) 15 then none else do
  ratio0 ← parse_int (at fields 10)
  flag0 ← parse_int (at fields 11)
  ratio1 ← parse_int (at fields 12)
  flag1 ← parse_int (at fields 13)
  ratio2 ← parse_int (at fields 14)
  flag2 ← parse_int (at fields 15)
  some (record (sentence_of D (codes "FREQJAMSTATUSA")) {
    freq_jam_status = some (record {
      position_type = field_after_semicolon (at fields 9);
      cw_ratio = ratio0 ∷ ratio1 ∷ ratio2 ∷ [];
      cw_flag = flag0 ∷ flag1 ∷ flag2 ∷ [];
    });
  })

unfoldable pub parse_gsv : (D : Type 0) → Text → List Text → Option (ParsedSentence D)
parse_gsv D talker fields = if ltb (length fields) 4 then none else do
  total_in_view ← parse_int (at fields 3)
  some (record (sentence_of D (codes "GSV")) {
    gsv = some (record { talker = talker; satellites_in_view = total_in_view });
  })
