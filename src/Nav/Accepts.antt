-- ===== src/Nav/Accepts.antt =====
-- The status messages of src/unicore_binary_nav.cpp against the byte layout of their payloads.
use unicore_ros.Base.{
  ℕ, ◌≡◌, refl, inl, inr, true, false, Option, none, some, [], ◌∷◌, arith, All, ltb, leb,
  if◌then◌else◌, Bool-cases, length,
}
use unicore_ros.Base.Int.{pos}
use unicore_ros.Base.Text.{codes}
use unicore_ros.Wire.{IsByte}
use unicore_ros.Payload.{Payload}
use unicore_ros.Nav.Fields.{field, signed_field, read_u8-field, read_u32-field, read_i16-field}
use unicore_ros.Sentence.{ParsedSentence, sentence_of}
use unicore_ros.Nav.Names.{position_type_name, position_type_to_gga_quality}
use unicore_ros.Nav.Status.{
  to_int, parse_agcb, parse_jamstatusb, parse_freqjamstatusb, parse_rtkstatusb, parse_rtcmstatusb,
  observable_loop,
}

unfoldable pub agc_of : (D : Type 0) → Payload → ParsedSentence D
agc_of D p = record (sentence_of D (codes "AGCB")) {
  agc = some (record {
    antenna1 = signed_field p 0 ∷ signed_field p 2 ∷ signed_field p 4 ∷ [];
    antenna2 = signed_field p 10 ∷ signed_field p 12 ∷ signed_field p 14 ∷ [];
  });
}

unfoldable pub jam_of : (D : Type 0) → Payload → ParsedSentence D
jam_of D p = record (sentence_of D (codes "JAMSTATUSB")) {
  jam_status = some (record {
    position_type = position_type_name (field 4 p 0);
    cw_ratio = pos (field 1 p 4);
    cw_flag = pos (field 1 p 5);
  });
}

unfoldable pub freq_jam_of : (D : Type 0) → Payload → ParsedSentence D
freq_jam_of D p = record (sentence_of D (codes "FREQJAMSTATUSB")) {
  freq_jam_status = some (record {
    position_type = position_type_name (field 4 p 0);
    cw_ratio = pos (field 1 p 4) ∷ pos (field 1 p 6) ∷ pos (field 1 p 8) ∷ [];
    cw_flag = pos (field 1 p 5) ∷ pos (field 1 p 7) ∷ pos (field 1 p 9) ∷ [];
  });
}

unfoldable pub rtk_of : (D : Type 0) → Payload → ParsedSentence D
rtk_of D p = record (sentence_of D (codes "RTKSTATUSB")) {
  rtk_status = some (record {
    gps_source_mask = field 4 p 0;
    bds_source_mask_1 = field 4 p 8;
    bds_source_mask_2 = field 4 p 12;
    glonass_source_mask = field 4 p 20;
    galileo_source_mask_1 = field 4 p 28;
    galileo_source_mask_2 = field 4 p 32;
    qzss_source_mask = field 4 p 36;
    position_type = position_type_name (field 4 p 44);
    fix_quality = position_type_to_gga_quality (field 4 p 44);
    calculate_status = to_int (field 4 p 48);
    ion_detected = pos (field 1 p 52);
    dual_rtk_flag = pos (field 1 p 53);
    adr_observation_count = pos (field 1 p 54);
  });
}

unfoldable pub rtcm_of : (D : Type 0) → Payload → ParsedSentence D
rtcm_of D p = record (sentence_of D (codes "RTCMSTATUSB")) {
  rtcm_status = some (record {
    message_id = to_int (field 4 p 0);
    message_count = to_int (field 4 p 4);
    base_station_id = to_int (field 4 p 8);
    satellite_count = to_int (field 4 p 12);
    observable_count =
        pos (field 1 p 16)
        ∷ pos (field 1 p 17)
        ∷ pos (field 1 p 18)
        ∷ pos (field 1 p 19)
        ∷ pos (field 1 p 20)
        ∷ pos (field 1 p 21)
        ∷ [];
  });
}

-- A payload of at least `size` bytes has a sentence, and a shorter one has none.
abbrev pub from_size :
    {D : Type 0} → ℕ → (Payload → ParsedSentence D) → Payload → Option (ParsedSentence D)
from_size size sentence p = if leb size (length p) then some (sentence p) else none

leb-false : (a b : ℕ) → ltb a b ≡ true → leb b a ≡ false
leb-false a b h = ground arith

leb-true : (a b : ℕ) → ltb a b ≡ false → leb b a ≡ true
leb-true a b h = ground arith

module _ (D : Type 0) (p : Payload) (bytes : All IsByte p) where
  agc-fields : parse_agcb D p ≡ from_size 20 (agc_of D) p
  unfolding parse_agcb agc_of
  agc-fields = elim (Bool-cases (ltb (length p) 20)) [
    | inl short ↦ rw (short, leb-false (length p) 20 short) refl
    | inr long ↦
        rw
          (
            long,
            leb-true (length p) 20 long,
            read_i16-field p bytes 0 (ground arith),
            read_i16-field p bytes 2 (ground arith),
            read_i16-field p bytes 4 (ground arith),
            read_i16-field p bytes 10 (ground arith),
            read_i16-field p bytes 12 (ground arith),
            read_i16-field p bytes 14 (ground arith),
          )
          refl
  ]

  jam-fields : parse_jamstatusb D p ≡ from_size 8 (jam_of D) p
  unfolding parse_jamstatusb jam_of
  jam-fields = elim (Bool-cases (ltb (length p) 8)) [
    | inl short ↦ rw (short, leb-false (length p) 8 short) refl
    | inr long ↦
        rw
          (
            long,
            leb-true (length p) 8 long,
            read_u32-field p bytes 0 (ground arith),
            read_u8-field p bytes 4 (ground arith),
            read_u8-field p bytes 5 (ground arith),
          )
          refl
  ]

  freq_jam-fields : parse_freqjamstatusb D p ≡ from_size 12 (freq_jam_of D) p
  unfolding parse_freqjamstatusb freq_jam_of
  freq_jam-fields = elim (Bool-cases (ltb (length p) 12)) [
    | inl short ↦ rw (short, leb-false (length p) 12 short) refl
    | inr long ↦
        rw
          (
            long,
            leb-true (length p) 12 long,
            read_u32-field p bytes 0 (ground arith),
            read_u8-field p bytes 4 (ground arith),
            read_u8-field p bytes 5 (ground arith),
            read_u8-field p bytes 6 (ground arith),
            read_u8-field p bytes 7 (ground arith),
            read_u8-field p bytes 8 (ground arith),
            read_u8-field p bytes 9 (ground arith),
          )
          refl
  ]

  rtk-fields : parse_rtkstatusb D p ≡ from_size 56 (rtk_of D) p
  unfolding parse_rtkstatusb rtk_of
  rtk-fields = elim (Bool-cases (ltb (length p) 56)) [
    | inl short ↦ rw (short, leb-false (length p) 56 short) refl
    | inr long ↦
        rw
          (
            long,
            leb-true (length p) 56 long,
            read_u32-field p bytes 0 (ground arith),
            read_u32-field p bytes 8 (ground arith),
            read_u32-field p bytes 12 (ground arith),
            read_u32-field p bytes 20 (ground arith),
            read_u32-field p bytes 28 (ground arith),
            read_u32-field p bytes 32 (ground arith),
            read_u32-field p bytes 36 (ground arith),
            read_u32-field p bytes 44 (ground arith),
            read_u32-field p bytes 48 (ground arith),
            read_u8-field p bytes 52 (ground arith),
            read_u8-field p bytes 53 (ground arith),
            read_u8-field p bytes 54 (ground arith),
          )
          refl
  ]

  rtcm-fields : parse_rtcmstatusb D p ≡ from_size 22 (rtcm_of D) p
  unfolding parse_rtcmstatusb rtcm_of observable_loop
  rtcm-fields = elim (Bool-cases (ltb (length p) 22)) [
    | inl short ↦ rw (short, leb-false (length p) 22 short) refl
    | inr long ↦
        rw
          (
            long,
            leb-true (length p) 22 long,
            read_u32-field p bytes 0 (ground arith),
            read_u32-field p bytes 4 (ground arith),
            read_u32-field p bytes 8 (ground arith),
            read_u32-field p bytes 12 (ground arith),
            read_u8-field p bytes 16 (ground arith),
            read_u8-field p bytes 17 (ground arith),
            read_u8-field p bytes 18 (ground arith),
            read_u8-field p bytes 19 (ground arith),
            read_u8-field p bytes 20 (ground arith),
            read_u8-field p bytes 21 (ground arith),
          )
          refl
  ]

-- From a payload of bytes, each of these parsers gives the sentence that the byte layout of its
-- message says when the payload has at least the size of the message, whatever follows, and none
-- when it is shorter.
pub parse_status-fields :
    (D : Type 0) (p : Payload)
    → All IsByte p
    → (parse_agcb D p ≡ from_size 20 (agc_of D) p)
      × (parse_jamstatusb D p ≡ from_size 8 (jam_of D) p)
      × (parse_freqjamstatusb D p ≡ from_size 12 (freq_jam_of D) p)
      × (parse_rtkstatusb D p ≡ from_size 56 (rtk_of D) p)
      × (parse_rtcmstatusb D p ≡ from_size 22 (rtcm_of D) p)
parse_status-fields D p bytes = (
  agc-fields D p bytes,
  jam-fields D p bytes,
  freq_jam-fields D p bytes,
  rtk-fields D p bytes,
  rtcm-fields D p bytes,
)
