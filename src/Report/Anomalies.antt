-- ===== src/Report/Anomalies.antt =====
-- When `gps_parser_status` of src/unicore_node.cpp warns.
use unicore_ros.Base.{
  ℕ, ◌^◌, ◌<◌, ◌≡◌, refl, sym, ◌∙◌, ◌↔◌, Bool, true, false, ◌||◌, Option, arith, ltb, ap,
  if◌then◌else◌,
}
use unicore_ros.Floats.{Floats}
use unicore_ros.Transport.{Counters}
use unicore_ros.Dispatch.{DispatchCounters}
use unicore_ros.Sentence.{ParserCounters}
use unicore_ros.Report.Describe.{Display}
use unicore_ros.Report.Status.{ok, warn}
use unicore_ros.Report.Parser.{
  Snapshot, minus_size, snapshot_of, deltas, has_anomalies, gps_parser_status,
}

-- Six values of a `std::size_t`.
pub record AreSizes (s : Snapshot) : Type 0 where
  pub parse_errors_fit : s.parse_errors < 2 ^ 64
  pub nmea_checksum_errors_fit : s.nmea_checksum_errors < 2 ^ 64
  pub unicore_crc_errors_fit : s.unicore_crc_errors < 2 ^ 64
  pub crc_errors_fit : s.crc_errors < 2 ^ 64
  pub resync_count_fit : s.resync_count < 2 ^ 64
  pub unknown_frames_fit : s.unknown_frames < 2 ^ 64

same_size : (a b : ℕ) → a < 2 ^ 64 → b < 2 ^ 64 → ltb 0 (minus_size a b) ≡ false → a ≡ b
same_size a b ha hb e = ground arith

no_growth : (a : ℕ) → a < 2 ^ 64 → ltb 0 (minus_size a a) ≡ false
no_growth a h = ground arith

or-false : (x y : Bool) → (x || y) ≡ false → (x ≡ false) × (y ≡ false)
or-false x y e = ground arith

-- If nothing has grown, the six counters are those of the last report.
has_anomalies-same :
    (c l : Snapshot) → AreSizes c → AreSizes l → has_anomalies (deltas c l) ≡ false → c ≡ l
unfolding has_anomalies deltas
has_anomalies-same c l hc hl e =
    let (e1, r1) = or-false _ _ e in
    let (e2, r2) = or-false _ _ r1 in
    let (e3, r3) = or-false _ _ r2 in
    let (e4, r4) = or-false _ _ r3 in
    let (e5, e6) = or-false _ _ r4 in
    ground (
      arith,
      same_size c.parse_errors l.parse_errors hc.parse_errors_fit hl.parse_errors_fit e1,
      same_size c.nmea_checksum_errors l.nmea_checksum_errors hc.nmea_checksum_errors_fit
          hl.nmea_checksum_errors_fit e2,
      same_size c.unicore_crc_errors l.unicore_crc_errors hc.unicore_crc_errors_fit
          hl.unicore_crc_errors_fit e3,
      same_size c.crc_errors l.crc_errors hc.crc_errors_fit hl.crc_errors_fit e4,
      same_size c.resync_count l.resync_count hc.resync_count_fit hl.resync_count_fit e5,
      same_size c.unknown_frames l.unknown_frames hc.unknown_frames_fit hl.unknown_frames_fit e6,
    )

has_anomalies-none : (c : Snapshot) → AreSizes c → has_anomalies (deltas c c) ≡ false
unfolding has_anomalies deltas
has_anomalies-none c h =
    rw
      (
        no_growth c.parse_errors h.parse_errors_fit,
        no_growth c.nmea_checksum_errors h.nmea_checksum_errors_fit,
        no_growth c.unicore_crc_errors h.unicore_crc_errors_fit,
        no_growth c.crc_errors h.crc_errors_fit,
        no_growth c.resync_count h.resync_count_fit,
        no_growth c.unknown_frames h.unknown_frames_fit,
      )
      refl

level_iff : (seen : Bool) → ((if seen then warn else ok) ≡ ok) ↔ (seen ≡ false)
level_iff true = ground arith
level_iff false = ground arith

module _ (F : Floats) (P : Display F) (enable_unicore_binary : Bool) (now : ℕ) where
  -- The parser's status is OK exactly when the six counters of errors and of unknown frames, all of them
  -- and the remembered ones values of a `std::size_t`, are those of the last report; and the next report
  -- is held against the counters of this one.
  pub gps_parser_status-ok_iff :
      (p : ParserCounters) (t : Counters) (d : DispatchCounters) (time : Option ℕ) (last : Snapshot)
      → AreSizes (snapshot_of p t d)
      → AreSizes last
      → (((gps_parser_status F P enable_unicore_binary now p t d time last).0.level ≡ ok)
          ↔ (snapshot_of p t d ≡ last))
        × ((gps_parser_status F P enable_unicore_binary now p t d time last).1 ≡ snapshot_of p t d)
  unfolding gps_parser_status
  gps_parser_status-ok_iff p t d time last hc hl =
      let c = snapshot_of p t d in
      let level = level_iff (has_anomalies (deltas c last)) in
      (
        (
          λ e. has_anomalies-same c last hc hl (level.0 e),
          λ e.
              level.1 (
                ap (λ (l : Snapshot). has_anomalies (deltas c l)) (sym e)
                ∙ has_anomalies-none c hc),
        ),
        refl,
      )
