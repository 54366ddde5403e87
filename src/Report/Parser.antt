-- ===== src/Report/Parser.antt =====
-- `gps_parser_status` of src/unicore_node.cpp: the counters, and how much they have grown since the
-- last report.
use unicore_ros.Base.{ℕ, ◌+◌, ◌-◌, ◌%◌, ◌^◌, Bool, ◌||◌, Option, List, [], ◌∷◌, ltb, if◌then◌else◌}
use unicore_ros.Base.Text.{Text, codes, to_string}
use unicore_ros.Floats.{Floats}
use Prim.Native.String.{String}
use unicore_ros.Transport.{Counters}
use unicore_ros.Dispatch.{DispatchCounters}
use unicore_ros.Sentence.{ParserCounters}
use unicore_ros.Report.Describe.{Display, join_message_ids}
use unicore_ros.Report.Counts.{describe_string_size_counts}
use unicore_ros.Report.Status.{
  ok, warn, KeyValue, DiagnosticStatus, kv, yes_no, text_or_na, show_age, age_of_time,
}

-- What the node remembers of the last report.
pub record Snapshot : Type 0 where
  pub parse_errors : ℕ
  pub nmea_checksum_errors : ℕ
  pub unicore_crc_errors : ℕ
  pub crc_errors : ℕ
  pub resync_count : ℕ
  pub unknown_frames : ℕ

-- The difference of two `std::size_t`.
abbrev pub minus_size : ℕ → ℕ → ℕ
minus_size a b = (a + 2 ^ 64 - b) % 2 ^ 64

unfoldable pub snapshot_of : ParserCounters → Counters → DispatchCounters → Snapshot
snapshot_of p t d = record {
  parse_errors = p.parse_errors;
  nmea_checksum_errors = p.nmea_checksum_errors;
  unicore_crc_errors = p.unicore_crc_errors;
  crc_errors = t.crc_errors;
  resync_count = t.resync_count;
  unknown_frames = d.unknown_frames;
}

-- The six differences.
unfoldable pub deltas : (current last : Snapshot) → Snapshot
deltas c l = record {
  parse_errors = minus_size c.parse_errors l.parse_errors;
  nmea_checksum_errors = minus_size c.nmea_checksum_errors l.nmea_checksum_errors;
  unicore_crc_errors = minus_size c.unicore_crc_errors l.unicore_crc_errors;
  crc_errors = minus_size c.crc_errors l.crc_errors;
  resync_count = minus_size c.resync_count l.resync_count;
  unknown_frames = minus_size c.unknown_frames l.unknown_frames;
}

unfoldable pub has_anomalies : Snapshot → Bool
has_anomalies d =
    ltb 0 d.parse_errors
    || (ltb 0 d.nmea_checksum_errors
        || (ltb 0 d.unicore_crc_errors
            || (ltb 0 d.crc_errors || (ltb 0 d.resync_count || ltb 0 d.unknown_frames))))

abbrev reasons : List (String × ℕ) → List (Text × ℕ)
reasons [] = []
reasons ((reason, count) ∷ rest) = (codes reason, count) ∷ reasons rest

module _ (F : Floats) (P : Display F) (enable_unicore_binary : Bool) (now : ℕ) where
  unfoldable pub parser_values :
      ParserCounters → Counters → DispatchCounters → Option ℕ → Snapshot → List KeyValue
  unfolding describe_string_size_counts join_message_ids show_age age_of_time
  parser_values p t d last_binary_frame_time delta =
      kv "parsed_sentences_total" (to_string p.parsed_sentences)
      ∷ kv "parse_errors_total" (to_string p.parse_errors)
      ∷ kv "nmea_checksum_errors_total" (to_string p.nmea_checksum_errors)
      ∷ kv "unicore_crc_errors_total" (to_string p.unicore_crc_errors)
      ∷ kv "parse_errors_delta" (to_string delta.parse_errors)
      ∷ kv "nmea_checksum_errors_delta" (to_string delta.nmea_checksum_errors)
      ∷ kv "unicore_crc_errors_delta" (to_string delta.unicore_crc_errors)
      ∷ kv "binary_enabled" (yes_no enable_unicore_binary)
      ∷ kv "binary_frames_total" (to_string t.frames_total)
      ∷ kv "binary_crc_errors" (to_string t.crc_errors)
      ∷ kv "binary_resync_count" (to_string t.resync_count)
      ∷ kv "binary_sync_candidates" (to_string t.sync_candidates)
      ∷ kv "binary_header_len" (text_or_na to_string t.last_header_length)
      ∷ kv "binary_payload_len" (text_or_na to_string t.last_payload_length)
      ∷ kv "binary_frame_parse_errors_by_reason"
          (describe_string_size_counts (reasons t.frame_parse_errors_by_reason))
      ∷ kv "binary_unknown_frames_total" (to_string d.unknown_frames)
      ∷ kv "binary_unknown_msg_ids" (join_message_ids d.recent_unknown_message_ids)
      ∷ kv "binary_last_msg_id" (text_or_na to_string d.last_message_id)
      ∷ kv "binary_last_frame_age_s" (show_age F P (age_of_time F P now last_binary_frame_time))
      ∷ kv "binary_crc_errors_delta" (to_string delta.crc_errors)
      ∷ kv "binary_resync_delta" (to_string delta.resync_count)
      ∷ kv "binary_unknown_frames_delta" (to_string delta.unknown_frames)
      ∷ []

  -- The status, and the snapshot that the next report is held against.
  unfoldable pub gps_parser_status :
      ParserCounters
      → Counters
      → DispatchCounters
      → Option ℕ
      → Snapshot
      → DiagnosticStatus × Snapshot
  unfolding parser_values snapshot_of deltas has_anomalies
  gps_parser_status p t d last_binary_frame_time last =
      let current = snapshot_of p t d in
      let delta = deltas current last in
      let seen = has_anomalies delta in
      (
        record {
          name = codes "GPS: parser";
          values = parser_values p t d last_binary_frame_time delta;
          level = if seen then warn else ok;
          message =
              if seen
              then codes "new parser or binary transport anomalies observed"
              else codes "parser healthy";
        },
        current,
      )
