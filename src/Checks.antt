-- ===== src/Checks.antt =====
-- A run of the model of src/unicore_transport.cpp, and the theorems on the transport at concrete
-- inputs that meet their hypotheses.
mod Parts
mod Messages
mod Ports
mod Sentences
mod Nodes
mod Satellites
mod Casters
mod Arrivals
mod Reports
mod Alarms
mod Skies
use unicore_ros.Base.{
  ℕ, ◌+◌, ◌≡◌, ◌≢◌, refl, inl, inr, Bool, true, false, Option, none, some, List, [], ◌∷◌, ◌++◌,
  arith, All, ltb, ◌&&◌, ◌/◌, ◌%◌, ◌^◌, ◌<◌, take, drop,
}
use unicore_ros.Base.Text.{codes}
use unicore_ros.Wire.{
  Bytes, IsByte, crc32_unicore_binary, crc32_from, crc_byte, crc_bits, crc_bit, find_byte, is_sync,
  find_binary_sync, begins_with_binary_sync_prefix, read_le16, read_le32,
}
use unicore_ros.Wire.Search.{find_byte-none, find_binary_sync-first}
use unicore_ros.Wire.Crc.{crc32_one_byte, crc32_residue}
use unicore_ros.Wire.Fields.{le32}
use unicore_ros.Transport.{
  Frame, Transport, Options, Event, init, append, try_extract_binary_frame, check_frame,
  increment_at, decode_frame, accept_frame, resync, count_crc_error, frame_event, line_event,
}
use unicore_ros.Transport.Drain.{
  Drains, drain, drain_loop, drain_round, binary_round, line_round, frame_round, extract_round,
  tail_round, count_candidate, is_empty, front_is, cut_line, line_events, strip_cr, drop_line,
  ascii_round, again,
}
use unicore_ros.Transport.Total.{drain_total}
use unicore_ros.Transport.Segments.{Segments, drain-Segments}
use unicore_ros.Transport.Chunks.{feed, Keeps, feed-wire}
use unicore_ros.Transport.FrameRound.{accepted, drain_round-frame}
use unicore_ros.Transport.Corrupt.{prefix, damaged, drain_round-damaged}
use unicore_ros.Transport.Ascii.{drain_chunks}
use unicore_ros.Payload.{read_u8, read_u16, read_u32, read_bits64, read_bits_le}
use unicore_ros.Payload.Range.{read_le, le_value, read-read_le}
use unicore_ros.Payload.BitField.{read_bits_le-value}
use unicore_ros.Dispatch.{
  contains, default_dispatch_counters, dispatch, dispatch_all, known_message_name, find_name,
}
use unicore_ros.Dispatch.Recent.{IsRecent, Distinct, unknown_count, dispatch_all-IsRecent}
use unicore_ros.Dispatch.Kept.{dispatch_all-kept}
use unicore_ros.Transport.Stream.{
  header, encode, IsFrame, IsLine, Item, line, frame, wire, events_of,
}

abbrev example_options : Options
example_options = record {
  enable_binary = true;
  strict_binary_crc = true;
  binary_max_frame_size = 4096;
}

abbrev with_crc : ℕ → Frame
with_crc crc = record {
  header_length = 24;
  cpu_idle = 71;
  message_id = 2125;
  payload_length = 3;
  time_ref = 0;
  time_status = 160;
  week = 2300;
  milliseconds = 123456000;
  version = 17;
  leap_seconds = 18;
  delay_ms = 5;
  crc_valid = true;
  crc32 = crc;
  payload = 7 ∷ 200 ∷ 36 ∷ [];
}

abbrev pub example_frame : Frame
example_frame = with_crc 289045160

unfoldable pub fit : Bytes → Bool
fit [] = true
fit (b ∷ bytes) = ltb b 256 && fit bytes

pub fit-All : (bytes : Bytes) → fit bytes ≡ true → All IsByte bytes
unfolding fit
fit-All [] e = tt
fit-All (b ∷ bytes) e = ground (arith, fit-All bytes)

example-IsFrame : IsFrame 4096 0 example_frame
unfolding crc32_unicore_binary crc32_from crc_byte crc_bits crc_bit fit
example-IsFrame = record {
  header_length_is = refl;
  cpu_idle_fits = omega arith;
  message_id_fits = omega arith;
  payload_length_is = refl;
  payload_length_fits = omega arith;
  time_ref_fits = omega arith;
  time_status_fits = omega arith;
  week_fits = omega arith;
  milliseconds_fits = omega arith;
  version_fits = omega arith;
  reserved_fits = omega arith;
  leap_seconds_fits = omega arith;
  delay_ms_fits = omega arith;
  payload_bytes = fit-All (7 ∷ 200 ∷ 36 ∷ []) refl;
  crc_is_valid = refl;
  crc32_is = refl;
  size_fits = omega arith;
}

abbrev example_line : Bytes
example_line = codes "$GN*5B"

example-IsLine : IsLine example_line
unfolding find_byte
example-IsLine = record {
  first = b'$';
  rest = codes "GN*5B";
  splits = refl;
  marked = inl refl;
  no_newline = find_byte-none b'\n' example_line refl;
  no_sync = find_byte-none 0xAA example_line refl;
}

abbrev example_items : List Item
example_items = line example_line ∷ frame 0 example_frame ∷ []

abbrev example_transport : Transport
unfolding init
example_transport = init example_options

-- What one drain makes of the line and the frame, with two bytes of the next frame behind them.
abbrev example_end : Transport
example_end = record {
  options = example_options;
  buffer = 0xAA ∷ 0x44 ∷ [];
  counters = record {
    frames_total = 1;
    crc_errors = 0;
    resync_count = 0;
    sync_candidates = 1;
    last_header_length = some 24;
    last_payload_length = some 3;
    frame_parse_errors_by_reason = [];
  };
  counted_sync_candidate = false;
}

abbrev example_full : Transport
unfolding append
example_full = append (wire example_items ++ (0xAA ∷ 0x44 ∷ [])) example_transport

example_drain : drain example_full ≡ some (example_end, events_of example_items)
unfolding drain drain_loop drain_round binary_round line_round frame_round extract_round tail_round
    count_candidate is_empty front_is cut_line line_events strip_cr drop_line
    try_extract_binary_frame check_frame decode_frame accept_frame init append crc32_unicore_binary
    crc32_from crc_byte crc_bits crc_bit find_byte is_sync find_binary_sync
    begins_with_binary_sync_prefix read_le16 read_le32
example_drain = refl

drain_total_example :
    (u : Transport) × (events : List Event) × (drain example_full ≡ some (u, events))
    × Drains u example_full events
drain_total_example = drain_total example_full

drain-Segments_example :
    Segments example_options
      (wire example_items ++ (0xAA ∷ 0x44 ∷ []))
      (events_of example_items)
      (0xAA ∷ 0x44 ∷ [])
unfolding init append
drain-Segments_example =
    drain-Segments example_full example_end (events_of example_items) example_drain

-- The stream in three reads, one of which ends inside the frame.
abbrev example_chunks : List Bytes
example_chunks =
    codes "$G" ∷ drop 2 (take 20 (wire example_items)) ∷ drop 20 (wire example_items) ∷ []

feed-wire_example :
    (u : Transport) × (feed example_chunks example_transport ≡ some (u, events_of example_items))
    × (u.buffer ≡ [])
    × Keeps example_transport u
unfolding init
feed-wire_example =
    feed-wire 4096 example_chunks example_items example_transport
      (example-IsLine, (example-IsFrame, tt)) (refl, refl) refl refl

-- The payload byte 200 arrives as 201.
abbrev damaged_front : Bytes
damaged_front = take 17 (drop 8 (header 0 example_frame (7 ∷ [])))

abbrev before_damaged : Transport
unfolding append
before_damaged = append (damaged example_frame damaged_front 201 (36 ∷ [])) example_transport

drain_round-damaged_example :
    drain_round before_damaged
    ≡ again
        (record before_damaged {
          buffer = drop 1 before_damaged.buffer;
          counters = record (before_damaged.counters) {
            crc_errors = 1;
            resync_count = 1;
            sync_candidates = 1;
            frame_parse_errors_by_reason = increment_at "crc_mismatch" [];
          };
          counted_sync_candidate = false;
        })
        []
unfolding init append
drain_round-damaged_example =
    drain_round-damaged example-IsFrame damaged_front (36 ∷ []) 200 201 refl (omega arith)
      (omega arith) before_damaged [] refl refl refl refl

abbrev ascii_transport : Transport
unfolding init
ascii_transport =
    init (record { enable_binary = false; strict_binary_crc = true; binary_max_frame_size = 4096 })

abbrev ascii_middle : Transport
ascii_middle = record ascii_transport { buffer = codes "c" }

abbrev ascii_end : Transport
ascii_end = record ascii_transport { buffer = [] }

drain_chunks_example :
    drain (append (codes "ab\nc" ++ codes "d\n") ascii_transport)
    ≡ some (ascii_end, line_event (codes "ab") ∷ line_event (codes "cd") ∷ [])
unfolding drain drain_loop drain_round ascii_round is_empty cut_line line_events strip_cr drop_line
    init append find_byte
drain_chunks_example =
    drain_chunks ascii_transport ascii_middle ascii_end (codes "ab\nc") (codes "d\n")
      (line_event (codes "ab") ∷ []) (line_event (codes "cd") ∷ []) refl refl refl
