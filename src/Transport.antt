-- ===== src/Transport.antt =====
-- `UnicoreTransport` of src/unicore_transport.cpp and its header: the receive buffer that is cut
-- into ASCII lines and binary frames. Drain has the loop of `drain`. Counters are
-- `std::size_t`, which wraps at 2 ^ 64.
pub mod Drain
pub mod Total
pub mod Ascii
pub mod Stream
pub mod FrameRound
pub mod LineRound
pub mod Chunks
pub mod Segments
pub mod Corrupt
use Prim.Native.String.{String}
use text.Mathlib.Text.{◌==◌ as str_eq}
use unicore_ros.Base.{
  ℕ, ◌+◌, ◌-◌, ◌%◌, ◌^◌, Bool, false, not, ◌&&◌, Option, none, some, List, [], ◌∷◌, ◌++◌, ltb, ◌==◌,
  if◌then◌else◌, length, take, drop, get_or,
}
use unicore_ros.Wire.{Bytes, read_le16, read_le32, crc32_unicore_binary}

abbrev pub header_size : ℕ
header_size = 24

abbrev pub crc_size : ℕ
crc_size = 4

pub data EventKind : Type 0 where
  ascii_line binary_frame : EventKind

pub record Frame : Type 0 where
  pub header_length : ℕ
  pub cpu_idle : ℕ
  pub message_id : ℕ
  pub payload_length : ℕ
  pub time_ref : ℕ
  pub time_status : ℕ
  pub week : ℕ
  pub milliseconds : ℕ
  pub version : ℕ
  pub leap_seconds : ℕ
  pub delay_ms : ℕ
  pub crc_valid : Bool
  pub crc32 : ℕ
  pub payload : Bytes

pub record Event : Type 0 where
  pub kind : EventKind
  pub line : Bytes
  pub frame : Option Frame

pub record Options : Type 0 where
  pub enable_binary : Bool
  pub strict_binary_crc : Bool
  pub binary_max_frame_size : ℕ

pub record Counters : Type 0 where
  pub frames_total : ℕ
  pub crc_errors : ℕ
  pub resync_count : ℕ
  pub sync_candidates : ℕ
  pub last_header_length : Option ℕ
  pub last_payload_length : Option ℕ
  pub frame_parse_errors_by_reason : List (String × ℕ)

pub record Transport : Type 0 where
  pub options : Options
  pub buffer : Bytes
  pub counters : Counters
  pub counted_sync_candidate : Bool

-- `++` on a `std::size_t`.
abbrev pub increment : ℕ → ℕ
increment n = (n + 1) % 2 ^ 64

abbrev pub default_counters : Counters
default_counters = record {
  frames_total = 0;
  crc_errors = 0;
  resync_count = 0;
  sync_candidates = 0;
  last_header_length = none;
  last_payload_length = none;
  frame_parse_errors_by_reason = [];
}

unfoldable pub init : Options → Transport
init options = record {
  options = options;
  buffer = [];
  counters = default_counters;
  counted_sync_candidate = false;
}

unfoldable pub set_options : Options → Transport → Transport
set_options options t = record t { options = options }

-- The null pointer and the size 0 both append nothing.
unfoldable pub append : Bytes → Transport → Transport
append bytes t = record t { buffer = t.buffer ++ bytes }

unfoldable pub clear : Transport → Transport
clear t = record t { buffer = []; counted_sync_candidate = false }

unfoldable pub buffered_bytes : Transport → ℕ
buffered_bytes t = length t.buffer

unfoldable pub binary_counters : Transport → Counters
binary_counters t = t.counters

-- `++map[reason]`: a missing key starts at 0.
pub increment_at : String → List (String × ℕ) → List (String × ℕ)
increment_at reason [] = (reason, increment 0) ∷ []
increment_at reason ((key, n) ∷ rest) =
    if str_eq key reason then (key, increment n) ∷ rest else (key, n) ∷ increment_at reason rest

unfoldable pub count_binary_parse_reason : String → Transport → Transport
unfolding increment_at
count_binary_parse_reason reason t = record t {
  counters = record (t.counters) {
    frame_parse_errors_by_reason = increment_at reason t.counters.frame_parse_errors_by_reason;
  };
}

-- `buffer_.erase(0, n)`, one resync, and the flag down.
unfoldable pub resync : ℕ → Transport → Transport
resync n t = record t {
  buffer = drop n t.buffer;
  counters = record (t.counters) { resync_count = increment t.counters.resync_count };
  counted_sync_candidate = false;
}

-- `raw[n]`, at a position that the caller has checked.
abbrev pub byte_at : Bytes → ℕ → ℕ
byte_at raw n = get_or raw n 0

unfoldable pub decode_frame : Bool → ℕ → ℕ → Bytes → Frame
decode_frame crc_ok expected_crc payload_length raw = record {
  header_length = header_size;
  cpu_idle = byte_at raw 3;
  message_id = read_le16 (drop 4 raw);
  payload_length = payload_length;
  time_ref = byte_at raw 8;
  time_status = byte_at raw 9;
  week = read_le16 (drop 10 raw);
  milliseconds = read_le32 (drop 12 raw);
  version = read_le32 (drop 16 raw);
  leap_seconds = byte_at raw 21;
  delay_ms = read_le16 (drop 22 raw);
  crc_valid = crc_ok;
  crc32 = expected_crc;
  payload = take payload_length (drop header_size raw);
}

abbrev pub frame_event : Frame → Event
frame_event f = record { kind = binary_frame; line = []; frame = some f }

abbrev pub line_event : Bytes → Event
line_event l = record { kind = ascii_line; line = l; frame = none }

unfoldable pub count_crc_error : Transport → Transport
unfolding count_binary_parse_reason
count_crc_error t =
    count_binary_parse_reason "crc_mismatch"
      (record t { counters = record (t.counters) { crc_errors = increment t.counters.crc_errors } })

-- The frame leaves the buffer as an event.
unfoldable pub accept_frame : Frame → ℕ → Transport → Transport × List Event
accept_frame f frame_size t = (
  record t {
    buffer = drop frame_size t.buffer;
    counters = record (t.counters) {
      frames_total = increment t.counters.frames_total;
      last_header_length = some header_size;
      last_payload_length = some f.payload_length;
    };
    counted_sync_candidate = false;
  },
  frame_event f ∷ [],
)

-- From the comparison of the two CRCs on.
unfoldable pub check_frame : Bool → ℕ → ℕ → Transport → Transport × List Event
unfolding count_crc_error resync accept_frame
check_frame crc_ok expected_crc payload_length t =
    let f = decode_frame crc_ok expected_crc payload_length t.buffer in
    let size = header_size + payload_length + crc_size in
    let counted = if crc_ok then t else count_crc_error t in
    if not crc_ok && t.options.strict_binary_crc
    then (resync 1 counted, [])
    else accept_frame f size counted

-- The values that `try_extract_binary_frame` reads from the front of the buffer.
abbrev pub payload_length : Bytes → ℕ
payload_length raw = read_le16 (drop 6 raw)

abbrev pub frame_size : Bytes → ℕ
frame_size raw = header_size + payload_length raw + crc_size

abbrev pub expected_crc : Bytes → ℕ
expected_crc raw = read_le32 (drop (frame_size raw - crc_size) raw)

abbrev pub actual_crc : Bytes → ℕ
actual_crc raw = crc32_unicore_binary (take (frame_size raw - 4) raw)

-- `none` is the result `false`: nothing has changed, and more bytes are needed.
unfoldable pub try_extract_binary_frame : Transport → Option (Transport × List Event)
try_extract_binary_frame t =
    if ltb (length t.buffer) (header_size + crc_size)
    then none
    else if ltb t.options.binary_max_frame_size (frame_size t.buffer)
    then some (count_binary_parse_reason "frame_too_large" (resync 1 t), [])
    else if ltb (length t.buffer) (frame_size t.buffer)
    then none
    else some (
        check_frame (expected_crc t.buffer == actual_crc t.buffer) (expected_crc t.buffer)
          (payload_length t.buffer) t)
