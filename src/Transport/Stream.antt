-- ===== src/Transport/Stream.antt =====
-- What a receiver sends, described without src/unicore_transport.cpp: binary frames laid out byte
-- by byte, and ASCII lines ended by CR LF, one after the other.
use unicore_ros.Base.{ℕ, ◌+◌, ◌^◌, ◌≤◌, ◌<◌, ◌≡◌, ◌⊎◌, true, List, [], ◌∷◌, ◌++◌, length, All}
use unicore_ros.Wire.{Bytes, IsByte, crc32_unicore_binary}
use unicore_ros.Wire.Fields.{le16, le32}
use unicore_ros.Wire.Search.{Absent}
use unicore_ros.Transport.{Frame, Event, frame_event, line_event}

-- The header, its reserved byte 20 given, in front of `rest`.
abbrev pub header : ℕ → Frame → Bytes → Bytes
header reserved f rest =
    0xAA
    ∷ 0x44
    ∷ 0xB5
    ∷ f.cpu_idle
    ∷ (le16 f.message_id
        ++ (le16 f.payload_length
            ++ (f.time_ref
                ∷ f.time_status
                ∷ (le16 f.week
                    ++ (le32 f.milliseconds
                        ++ (le32 f.version
                            ++ (reserved ∷ f.leap_seconds ∷ (le16 f.delay_ms ++ rest))))))))

abbrev pub encode : ℕ → Frame → Bytes
encode reserved f = header reserved f (f.payload ++ le32 f.crc32)

-- A frame that the receiver may send, and that the driver's size limit lets through.
pub record IsFrame (max : ℕ) (reserved : ℕ) (f : Frame) : Type 0 where
  pub header_length_is : f.header_length ≡ 24
  pub cpu_idle_fits : f.cpu_idle < 2 ^ 8
  pub message_id_fits : f.message_id < 2 ^ 16
  pub payload_length_is : f.payload_length ≡ length f.payload
  pub payload_length_fits : f.payload_length < 2 ^ 16
  pub time_ref_fits : f.time_ref < 2 ^ 8
  pub time_status_fits : f.time_status < 2 ^ 8
  pub week_fits : f.week < 2 ^ 16
  pub milliseconds_fits : f.milliseconds < 2 ^ 32
  pub version_fits : f.version < 2 ^ 32
  pub reserved_fits : reserved < 2 ^ 8
  pub leap_seconds_fits : f.leap_seconds < 2 ^ 8
  pub delay_ms_fits : f.delay_ms < 2 ^ 16
  pub payload_bytes : All IsByte f.payload
  pub crc_is_valid : f.crc_valid ≡ true
  pub crc32_is : f.crc32 ≡ crc32_unicore_binary (header reserved f f.payload)
  pub size_fits : 28 + f.payload_length ≤ max

-- A line holds no newline and no first byte of the sync pattern.
pub record IsLine (line : Bytes) : Type 0 where
  pub first : ℕ
  pub rest : Bytes
  pub splits : line ≡ first ∷ rest
  pub marked : (first ≡ b'$') ⊎ (first ≡ b'#')
  pub no_newline : Absent b'\n' line
  pub no_sync : Absent 0xAA line

pub data Item : Type 0 where
  line : Bytes → Item
  frame : ℕ → Frame → Item

abbrev pub IsItem : ℕ → Item → Type 0
IsItem max (line l) = IsLine l
IsItem max (frame reserved f) = IsFrame max reserved f

abbrev pub wire_item : Item → Bytes
wire_item (line l) = l ++ (b'\r' ∷ b'\n' ∷ [])
wire_item (frame reserved f) = encode reserved f

abbrev pub wire : List Item → Bytes
wire [] = []
wire (i ∷ items) = wire_item i ++ wire items

abbrev pub event_of : Item → Event
event_of (line l) = line_event l
event_of (frame reserved f) = frame_event f

abbrev pub events_of : List Item → List Event
events_of [] = []
events_of (i ∷ items) = event_of i ∷ events_of items
