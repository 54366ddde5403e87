-- ===== src/Node/Rtcm.antt =====
-- The serial side of src/unicore_node.cpp: `ensure_serial_open` and `handle_rtcm`.
use unicore_ros.Base.{
  ℕ, ◌+◌, ◌%◌, ◌^◌, Bool, true, false, not, Option, none, some, List, [], ◌∷◌, ◌++◌, ltb,
  if◌then◌else◌, length, drop,
}
use unicore_ros.Wire.{Bytes}
use unicore_ros.Transport.{Transport, increment, clear}
use unicore_ros.Floats.{Floats}
use unicore_ros.Serial.System.{System}
use unicore_ros.Serial.Port.{Port, is_open, open_port, close, write}
use unicore_ros.Node.Active.{age_seconds}

-- The part of the node's state that belongs to the port.
pub record Link : Type 0 where
  pub serial : Port
  pub transport : Transport
  pub last_open_attempt : Option ℕ
  pub rtcm_message_count : ℕ
  pub rtcm_byte_count : ℕ
  -- The oldest time first.
  pub rtcm_history : List ℕ

abbrev pub history_limit : ℕ
history_limit = 1024

-- `push_back`, and `pop_front` over the limit.
unfoldable pub push_history : ℕ → List ℕ → List ℕ
push_history now history =
    let pushed = history ++ (now ∷ []) in
    if ltb history_limit (length pushed) then drop 1 pushed else pushed

-- What a written message of `n` bytes adds.
unfoldable pub count_rtcm : ℕ → ℕ → Link → Link
unfolding push_history
count_rtcm n now link = record link {
  rtcm_message_count = increment link.rtcm_message_count;
  rtcm_byte_count = (link.rtcm_byte_count + n) % 2 ^ 64;
  rtcm_history = push_history now link.rtcm_history;
}

module _ (F : Floats) (S : System) (reconnect_interval_sec : F.D) where
  -- Whether the last attempt is too recent for another one.
  unfoldable pub waits : Option ℕ → ℕ → Bool
  waits none now = false
  waits (some attempt) now = F.less (age_seconds F attempt now) reconnect_interval_sec

  -- From the answer of `SerialPort::open` on.
  unfoldable pub opened_link : ℕ → Link → (Bool × Port) × S.World → Link × S.World
  opened_link now link ((true, port), w) = (
    record link { serial = port; last_open_attempt = some now; transport = clear link.transport },
    w,
  )
  opened_link now link ((false, port), w) =
      (record link { serial = port; last_open_attempt = some now }, w)

  unfoldable pub ensure_serial_open : ℕ → Link → S.World → Link × S.World
  unfolding is_open waits opened_link open_port
  ensure_serial_open now link w =
      if is_open link.serial
      then (link, w)
      else if waits link.last_open_attempt now
      then (link, w)
      else opened_link now link (open_port S link.serial w)

  -- From the result of `SerialPort::write` on.
  unfoldable pub written_link : ℕ → Link → Option ℕ × S.World → Link × S.World
  unfolding count_rtcm close
  written_link now link (none, w) =
      (record link { serial = (close S link.serial w).0 }, (close S link.serial w).1)
  written_link now link (some n, w) = (count_rtcm n now link, w)

  abbrev is_empty_message : Bytes → Bool
  is_empty_message [] = true
  is_empty_message (b ∷ message) = false

  -- From the second test of the port on. `none` is a `write` that runs out of fuel.
  unfoldable pub send_rtcm : ℕ → ℕ → Bytes → Link × S.World → Option (Link × S.World)
  unfolding is_open write written_link
  send_rtcm fuel now message (link, w) =
      if not (is_open link.serial)
      then some (link, w)
      else if is_empty_message message
      then some (link, w)
      else elim (write S fuel link.serial message w) [
        | none ↦ none
        | some result ↦ some (written_link now link result)
      ]

  -- The clock is read before the opening and after the writing.
  unfoldable pub handle_rtcm : ℕ → ℕ → ℕ → Bytes → Link → S.World → Option (Link × S.World)
  unfolding ensure_serial_open send_rtcm
  handle_rtcm fuel opening now message link w =
      send_rtcm fuel now message (ensure_serial_open opening link w)
