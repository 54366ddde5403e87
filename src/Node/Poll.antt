-- ===== src/Node/Poll.antt =====
-- `poll_serial` of src/unicore_node.cpp: the reads until there is nothing more, each appended and
-- drained, and the limit of the buffer. The events are those that `drain_transport` goes through.
use unicore_ros.Base.{
  ℕ, zero, suc, ◌*◌, not, Option, none, some, List, [], ◌∷◌, ◌++◌, ltb, max, if◌then◌else◌,
}
use unicore_ros.Transport.{Transport, Event, append, clear, buffered_bytes}
use unicore_ros.Transport.Drain.{drain}
use unicore_ros.Floats.{Floats}
use unicore_ros.Serial.System.{System, Errno, Received}
use unicore_ros.Serial.Port.{Port, is_open, is_eagain, close, read}
use unicore_ros.Node.Rtcm.{Link, ensure_serial_open}

-- `sizeof(buffer)`.
abbrev pub read_size : ℕ
read_size = 1024

-- What the loop leaves.
pub record ReadState (W : Type 0) : Type 0 where
  pub serial : Port
  pub transport : Transport
  pub events : List Event
  pub world : W

abbrev pub earlier : {W : Type 0} → List Event → Option (ReadState W) → Option (ReadState W)
earlier events none = none
earlier events (some r) = some (record r { events = events ++ r.events })

-- The buffer is dropped when it holds more than the limit.
unfoldable pub limit_of : ℕ → ℕ
limit_of binary_max_frame_size = max 8192 (binary_max_frame_size * 2)

unfoldable pub limited : ℕ → Transport → Transport
unfolding limit_of clear buffered_bytes
limited binary_max_frame_size t =
    if ltb (limit_of binary_max_frame_size) (buffered_bytes t) then clear t else t

module _ (S : System) where
  -- After a read that gave no bytes: only `EAGAIN` leaves the port open.
  unfoldable pub failed_read : Errno → Port → Transport → S.World → ReadState S.World
  unfolding close
  failed_read e port t w =
      if is_eagain e
      then record { serial = port; transport = t; events = []; world = w }
      else record {
        serial = (close S port w).0;
        transport = t;
        events = [];
        world = (close S port w).1;
      }

  -- The rounds allowed; `none` means that they did not suffice.
  unfoldable pub poll_loop : ℕ → Port → Transport → S.World → Option (ReadState S.World)
  unfolding read failed_read append drain
  poll_loop zero port t w = none
  poll_loop (suc fuel) port t w = elim (read S port read_size w).0 [
    | Received.got [] ↦
        some (record {
          serial = port;
          transport = t;
          events = [];
          world = (read S port read_size w).1;
        })
    | Received.got (b ∷ bytes) ↦ elim (drain (append (b ∷ bytes) t)) [
      | none ↦ none
      | some (u, events) ↦ earlier events (poll_loop fuel port u (read S port read_size w).1)
    ]
    | Received.failed e ↦ some (failed_read e port t (read S port read_size w).1)
  ]

module _ (F : Floats) (S : System) (reconnect_interval_sec : F.D) (binary_max_frame_size : ℕ) where
  -- From the test of the port on.
  unfoldable pub poll_open : ℕ → Link × S.World → Option ((Link × List Event) × S.World)
  unfolding is_open poll_loop limited
  poll_open fuel (link, w) =
      if not (is_open link.serial)
      then some ((link, []), w)
      else elim (poll_loop S fuel link.serial link.transport w) [
        | none ↦ none
        | some r ↦ some (
          (
            record link {
              serial = r.serial;
              transport = limited binary_max_frame_size r.transport;
            },
            r.events,
          ),
          r.world,
        )
      ]

  unfoldable pub poll_serial : ℕ → ℕ → Link → S.World → Option ((Link × List Event) × S.World)
  unfolding ensure_serial_open poll_open
  poll_serial fuel opening link w =
      poll_open fuel (ensure_serial_open F S reconnect_interval_sec opening link w)
