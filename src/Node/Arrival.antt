-- ===== src/Node/Arrival.antt =====
-- One run of `poll_serial`, src/unicore_node.cpp, over what has arrived on an open port.
use unicore_ros.Base.{ℕ, ◌≡◌, Option, none, some, List}
use unicore_ros.Wire.{Bytes}
use unicore_ros.Transport.{Transport, Event}
use unicore_ros.Transport.Chunks.{feed}
use unicore_ros.Floats.{Floats}
use unicore_ros.Serial.System.{System, Errno, Received}
use unicore_ros.Serial.Port.{Port, close}
use unicore_ros.Node.Poll.{ReadState}

-- What the last read does to the port: an error other than `EAGAIN` closes it.
abbrev pub port_after : Received → Port → Port
port_after (Received.got bytes) port = port
port_after (Received.failed Errno.eagain) port = port
port_after (Received.failed e) port = record port { fd = none }

module _ (S : System) (fd : ℕ) where
  abbrev pub world_after : Received → S.World → S.World
  world_after (Received.got bytes) w = w
  world_after (Received.failed Errno.eagain) w = w
  world_after (Received.failed e) w = S.close fd w

  -- The loop is `feed` on the chunks that the reads return.
  abbrev Feeds :
      List Bytes → Received → S.World → Port → Transport → Option (ReadState S.World) → Type 0
  Feeds chunks last w' port t result =
      (u : Transport) × (events : List Event) × (feed chunks t ≡ some (u, events))
      × (result
          ≡ some (record {
            serial = port_after last port;
            transport = u;
            events = events;
            world = world_after last w';
          }))
