-- ===== src/Checks/Arrivals.antt =====
-- The theorem on `poll_serial` of src/unicore_node.cpp at a system in which two reads find bytes.
use unicore_ros.Base.{ℕ, true, false, none, some, List, [], ◌∷◌}
use unicore_ros.Base.Text.{codes}
use unicore_ros.Wire.{Bytes}
use unicore_ros.Transport.{Transport, init}
use unicore_ros.Serial.System.{System, Errno, Written, Polled, Received}
use unicore_ros.Serial.Port.{make}
use unicore_ros.Node.Rtcm.{Link}

-- What arrives: chunks by their first byte and the others.
abbrev Arriving : Type 0
Arriving = List (ℕ × Bytes)

abbrev chunks_of : Arriving → List Bytes
chunks_of [] = []
chunks_of ((b, bytes) ∷ w) = (b ∷ bytes) ∷ chunks_of w

abbrev receive : Arriving → Received × Arriving
receive [] = (Received.failed Errno.eagain, [])
receive ((b, bytes) ∷ w) = (Received.got (b ∷ bytes), w)

-- Nothing else of this system does anything.
abbrev arriving_system : System
arriving_system = record {
  World = Arriving;
  open_device = λ device w. (none, w);
  close = λ fd w. w;
  tcgetattr = λ fd w. (none, w);
  tcsetattr = λ fd tty w. (false, w);
  tcflush = λ fd w. w;
  write = λ fd bytes w. (Written.failed (Errno.other 5), w);
  poll = λ fd w. (Polled.timed_out, w);
  read = λ fd limit w. receive w;
}

-- A line in two parts.
abbrev two_parts : Arriving
two_parts = (b'$', codes "GN*5") ∷ (b'B', 10 ∷ []) ∷ []

abbrev idle : Link
idle = record {
  serial = record (make (codes "/dev/gps") 921600) { fd = some 3 };
  transport =
      init
        (record { enable_binary = true; strict_binary_crc = true; binary_max_frame_size = 4096 });
  last_open_attempt = none;
  rtcm_message_count = 0;
  rtcm_byte_count = 0;
  rtcm_history = [];
}
