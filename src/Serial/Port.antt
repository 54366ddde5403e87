-- ===== src/Serial/Port.antt =====
-- The state and the operations of `SerialPort`, src/serial_port.cpp.
use unicore_ros.Base.{
  [], ◌∷◌, ℕ, zero, suc, Bool, true, false, Option, none, some, ltb, ◌==◌, if◌then◌else◌, drop, ◌+◌,
}
use unicore_ros.Base.Text.{Text}
use unicore_ros.Wire.{Bytes}
use unicore_ros.Serial.System.{System, Errno, Written, Polled, Received}
use unicore_ros.Serial.Termios.{Termios, raw_mode, to_termios_baud, set_speed}

-- `fd` is `none` where the source has -1.
pub record Port : Type 0 where
  pub device : Text
  pub baudrate : ℕ
  pub fd : Option ℕ

abbrev pub make : Text → ℕ → Port
make device baudrate = record { device = device; baudrate = baudrate; fd = none }

unfoldable pub is_open : Port → Bool
is_open port = elim port.fd [ none ↦ false | some fd ↦ true ]

abbrev pub is_eintr : Errno → Bool
is_eintr Errno.eintr = true
is_eintr e = false

-- `EAGAIN` or `EWOULDBLOCK`, which are one value.
abbrev pub is_eagain : Errno → Bool
is_eagain Errno.eagain = true
is_eagain e = false

module _ (S : System) where
  unfoldable pub close_fd : Option ℕ → S.World → S.World
  close_fd none w = w
  close_fd (some fd) w = S.close fd w

  unfoldable pub close : Port → S.World → Port × S.World
  unfolding close_fd
  close port w = (record port { fd = none }, close_fd port.fd w)

  unfoldable pub configure : Text → ℕ → Port → S.World → Port × S.World
  unfolding close
  configure device baudrate port w =
      (record { device = device; baudrate = baudrate; fd = none }, (close port w).1)

  -- The move assignment: this port is closed, takes the state of the other, and leaves it closed.
  unfoldable pub move_assign : Port → Port → S.World → (Port × Port) × S.World
  unfolding close
  move_assign port from w = ((from, record from { fd = none }), (close port w).1)

  -- From the answer of `tcsetattr` on.
  unfoldable pub finish_open : ℕ → Port → Bool × S.World → (Bool × Port) × S.World
  finish_open fd port (true, w) = ((true, record port { fd = some fd }), S.tcflush fd w)
  finish_open fd port (false, w) = ((false, record port { fd = none }), S.close fd w)

  -- From the answer of `tcgetattr` on.
  unfoldable pub apply_attributes : ℕ → Port → Option Termios × S.World → (Bool × Port) × S.World
  unfolding finish_open
  apply_attributes fd port (none, w) = ((false, record port { fd = none }), S.close fd w)
  apply_attributes fd port (some tty, w) =
      let speed = to_termios_baud port.baudrate in
      if speed == 0
      then ((false, record port { fd = none }), S.close fd w)
      else finish_open fd port (S.tcsetattr fd (set_speed speed (raw_mode tty)) w)

  -- From the answer of `::open` on.
  unfoldable pub opened : Port → Option ℕ × S.World → (Bool × Port) × S.World
  unfolding apply_attributes
  opened port (none, w) = ((false, record port { fd = none }), w)
  opened port (some fd, w) = apply_attributes fd port (S.tcgetattr fd w)

  unfoldable pub open_closed : Port → S.World → (Bool × Port) × S.World
  unfolding opened
  open_closed port w = opened port (S.open_device port.device w)

  unfoldable pub open_port : Port → S.World → (Bool × Port) × S.World
  unfolding open_closed
  open_port port w = elim port.fd [ none ↦ open_closed port w | some fd ↦ ((true, port), w) ]

  -- A closed port fails at once.
  unfoldable pub read : Port → ℕ → S.World → Received × S.World
  read port max_len w = elim port.fd [
    | none ↦ (Received.failed Errno.ebadf, w)
    | some fd ↦ S.read fd max_len w
  ]

  -- The loop of `wait_writable`; `none` means that the fuel ran out.
  unfoldable pub wait_loop : ℕ → ℕ → S.World → Option (Bool × S.World)
  wait_loop zero fd w = none
  wait_loop (suc fuel) fd w = elim (S.poll fd w).0 [
    | Polled.ready out ↦ some (out, (S.poll fd w).1)
    | Polled.timed_out ↦ some (false, (S.poll fd w).1)
    | Polled.failed e ↦
        let again = wait_loop fuel fd (S.poll fd w).1 in
        if is_eintr e then again else some (false, (S.poll fd w).1)
  ]

  -- The loop of `write` at `total_written`: the bytes from there on are `rest`. The result is the
  -- total, or none for -1.
  unfoldable pub write_loop : ℕ → ℕ → Bytes → ℕ → S.World → Option (Option ℕ × S.World)
  write_loop zero fd rest total w = none
  write_loop (suc fuel) fd [] total w = some (some total, w)
  write_loop (suc fuel) fd (b ∷ rest) total w = elim (S.write fd (b ∷ rest) w).0 [
    | Written.wrote n ↦
        let next = write_loop fuel fd (drop n (b ∷ rest)) (total + n) (S.write fd (b ∷ rest) w).1 in
        if ltb 0 n then next else some (none, (S.write fd (b ∷ rest) w).1)
    | Written.failed e ↦
        let again = write_loop fuel fd (b ∷ rest) total (S.write fd (b ∷ rest) w).1 in
        let waited : Option (Option ℕ × S.World) =
          elim (wait_loop fuel fd (S.write fd (b ∷ rest) w).1) [
            | none ↦ none
            | some (out, w') ↦
                let later = write_loop fuel fd (b ∷ rest) total w' in
                if out then later else some (none, w')
          ] in
        if is_eintr e
        then again
        else if is_eagain e
        then waited
        else some (none, (S.write fd (b ∷ rest) w).1)
  ]

  -- A closed port fails at once.
  unfoldable pub write : ℕ → Port → Bytes → S.World → Option (Option ℕ × S.World)
  unfolding write_loop wait_loop
  write fuel port buffer w = elim port.fd [
    | none ↦ some (none, w)
    | some fd ↦ write_loop fuel fd buffer 0 w
  ]
