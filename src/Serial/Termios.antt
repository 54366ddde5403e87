-- ===== src/Serial/Termios.antt =====
-- The terminal attributes that `SerialPort::open` of src/serial_port.cpp sets. A flag word is the
-- function that says which flags are up.
use unicore_ros.Base.{ℕ, Bool, true, false, ◌==◌, if◌then◌else◌}

-- The flags of `c_iflag`, `c_cflag` and `c_lflag` that the code names.
pub data Flag : Type 0 where
  ixon ixoff ixany icrnl inlcr igncr istrip inpck ignbrk : Flag
  parenb cstopb crtscts cread clocal : Flag
  echo echoe echonl icanon isig iexten : Flag
  other : ℕ → Flag

-- `CSIZE` is the mask of the character size, and `CS8` is one of its values.
pub data CharSize : Type 0 where
  cs5 cs6 cs7 cs8 : CharSize

pub record Termios : Type 0 where
  pub is_up : Flag → Bool
  pub char_size : CharSize
  -- Whether any flag of `c_oflag` is up.
  pub output_processing : Bool
  pub vmin : ℕ
  pub vtime : ℕ
  pub input_speed : ℕ
  pub output_speed : ℕ

-- `&= ~(...)` of the flags that the code clears.
unfoldable pub clear_flags : (Flag → Bool) → Flag → Bool
clear_flags up (Flag.cread) = up Flag.cread
clear_flags up (Flag.clocal) = up Flag.clocal
clear_flags up (Flag.other n) = up (Flag.other n)
clear_flags up flag = false

-- `|= CREAD | CLOCAL`.
unfoldable pub set_flags : (Flag → Bool) → Flag → Bool
set_flags up (Flag.cread) = true
set_flags up (Flag.clocal) = true
set_flags up flag = up flag

-- The attributes before the speed is set.
unfoldable pub raw_mode : Termios → Termios
unfolding clear_flags set_flags
raw_mode tty = record tty {
  is_up = set_flags (clear_flags tty.is_up);
  char_size = CharSize.cs8;
  output_processing = false;
  vmin = 0;
  vtime = 0;
}

-- The constant of a baud rate is that rate, and `B0` is 0.
unfoldable pub to_termios_baud : ℕ → ℕ
to_termios_baud baudrate =
    if baudrate == 9600
    then 9600
    else if baudrate == 19200
    then 19200
    else if baudrate == 38400
    then 38400
    else if baudrate == 57600
    then 57600
    else if baudrate == 115200
    then 115200
    else if baudrate == 230400
    then 230400
    else if baudrate == 460800
    then 460800
    else if baudrate == 921600
    then 921600
    else 0

-- `cfsetispeed` and `cfsetospeed`.
unfoldable pub set_speed : ℕ → Termios → Termios
set_speed speed tty = record tty { input_speed = speed; output_speed = speed }
