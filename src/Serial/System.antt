-- ===== src/Serial/System.antt =====
-- The system calls of src/serial_port.cpp, and what the driver relies on of them.
use unicore_ros.Base.{
  ℕ, ◌≤◌, ◌<◌, ◌≡◌, ◌==◌, ◌&&◌, ◌||◌, not, Bool, false, Option, none, some, List, [], ◌∷◌, ◌++◌,
  length, take,
}
use unicore_ros.Base.Text.{Text}
use unicore_ros.Wire.{Bytes}
use unicore_ros.Serial.Termios.{Termios}

-- The values of `errno` that the code tells apart.
pub data Errno : Type 0 where
  eintr eagain ebadf einval : Errno
  other : ℕ → Errno

-- The result of `::write`, and of `::poll` for one descriptor.
pub data Written : Type 0 where
  wrote : ℕ → Written
  failed : Errno → Written

pub data Polled : Type 0 where
  -- More than 0: whether `revents` holds `POLLOUT`.
  ready : Bool → Polled
  timed_out : Polled
  failed : Errno → Polled

-- The result of `::read`: the bytes, none of them at the end of the input.
pub data Received : Type 0 where
  got : Bytes → Received
  failed : Errno → Received

pub record System : Type 1 where
  pub World : Type 0
  -- `none` is a negative descriptor.
  pub open_device : Text → World → Option ℕ × World
  pub close : ℕ → World → World
  -- `none` is a result other than 0.
  pub tcgetattr : ℕ → World → Option Termios × World
  -- Whether the result is 0.
  pub tcsetattr : ℕ → Termios → World → Bool × World
  pub tcflush : ℕ → World → World
  pub write : ℕ → Bytes → World → Written × World
  pub poll : ℕ → World → Polled × World
  -- At most so many bytes.
  pub read : ℕ → ℕ → World → Received × World

-- What a descriptor has been given by `::write`: the bytes counted by a positive result, which are at
-- most those offered; nothing else changes it.
pub record IsWriter (S : System) : Type 1 where
  pub output : ℕ → S.World → Bytes
  pub wrote-le :
      (fd : ℕ) (bytes : Bytes) (w : S.World) (n : ℕ)
      → (S.write fd bytes w).0 ≡ Written.wrote n
      → n ≤ length bytes
  pub output-wrote :
      (fd : ℕ) (bytes : Bytes) (w : S.World) (n : ℕ)
      → (S.write fd bytes w).0 ≡ Written.wrote n
      → output fd (S.write fd bytes w).1 ≡ output fd w ++ take n bytes
  pub output-failed :
      (fd : ℕ) (bytes : Bytes) (w : S.World) (e : Errno)
      → (S.write fd bytes w).0 ≡ Written.failed e
      → output fd (S.write fd bytes w).1 ≡ output fd w
  pub output-poll : (fd : ℕ) (w : S.World) → output fd (S.poll fd w).1 ≡ output fd w

-- The interruptions and waits that the system still makes, which each of them uses up.
pub record IsPatient (S : System) : Type 1 where
  pub patience : S.World → ℕ
  pub patience-write :
      (fd : ℕ) (bytes : Bytes) (w : S.World) → patience (S.write fd bytes w).1 ≤ patience w
  pub patience-interrupted :
      (fd : ℕ) (bytes : Bytes) (w : S.World) (e : Errno)
      → (S.write fd bytes w).0 ≡ Written.failed e
      → patience (S.write fd bytes w).1 < patience w
  pub patience-poll : (fd : ℕ) (w : S.World) → patience (S.poll fd w).1 ≤ patience w
  pub patience-poll_failed :
      (fd : ℕ) (w : S.World) (e : Errno)
      → (S.poll fd w).0 ≡ Polled.failed e
      → patience (S.poll fd w).1 < patience w

-- Which descriptors the process holds: `::open` gives one that it did not hold, and `::close` gives
-- one back, also when it reports an error, and has no effect on a descriptor that is not held.
pub record IsHolding (S : System) : Type 1 where
  pub holds : ℕ → S.World → Bool
  pub open_device-new :
      (device : Text) (w : S.World) (fd : ℕ)
      → (S.open_device device w).0 ≡ some fd
      → holds fd w ≡ false
  pub holds-open_device :
      (device : Text) (w : S.World) (fd x : ℕ)
      → (S.open_device device w).0 ≡ some fd
      → holds x (S.open_device device w).1 ≡ (fd == x || holds x w)
  pub holds-open_device_failed :
      (device : Text) (w : S.World) (x : ℕ)
      → (S.open_device device w).0 ≡ none
      → holds x (S.open_device device w).1 ≡ holds x w
  pub holds-close : (fd x : ℕ) (w : S.World) → holds x (S.close fd w) ≡ (not (fd == x) && holds x w)
  pub holds-tcgetattr : (fd x : ℕ) (w : S.World) → holds x (S.tcgetattr fd w).1 ≡ holds x w
  pub holds-tcsetattr :
      (fd x : ℕ) (tty : Termios) (w : S.World) → holds x (S.tcsetattr fd tty w).1 ≡ holds x w
  pub holds-tcflush : (fd x : ℕ) (w : S.World) → holds x (S.tcflush fd w) ≡ holds x w

-- What the reads of a descriptor return, as they come: chunks of at least one byte, and then an end of
-- the input or an error, which ends the reading.
pub data Arrives (S : System) (limit fd : ℕ)
    : S.World → List Bytes → Received → S.World → Type 0 where
  over :
      {w w' : S.World}
      → S.read fd limit w ≡ (Received.got [], w')
      → Arrives S limit fd w [] (Received.got []) w'
  broken :
      {e : Errno} {w w' : S.World}
      → S.read fd limit w ≡ (Received.failed e, w')
      → Arrives S limit fd w [] (Received.failed e) w'
  more :
      {b : ℕ} {bytes : Bytes} {w w' : S.World} {chunks : List Bytes} {last : Received}
      {w'' : S.World}
      → S.read fd limit w ≡ (Received.got (b ∷ bytes), w')
      → Arrives S limit fd w' chunks last w''
      → Arrives S limit fd w ((b ∷ bytes) ∷ chunks) last w''
