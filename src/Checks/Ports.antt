-- ===== src/Checks/Ports.antt =====
-- The theorems on src/serial_port.cpp at a system that is interrupted a few times, takes one byte per
-- call and knows its descriptors.
use unicore_ros.Base.{
  ℕ, Bool, false, none, not, ◌&&◌, ◌||◌, ◌==◌, zero, suc, ◌≤◌, ◌<◌, ◌≡◌, refl, sym, ap, ◌∙◌, true,
  false, Option, some, [], ◌∷◌, ◌++◌, append-nil, arith, length, take,
}
use unicore_ros.Base.Text.{codes}
use unicore_ros.Wire.{Bytes}
use unicore_ros.Serial.System.{
  System, Errno, Written, Polled, Received, IsWriter, IsPatient, IsHolding,
}
use unicore_ros.Serial.Termios.{Termios, CharSize}
use unicore_ros.Serial.Port.{Port, make, is_open, close, configure, move_assign, open_port, write}
use unicore_ros.Serial.Write.{Sent, write-Sent}
use unicore_ros.Serial.Held.{lost, Attempt, open_port-Owns, close-Owns}

-- The interruptions left, the output, the descriptors held, and the next one, which can be opened if it
-- is not held.
pub record State : Type 0 where
  pub interruptions : ℕ
  pub output : Bytes
  pub held : ℕ → Bool
  pub next_fd : ℕ

abbrev pub some_tty : Termios
some_tty = record {
  is_up = λ flag. true;
  char_size = CharSize.cs5;
  output_processing = true;
  vmin = 1;
  vtime = 5;
  input_speed = 9600;
  output_speed = 9600;
}

-- An interrupted call leaves one interruption less.
abbrev pub write_state : ℕ → Bytes → State → Written × State
write_state zero [] w = (Written.wrote 0, w)
write_state zero (b ∷ bytes) w = (Written.wrote 1, record w { output = w.output ++ (b ∷ []) })
write_state (suc n) bytes w = (Written.failed Errno.eintr, record w { interruptions = n })

abbrev pub poll_state : ℕ → State → Polled × State
poll_state zero w = (Polled.ready true, w)
poll_state (suc n) w = (Polled.failed Errno.eintr, record w { interruptions = n })

abbrev pub open_state : Bool → State → Option ℕ × State
open_state true w = (none, w)
open_state false w =
    (some w.next_fd, record w { held = λ x. w.next_fd == x || w.held x; next_fd = suc w.next_fd })

abbrev pub small_system : System
small_system = record {
  World = State;
  open_device = λ device w. open_state (w.held w.next_fd) w;
  close = λ fd w. record w { held = λ x. not (fd == x) && w.held x };
  tcgetattr = λ fd w. (some some_tty, w);
  tcsetattr = λ fd tty w. (true, w);
  tcflush = λ fd w. w;
  write = λ fd bytes w. write_state w.interruptions bytes w;
  poll = λ fd w. poll_state w.interruptions w;
  read = λ fd limit w. (Received.failed Errno.eagain, w);
}

wrote_size : {a b : ℕ} → Written.wrote a ≡ Written.wrote b → a ≡ b
wrote_size e = cc

pub wrote_le :
    (i : ℕ) (bytes : Bytes) (w : State) (n : ℕ)
    → (write_state i bytes w).0 ≡ Written.wrote n
    → n ≤ length bytes
wrote_le zero [] w n e = omega (arith, wrote_size e)
wrote_le zero (b ∷ bytes) w n e = omega (arith, wrote_size e)
wrote_le (suc i) bytes w n e = cc

pub output_wrote :
    (i : ℕ) (bytes : Bytes) (w : State) (n : ℕ)
    → (write_state i bytes w).0 ≡ Written.wrote n
    → (write_state i bytes w).1.output ≡ w.output ++ take n bytes
output_wrote zero [] w n e =
    sym (append-nil w.output) ∙ ap (λ (m : ℕ). w.output ++ take m []) (wrote_size e)
output_wrote zero (b ∷ bytes) w n e = ap (λ (m : ℕ). w.output ++ take m (b ∷ bytes)) (wrote_size e)
output_wrote (suc i) bytes w n e = cc

pub output_failed :
    (i : ℕ) (bytes : Bytes) (w : State) (e : Errno)
    → (write_state i bytes w).0 ≡ Written.failed e
    → (write_state i bytes w).1.output ≡ w.output
output_failed zero [] w err e = cc
output_failed zero (b ∷ bytes) w err e = cc
output_failed (suc i) bytes w err e = refl

pub output_poll : (i : ℕ) (w : State) → (poll_state i w).1.output ≡ w.output
output_poll zero w = refl
output_poll (suc i) w = refl

pub patience_write :
    (i : ℕ) (bytes : Bytes) (w : State)
    → i ≡ w.interruptions
    → (write_state i bytes w).1.interruptions ≤ w.interruptions
patience_write zero [] w h = omega arith
patience_write zero (b ∷ bytes) w h = omega arith
patience_write (suc i) bytes w h = omega arith

pub patience_interrupted :
    (i : ℕ) (bytes : Bytes) (w : State) (e : Errno)
    → i ≡ w.interruptions
    → (write_state i bytes w).0 ≡ Written.failed e
    → (write_state i bytes w).1.interruptions < w.interruptions
patience_interrupted zero [] w err h e = cc
patience_interrupted zero (b ∷ bytes) w err h e = cc
patience_interrupted (suc i) bytes w err h e = omega arith

pub patience_poll :
    (i : ℕ) (w : State) → i ≡ w.interruptions → (poll_state i w).1.interruptions ≤ w.interruptions
patience_poll zero w h = omega arith
patience_poll (suc i) w h = omega arith

pub patience_poll_failed :
    (i : ℕ) (w : State) (e : Errno)
    → i ≡ w.interruptions
    → (poll_state i w).0 ≡ Polled.failed e
    → (poll_state i w).1.interruptions < w.interruptions
patience_poll_failed zero w err h e = cc
patience_poll_failed (suc i) w err h e = omega arith

abbrev pub writer : IsWriter small_system
writer = record {
  output = λ fd w. w.output;
  wrote-le = λ fd bytes w n e. wrote_le w.interruptions bytes w n e;
  output-wrote = λ fd bytes w n e. output_wrote w.interruptions bytes w n e;
  output-failed = λ fd bytes w err e. output_failed w.interruptions bytes w err e;
  output-poll = λ fd w. output_poll w.interruptions w;
}

abbrev pub patient : IsPatient small_system
patient = record {
  patience = λ w. w.interruptions;
  patience-write = λ fd bytes w. patience_write w.interruptions bytes w refl;
  patience-interrupted =
      λ fd bytes w err e. patience_interrupted w.interruptions bytes w err refl e;
  patience-poll = λ fd w. patience_poll w.interruptions w refl;
  patience-poll_failed = λ fd w err e. patience_poll_failed w.interruptions w err refl e;
}

opened_fd :
    (used : Bool) (w : State) (fd : ℕ)
    → (open_state used w).0 ≡ some fd
    → (used ≡ false) × (w.next_fd ≡ fd)
opened_fd true w fd e = cc
opened_fd false w fd e = (refl, cc)

opened_held :
    (used : Bool) (w : State) (fd x : ℕ)
    → (open_state used w).0 ≡ some fd
    → (open_state used w).1.held x ≡ (fd == x || w.held x)
opened_held true w fd x e = cc
opened_held false w fd x e = ap (λ (n : ℕ). n == x || w.held x) ((opened_fd false w fd e).1)

failed_held :
    (used : Bool) (w : State) (x : ℕ)
    → (open_state used w).0 ≡ none
    → (open_state used w).1.held x ≡ w.held x
failed_held true w x e = refl
failed_held false w x e = cc

new_fd :
    (used : Bool) (w : State) (fd : ℕ)
    → used ≡ w.held w.next_fd
    → (open_state used w).0 ≡ some fd
    → w.held fd ≡ false
new_fd used w fd same e =
    let (free, this) = opened_fd used w fd e in
    ap (λ (n : ℕ). w.held n) (sym this) ∙ (sym same ∙ free)

abbrev holding : IsHolding small_system
holding = record {
  holds = λ x w. w.held x;
  open_device-new = λ device w fd e. new_fd (w.held w.next_fd) w fd refl e;
  holds-open_device = λ device w fd x e. opened_held (w.held w.next_fd) w fd x e;
  holds-open_device_failed = λ device w x e. failed_held (w.held w.next_fd) w x e;
  holds-close = λ fd x w. refl;
  holds-tcgetattr = λ fd x w. refl;
  holds-tcsetattr = λ fd x tty w. refl;
  holds-tcflush = λ fd x w. refl;
}

-- Two interruptions, and the descriptors 7 and 8.
abbrev pub start : State
start = record { interruptions = 2; output = []; held = λ x. x == 7 || x == 8; next_fd = 9 }

abbrev pub closed_port : Port
closed_port = make (codes "/dev/ttyUSB0") 115200

abbrev pub open_one : Port
open_one = record closed_port { fd = some 7 }

abbrev other_one : Port
other_one = record closed_port { fd = some 8 }

write-Sent_example :
    (r : Option ℕ) × (w' : State) × (write small_system 20 open_one (codes "LOG") start
      ≡ some (r, w'))
    × Sent small_system writer patient 7 0 (codes "LOG") start r w'
write-Sent_example =
    write-Sent small_system writer patient 20 open_one 7 (codes "LOG") start refl (omega arith)

open_port-Owns_example :
    Attempt small_system holding 9 false closed_port (open_port small_system closed_port start)
open_port-Owns_example = open_port-Owns small_system holding closed_port start 9 refl

-- One port takes the descriptor of another.
close-Owns_example :
    (((close small_system open_one start).1.held 8 ≡ true)
      × (is_open (close small_system open_one start).0 ≡ false))
    × (((configure small_system (codes "/dev/ttyACM0") 460800 open_one start).1.held 8 ≡ true)
        × ((configure small_system (codes "/dev/ttyACM0") 460800 open_one start).0
            ≡ make (codes "/dev/ttyACM0") 460800))
    × (((move_assign small_system open_one other_one start).1.held 8 ≡ true)
        × ((move_assign small_system open_one other_one start).0.0 ≡ other_one)
        × (is_open (move_assign small_system open_one other_one start).0.1 ≡ false)
        × (lost small_system holding
              (move_assign small_system open_one other_one start).0.0
              8
              (move_assign small_system open_one other_one start).1
            ≡ false))
close-Owns_example =
    close-Owns small_system holding (codes "/dev/ttyACM0") 460800 open_one other_one start 8 refl
      refl
