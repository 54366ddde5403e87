-- ===== src/Serial/Held.antt =====
-- The descriptor that `SerialPort` of src/serial_port.cpp owns is neither leaked nor another one closed.
use unicore_ros.Base.{
  ℕ, ◌≡◌, refl, sym, ap, ◌∙◌, inl, inr, Bool, true, false, not, ◌&&◌, ◌||◌, Option, none, some,
  arith, ◌==◌, ==_iff, Bool-cases, Option-cases,
}
use unicore_ros.Base.Text.{Text}
use unicore_ros.Serial.System.{System, IsHolding}
use unicore_ros.Serial.Termios.{Termios, raw_mode, to_termios_baud, set_speed}
use unicore_ros.Serial.Port.{
  Port, is_open, close_fd, close, configure, move_assign, finish_open, apply_attributes, opened,
  open_closed, open_port,
}

-- Whether `x` is the descriptor of a port.
abbrev pub is_owner : Option ℕ → ℕ → Bool
is_owner none x = false
is_owner (some fd) x = fd == x

given_back :
    (own held before : Bool)
    → (own ≡ true → before ≡ false)
    → held ≡ (own || before)
    → (not own && held) ≡ before
given_back true held before new e = sym (new refl)
given_back false held before new e = e

given : (own before : Bool) → (own && not before) ≡ false → before ≡ (own || before)
given own before have = ground arith

module _ (S : System) (H : IsHolding S) where
  -- Whether `x` is the descriptor of the port, but the process does not hold it.
  abbrev pub lost : Port → ℕ → S.World → Bool
  lost port x w = is_owner port.fd x && not (H.holds x w)

  -- What an attempt to open leaves of the descriptor `x`, which before it was held or not: it is held now
  -- if it is that of the port, and as before otherwise. The result says whether the port is open.
  abbrev pub Attempt : ℕ → Bool → Port → (Bool × Port) × S.World → Type 0
  Attempt x before port ((ok, p), w) =
      (H.holds x w ≡ (is_owner p.fd x || before))
      × (ok ≡ is_open p)
      × (p.device ≡ port.device)
      × (p.baudrate ≡ port.baudrate)

  module _ (x : ℕ) (before : Bool) (fd : ℕ) (new : fd == x ≡ true → before ≡ false) where
    closed_again :
        (w : S.World) → H.holds x w ≡ (fd == x || before) → H.holds x (S.close fd w) ≡ before
    closed_again w h = H.holds-close fd x w ∙ given_back (fd == x) (H.holds x w) before new h

    finish_open-Attempt :
        (port : Port) (a : Bool × S.World)
        → H.holds x a.1 ≡ (fd == x || before)
        → Attempt x before port (finish_open S fd port a)
    unfolding finish_open is_open
    finish_open-Attempt port (true, w) h = (H.holds-tcflush fd x w ∙ h, refl, refl, refl)
    finish_open-Attempt port (false, w) h = (closed_again w h, refl, refl, refl)

    apply_attributes-Attempt :
        (port : Port) (a : Option Termios × S.World)
        → H.holds x a.1 ≡ (fd == x || before)
        → Attempt x before port (apply_attributes S fd port a)
    unfolding apply_attributes is_open
    apply_attributes-Attempt port (none, w) h = (closed_again w h, refl, refl, refl)
    apply_attributes-Attempt port (some tty, w) h =
        elim (Bool-cases (to_termios_baud port.baudrate == 0)) [
          | inl e ↦ rw e (closed_again w h, refl, refl, refl)
          | inr e ↦ rw e (
              finish_open-Attempt port _ (
                H.holds-tcsetattr fd x (set_speed (to_termios_baud port.baudrate) (raw_mode tty)) w
                ∙ h))
        ]

  opened-Attempt :
      (x : ℕ) (port : Port) (device : Text) (w : S.World) (fd : Option ℕ)
      → (S.open_device device w).0 ≡ fd
      → Attempt x (H.holds x w) port (opened S port (fd, (S.open_device device w).1))
  unfolding opened is_open
  opened-Attempt x port device w none e =
      (H.holds-open_device_failed device w x e, refl, refl, refl)
  opened-Attempt x port device w (some fd) e =
      apply_attributes-Attempt x (H.holds x w) fd
        (λ same.
          ap (λ y. H.holds y w) (sym ((==_iff fd x).0 same)) ∙ H.open_device-new device w fd e)
        port (S.tcgetattr fd (S.open_device device w).1)
        (H.holds-tcgetattr fd x _ ∙ H.holds-open_device device w fd x e)

  -- If the process holds the port's descriptor before `open`, should the port have one, then whichever of
  -- the calls of `open` fails: afterwards the process holds the port's descriptor, which there is exactly
  -- when the result is `true`, and of the other descriptors those that it held before. The device and the
  -- baud rate stay.
  pub open_port-Owns :
      (port : Port) (w : S.World) (x : ℕ)
      → lost port x w ≡ false
      → Attempt x (H.holds x w) port (open_port S port w)
  unfolding open_port open_closed is_open
  open_port-Owns port w x have = elim (Option-cases port.fd) [
    | inl e ↦
        rw (e, open_port) (opened-Attempt x port port.device w (S.open_device port.device w).0 refl)
    | inr (fd, e) ↦
        rw (e, open_port)
          (given (is_owner port.fd x) (H.holds x w) have, open_now port fd e, refl, refl)
  ]
    where
      open_now : (port : Port) (fd : ℕ) → port.fd ≡ some fd → true ≡ is_open port
      open_now port fd e = rw (e, is_open) refl

  holds-close_fd :
      (x : ℕ) (fd : Option ℕ) (w : S.World)
      → H.holds x (close_fd S fd w) ≡ (not (is_owner fd x) && H.holds x w)
  unfolding close_fd
  holds-close_fd x none w = refl
  holds-close_fd x (some fd) w = H.holds-close fd x w

  still :
      (own gone held after : Bool)
      → (own && not held) ≡ false
      → (own && gone) ≡ false
      → after ≡ (not gone && held)
      → (own && not after) ≡ false
  still own gone held after h e left = ground arith

  -- After `close`, `configure` and the move assignment the process holds the descriptors that it held,
  -- without that of the port. After `close` and `configure` the port is closed, and after `configure` it has
  -- the new device and baud rate. After the move assignment the port is what the other port was, and the
  -- other port is closed; if the process held the other port's descriptor, and that was not this port's
  -- too, it still holds it.
  pub close-Owns :
      (device : Text) (baudrate : ℕ) (port from : Port) (w : S.World) (x : ℕ)
      → lost from x w ≡ false
      → (is_owner from.fd x && is_owner port.fd x) ≡ false
      → ((H.holds x (close S port w).1 ≡ (not (is_owner port.fd x) && H.holds x w))
          × (is_open (close S port w).0 ≡ false))
        × ((H.holds x (configure S device baudrate port w).1
              ≡ (not (is_owner port.fd x) && H.holds x w))
            × ((configure S device baudrate port w).0
                ≡ record { device = device; baudrate = baudrate; fd = none }))
        × ((H.holds x (move_assign S port from w).1 ≡ (not (is_owner port.fd x) && H.holds x w))
            × ((move_assign S port from w).0.0 ≡ from)
            × (is_open (move_assign S port from w).0.1 ≡ false)
            × (lost (move_assign S port from w).0.0 x (move_assign S port from w).1 ≡ false))
  unfolding close configure move_assign is_open
  close-Owns device baudrate port from w x have apart =
      let left = holds-close_fd x port.fd w in
      (
        (left, refl),
        (left, refl),
        (
          left,
          refl,
          refl,
          still (is_owner from.fd x) (is_owner port.fd x) (H.holds x w) _ have apart left,
        ),
      )
