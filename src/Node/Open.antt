-- ===== src/Node/Open.antt =====
-- `ensure_serial_open` of src/unicore_node.cpp on a port that is open.
use unicore_ros.Base.{ℕ, ◌≡◌, refl, true, some}
use unicore_ros.Floats.{Floats}
use unicore_ros.Serial.System.{System}
use unicore_ros.Serial.Port.{Port, is_open}
use unicore_ros.Node.Rtcm.{Link, ensure_serial_open}

pub is_open-some : (port : Port) (fd : ℕ) → port.fd ≡ some fd → is_open port ≡ true
unfolding is_open
is_open-some port fd e = rw (e, is_open) refl

-- Nothing is opened.
pub ensure-open :
    (F : Floats) (S : System) (interval : F.D) (opening : ℕ) (link : Link) (w : S.World)
    → is_open link.serial ≡ true
    → ensure_serial_open F S interval opening link w ≡ (link, w)
unfolding ensure_serial_open
ensure-open F S interval opening link w e = rw (e, ensure_serial_open) refl
