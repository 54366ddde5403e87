-- ===== src/Ntrip/Sentence.antt =====
-- The sentence of `format_gga`, ntrip_client_node/src/ntrip_client_node.cpp, as the driver's own
-- parser, src/unicore_parser.cpp, reads it.
use unicore_ros.Base.{ℕ, none, some, List, [], ◌∷◌, false}
use unicore_ros.Base.Int.{pos}
use unicore_ros.Base.Text.{Text, codes, to_string}
use unicore_ros.Floats.{Floats, zero_double, minus_one_double}
use unicore_ros.Nav.Names.{positive}
use unicore_ros.Sentence.{FixSource, FixData}
use unicore_ros.Ascii.Position.{or_else, double_or, diagonal, need_double}
use unicore_ros.Ntrip.Plain.{ArePlain}
use unicore_ros.Ntrip.ReadBack.{degrees_back, Reads}
use unicore_ros.Ntrip.Gga.{Printing, BrokenTime, NavSatFix, angle_text, side, time_text}

module _ (F : Floats) (P : Printing F)
    (fixed_plain : (w d : ℕ) (x : F.D) → ArePlain (P.fixed w d x)) where
  -- The fields of the sentence.
  abbrev pub gga_fields : BrokenTime → NavSatFix F.D → ℕ → List Text
  gga_fields t fix quality =
      codes "GPGGA"
      ∷ time_text F P t
      ∷ angle_text F P 2 fix.latitude
      ∷ side F P fix.latitude b'N' b'S'
      ∷ angle_text F P 3 fix.longitude
      ∷ side F P fix.longitude b'E' b'W'
      ∷ to_string quality
      ∷ codes "10"
      ∷ codes "1.0"
      ∷ P.fixed 0 1 fix.altitude
      ∷ codes "M"
      ∷ codes "0.0"
      ∷ codes "M"
      ∷ []
      ∷ []
      ∷ []

  module _ (t : BrokenTime) (fix : NavSatFix F.D) (latitude longitude : F.D)
      (lat_read : Reads F (angle_text F P 2 fix.latitude) latitude)
      (lon_read : Reads F (angle_text F P 3 fix.longitude) longitude) where
    -- What the parser makes of the fields.
    fix_back : ℕ → FixData F.D
    fix_back quality = record {
      source = FixSource.gga;
      valid_fix = positive (pos quality);
      latitude_deg = degrees_back F fix.latitude latitude;
      longitude_deg = degrees_back F fix.longitude longitude;
      altitude_m = elim (need_double F (P.fixed 0 1 fix.altitude)) [
        | none ↦ zero_double F
        | some altitude_msl ↦
            F.add altitude_msl (or_else (need_double F (codes "0.0")) (zero_double F))
      ];
      fix_quality = pos quality;
      satellites = pos 10;
      hdop = double_or F (codes "1.0") (minus_one_double F);
      has_covariance = false;
      covariance = diagonal F (zero_double F) (zero_double F) (zero_double F);
    }
