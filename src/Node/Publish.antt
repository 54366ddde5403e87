-- ===== src/Node/Publish.antt =====
-- The two messages that `UnicoreNode`, src/unicore_node.cpp, publishes of its current data. Time stamp
-- and frame id are left out, and the constant fields of the azimuth.
use unicore_ros.Base.{ℕ, Bool, ◌&&◌, none, some, List, [], ◌∷◌, if◌then◌else◌, not}
use unicore_ros.Base.Int.{ℤ, pos, negsuc}
use unicore_ros.Floats.{Floats, zero_double}
use unicore_ros.Sentence.{FixData}
use unicore_ros.Nav.Names.{positive, switch}
use unicore_ros.Ascii.Position.{diagonal}
use unicore_ros.Node.State.{Latest, Settings, AsciiLatest, BinaryLatest}
use unicore_ros.Node.Active.{is_fresh, active_fix, active_heading}

-- The values of `NavSatStatus.status`.
pub data NavStatus : Type 0 where
  status_no_fix status_fix status_sbas_fix status_gbas_fix : NavStatus

pub record NavSatFix (D : Type 0) : Type 0 where
  pub status : NavStatus
  pub latitude : D
  pub longitude : D
  pub altitude : D
  pub position_covariance : List D
  -- `COVARIANCE_TYPE_DIAGONAL_KNOWN`, or else `COVARIANCE_TYPE_UNKNOWN`.
  pub covariance_is_known : Bool

pub record Azimuth (D : Type 0) : Type 0 where
  pub azimuth : D
  pub variance : D

pub data Message (D : Type 0) : Type 0 where
  nav_sat_fix : NavSatFix D → Message D
  azimuth : Azimuth D → Message D

-- The `switch` on the quality.
unfoldable pub status_of : ℤ → NavStatus
unfolding switch
status_of (negsuc n) = NavStatus.status_fix
status_of (pos n) =
    switch n
      ((0, NavStatus.status_no_fix)
        ∷ (1, NavStatus.status_fix)
        ∷ (2, NavStatus.status_sbas_fix)
        ∷ (9, NavStatus.status_sbas_fix)
        ∷ (4, NavStatus.status_gbas_fix)
        ∷ (5, NavStatus.status_gbas_fix)
        ∷ [])
      NavStatus.status_fix

module _ (F : Floats) (o : Settings F.D) (now : ℕ) where
  -- A quality of 0 or less is replaced by that of a fresh GGA sentence.
  unfoldable pub quality_of : ℤ → Latest (FixData F.D) → ℤ
  unfolding is_fresh
  quality_of quality none = quality
  quality_of quality (some gga) =
      if not (positive quality) && is_fresh F gga.received_at o.data_timeout_sec now
      then gga.data_of.fix_quality
      else quality

  unfoldable pub build_nav_status : FixData F.D → AsciiLatest F.D → NavStatus
  unfolding quality_of status_of
  build_nav_status fix a = status_of (quality_of fix.fix_quality a.latest_gga_fix)

  unfoldable pub fix_message : FixData F.D → AsciiLatest F.D → NavSatFix F.D
  unfolding build_nav_status
  fix_message fix a = record {
    status = build_nav_status fix a;
    latitude = fix.latitude_deg;
    longitude = fix.longitude_deg;
    altitude = fix.altitude_m;
    position_covariance =
        if fix.has_covariance
        then fix.covariance
        else diagonal F (zero_double F) (zero_double F) (zero_double F);
    covariance_is_known = fix.has_covariance;
  }

  unfoldable pub publish_active_fix : AsciiLatest F.D → BinaryLatest F.D → List (Message F.D)
  unfolding active_fix fix_message
  publish_active_fix a b = elim (active_fix F o now a b) [
    | none ↦ []
    | some fix ↦ Message.nav_sat_fix (fix_message fix a) ∷ []
  ]

  unfoldable pub publish_active_heading : AsciiLatest F.D → BinaryLatest F.D → List (Message F.D)
  unfolding active_heading
  publish_active_heading a b = elim (active_heading F o now a b) [
    | none ↦ []
    | some heading ↦
        Message.azimuth (record { azimuth = heading.heading_deg; variance = heading.variance_deg2 })
        ∷ []
  ]
