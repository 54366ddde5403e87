-- ===== src/Ntrip/Gga.antt =====
-- `format_gga` of ntrip_client_node/src/ntrip_client_node.cpp, over the conversions of `snprintf` and
-- of `double` to `int` as a parameter.
use unicore_ros.Base.{
  ℕ, zero, suc, ◌+◌, ◌-◌, Option, none, some, List, [], ◌∷◌, ◌++◌, leb, if◌then◌else◌, length,
}
use unicore_ros.Base.Int.{ℤ, pos, negsuc}
use unicore_ros.Base.Text.{Text, codes, to_string}
use unicore_ros.Floats.{Floats, zero_double}
use unicore_ros.Ascii.Checksum.{xor_from}
use unicore_ros.Ascii.Hex.{hex}

-- What `format_gga` needs of the C library.
pub record Printing (F : Floats) : Type 0 where
  -- `std::fabs`.
  pub fabs : F.D → F.D
  -- `static_cast<int>` of a `double`.
  pub truncate : F.D → ℤ
  -- `%07.4f` and `%.1f`: the field width, 0 for none, and the number of decimals.
  pub fixed : ℕ → ℕ → F.D → Text

-- The fields of `std::tm` that are printed, none of which is negative.
pub record BrokenTime : Type 0 where
  pub tm_hour : ℕ
  pub tm_min : ℕ
  pub tm_sec : ℕ

-- The fields of a `sensor_msgs::msg::NavSatFix` that are read.
pub record NavSatFix (D : Type 0) : Type 0 where
  pub status : ℤ
  pub latitude : D
  pub longitude : D
  pub altitude : D

-- `STATUS_SBAS_FIX` is 1, `STATUS_GBAS_FIX` is 2, and what is below `STATUS_FIX`, 0, is no fix.
unfoldable pub quality_of : ℤ → Option ℕ
quality_of (negsuc n) = none
quality_of (pos (suc zero)) = some 5
quality_of (pos (suc (suc zero))) = some 4
quality_of (pos n) = some 1

unfoldable pub zeros : ℕ → Text
zeros zero = []
zeros (suc n) = b'0' ∷ zeros n

-- `%0<w>d`: zeros between the sign and the digits, up to the width.
unfoldable pub padded : ℕ → ℤ → Text
unfolding zeros
padded w (pos n) = zeros (w - length (to_string n)) ++ to_string n
padded w (negsuc n) = b'-' ∷ (zeros (w - (1 + length (to_string (suc n)))) ++ to_string (suc n))

-- The literal text and the conversions of a format string in order.
unfoldable pub concat : List Text → Text
concat [] = []
concat (t ∷ ts) = t ++ concat ts

module _ (F : Floats) (P : Printing F) where
  -- The minutes behind the whole degrees.
  unfoldable pub minutes_of : F.D → F.D
  minutes_of angle = F.mul (F.sub angle (F.of_int (P.truncate angle))) (F.literal 60 0)

  -- `%0<w>d%07.4f` of the absolute value.
  unfoldable pub angle_text : ℕ → F.D → Text
  unfolding minutes_of padded
  angle_text w angle =
      let magnitude = P.fabs angle in
      padded w (P.truncate magnitude) ++ P.fixed 7 4 (minutes_of magnitude)

  -- The letter of `angle >= 0.0`.
  unfoldable pub side : F.D → ℕ → ℕ → Text
  side angle positive negative =
      (if F.less_equal (zero_double F) angle then positive else negative) ∷ []

  unfoldable pub time_text : BrokenTime → Text
  unfolding padded
  time_text t =
      padded 2 (pos t.tm_hour)
      ++ (padded 2 (pos t.tm_min) ++ (padded 2 (pos t.tm_sec) ++ codes ".00"))

  -- What the first `snprintf` prints, before it is cut to the size of `body`.
  unfoldable pub gga_body : BrokenTime → NavSatFix F.D → ℕ → Text
  unfolding concat time_text angle_text side
  gga_body t fix quality = concat (
      codes "GPGGA,"
      ∷ time_text t
      ∷ codes ","
      ∷ angle_text 2 fix.latitude
      ∷ codes ","
      ∷ side fix.latitude b'N' b'S'
      ∷ codes ","
      ∷ angle_text 3 fix.longitude
      ∷ codes ","
      ∷ side fix.longitude b'E' b'W'
      ∷ codes ","
      ∷ to_string quality
      ∷ codes ",10,1.0,"
      ∷ P.fixed 0 1 fix.altitude
      ∷ codes ",M,0.0,M,,"
      ∷ [])

  -- `body` has 192 bytes and is read up to what `snprintf` returns. `none`: it is read past its end,
  -- and the C++ has no defined behaviour.
  unfoldable pub framed : Text → Option Text
  framed body =
      if leb 192 (length body)
      then none
      else some (b'$' ∷ (body ++ (b'*' ∷ hex 2 (xor_from 0 body))))

  unfoldable pub format_gga : BrokenTime → NavSatFix F.D → Option Text
  unfolding gga_body framed quality_of
  format_gga t fix = elim (quality_of fix.status) [
    | none ↦ some []
    | some quality ↦ framed (gga_body t fix quality)
  ]
