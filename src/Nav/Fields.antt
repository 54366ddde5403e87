-- ===== src/Nav/Fields.antt =====
-- The reads of src/unicore_binary_nav.cpp at offsets that the payload reaches.
use unicore_ros.Base.{
  ℕ, ◌+◌, ◌≤◌, ◌≡◌, refl, ◌∙◌, Bool, true, false, not, none, some, arith, All, leb, if◌then◌else◌,
  length, take, drop,
}
use unicore_ros.Base.Int.{ℤ, signed}
use unicore_ros.Wire.{IsByte}
use unicore_ros.Payload.{Payload, has_range, read_u8, read_u16, read_u32, read_i16, word16}
use unicore_ros.Payload.Range.{le_value, read_le, read-read_le}

-- The little-endian number in the `size` bytes at `offset`.
unfoldable pub field : ℕ → Payload → ℕ → ℕ
field size payload offset = le_value (take size (drop offset payload))

-- A 16-bit field read as a signed number.
abbrev pub signed_field : Payload → ℕ → ℤ
signed_field payload offset = signed 16 (field 2 payload offset)

module _ (p : Payload) (bytes : All IsByte p) where
  read_le-field : (n o : ℕ) → o + n ≤ length p → read_le n p o ≡ some (field n p o)
  unfolding read_le field
  read_le-field n o h = rw (le_true (o + n) (length p) h) refl
    where
      le_true : (a b : ℕ) → a ≤ b → leb a b ≡ true
      le_true a b h = ground arith

  pub read_u8-field : (o : ℕ) → o + 1 ≤ length p → read_u8 p o ≡ some (field 1 p o)
  read_u8-field o h = let (a, b, c, d) = read-read_le p o bytes in a ∙ read_le-field 1 o h

  read_u16-field : (o : ℕ) → o + 2 ≤ length p → read_u16 p o ≡ some (field 2 p o)
  read_u16-field o h = let (a, b, c, d) = read-read_le p o bytes in b ∙ read_le-field 2 o h

  pub read_u32-field : (o : ℕ) → o + 4 ≤ length p → read_u32 p o ≡ some (field 4 p o)
  read_u32-field o h = let (a, b, c, d) = read-read_le p o bytes in c ∙ read_le-field 4 o h

  pub read_i16-field : (o : ℕ) → o + 2 ≤ length p → read_i16 p o ≡ some (signed_field p o)
  unfolding read_u16 read_i16
  read_i16-field o h = signed_read (has_range p o 2) (word16 p o) (field 2 p o) (read_u16-field o h)
    where
      signed_read :
          (there : Bool) (w f : ℕ)
          → (if not there then none else some w) ≡ some f
          → (if not there then none else some (signed 16 w)) ≡ some (signed 16 f)
      signed_read true w f e = cc e
      signed_read false w f e = cc e
