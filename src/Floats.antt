-- ===== src/Floats.antt =====
-- The `double` arithmetic that src/unicore_parser.cpp and src/unicore_binary_nav.cpp use, as an
-- interface: a type of values and the operations of the language and of <cmath>.
use unicore_ros.Base.{ℕ, Bool}
use unicore_ros.Base.Int.{ℤ}
use unicore_ros.Base.Text.{Text}

pub record Floats : Type 1 where
  -- The values of `double`.
  pub D : Type 0
  -- `static_cast<double>` of an integer.
  pub of_int : ℤ → D
  -- The literal of so many units of the last of so many decimals: 0.050 is `literal 50 3`.
  pub literal : ℕ → ℕ → D
  pub negate : D → D
  pub add : D → D → D
  pub sub : D → D → D
  pub mul : D → D → D
  pub div : D → D → D
  -- `a < b`.
  pub less : D → D → Bool
  -- `a <= b`.
  pub less_equal : D → D → Bool
  pub floor : D → D
  pub sin : D → D
  pub cos : D → D
  -- `M_PI`.
  pub pi : D
  -- `std::isfinite`.
  pub is_finite : D → Bool
  -- `memcpy` of 4 bytes into a `float`, widened, and of 8 bytes into a `double`.
  pub of_bits32 : ℕ → D
  pub of_bits64 : ℕ → D
  -- `std::strtod`: the value, and the text from `*end` on.
  pub strtod : Text → D × Text

module _ (F : Floats) where
  -- 0.0 and -1.0.
  abbrev pub zero_double : F.D
  zero_double = F.literal 0 0

  abbrev pub minus_one_double : F.D
  minus_one_double = F.negate (F.literal 1 0)
