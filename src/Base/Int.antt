-- ===== src/Base/Int.antt =====
-- Signed integers, and the two's complement reading of a word.
use Prim.Native.Nat.{ℕ, suc, ◌-◌, ◌*◌, ◌^◌}
use unicore_ros.Base.Tests.{ltb, leb, if◌then◌else◌}

-- `negsuc n` is -(n + 1).
pub data ℤ : Type 0 where
  pos : ℕ → ℤ
  negsuc : ℕ → ℤ

abbrev pub pos_part : ℤ → ℕ
pos_part (pos n) = n
pos_part (negsuc n) = 0

abbrev pub neg_part : ℤ → ℕ
neg_part (pos n) = 0
neg_part (negsuc n) = suc n

-- a - b, as an integer.
abbrev pub sub_ℕ : ℕ → ℕ → ℤ
sub_ℕ a b = if leb b a then pos (a - b) else negsuc (b - a - 1)

-- The signed number that a word of `w` bits stands for.
abbrev pub signed : ℕ → ℕ → ℤ
signed w x = if ltb (2 * x) (2 ^ w) then pos x else negsuc (2 ^ w - x - 1)

abbrev pub minus_one : ℤ
minus_one = negsuc 0
