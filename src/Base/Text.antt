-- ===== src/Base/Text.antt =====
-- `std::string` as its bytes: literals, comparison, and `std::to_string`.
use Prim.Native.Nat.{ℕ, zero, suc, ◌+◌, ◌/◌, ◌%◌}
use Prim.Native.Char.{code}
use Prim.Native.String.{String}
use mathlib.Core.Path.{◌≡◌}
use mathlib.Core.Logic.{◌↔◌}
use mathlib.Core.Bool.{Bool, true, false, ◌&&◌}
use mathlib.Core.List.{List, [], ◌∷◌, ◌++◌}
use native.Mathlib.Omega.{arith}
use unicore_ros.Base.Tests.{ltb, ◌==◌, if◌then◌else◌}
use unicore_ros.Base.Int.{ℤ, pos, negsuc}

abbrev pub Text : Type 0
Text = List ℕ

-- The bytes of a literal, which is ASCII.
abbrev pub codes : String → Text
codes String.[] = []
codes (String.◌∷◌ c s) = code c ∷ codes s

abbrev pub text_eq : Text → Text → Bool
text_eq [] [] = true
text_eq (x ∷ xs) (y ∷ ys) = x == y && text_eq xs ys
text_eq _ _ = false

pub text_eq_iff : (a b : Text) → (text_eq a b ≡ true) ↔ (a ≡ b)
text_eq_iff (x ∷ a) (y ∷ b) = ground (arith, text_eq_iff a b)
text_eq_iff _ _ = ground arith

-- Decimal digits; the fuel is the number of digits allowed.
unfoldable pub decimal : ℕ → ℕ → Text
decimal zero n = []
decimal (suc k) n =
    let front = decimal k (n / 10) in
    if ltb n 10 then (n + 48) ∷ [] else front ++ ((n % 10 + 48) ∷ [])

-- `std::to_string` of a number below 10 ^ 20, which all 64-bit words are.
unfoldable pub to_string : ℕ → Text
unfolding decimal
to_string n = decimal 20 n

unfoldable pub to_string_int : ℤ → Text
unfolding to_string
to_string_int (pos n) = to_string n
to_string_int (negsuc n) = b'-' ∷ to_string (suc n)
