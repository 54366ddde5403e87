-- ===== src/Ntrip/Plain.antt =====
-- The bytes of the texts that `format_gga`, ntrip_client_node/src/ntrip_client_node.cpp, prints.
use unicore_ros.Base.{
  ℕ, zero, suc, ◌+◌, ◌-◌, ◌/◌, ◌%◌, ◌<◌, ◌≡◌, ◌≢◌, refl, List, [], ◌∷◌, ◌++◌, arith, All,
  All-append, ltb, length, Bool-cases, inl, inr, false,
}
use unicore_ros.Base.Int.{ℤ, pos, negsuc}
use unicore_ros.Base.Text.{Text, decimal, to_string}
use unicore_ros.Ascii.Numbers.{is_empty}
use unicore_ros.Wire.{IsByte}
use unicore_ros.Wire.Search.{Absent}
use unicore_ros.Ascii.Split.{join}
use unicore_ros.Ntrip.Gga.{zeros, padded}

-- A byte that is neither a comma nor a star.
abbrev pub IsPlain : ℕ → Type 0
IsPlain c = (c < 256) × (c ≢ b',') × (c ≢ b'*')

abbrev pub ArePlain : Text → Type 0
ArePlain = All IsPlain

ArePlain-IsByte : (t : Text) → ArePlain t → All IsByte t
ArePlain-IsByte [] h = tt
ArePlain-IsByte (c ∷ t) h = (h.0.0, ArePlain-IsByte t h.1)

ArePlain-comma : (t : Text) → ArePlain t → Absent b',' t
ArePlain-comma [] h = tt
ArePlain-comma (c ∷ t) h = (h.0.1, ArePlain-comma t h.1)

ArePlain-star : (t : Text) → ArePlain t → Absent b'*' t
ArePlain-star [] h = tt
ArePlain-star (c ∷ t) h = (h.0.2, ArePlain-star t h.1)

-- Texts of printed numbers.
decimal-ArePlain : (k n : ℕ) → ArePlain (decimal k n)
unfolding decimal
decimal-ArePlain zero n = tt
decimal-ArePlain (suc k) n = elim (Bool-cases (ltb n 10)) [
  | inl small ↦ rw small ((ground arith, tt))
  | inr large ↦ rw large (
      All-append IsPlain (decimal k (n / 10)) ((n % 10 + 48) ∷ []) (decimal-ArePlain k (n / 10))
        (ground arith, tt))
]

zeros-ArePlain : (n : ℕ) → ArePlain (zeros n)
unfolding zeros
zeros-ArePlain zero = tt
zeros-ArePlain (suc n) = (ground arith, zeros-ArePlain n)

pub to_string-ArePlain : (n : ℕ) → ArePlain (to_string n)
unfolding to_string
to_string-ArePlain n = decimal-ArePlain 20 n

pub padded-ArePlain : (w : ℕ) (z : ℤ) → ArePlain (padded w z)
unfolding padded
padded-ArePlain w (pos n) =
    All-append IsPlain (zeros (w - length (to_string n))) (to_string n) (zeros-ArePlain _)
      (to_string-ArePlain n)
padded-ArePlain w (negsuc n) = (
  ground arith,
  All-append IsPlain (zeros (w - (1 + length (to_string (suc n))))) (to_string (suc n))
      (zeros-ArePlain _) (to_string-ArePlain (suc n)),
)

-- The bytes between the fields and in them, when no field has a comma or a star.
pub join-IsByte : (fields : List Text) → All ArePlain fields → All IsByte (join fields)
unfolding join
join-IsByte [] h = tt
join-IsByte (f ∷ []) h = ArePlain-IsByte f h.0
join-IsByte (f ∷ g ∷ fields) h =
    All-append IsByte f (b',' ∷ join (g ∷ fields)) (ArePlain-IsByte f h.0)
      (omega arith, join-IsByte (g ∷ fields) h.1)

pub join-star : (fields : List Text) → All ArePlain fields → Absent b'*' (join fields)
unfolding join
join-star [] h = tt
join-star (f ∷ []) h = ArePlain-star f h.0
join-star (f ∷ g ∷ fields) h =
    All-append (λ x. x ≢ b'*') f (b',' ∷ join (g ∷ fields)) (ArePlain-star f h.0)
      (omega arith, join-star (g ∷ fields) h.1)

pub All-comma : (fields : List Text) → All ArePlain fields → All (Absent b',') fields
All-comma [] h = tt
All-comma (f ∷ fields) h = (ArePlain-comma f h.0, All-comma fields h.1)

pub is_empty-append : (s t : Text) → is_empty s ≡ false → is_empty (s ++ t) ≡ false
is_empty-append [] t h = cc
is_empty-append (c ∷ s) t h = refl

is_empty-append_right : (s : Text) (c : ℕ) (t : Text) → is_empty (s ++ (c ∷ t)) ≡ false
is_empty-append_right [] c t = refl
is_empty-append_right (d ∷ s) c t = refl

is_empty-decimal : (k n : ℕ) → is_empty (decimal (suc k) n) ≡ false
unfolding decimal
is_empty-decimal k n = elim (Bool-cases (ltb n 10)) [
  | inl small ↦ rw small refl
  | inr large ↦ rw large (is_empty-append_right (decimal k (n / 10)) (n % 10 + 48) [])
]

is_empty-zeros : (k : ℕ) (t : Text) → is_empty t ≡ false → is_empty (zeros k ++ t) ≡ false
unfolding zeros
is_empty-zeros zero t h = h
is_empty-zeros (suc k) t h = refl

pub is_empty-padded : (w : ℕ) (z : ℤ) → is_empty (padded w z) ≡ false
unfolding padded to_string
is_empty-padded w (pos n) =
    is_empty-zeros (w - length (to_string n)) (to_string n) (is_empty-decimal 19 n)
is_empty-padded w (negsuc n) = refl
