-- ===== src/Wire/Search.antt =====
-- What the searches of src/unicore_transport.cpp find: the first position that fits, or none.
use unicore_ros.Base.{
  ℕ, zero, suc, ◌+◌, ◌<◌, ◌≡◌, refl, ◌≢◌, ◌⊎◌, inl, inr, true, false, Option, none, some, [], ◌∷◌,
  ◌++◌, arith, All, length, take, drop, Option-cases,
}
use unicore_ros.Wire.{Bytes, next_position, find_byte, is_sync, find_binary_sync}

abbrev pub Absent : ℕ → Bytes → Type 0
Absent c = All (λ x. x ≢ c)

next_position-some :
    (o : Option ℕ) (n : ℕ) → next_position o ≡ some n → (m : ℕ) × (o ≡ some m) × (n ≡ suc m)
next_position-some none n e = cc
next_position-some (some m) n e = (m, refl, ground arith)

-- The byte found is the first of its value.
pub find_byte-first :
    (c : ℕ) (xs : Bytes) (n : ℕ) → find_byte c xs ≡ some n → (n < length xs) × Absent c (take n xs)
unfolding find_byte
find_byte-first c [] n e = cc
find_byte-first c (x ∷ xs) zero e = (omega arith, tt)
find_byte-first c (x ∷ xs) (suc n) e = ground (arith, find_byte-first c xs n)

pub find_byte-none : (c : ℕ) (xs : Bytes) → find_byte c xs ≡ none → Absent c xs
unfolding find_byte
find_byte-none c [] e = tt
find_byte-none c (x ∷ xs) e = ground (arith, find_byte-none c xs)

pub find_byte-Absent : (c : ℕ) (xs : Bytes) → Absent c xs → find_byte c xs ≡ none
unfolding find_byte
find_byte-Absent c [] h = refl
find_byte-Absent c (x ∷ xs) h = ground (arith, find_byte-Absent c xs h.1)

pub find_byte-append :
    (c : ℕ) (xs ys : Bytes) (n : ℕ) → find_byte c xs ≡ some n → find_byte c (xs ++ ys) ≡ some n
unfolding find_byte
find_byte-append c [] ys n e = cc
find_byte-append c (x ∷ xs) ys zero e = ground arith
find_byte-append c (x ∷ xs) ys (suc n) e = ground (arith, find_byte-append c xs ys n)

pub find_byte-at :
    (c : ℕ) (xs ys : Bytes) → Absent c xs → find_byte c (xs ++ (c ∷ ys)) ≡ some (length xs)
unfolding find_byte
find_byte-at c [] ys h = ground arith
find_byte-at c (x ∷ xs) ys h = ground (arith, find_byte-at c xs ys h.1)

is_sync-first : (x : ℕ) (xs : Bytes) → is_sync (x ∷ xs) ≡ true → x ≡ 0xAA
unfolding is_sync
is_sync-first x [] e = cc
is_sync-first x (y ∷ []) e = cc
is_sync-first x (y ∷ z ∷ xs) e = ground arith

-- The position found holds the pattern, and no earlier one does.
pub find_binary_sync-first :
    (xs : Bytes) (n : ℕ)
    → find_binary_sync xs ≡ some n
    → (is_sync (drop n xs) ≡ true) × ((m : ℕ) → m < n → is_sync (drop m xs) ≡ false)
unfolding find_binary_sync
find_binary_sync-first [] n e = cc
find_binary_sync-first (x ∷ xs) zero e = (ground arith, λ m h. elim h [ ])
find_binary_sync-first (x ∷ xs) (suc n) e =
    let (here, later) = found in
    ((find_binary_sync-first xs n later).0, before here (find_binary_sync-first xs n later).1)
  where
    found : (is_sync (x ∷ xs) ≡ false) × (find_binary_sync xs ≡ some n)
    found = ground arith

    before :
        is_sync (x ∷ xs) ≡ false
        → ((m : ℕ) → m < n → is_sync (drop m xs) ≡ false)
        → (m : ℕ) → m < suc n
        → is_sync (drop m (x ∷ xs)) ≡ false
    before here rest zero h = here
    before here rest (suc m) h = rest m (omega arith)

-- The pattern does not start within bytes that are not 0xAA.
pub find_binary_sync-Absent :
    (front rest : Bytes)
    → Absent 0xAA front
    → (find_binary_sync (front ++ rest) ≡ none)
      ⊎ ((n : ℕ) × (find_binary_sync (front ++ rest) ≡ some (length front + n)))
unfolding find_binary_sync
find_binary_sync-Absent [] rest h = elim (Option-cases (find_binary_sync rest)) [
  | inl e ↦ inl e
  | inr (n, e) ↦ inr (n, ground arith)
]
find_binary_sync-Absent (x ∷ front) rest h = elim (find_binary_sync-Absent front rest h.1) [
  | inl e ↦ inl (ground (arith, is_sync-first x (front ++ rest)))
  | inr (n, e) ↦ inr (n, ground (arith, is_sync-first x (front ++ rest)))
]

pub find_binary_sync-none : (xs : Bytes) → Absent 0xAA xs → find_binary_sync xs ≡ none
unfolding find_binary_sync
find_binary_sync-none [] h = refl
find_binary_sync-none (x ∷ xs) h = ground (arith, is_sync-first x xs, find_binary_sync-none xs h.1)
