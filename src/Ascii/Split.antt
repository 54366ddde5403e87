-- ===== src/Ascii/Split.antt =====
-- `split_fields` of src/unicore_parser.cpp against the joining of fields by commas.
use unicore_ros.Base.{
  ℕ, zero, suc, ◌<◌, ◌≡◌, refl, sym, ap, ◌∙◌, inl, inr, none, some, List, [], ◌∷◌, ◌++◌, arith, All,
  length, take, drop, length-append, length-drop, take-append_length, drop-append_add, Option-cases,
}
use unicore_ros.Base.Text.{Text}
use unicore_ros.Wire.{find_byte}
use unicore_ros.Wire.Search.{
  Absent, find_byte-at, find_byte-none, find_byte-first, find_byte-Absent,
}
use unicore_ros.Ascii.Fields.{split_loop, split_fields}

-- Fields with a comma between each two.
unfoldable pub join : List Text → Text
join [] = []
join (field ∷ []) = field
join (field ∷ next ∷ fields) = field ++ (b',' ∷ join (next ∷ fields))

-- A list of at least one field, none of which has a comma.
abbrev pub AreFields : List Text → Type 0
AreFields fields = (0 < length fields) × All (Absent b',') fields

join-cons :
    (field : Text) (fields : List Text)
    → 0 < length fields
    → join (field ∷ fields) ≡ field ++ (b',' ∷ join fields)
unfolding join
join-cons field [] h = elim h [ ]
join-cons field (next ∷ fields) h = refl

-- The two outcomes of a round.
split_loop-last :
    (fuel : ℕ) (text : Text) → find_byte b',' text ≡ none → split_loop (suc fuel) text ≡ text ∷ []
unfolding split_loop
split_loop-last fuel text e = rw (e, split_loop) refl

split_loop-comma :
    (fuel : ℕ) (field rest : Text)
    → Absent b',' field
    → split_loop (suc fuel) (field ++ (b',' ∷ rest)) ≡ field ∷ split_loop fuel rest
unfolding split_loop
split_loop-comma fuel field rest h =
    rw
      (
        find_byte-at b',' field rest h,
        split_loop,
        take-append_length field (b',' ∷ rest),
        drop-append_add field (b',' ∷ rest) 1,
      )
      refl

split_loop-join :
    (fuel : ℕ) (fields : List Text)
    → AreFields fields
    → length (join fields) < fuel
    → split_loop fuel (join fields) ≡ fields
unfolding join
split_loop-join zero fields h less = elim less [ ]
split_loop-join (suc fuel) [] h less = absurd (omega (arith, h.0))
split_loop-join (suc fuel) (field ∷ []) h less =
    split_loop-last fuel field (find_byte-Absent b',' field h.1.0)
split_loop-join (suc fuel) (field ∷ next ∷ fields) h less =
    split_loop-comma fuel field (join (next ∷ fields)) h.1.0
    ∙ ap (◌∷◌ field) (
        split_loop-join fuel (next ∷ fields) (omega arith, h.1.1)
          (omega (arith, length-append field (b',' ∷ join (next ∷ fields)))))

-- Splitting the text that joins fields by commas gives these fields, if there is at least one and
-- none of them has a comma.
pub split_fields-join :
    (fields : List Text) → AreFields fields → split_fields (join fields) ≡ fields
unfolding split_fields
split_fields-join fields h = split_loop-join (suc (length (join fields))) fields h (omega arith)

find_byte-here :
    (c : ℕ) (text : Text) (n : ℕ)
    → find_byte c text ≡ some n
    → text ≡ take n text ++ (c ∷ drop (suc n) text)
unfolding find_byte
find_byte-here c [] n e = cc
find_byte-here c (x ∷ text) zero e = ground arith
find_byte-here c (x ∷ text) (suc n) e = ap (◌∷◌ x) (find_byte-here c text n (ground arith))

join-split_loop :
    (fuel : ℕ) (text : Text)
    → length text < fuel
    → (join (split_loop fuel text) ≡ text) × AreFields (split_loop fuel text)
join-split_loop zero text less = elim less [ ]
join-split_loop (suc fuel) text less = elim (Option-cases (find_byte b',' text)) [
  | inl e ↦
      rw (split_loop-last fuel text e)
        (unfold join in refl, (omega arith, (find_byte-none b',' text e, tt)))
  | inr (n, e) ↦
      let field = take n text in
      let rest = drop (suc n) text in
      let here = find_byte-here b',' text n e in
      let (inside, free) = find_byte-first b',' text n e in
      let (back, (many, all)) =
        join-split_loop fuel rest (omega (arith, length-drop (suc n) text)) in
      let round = ap (split_loop (suc fuel)) here ∙ split_loop-comma fuel field rest free in
      rw round (
        join-cons field (split_loop fuel rest) many ∙ ap (λ t. field ++ (b',' ∷ t)) back ∙ sym here,
        (omega arith, (free, all)),
      )
]

-- Whatever the payload, its fields joined by commas are the payload; there is at least one, and none
-- has a comma.
pub join-split_fields :
    (payload : Text) → (join (split_fields payload) ≡ payload) × AreFields (split_fields payload)
unfolding split_fields
join-split_fields payload = join-split_loop (suc (length payload)) payload (omega arith)
