-- ===== src/Ascii/Agree.antt =====
-- The position types of src/unicore_parser.cpp and src/unicore_binary_nav.cpp: name, number and code
-- stand for the same quality.
use unicore_ros.Base.{
  ℕ, ◌+◌, ◌^◌, ◌<◌, ◌≡◌, refl, sym, ap, ◌∙◌, ◌⊎◌, inl, inr, false, some, List, [], ◌∷◌, ◌++◌, arith,
  All, ◌==◌, Bool-cases, ==_iff,
}
use unicore_ros.Base.Int.{pos}
use unicore_ros.Base.Text.{Text, codes, to_string}
use unicore_ros.Nav.Names
use unicore_ros.Nav.Names.{switch}
use unicore_ros.Ascii.Numbers.{
  parse_int, strtol, scan, skip_space, isspace, sign, skip_prefix, digits, digit_value,
}
use unicore_ros.Ascii.Decimal.{to_string-front, parse_int-pos}
use unicore_ros.Ascii.Names.{
  numeric_qualities, position_type_to_gga_quality, quality_of_code, text_is_one_of,
}

abbrev map_values {ℓ κ} : {A : Type ℓ} {B : Type κ} → (A → B) → List (ℕ × A) → List (ℕ × B)
map_values f [] = []
map_values f ((key, a) ∷ cases) = (key, f a) ∷ map_values f cases

switch-map :
    {A B : Type 0} (f : A → B) (code : ℕ) (cases : List (ℕ × A)) (other : A)
    → f (switch code cases other) ≡ switch code (map_values f cases) (f other)
unfolding switch
switch-map f code [] other = refl
switch-map f code ((key, a) ∷ cases) other = elim (Bool-cases (key == code)) [
  | inl e ↦ rw (e, switch) refl
  | inr e ↦ rw (e, switch) (switch-map f code cases other)
]

-- A table whose entries a function confirms gives that function's value or its default.
switch-either :
    {B : Type 0} (g : ℕ → B) (code : ℕ) (cases : List (ℕ × B)) (other : B)
    → All (λ (entry : ℕ × B). g entry.0 ≡ entry.1) cases
    → (switch code cases other ≡ g code) ⊎ (switch code cases other ≡ other)
unfolding switch
switch-either g code [] other h = inr refl
switch-either g code ((key, b) ∷ cases) other h = elim (Bool-cases (key == code)) [
  | inl e ↦ inl (rw (e, switch) (sym h.0 ∙ ap g ((==_iff key code).0 e)))
  | inr e ↦ rw (e, switch) (switch-either g code cases other h.1)
]

-- Two tables that confirm each other's entries and have one default agree.
switch-agree :
    {B : Type 0} (code : ℕ) (left right : List (ℕ × B)) (other : B)
    → All (λ (entry : ℕ × B). switch entry.0 right other ≡ entry.1) left
    → All (λ (entry : ℕ × B). switch entry.0 left other ≡ entry.1) right
    → switch code left other ≡ switch code right other
switch-agree code left right other hl hr =
    elim (switch-either (λ n. switch n right other) code left other hl) [
      | inl e ↦ e
      | inr e ↦ elim (switch-either (λ n. switch n left other) code right other hr) [
        | inl e' ↦ sym e'
        | inr e' ↦ e ∙ sym e'
      ]
    ]

unknown_name : (digits : Text) → position_type_to_gga_quality (codes "UNKNOWN_" ++ digits) ≡ pos 0
unfolding position_type_to_gga_quality text_is_one_of parse_int strtol scan skip_space isspace sign
    skip_prefix digits digit_value
unknown_name digits = refl

-- The two tables of qualities, and the one that the names give.
quality-position_type_name :
    (code : ℕ)
    → position_type_to_gga_quality (Names.position_type_name code)
      ≡ Names.position_type_to_gga_quality code
unfolding Names.position_type_name Names.position_type_to_gga_quality switch
    position_type_to_gga_quality text_is_one_of parse_int strtol scan skip_space isspace sign
    skip_prefix digit_value
quality-position_type_name code =
    switch-map position_type_to_gga_quality code Names.position_type_names
      (codes "UNKNOWN_" ++ to_string code)
    ∙ ap (switch code (map_values position_type_to_gga_quality Names.position_type_names))
        (unknown_name (to_string code))
    ∙ switch-agree code (map_values position_type_to_gga_quality Names.position_type_names)
        Names.position_type_qualities (pos 0) (ground arith) (ground arith)

quality_of_code-pos :
    (code : ℕ) → quality_of_code (pos code) ≡ Names.position_type_to_gga_quality code
unfolding quality_of_code Names.position_type_to_gga_quality switch
quality_of_code-pos code =
    switch-agree code numeric_qualities Names.position_type_qualities (pos 0) (ground arith)
      (ground arith)

-- A text that starts with a digit is none of the names.
digit_below : (d c : ℕ) → d < 10 → 57 < c → (d + 48 == c) ≡ false
digit_below d c h high = ground arith

quality-numeric :
    (d : ℕ) (rest : Text) (code : ℕ)
    → d < 10
    → parse_int ((d + 48) ∷ rest) ≡ some (pos code)
    → position_type_to_gga_quality ((d + 48) ∷ rest) ≡ quality_of_code (pos code)
unfolding position_type_to_gga_quality text_is_one_of
quality-numeric d rest code h parsed =
    rw
      (
        digit_below d b'N' h (omega arith),
        digit_below d b'F' h (omega arith),
        digit_below d b'S' h (omega arith),
        digit_below d b'P' h (omega arith),
        digit_below d b'D' h (omega arith),
        digit_below d b'W' h (omega arith),
        digit_below d b'L' h (omega arith),
        digit_below d b'I' h (omega arith),
        digit_below d b'R' h (omega arith),
        parsed,
      )
      refl

-- For each position type code below 2^31, the ASCII parser's quality of its name and of its decimal
-- text is the binary parser's quality of the code.
pub quality-agree :
    (code : ℕ)
    → code < 2 ^ 31
    → (position_type_to_gga_quality (Names.position_type_name code)
        ≡ Names.position_type_to_gga_quality code)
      × (position_type_to_gga_quality (to_string code) ≡ Names.position_type_to_gga_quality code)
quality-agree code h =
    let (d, rest, dh, front) = to_string-front code (omega arith) in
    (
      quality-position_type_name code,
      ap position_type_to_gga_quality front
          ∙ quality-numeric d rest code dh (ap parse_int (sym front) ∙ parse_int-pos code h)
          ∙ quality_of_code-pos code,
    )
