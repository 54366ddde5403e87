-- ===== src/Ascii/Trim.antt =====
-- `trim` of src/unicore_parser.cpp removes the spaces at both ends and nothing else.
use mathlib.Core.Path.{subst}
use mathlib.Core.List.{reverse, reverse_aux, reverse-append, reverse-reverse}
use unicore_ros.Base.{
  ◌≡◌, refl, sym, ap, ◌∙◌, inl, inr, true, false, [], ◌∷◌, ◌++◌, All, Bool-cases,
}
use unicore_ros.Base.Text.{Text}
use unicore_ros.Ascii.Numbers.{isspace, skip_space}
use unicore_ros.Ascii.Fields.{trim}

abbrev pub AreSpaces : Text → Type 0
AreSpaces = All (λ c. isspace c ≡ true)

-- No space in front; the empty text has none.
unfoldable pub StartsInk : Text → Type 0
StartsInk [] = Unit {0}
StartsInk (c ∷ text) = isspace c ≡ false

-- A text is spaces and what is left of it, which starts with no space.
skip_space-parts :
    (text : Text)
    → (front : Text) × AreSpaces front
      × (text ≡ front ++ skip_space text)
      × StartsInk (skip_space text)
unfolding skip_space StartsInk
skip_space-parts [] = ([], tt, refl, tt)
skip_space-parts (c ∷ text) = elim (Bool-cases (isspace c)) [
  | inl e ↦
      let (front, spaces, parts, ink) = skip_space-parts text in
      rw (e, skip_space) (c ∷ front, (e, spaces), ap (◌∷◌ c) parts, ink)
  | inr e ↦ rw (e, skip_space) ([], tt, refl, e)
]

AreSpaces-reverse_aux :
    (text acc : Text) → AreSpaces text → AreSpaces acc → AreSpaces (reverse_aux text acc)
AreSpaces-reverse_aux [] acc h spaces = spaces
AreSpaces-reverse_aux (c ∷ text) acc h spaces =
    AreSpaces-reverse_aux text (c ∷ acc) h.1 (h.0, spaces)

StartsInk-append : (xs ys : Text) → StartsInk (xs ++ ys) → StartsInk xs
unfolding StartsInk
StartsInk-append [] ys h = tt
StartsInk-append (x ∷ xs) ys h = h

-- `trim` takes spaces off the front and the back of a text and nothing else, and what is left neither
-- starts nor ends with a space.
pub trim-parts :
    (text : Text)
    → (front : Text) × (back : Text) × AreSpaces front
      × AreSpaces back
      × (text ≡ front ++ (trim text ++ back))
      × StartsInk (trim text)
      × StartsInk (reverse (trim text))
unfolding trim
trim-parts text =
    let (front, spaces, parts, ink) = skip_space-parts text in
    let (tail, tail_spaces, tail_parts, tail_ink) = skip_space-parts (reverse (skip_space text)) in
    let back : skip_space text ≡ trim text ++ reverse tail =
      sym (reverse-reverse (skip_space text))
      ∙ ap reverse tail_parts
      ∙ reverse-append tail (skip_space (reverse (skip_space text))) in
    (
      front,
      reverse tail,
      spaces,
      AreSpaces-reverse_aux tail [] tail_spaces tt,
      parts ∙ ap (λ t. front ++ t) back,
      StartsInk-append (trim text) (reverse tail) (subst StartsInk back ink),
      subst StartsInk (sym (reverse-reverse (skip_space (reverse (skip_space text))))) tail_ink,
    )

skip_space-spaces :
    (front text : Text) → AreSpaces front → skip_space (front ++ text) ≡ skip_space text
unfolding skip_space
skip_space-spaces [] text h = refl
skip_space-spaces (c ∷ front) text h = rw (h.0, skip_space) (skip_space-spaces front text h.1)

skip_space-StartsInk : (text : Text) → StartsInk text → skip_space text ≡ text
unfolding skip_space StartsInk
skip_space-StartsInk [] h = refl
skip_space-StartsInk (c ∷ text) h = rw (h, skip_space) refl

-- A text with no space at its ends is what `trim` makes of it with spaces put around it.
pub trim-around :
    (front back text : Text)
    → AreSpaces front
    → AreSpaces back
    → StartsInk (text ++ back)
    → StartsInk (reverse text)
    → trim (front ++ (text ++ back)) ≡ text
unfolding trim
trim-around front back text hf hb first last =
    ap (λ t. reverse (skip_space (reverse t)))
      (skip_space-spaces front (text ++ back) hf ∙ skip_space-StartsInk (text ++ back) first)
    ∙ ap (λ t. reverse (skip_space t)) (reverse-append text back)
    ∙ ap reverse (
        skip_space-spaces (reverse back) (reverse text) (AreSpaces-reverse_aux back [] hb tt)
        ∙ skip_space-StartsInk (reverse text) last)
    ∙ reverse-reverse text
