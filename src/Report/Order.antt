-- ===== src/Report/Order.antt =====
-- `describe_ordered_counts` of src/unicore_node.cpp walks an `std::unordered_map`, whose order is not
-- specified: the text that it gives does not depend on that order.
use unicore_ros.Base.{
  ◌≡◌, refl, sym, ap, ◌∙◌, inl, inr, true, false, not, ◌||◌, List, [], ◌∷◌, ◌++◌, arith,
  if◌then◌else◌, Bool-cases,
}
use unicore_ros.Base.Int.{ℤ}
use unicore_ros.Base.Text.{Text, text_eq, text_eq_iff}
use unicore_ros.Nav.Names.{positive}
use unicore_ros.Report.Describe.{join_strings}
use unicore_ros.Report.Counts.{
  text_leb, insert_text, sort_texts, one_of_texts, count_of, count_text, preferred_parts,
  extra_parts, describe_ordered_counts,
}

-- The order of `std::string` is total.
text_leb_total : (s t : Text) → text_leb s t ≡ false → text_leb t s ≡ true
unfolding text_leb
text_leb_total [] t e = cc
text_leb_total (x ∷ s) [] e = refl
text_leb_total (x ∷ s) (y ∷ t) e = ground (arith, text_leb_total s t)

text_leb_antisym : (s t : Text) → text_leb s t ≡ true → text_leb t s ≡ true → s ≡ t
unfolding text_leb
text_leb_antisym [] [] e f = refl
text_leb_antisym [] (y ∷ t) e f = cc
text_leb_antisym (x ∷ s) [] e f = cc
text_leb_antisym (x ∷ s) (y ∷ t) e f = ground (arith, text_leb_antisym s t)

text_leb_trans : (s t u : Text) → text_leb s t ≡ true → text_leb t u ≡ true → text_leb s u ≡ true
unfolding text_leb
text_leb_trans [] t u e f = refl
text_leb_trans (x ∷ s) [] u e f = cc
text_leb_trans (x ∷ s) (y ∷ t) [] e f = cc
text_leb_trans (x ∷ s) (y ∷ t) (z ∷ u) e f = ground (arith, text_leb_trans s t u)

insert_text-insert_text :
    (s t : Text) (l : List Text) → insert_text s (insert_text t l) ≡ insert_text t (insert_text s l)
unfolding insert_text
insert_text-insert_text s t [] =
    ground (arith, text_leb_total s t, text_leb_total t s, text_leb_antisym s t)
insert_text-insert_text s t (u ∷ l) = ground (
  arith,
  insert_text-insert_text s t l,
  text_leb_total s t,
  text_leb_total t s,
  text_leb_total s u,
  text_leb_total t u,
  text_leb_antisym s t,
  text_leb_antisym s u,
  text_leb_antisym t u,
  text_leb_trans s t u,
  text_leb_trans t s u,
)

-- Two orders of the entries of one map: neighbours with different keys change places.
pub data SameMap : List (Text × ℤ) → List (Text × ℤ) → Type 0 where
  here : (m : List (Text × ℤ)) → SameMap m m
  under : {m n : List (Text × ℤ)} (e : Text × ℤ) → SameMap m n → SameMap (e ∷ m) (e ∷ n)
  swap :
      (e f : Text × ℤ) (m : List (Text × ℤ))
      → text_eq e.0 f.0 ≡ false
      → SameMap (e ∷ f ∷ m) (f ∷ e ∷ m)
  after : {m n k : List (Text × ℤ)} → SameMap m n → SameMap n k → SameMap m k

-- What one entry adds to the sorted extras.
add_extra : List Text → Text × ℤ → List Text → List Text
add_extra order e l =
    if not (positive e.1) || one_of_texts e.0 order then l else insert_text (count_text e.0 e.1) l

sorted_extras : List Text → List (Text × ℤ) → List Text
sorted_extras order [] = []
sorted_extras order (e ∷ m) = add_extra order e (sorted_extras order m)

sorted_extras_lem :
    (order : List Text) (m : List (Text × ℤ))
    → sort_texts (extra_parts order m) ≡ sorted_extras order m
unfolding sorted_extras sort_texts extra_parts add_extra
sorted_extras_lem order [] = refl
sorted_extras_lem order ((key, count) ∷ m) =
    elim (Bool-cases (not (positive count) || one_of_texts key order)) [
      | inl skip ↦ rw skip (sorted_extras_lem order m)
      | inr add ↦ rw add (ap (insert_text (count_text key count)) (sorted_extras_lem order m))
    ]

add_extra-add_extra :
    (order : List Text) (e f : Text × ℤ) (l : List Text)
    → add_extra order e (add_extra order f l) ≡ add_extra order f (add_extra order e l)
unfolding add_extra
add_extra-add_extra order e f l = elim (Bool-cases (not (positive e.1) || one_of_texts e.0 order)) [
  | inl skip ↦ rw skip refl
  | inr add ↦ elim (Bool-cases (not (positive f.1) || one_of_texts f.0 order)) [
    | inl skip ↦ rw (add, skip) refl
    | inr too ↦ rw (add, too) (insert_text-insert_text (count_text e.0 e.1) (count_text f.0 f.1) l)
  ]
]

sorted_extras-SameMap :
    (order : List Text) {m n : List (Text × ℤ)}
    → SameMap m n
    → sorted_extras order m ≡ sorted_extras order n
unfolding sorted_extras
sorted_extras-SameMap order (here m) = refl
sorted_extras-SameMap order (under e s) = ap (add_extra order e) (sorted_extras-SameMap order s)
sorted_extras-SameMap order (swap e f m ne) = add_extra-add_extra order e f (sorted_extras order m)
sorted_extras-SameMap order (after s t) =
    sorted_extras-SameMap order s ∙ sorted_extras-SameMap order t

-- A key is not two different ones.
not-both : (a b key : Text) → text_eq a b ≡ false → text_eq a key ≡ true → text_eq b key ≡ true → ⊥
not-both a b key ne ha hb =
    cc (ne, (text_eq_iff a b).1 ((text_eq_iff a key).0 ha ∙ sym ((text_eq_iff b key).0 hb)))

count_of-SameMap :
    (key : Text) {m n : List (Text × ℤ)} → SameMap m n → count_of key m ≡ count_of key n
unfolding count_of
count_of-SameMap key (here m) = refl
count_of-SameMap key (under e s) =
    ap (λ (c : ℤ). if text_eq e.0 key then e.1 else c) (count_of-SameMap key s)
count_of-SameMap key (swap e f m ne) = elim (Bool-cases (text_eq e.0 key)) [
  | inl he ↦ elim (Bool-cases (text_eq f.0 key)) [
    | inl hf ↦ absurd (not-both e.0 f.0 key ne he hf)
    | inr hf ↦ rw (he, hf) refl
  ]
  | inr he ↦ rw he refl
]
count_of-SameMap key (after s t) = count_of-SameMap key s ∙ count_of-SameMap key t

preferred_parts-SameMap :
    (order : List Text) {m n : List (Text × ℤ)}
    → SameMap m n
    → preferred_parts m order ≡ preferred_parts n order
unfolding preferred_parts
preferred_parts-SameMap [] s = refl
preferred_parts-SameMap (key ∷ order) {m} {n} s =
    ap
      (λ (c : ℤ).
        if positive c then count_text key c ∷ preferred_parts m order else preferred_parts m order)
      (count_of-SameMap key s)
    ∙ ap
        (λ (l : List Text).
          if positive (count_of key n) then count_text key (count_of key n) ∷ l else l)
        (preferred_parts-SameMap order s)

-- Over two orders of the entries of one map, the text is the same, whatever the preferred keys.
pub describe_ordered_counts-SameMap :
    (order : List Text) {m n : List (Text × ℤ)}
    → SameMap m n
    → describe_ordered_counts m order ≡ describe_ordered_counts n order
unfolding describe_ordered_counts
describe_ordered_counts-SameMap order {m} {n} s =
    ap (λ (l : List Text). join_strings (l ++ sort_texts (extra_parts order m)))
      (preferred_parts-SameMap order s)
    ∙ ap (λ (l : List Text). join_strings (preferred_parts n order ++ l))
        (sorted_extras_lem order m
          ∙ sorted_extras-SameMap order s
          ∙ sym (sorted_extras_lem order n))
