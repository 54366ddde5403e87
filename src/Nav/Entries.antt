-- ===== src/Nav/Entries.antt =====
-- The entries that `parse_bestsatb` of src/unicore_binary_nav.cpp reads.
use unicore_ros.Base.{
  ℕ, zero, suc, ◌+◌, ◌*◌, ◌≤◌, ◌<◌, ◌≡◌, refl, ap, ◌∙◌, inl, inr, true, false, none, some, List, [],
  ◌∷◌, arith, All, Bool-cases, length, get_elem?, lt→ltb, le→ltb-false,
}
use unicore_ros.Base.Text.{codes}
use unicore_ros.Wire.{IsByte}
use unicore_ros.Payload.{Payload, has_range, read_u32}
use unicore_ros.Sentence.{ParsedSentence, sentence_of, BestSatEntry}
use unicore_ros.Nav.Status.{to_int}
use unicore_ros.Nav.BestSat.{best_sat_entry, read_entry, entry_loop, parse_bestsatb}
use unicore_ros.Nav.Fields.{field, read_u32-field}

-- The entry in the 16 bytes at `offset`.
unfoldable pub entry_at : Payload → ℕ → BestSatEntry
entry_at p offset =
    best_sat_entry (field 4 p offset) (field 4 p (offset + 4)) (field 4 p (offset + 8))
      (field 4 p (offset + 12))

abbrev pub bestsat_sentence : (D : Type 0) → ℕ → List BestSatEntry → ParsedSentence D
bestsat_sentence D count read = record (sentence_of D (codes "BESTSATB")) {
  bestsat = some (record { entry_count = to_int count; entries = read });
}

-- `read` holds `count` entries, read every 16 bytes from `cursor` on.
abbrev pub AreEntries : Payload → ℕ → ℕ → List BestSatEntry → Type 0
AreEntries p count cursor read =
    (length read ≡ count)
    × ((i : ℕ) → i < count → get_elem? read i ≡ some (entry_at p (cursor + 16 * i)))

AreEntries-cons :
    (p : Payload) (n cursor : ℕ) (read : List BestSatEntry)
    → AreEntries p n (cursor + 16) read
    → AreEntries p (suc n) cursor (entry_at p cursor ∷ read)
AreEntries-cons p n cursor read (size, each) = (ap suc size, every)
  where
    every :
        (i : ℕ)
        → i < suc n
        → get_elem? (entry_at p cursor ∷ read) i ≡ some (entry_at p (cursor + 16 * i))
    every zero h = ap (λ (k : ℕ). some (entry_at p k)) here
      where
        here : cursor ≡ cursor + 16 * 0
        here = omega arith
    every (suc i) h = each i (omega arith) ∙ ap (λ (k : ℕ). some (entry_at p k)) (there)
      where
        there : cursor + 16 + 16 * i ≡ cursor + 16 * suc i
        there = omega arith

module _ (p : Payload) (bytes : All IsByte p) where
  read_entry-at : (o : ℕ) → o + 16 ≤ length p → read_entry p o ≡ some (entry_at p o)
  unfolding read_entry entry_at
  read_entry-at o h =
      rw
        (
          read_u32-field p bytes o (omega arith),
          read_u32-field p bytes (o + 4) (omega arith),
          read_u32-field p bytes (o + 8) (omega arith),
          read_u32-field p bytes (o + 12) (omega arith),
        )
        refl

  entry_loop-AreEntries :
      (n cursor : ℕ)
      → cursor + 16 * n ≤ length p
      → (read : List BestSatEntry) × (entry_loop p n cursor ≡ some read)
        × AreEntries p n cursor read
  unfolding entry_loop
  entry_loop-AreEntries zero cursor h = ([], refl, (refl, λ i less. absurd (omega arith)))
  entry_loop-AreEntries (suc n) cursor h =
      let (read, e, are) = entry_loop-AreEntries n (cursor + 16) (omega arith) in
      (
        entry_at p cursor ∷ read,
        rw (read_entry-at cursor (omega arith), e) refl,
        AreEntries-cons p n cursor read are,
      )

-- When the payload has the count and 16 bytes for each entry, `parse_bestsatb` gives a sentence with
-- as many entries as the count says, and entry `i` is read from the 16 bytes at 4 + 16 i.
pub parse_bestsatb-AreEntries :
    (D : Type 0) (p : Payload)
    → All IsByte p
    → 4 + 16 * field 4 p 0 ≤ length p
    → (read : List BestSatEntry) × (parse_bestsatb D p
        ≡ some (bestsat_sentence D (field 4 p 0) read))
      × AreEntries p (field 4 p 0) 4 read
unfolding parse_bestsatb
parse_bestsatb-AreEntries D p bytes h =
    let (read, e, are) = entry_loop-AreEntries p bytes (field 4 p 0) 4 h in
    (
      read,
      rw
          (
            read_u32-field p bytes 0 (omega arith),
            le→ltb-false (length p) (4 + field 4 p 0 * 16) (omega arith),
            e,
          )
          refl,
      are,
    )

has_range-four : (p : Payload) → has_range p 0 4 ≡ true → 0 + 4 ≤ length p
unfolding has_range
has_range-four p e = ground arith

read_u32-none : (p : Payload) (o : ℕ) → has_range p o 4 ≡ false → read_u32 p o ≡ none
unfolding read_u32
read_u32-none p o e = rw e refl

-- A payload of bytes without the count, or with fewer bytes than the count asks for, gives no
-- sentence.
pub parse_bestsatb-none :
    (D : Type 0) (p : Payload)
    → All IsByte p
    → length p < 4 + 16 * field 4 p 0
    → parse_bestsatb D p ≡ none
unfolding parse_bestsatb
parse_bestsatb-none D p bytes h = elim (Bool-cases (has_range p 0 4)) [
  | inr e ↦ rw (read_u32-none p 0 e) refl
  | inl e ↦
      rw
        (
          read_u32-field p bytes 0 (has_range-four p e),
          lt→ltb (length p) (4 + field 4 p 0 * 16) (omega arith),
        )
        refl
]
