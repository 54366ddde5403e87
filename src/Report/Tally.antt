-- ===== src/Report/Tally.antt =====
-- The counts that the loops of `gps_satellites_status`, src/unicore_node.cpp, keep by constellation.
use unicore_ros.Base.{
  ℕ, ◌+◌, ◌≡◌, refl, sym, ap, ◌∙◌, inl, inr, List, [], ◌∷◌, arith, length, Bool-cases,
  if◌then◌else◌,
}
use unicore_ros.Base.Int.{ℤ, pos}
use unicore_ros.Base.Text.{Text, text_eq, text_eq_iff}
use unicore_ros.Floats.{Floats}
use unicore_ros.Sentence.{BestSatEntry, SatsInfoEntry, SatsInfoSignal}
use unicore_ros.Node.State.{Settings}
use unicore_ros.Report.Describe.{Display}
use unicore_ros.Report.Counts.{count_of}
use unicore_ros.Report.Status.{ReportSettings}
use unicore_ros.Report.Satellites.{
  Counted, plus_int, set_count, bump_count, count_used, SatsInfoSums, sum_signals, sum_satellites,
}

-- The number of entries of a constellation, in SATSINFO and in BESTSAT.
abbrev pub visible_in : {D : Type 0} → Text → List (SatsInfoEntry D) → ℕ
visible_in name [] = 0
visible_in name (entry ∷ entries) =
    (if text_eq entry.constellation name then 1 else 0) + visible_in name entries

abbrev pub used_in : Text → List BestSatEntry → ℕ
used_in name [] = 0
used_in name (entry ∷ entries) =
    (if text_eq entry.constellation name then 1 else 0) + used_in name entries

count_of-set_count :
    (key name : Text) (v : ℤ) (c : Counted)
    → count_of name (set_count key v c) ≡ (if text_eq key name then v else count_of name c)
unfolding count_of set_count
count_of-set_count key name v [] = refl
count_of-set_count key name v ((other, n) ∷ rest) = elim (Bool-cases (text_eq other key)) [
  | inl same ↦ elim (Bool-cases (text_eq key name)) [
    | inl this ↦ rw (same, (text_eq_iff other key).0 same, this) refl
    | inr other_key ↦ rw (same, (text_eq_iff other key).0 same, other_key) refl
  ]
  | inr differs ↦ elim (Bool-cases (text_eq other name)) [
    | inl this ↦ elim (Bool-cases (text_eq key name)) [
      | inl both ↦ cc (
        differs,
        (text_eq_iff other key).1
            ((text_eq_iff other name).0 this ∙ sym ((text_eq_iff key name).0 both)),
      )
      | inr other_key ↦ rw (differs, this, other_key) refl
    ]
    | inr other_key ↦ rw (differs, other_key) (count_of-set_count key name v rest)
  ]
]

plus_one : (n : ℕ) → plus_int (pos n) (pos 1) ≡ pos (1 + n)
plus_one n = ground arith

count_of-bump_count :
    (key name : Text) (c : Counted) (m : ℕ)
    → count_of name c ≡ pos m
    → count_of name (bump_count key c) ≡ pos ((if text_eq key name then 1 else 0) + m)
unfolding bump_count
count_of-bump_count key name c m e = elim (Bool-cases (text_eq key name)) [
  | inl same ↦
      count_of-set_count key name _ c ∙ rw (same, (text_eq_iff key name).0 same, e) (plus_one m)
  | inr other ↦ count_of-set_count key name _ c ∙ rw other (e ∙ ap pos (omega arith))
]

pub count_of-count_used :
    (name : Text) (entries : List BestSatEntry) (c : Counted) (m : ℕ)
    → count_of name c ≡ pos m
    → count_of name (count_used entries c) ≡ pos (used_in name entries + m)
unfolding count_used
count_of-count_used name [] c m e = e ∙ ap pos (omega arith)
count_of-count_used name (entry ∷ entries) c m e =
    count_of-count_used name entries (bump_count entry.constellation c) _
      (count_of-bump_count entry.constellation name c m e)
    ∙ ap pos (omega arith)

module _ (F : Floats) (P : Display F) (o : Settings F.D) (r : ReportSettings F.D) (now : ℕ) where
  sum_signals-visible :
      (signals : List (SatsInfoSignal F.D)) (s : SatsInfoSums F.D)
      → ((sum_signals F P o r now signals s).visible ≡ s.visible)
        × ((sum_signals F P o r now signals s).visible_total ≡ s.visible_total)
  unfolding sum_signals
  sum_signals-visible [] s = (refl, refl)
  sum_signals-visible (signal ∷ signals) s = sum_signals-visible signals _

  -- All satellites, and those of a constellation.
  pub counted_lem :
      (name : Text) (entries : List (SatsInfoEntry F.D)) (s : SatsInfoSums F.D) (m : ℕ)
      → count_of name s.visible ≡ pos m
      → (count_of name (sum_satellites F P o r now entries s).visible
          ≡ pos (visible_in name entries + m))
        × ((sum_satellites F P o r now entries s).visible_total ≡ length entries + s.visible_total)
  unfolding sum_satellites
  counted_lem name [] s m e = (e ∙ ap pos (omega arith), omega arith)
  counted_lem name (entry ∷ entries) s m e =
      let (kept, same) = sum_signals-visible entry.signals (record s {
        visible_total = s.visible_total + 1;
        visible = bump_count entry.constellation s.visible;
      }) in
      let (one, all) =
        counted_lem name entries _ _
          (ap (count_of name) kept ∙ count_of-bump_count entry.constellation name s.visible m e) in
      (one ∙ ap pos (omega arith), omega (arith, all, same))
