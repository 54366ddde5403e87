-- ===== src/Report/Sums.antt =====
-- The counts that `gps_satellites_status` of src/unicore_node.cpp reports.
use unicore_ros.Base.{
  ℕ, ◌^◌, ◌<◌, ◌==◌, ◌≡◌, refl, ap, ◌∙◌, Bool, true, false, Option, none, some, List, [], ◌∷◌, ◌++◌,
  append_assoc, All, arith, length, if◌then◌else◌,
}
use unicore_ros.Base.Int.{ℤ, pos}
use unicore_ros.Base.Text.{Text, codes, text_eq, to_string, to_string_int}
use unicore_ros.Floats.{Floats}
use unicore_ros.Sentence.{BestSatData, SatsInfoData}
use unicore_ros.Node.State.{TimedData, Settings, AsciiLatest, BinaryLatest}
use unicore_ros.Node.Active.{active_satsinfo, active_bestsat}
use unicore_ros.Report.Describe.{Display}
use unicore_ros.Report.Counts.{count_of}
use unicore_ros.Report.Status.{KeyValue, ReportSettings}
use unicore_ros.Report.Satellites.{primary_constellations, tracked_bands, GsvSums, sum_gsv, no_sums}
use unicore_ros.Report.Tally.{visible_in, used_in, count_of-count_used, counted_lem}
use unicore_ros.Report.Sky.{
  SkyView, sky_view, sky_values, sky_comparison, constellation_values, band_values,
  gps_satellites_status,
}

-- The value under a key of a status.
abbrev pub value_of : Text → List KeyValue → Option Text
value_of key [] = none
value_of key (item ∷ items) = if text_eq item.key key then some item.value else value_of key items

module _ (F : Floats) (P : Display F) (o : Settings F.D) (r : ReportSettings F.D) (now : ℕ) where
  -- No key of GSV starts with this letter.
  skipped :
      (first : ℕ) (key : Text) (l : List (Text × TimedData ℤ)) (s : GsvSums) (rest : List KeyValue)
      → (b's' == first) ≡ false
      → ((more : List KeyValue)
          → value_of (first ∷ key) (s.values ++ more) ≡ value_of (first ∷ key) more)
      → value_of (first ∷ key) ((sum_gsv F P o r now l s).values ++ rest)
        ≡ value_of (first ∷ key) rest
  unfolding sum_gsv
  skipped first key [] s rest other h = h rest
  skipped first key ((talker, timed) ∷ l) s rest other h =
      skipped first key l _ rest other
        (λ more. ap (value_of (first ∷ key)) (append_assoc s.values _ more) ∙ h _ ∙ rw other refl)

  module _ (a : AsciiLatest F.D) (b : BinaryLatest F.D) (info : SatsInfoData F.D)
      (best : BestSatData) where
    abbrev view : SkyView F.D
    view = sky_view F P o r now a b (some info) (some best)

    -- The values behind those of GSV, with the comparison or without it.
    abbrev behind_gsv : Bool → List KeyValue
    behind_gsv compare =
        sky_values F P o r now a b (some info) (some best) view
        ++ ((if compare then sky_comparison F P o r now a b view.gsv.total else [])
            ++ (constellation_values F P o r now a b view primary_constellations
                ++ band_values F P o r now a b view.sums.signal_count_by_band tracked_bands))

    module _ (enabled : r.enable_satellite_status ≡ true) (with_info : r.enable_satsinfo ≡ true)
        (found : active_satsinfo F o now a b ≡ some info)
        (used : active_bestsat F o now a b ≡ some best) where
      values_lem :
          (gps_satellites_status F P o r now a b).values
          ≡ view.gsv.values ++ behind_gsv r.binary_compare_ascii
      unfolding gps_satellites_status
      values_lem = rw (enabled, found, used) refl

      -- A value is looked up behind those of GSV.
      looked_up :
          (first : ℕ) (key : Text) (t : Option Text)
          → (b's' == first) ≡ false
          → ((compare : Bool) → value_of (first ∷ key) (behind_gsv compare) ≡ t)
          → value_of (first ∷ key) (gps_satellites_status F P o r now a b).values ≡ t
      unfolding sky_view
      looked_up first key t other e =
          ap (value_of (first ∷ key)) values_lem
          ∙ skipped first key a.gsv_counts _ (behind_gsv r.binary_compare_ascii) other
              (λ more. refl)
          ∙ e r.binary_compare_ascii

      visible_total_lem : view.visible_total ≡ pos (length info.entries)
      unfolding sky_view
      visible_total_lem = rw with_info (
          ap pos (
            (counted_lem F P o r now [] info.entries (no_sums F P o r now) 0 refl).1 ∙ omega arith))

      visible_lem : (name : Text) → count_of name view.visible ≡ pos (visible_in name info.entries)
      unfolding sky_view count_of
      visible_lem name = rw with_info (
          (counted_lem F P o r now name info.entries (no_sums F P o r now) 0 refl).0
          ∙ ap pos (omega arith))

      used_total_lem : length best.entries < 2 ^ 31 → view.used_total ≡ pos (length best.entries)
      unfolding sky_view
      used_total_lem h = ground arith

      used_lem : (name : Text) → count_of name view.used ≡ pos (used_in name best.entries)
      unfolding sky_view count_of
      used_lem name = count_of-count_used name best.entries [] 0 refl ∙ ap pos (omega arith)

      total_values :
          (compare : Bool)
          → (value_of (codes "visible") (behind_gsv compare)
              ≡ some (to_string_int view.visible_total))
            × (value_of (codes "used") (behind_gsv compare) ≡ some (to_string_int view.used_total))
      unfolding sky_values
      total_values compare = (refl, refl)

      -- The counts by constellation that the values have.
      abbrev Printed : Bool → Text → Type 0
      Printed compare name =
          (value_of (codes "visible_" ++ name) (behind_gsv compare)
            ≡ some (to_string_int (count_of name view.visible)))
          × (value_of (codes "used_" ++ name) (behind_gsv compare)
              ≡ some (to_string_int (count_of name view.used)))

      -- The counts by constellation that the status reports.
      abbrev Reported : Text → Type 0
      Reported name =
          (value_of (codes "visible_" ++ name) (gps_satellites_status F P o r now a b).values
            ≡ some (to_string (visible_in name info.entries)))
          × (value_of (codes "used_" ++ name) (gps_satellites_status F P o r now a b).values
              ≡ some (to_string (used_in name best.entries)))

      reported : (name : Text) → ((compare : Bool) → Printed compare name) → Reported name
      unfolding to_string_int
      reported name e = (
        looked_up b'v' (codes "isible_" ++ name) _ refl (λ compare. (e compare).0)
            ∙ ap (λ n. some (to_string_int n)) (visible_lem name),
        looked_up b'u' (codes "sed_" ++ name) _ refl (λ compare. (e compare).1)
            ∙ ap (λ n. some (to_string_int n)) (used_lem name),
      )

      printed : (compare : Bool) → All (Printed compare) primary_constellations
      unfolding sky_values sky_comparison constellation_values
      printed true =
          ((refl, refl), ((refl, refl), ((refl, refl), ((refl, refl), ((refl, refl), tt)))))
      printed false =
          ((refl, refl), ((refl, refl), ((refl, refl), ((refl, refl), ((refl, refl), tt)))))

      All-Reported :
          (names : List Text)
          → ((compare : Bool) → All (Printed compare) names)
          → All Reported names
      All-Reported [] e = tt
      All-Reported (name ∷ names) e =
          (reported name (λ compare. (e compare).0), All-Reported names (λ compare. (e compare).1))

      totals :
          length best.entries < 2 ^ 31
          → (value_of (codes "visible") (gps_satellites_status F P o r now a b).values
              ≡ some (to_string (length info.entries)))
            × (value_of (codes "used") (gps_satellites_status F P o r now a b).values
                ≡ some (to_string (length best.entries)))
      unfolding to_string_int
      totals h = (
        looked_up b'v' (codes "isible") _ refl (λ compare. (total_values compare).0)
            ∙ ap (λ n. some (to_string_int n)) visible_total_lem,
        looked_up b'u' (codes "sed") _ refl (λ compare. (total_values compare).1)
            ∙ ap (λ n. some (to_string_int n)) (used_total_lem h),
      )

    -- While the satellite status and SATSINFO are enabled and a current SATSINFO and a current BESTSAT of
    -- fewer than 2^31 entries are at hand: the values of the status under "visible" and "used" are the texts
    -- of the numbers of entries of the two sentences, and under "visible_" and "used_" with the name of each
    -- of the five constellations, those of the numbers of their entries of that constellation.
    pub gps_satellites_status-counts :
        r.enable_satellite_status ≡ true
        → r.enable_satsinfo ≡ true
        → active_satsinfo F o now a b ≡ some info
        → active_bestsat F o now a b ≡ some best
        → length best.entries < 2 ^ 31
        → ((value_of (codes "visible") (gps_satellites_status F P o r now a b).values
              ≡ some (to_string (length info.entries)))
            × (value_of (codes "used") (gps_satellites_status F P o r now a b).values
                ≡ some (to_string (length best.entries))))
          × All
              (λ name.
                (value_of (codes "visible_" ++ name) (gps_satellites_status F P o r now a b).values
                  ≡ some (to_string (visible_in name info.entries)))
                × (value_of (codes "used_" ++ name) (gps_satellites_status F P o r now a b).values
                    ≡ some (to_string (used_in name best.entries))))
              primary_constellations
    gps_satellites_status-counts enabled with_info found used h = (
      totals enabled with_info found used h,
      All-Reported enabled with_info found used primary_constellations
          (printed enabled with_info found used),
    )
