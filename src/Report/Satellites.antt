-- ===== src/Report/Satellites.antt =====
-- `gps_satellites_status` of src/unicore_node.cpp.
use unicore_ros.Base.{
  ℕ, ◌+◌, ◌%◌, ◌^◌, Bool, true, false, not, ◌&&◌, Option, none, some, List, [], ◌∷◌, ◌++◌,
  if◌then◌else◌, length,
}
use unicore_ros.Base.Int.{ℤ, pos, pos_part, neg_part, sub_ℕ, signed}
use unicore_ros.Base.Text.{Text, codes, text_eq, to_string_int}
use unicore_ros.Floats.{Floats, zero_double}
use unicore_ros.Sentence.{
  BestNavData, BestSatData, BestSatEntry, SatsInfoData, SatsInfoEntry, SatsInfoSignal,
}
use unicore_ros.Nav.Names.{positive}
use unicore_ros.Node.State.{TimedData, Settings}
use unicore_ros.Node.Active.{is_fresh}
use unicore_ros.Report.Describe.{Display, is_int, is_blank}
use unicore_ros.Report.Counts.{count_of, Cn0Accumulator, no_samples, add_cn0_sample, mean_cn0_value}
use unicore_ros.Report.Status.{
  Level, ok, warn, error, KeyValue, ReportSettings, has_value, at_least,
}

abbrev pub Counted : Type 0
Counted = List (Text × ℤ)

abbrev pub plus_int : ℤ → ℤ → ℤ
plus_int a b = sub_ℕ (pos_part a + pos_part b) (neg_part a + neg_part b)

-- `m[key] = v`.
unfoldable pub set_count : Text → ℤ → Counted → Counted
set_count key v [] = (key, v) ∷ []
set_count key v ((name, n) ∷ rest) =
    if text_eq name key then (name, v) ∷ rest else (name, n) ∷ set_count key v rest

-- `++m[key]`.
unfoldable pub bump_count : Text → Counted → Counted
unfolding set_count count_of
bump_count key counts = set_count key (plus_int (count_of key counts) (pos 1)) counts

abbrev pub talker_names : List (Text × Text)
talker_names =
    (codes "GP", codes "GPS")
    ∷ (codes "GL", codes "GLO")
    ∷ (codes "GA", codes "GAL")
    ∷ (codes "GB", codes "BDS")
    ∷ (codes "GQ", codes "QZSS")
    ∷ (codes "GI", codes "IRNSS")
    ∷ (codes "GN", codes "GNSS")
    ∷ []

unfoldable pub label_of : List (Text × Text) → Text → Text
label_of [] talker = talker
label_of ((name, label) ∷ rest) talker = if text_eq name talker then label else label_of rest talker

abbrev pub primary_constellations : List Text
primary_constellations = codes "GPS" ∷ codes "GLO" ∷ codes "GAL" ∷ codes "BDS" ∷ codes "QZSS" ∷ []

abbrev pub tracked_bands : List Text
tracked_bands =
    codes "L1"
    ∷ codes "L2"
    ∷ codes "L5"
    ∷ codes "E1"
    ∷ codes "E5"
    ∷ codes "B1"
    ∷ codes "B2"
    ∷ codes "B3"
    ∷ []

-- `used_by_constellation` of BESTSAT.
unfoldable pub count_used : List BestSatEntry → Counted → Counted
unfolding bump_count
count_used [] counts = counts
count_used (entry ∷ entries) counts = count_used entries (bump_count entry.constellation counts)

-- `constellation_summary`, over the constellations that are left.
unfoldable pub summary_from : (visible used : Counted) → Text → List Text → Text
summary_from visible used summary [] = summary
summary_from visible used summary (name ∷ names) =
    let v = count_of name visible in
    let u = count_of name used in
    summary_from visible used
      (if not (positive v) && not (positive u)
        then summary
        else (if is_blank summary then summary else summary ++ codes ", ")
          ++ (name ++ (codes "=" ++ (to_string_int v ++ (codes "/" ++ to_string_int u)))))
      names

-- `gsv_counts_.empty()`.
abbrev pub is_empty_gsv : List (Text × TimedData ℤ) → Bool
is_empty_gsv [] = true
is_empty_gsv (_ ∷ _) = false

-- The pieces of `gsv_counts_` and what they add up to.
pub record GsvSums : Type 0 where
  pub total : ℤ
  pub visible : Counted
  pub values : List KeyValue

-- What SATSINFO adds up to. The `int` counts are at most the number of its satellites, and stay below
-- 2^31 by the size of a payload.
pub record SatsInfoSums (D : Type 0) : Type 0 where
  pub visible_total : ℕ
  pub visible : Counted
  pub cn0_all : Cn0Accumulator D
  pub cn0_by_constellation : List (Text × Cn0Accumulator D)
  pub signal_count_by_band : Counted

-- `static_cast<int>` of a `std::size_t`.
abbrev pub to_int : ℕ → ℤ
to_int n = signed 32 (n % 2 ^ 32)

abbrev pub size_of : Option BestSatData → Option ℤ
size_of none = none
size_of (some data_of) = some (to_int (length data_of.entries))

abbrev pub or_value : Option ℤ → ℤ → ℤ
or_value none other = other
or_value (some n) other = n

abbrev pub or_option : Option ℤ → Option ℤ → Option ℤ
or_option none other = other
or_option (some n) other = some n

module _ (F : Floats) (P : Display F) (o : Settings F.D) (r : ReportSettings F.D) (now : ℕ) where
  unfoldable pub sum_gsv : List (Text × TimedData ℤ) → GsvSums → GsvSums
  unfolding is_fresh label_of set_count
  sum_gsv [] s = s
  sum_gsv ((talker, timed) ∷ rest) s =
      let v =
        if is_fresh F timed.received_at o.data_timeout_sec now then timed.data_of else pos 0 in
      sum_gsv rest (record {
        total = plus_int s.total v;
        visible = set_count (label_of talker_names talker) v s.visible;
        values =
            s.values ++ (record { key = codes "sats_" ++ talker; value = to_string_int v } ∷ []);
      })

  -- The accumulator of a constellation.
  unfoldable pub samples_of : Text → List (Text × Cn0Accumulator F.D) → Cn0Accumulator F.D
  samples_of name [] = no_samples F P
  samples_of name ((other, acc) ∷ rest) = if text_eq other name then acc else samples_of name rest

  unfoldable pub add_sample_to :
      Text → F.D → List (Text × Cn0Accumulator F.D) → List (Text × Cn0Accumulator F.D)
  unfolding add_cn0_sample
  add_sample_to name cn0 [] = (name, add_cn0_sample F P (no_samples F P) cn0) ∷ []
  add_sample_to name cn0 ((other, acc) ∷ rest) =
      if text_eq other name
      then (other, add_cn0_sample F P acc cn0) ∷ rest
      else (other, acc) ∷ add_sample_to name cn0 rest

  unfoldable pub sum_signals : List (SatsInfoSignal F.D) → SatsInfoSums F.D → SatsInfoSums F.D
  unfolding add_cn0_sample add_sample_to bump_count
  sum_signals [] s = s
  sum_signals (signal ∷ signals) s = sum_signals signals (record s {
    cn0_all = add_cn0_sample F P s.cn0_all signal.cn0_db_hz;
    cn0_by_constellation =
        add_sample_to signal.constellation signal.cn0_db_hz s.cn0_by_constellation;
    signal_count_by_band =
        if not (is_blank signal.band) && F.less (zero_double F) signal.cn0_db_hz
        then bump_count signal.band s.signal_count_by_band
        else s.signal_count_by_band;
  })

  unfoldable pub sum_satellites : List (SatsInfoEntry F.D) → SatsInfoSums F.D → SatsInfoSums F.D
  unfolding bump_count sum_signals
  sum_satellites [] s = s
  sum_satellites (entry ∷ entries) s = sum_satellites entries (
      sum_signals entry.signals (record s {
        visible_total = s.visible_total + 1;
        visible = bump_count entry.constellation s.visible;
      }))

  abbrev pub no_sums : SatsInfoSums F.D
  no_sums = record {
    visible_total = 0;
    visible = [];
    cn0_all = no_samples F P;
    cn0_by_constellation = [];
    signal_count_by_band = [];
  }

  -- The mean of one side's signals.
  unfoldable pub side_mean : Option (SatsInfoData F.D) → Option F.D
  unfolding sum_satellites mean_cn0_value
  side_mean none = none
  side_mean (some info) = mean_cn0_value F P (sum_satellites info.entries no_sums).cn0_all

  abbrev pub visible_of : Option (SatsInfoData F.D) → Option ℤ
  visible_of none = none
  visible_of (some info) = some (to_int (length info.entries))

  abbrev pub used_of : Option (BestNavData F.D) → Option ℤ
  used_of none = none
  used_of (some n) = some n.satellites_used

  abbrev pub tracked_of : Option (BestNavData F.D) → ℤ → ℤ
  tracked_of none other = other
  tracked_of (some n) other = n.satellites_tracked

  abbrev satsinfo_label : Text
  satsinfo_label = if o.use_binary_satellite_diag then codes "SATSINFOB" else codes "SATSINFOA"

  abbrev bestsat_label : Text
  bestsat_label = if o.use_binary_satellite_diag then codes "BESTSATB" else codes "BESTSATA"

  -- The branches behind the early return for `enable_satellite_status_`.
  unfoldable pub satellites_verdict :
      (has_gsv : Bool)
      → (binary_satsinfo satsinfo : Option (SatsInfoData F.D))
      → (binary_bestsat bestsat : Option BestSatData) → (visible_total used_total : ℤ)
      → Level × Text
  satellites_verdict has_gsv binary_satsinfo satsinfo binary_bestsat bestsat visible_total
        used_total =
      if r.enable_satsinfo && (not (has_value satsinfo) && not has_gsv)
      then (error, satsinfo_label ++ codes " missing and no GSV fallback")
      else if o.use_binary_satellite_diag && (r.enable_satsinfo && not (has_value binary_satsinfo))
      then (warn, satsinfo_label ++ codes " stale or missing")
      else if r.enable_satsinfo && not (has_value satsinfo)
      then (warn, satsinfo_label ++ codes " stale or missing")
      else if is_int visible_total 0
      then (error, codes "no visible satellites")
      else if o.use_binary_satellite_diag && not (has_value binary_bestsat)
      then (warn, bestsat_label ++ codes " stale or missing")
      else if not (has_value bestsat)
      then (warn, bestsat_label ++ codes " stale or missing")
      else if is_int used_total 0
      then (warn, codes "satellites visible but none used")
      else if not (at_least 6 visible_total)
      then (
        warn,
        to_string_int visible_total
            ++ (codes " visible sats " ++ (0xE2 ∷ 0x80 ∷ 0x94 ∷ codes " weak sky view")),
      )
      else (
        ok,
        to_string_int visible_total
            ++ (codes " visible / " ++ (to_string_int used_total ++ codes " used")),
      )
