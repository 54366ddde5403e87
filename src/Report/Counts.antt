-- ===== src/Report/Counts.antt =====
-- The counts that src/unicore_node.cpp describes: the signal strengths, the gains, and the maps from
-- names to counts. A map is the list of its entries, in the order in which it is walked.
use unicore_ros.Base.{
  ℕ, suc, ◌+◌, ◌%◌, ◌^◌, Bool, true, false, not, ◌||◌, Option, none, some, List, [], ◌∷◌, ◌++◌, ltb,
  ◌==◌, if◌then◌else◌,
}
use unicore_ros.Base.Int.{ℤ, pos, negsuc}
use unicore_ros.Base.Text.{Text, codes, text_eq, to_string, to_string_int}
use unicore_ros.Floats.{Floats, zero_double, minus_one_double}
use unicore_ros.Sentence.{AgcData}
use unicore_ros.Nav.Names.{positive}
use unicore_ros.Report.Describe.{Display, join_strings, to_string_or_nan}

-- `operator<` of `std::string`, by bytes.
unfoldable pub text_leb : Text → Text → Bool
text_leb [] ys = true
text_leb (x ∷ xs) [] = false
text_leb (x ∷ xs) (y ∷ ys) = if x == y then text_leb xs ys else ltb x y

-- A `std::map` is walked in the order of its keys.
unfoldable pub insert_entry : Text × ℕ → List (Text × ℕ) → List (Text × ℕ)
unfolding text_leb
insert_entry (name, count) [] = (name, count) ∷ []
insert_entry (name, count) ((other, n) ∷ rest) =
    if text_leb name other
    then (name, count) ∷ (other, n) ∷ rest
    else (other, n) ∷ insert_entry (name, count) rest

unfoldable pub sort_entries : List (Text × ℕ) → List (Text × ℕ)
unfolding insert_entry
sort_entries [] = []
sort_entries (entry ∷ rest) = insert_entry entry (sort_entries rest)

unfoldable pub named_sizes : List (Text × ℕ) → List Text
named_sizes [] = []
named_sizes ((name, count) ∷ counts) = (name ++ (codes "=" ++ to_string count)) ∷ named_sizes counts

unfoldable pub describe_string_size_counts : List (Text × ℕ) → Text
unfolding sort_entries named_sizes join_strings
describe_string_size_counts [] = codes "none"
describe_string_size_counts (count ∷ counts) =
    join_strings (named_sizes (sort_entries (count ∷ counts)))

unfoldable pub insert_text : Text → List Text → List Text
unfolding text_leb
insert_text t [] = t ∷ []
insert_text t (s ∷ rest) = if text_leb t s then t ∷ s ∷ rest else s ∷ insert_text t rest

-- The result of `std::sort` on texts.
unfoldable pub sort_texts : List Text → List Text
unfolding insert_text
sort_texts [] = []
sort_texts (t ∷ rest) = insert_text t (sort_texts rest)

abbrev pub one_of_texts : Text → List Text → Bool
one_of_texts t [] = false
one_of_texts t (s ∷ rest) = text_eq s t || one_of_texts t rest

unfoldable pub count_of : Text → List (Text × ℤ) → ℤ
count_of key [] = pos 0
count_of key ((name, count) ∷ counts) = if text_eq name key then count else count_of key counts

abbrev pub count_text : Text → ℤ → Text
count_text key count = key ++ (codes "=" ++ to_string_int count)

-- The preferred keys whose count is positive.
unfoldable pub preferred_parts : List (Text × ℤ) → List Text → List Text
unfolding count_of
preferred_parts counts [] = []
preferred_parts counts (key ∷ keys) =
    let count = count_of key counts in
    if positive count
    then count_text key count ∷ preferred_parts counts keys
    else preferred_parts counts keys

-- The other keys whose count is positive, in the order of the walk.
unfoldable pub extra_parts : List Text → List (Text × ℤ) → List Text
extra_parts order [] = []
extra_parts order ((key, count) ∷ counts) =
    if not (positive count) || one_of_texts key order
    then extra_parts order counts
    else count_text key count ∷ extra_parts order counts

unfoldable pub describe_ordered_counts : List (Text × ℤ) → List Text → Text
unfolding preferred_parts extra_parts sort_texts join_strings
describe_ordered_counts counts order =
    join_strings (preferred_parts counts order ++ sort_texts (extra_parts order counts))

-- `value >= 0`.
abbrev pub is_known : ℤ → Bool
is_known (pos n) = true
is_known (negsuc n) = false

unfoldable pub count_valid_agc_channels : List ℤ → ℕ
count_valid_agc_channels [] = 0
count_valid_agc_channels (value ∷ values) =
    if is_known value
    then suc (count_valid_agc_channels values)
    else count_valid_agc_channels values

-- `std::min` over the values that are known; `none` is `!found`.
abbrev min_int : ℕ → Option ℕ → ℕ
min_int n none = n
min_int n (some m) = if ltb m n then m else n

unfoldable pub least_known : List ℤ → Option ℕ
least_known [] = none
least_known (negsuc n ∷ values) = least_known values
least_known (pos n ∷ values) = some (min_int n (least_known values))

unfoldable pub min_valid_agc : List ℤ → ℤ
unfolding least_known
min_valid_agc values = elim (least_known values) [ none ↦ negsuc 0 | some n ↦ pos n ]

unfoldable pub agc_parts : List ℤ → List Text → List Text
agc_parts (value ∷ values) (band ∷ bands) =
    if is_known value
    then count_text band value ∷ agc_parts values bands
    else agc_parts values bands
agc_parts _ _ = []

abbrev pub agc_bands : List Text
agc_bands = codes "L1" ∷ codes "L2" ∷ codes "L5" ∷ []

unfoldable pub describe_agc_values : List ℤ → Text
unfolding agc_parts join_strings
describe_agc_values values = join_strings (agc_parts values agc_bands)

unfoldable pub describe_antenna_status : Option AgcData → Text
unfolding count_valid_agc_channels
describe_antenna_status none = codes "unknown"
describe_antenna_status (some agc) =
    if count_valid_agc_channels agc.antenna1 == 0
    then codes "main invalid"
    else if count_valid_agc_channels agc.antenna2 == 0
    then codes "main ok, aux unavailable"
    else codes "main ok, aux ok"

-- The signal strengths seen so far.
pub record Cn0Accumulator (D : Type 0) : Type 0 where
  pub sum_db_hz : D
  pub max_db_hz : D
  pub sample_count : ℕ

module _ (F : Floats) (P : Display F) where
  abbrev pub no_samples : Cn0Accumulator F.D
  no_samples = record {
    sum_db_hz = zero_double F;
    max_db_hz = minus_one_double F;
    sample_count = 0;
  }

  unfoldable pub add_cn0_sample : Cn0Accumulator F.D → F.D → Cn0Accumulator F.D
  add_cn0_sample acc cn0_db_hz =
      if not (F.is_finite cn0_db_hz) || F.less_equal cn0_db_hz (zero_double F)
      then acc
      else record {
        sum_db_hz = F.add acc.sum_db_hz cn0_db_hz;
        max_db_hz = if F.less acc.max_db_hz cn0_db_hz then cn0_db_hz else acc.max_db_hz;
        sample_count = (acc.sample_count + 1) % 2 ^ 64;
      }

  unfoldable pub mean_cn0_value : Cn0Accumulator F.D → Option F.D
  mean_cn0_value acc =
      if acc.sample_count == 0
      then none
      else some (F.div acc.sum_db_hz (F.of_int (pos acc.sample_count)))

  unfoldable pub mean_cn0_or_na : Cn0Accumulator F.D → Text
  unfolding to_string_or_nan
  mean_cn0_or_na acc =
      if acc.sample_count == 0
      then codes "n/a"
      else to_string_or_nan F P (F.div acc.sum_db_hz (F.of_int (pos acc.sample_count)))

  unfoldable pub max_cn0_or_na : Cn0Accumulator F.D → Text
  unfolding to_string_or_nan
  max_cn0_or_na acc =
      if acc.sample_count == 0 then codes "n/a" else to_string_or_nan F P acc.max_db_hz

  -- The loop of `mean_valid_agc`.
  unfoldable pub sum_valid_agc : F.D → ℕ → List ℤ → F.D × ℕ
  sum_valid_agc sum count [] = (sum, count)
  sum_valid_agc sum count (value ∷ values) =
      sum_valid_agc (if is_known value then F.add sum (F.of_int value) else sum)
        (if is_known value then count + 1 else count) values

  unfoldable pub mean_valid_agc : List ℤ → F.D
  unfolding sum_valid_agc
  mean_valid_agc values =
      let (sum, count) = sum_valid_agc (zero_double F) 0 values in
      if count == 0 then P.quiet_nan else F.div sum (F.of_int (pos count))
