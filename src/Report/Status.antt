-- ===== src/Report/Status.antt =====
-- A status of the diagnostics of src/unicore_node.cpp, and what the status functions share. A report
-- reads the clock once, as `now`.
use Prim.Native.String.{String}
use unicore_ros.Base.{
  ℕ, ◌+◌, Bool, true, false, ◌&&◌, Option, none, some, List, [], ◌∷◌, leb, ◌==◌, if◌then◌else◌,
}
use unicore_ros.Base.Int.{ℤ, pos, negsuc, pos_part, neg_part, sub_ℕ}
use unicore_ros.Base.Text.{Text, codes, to_string_int}
use unicore_ros.Floats.{Floats}
use unicore_ros.Sentence.{BestNavData}
use unicore_ros.Node.State.{Latest}
use unicore_ros.Node.Active.{age_seconds}
use unicore_ros.Node.Diagnostic.{diagnostic_feed_state, diagnostic_feed_state_name}
use unicore_ros.Report.Describe.{Display, to_string_or_nan}

pub data Level : Type 0 where
  ok warn error : Level

pub record KeyValue : Type 0 where
  pub key : Text
  pub value : Text

-- The name and the message of the hardware `unicore_n4`.
pub record DiagnosticStatus : Type 0 where
  pub name : Text
  pub values : List KeyValue
  pub level : Level
  pub message : Text

-- The parameters that only the diagnostics read.
pub record ReportSettings (D : Type 0) : Type 0 where
  pub enable_rtk_status : Bool
  pub enable_rtcm_status : Bool
  pub enable_satellite_status : Bool
  pub enable_satsinfo : Bool
  pub enable_rf_status : Bool
  pub enable_hw_status : Bool
  pub enable_jamming_status : Bool
  pub enable_raw_observation_diag : Bool
  pub enable_unicore_binary : Bool
  pub binary_compare_ascii : Bool
  pub max_diff_age_sec : D
  pub raw_observation_max_debug_entries : ℤ

abbrev pub kv : String → Text → KeyValue
kv key value = record { key = codes key; value = value }

abbrev pub yes_no : Bool → Text
yes_no true = codes "True"
yes_no false = codes "False"

abbrev pub has_value {ℓ} : {A : Type ℓ} → Option A → Bool
has_value none = false
has_value (some a) = true

abbrev pub text_or_na {ℓ} : {A : Type ℓ} → (A → Text) → Option A → Text
text_or_na f none = codes "n/a"
text_or_na f (some a) = f a

-- The values that are reported if there is something.
abbrev pub values_of {ℓ} : {A : Type ℓ} → (A → List KeyValue) → Option A → List KeyValue
values_of f none = []
values_of f (some a) = f a

-- Both sides of a comparison, if both are there.
abbrev pub both {ℓ} : {A : Type ℓ} → Option A → Option A → Option (A × A)
both (some a) (some b) = some (a, b)
both _ _ = none

-- `a - b` of two `int`.
abbrev pub minus_int : ℤ → ℤ → ℤ
minus_int a b = sub_ℕ (pos_part a + neg_part b) (pos_part b + neg_part a)

-- `a == b` of two `int`.
abbrev pub int_eq : ℤ → ℤ → Bool
int_eq (pos m) (pos n) = m == n
int_eq (negsuc m) (negsuc n) = m == n
int_eq _ _ = false

-- `n <= value` of an `int`.
abbrev pub at_least : ℕ → ℤ → Bool
at_least n (pos m) = leb n m
at_least n (negsuc m) = false

-- `feed_state`.
unfoldable pub feed_state : Bool → Bool → Text
unfolding diagnostic_feed_state diagnostic_feed_state_name
feed_state enabled fresh = diagnostic_feed_state_name (diagnostic_feed_state enabled fresh)

abbrev pub feed_of_disabled : KeyValue
feed_of_disabled = kv "feed_state" (feed_state false false)

module _ (F : Floats) (P : Display F) where
  -- An age, or `inf`.
  unfoldable pub show_age : F.D → Text
  unfolding to_string_or_nan
  show_age age = if F.is_finite age then to_string_or_nan F P age else codes "inf"

  -- A number, or `n/a`.
  unfoldable pub show_finite : F.D → Text
  unfolding to_string_or_nan
  show_finite value = if F.is_finite value then to_string_or_nan F P value else codes "n/a"

  unfoldable pub age_or_inf : ℕ → {A : Type 0} → Latest A → F.D
  age_or_inf now none = P.infinity
  age_or_inf now (some timed) = age_seconds F timed.received_at now

  unfoldable pub age_of_time : ℕ → Option ℕ → F.D
  age_of_time now none = P.infinity
  age_of_time now (some time) = age_seconds F time now

  -- The age of the side that is in use.
  abbrev pub age_in_use : {A : Type 0} → Bool → Option A → F.D → F.D → F.D
  age_in_use use_binary binary binary_age ascii_age =
      if use_binary && has_value binary then binary_age else ascii_age

  -- The values that two status functions report of BESTNAV.
  unfoldable pub bestnav_values : BestNavData F.D → List KeyValue
  unfolding to_string_or_nan
  bestnav_values n =
      kv "solution_status" n.solution_status
      ∷ kv "position_type" n.position_type
      ∷ kv "diff_age_s" (to_string_or_nan F P n.diff_age_sec)
      ∷ kv "sol_age_s" (to_string_or_nan F P n.sol_age_sec)
      ∷ kv "tracked_svs" (to_string_int n.satellites_tracked)
      ∷ kv "soln_svs" (to_string_int n.satellites_used)
      ∷ []
