-- ===== src/Report/Quiet.antt =====
-- When `gps_jamming_status` of src/unicore_node.cpp says that there is no jamming.
use unicore_ros.Base.{
  ℕ, ◌≡◌, refl, sym, ◌∙◌, ◌↔◌, Bool, true, not, ◌&&◌, ◌||◌, Option, none, some, arith, get_or,
  if◌then◌else◌,
}
use unicore_ros.Base.Int.{ℤ, pos, negsuc}
use unicore_ros.Base.Text.{Text}
use unicore_ros.Floats.{Floats}
use unicore_ros.Sentence.{JamStatusData, FreqJamStatusData}
use unicore_ros.Nav.Names.{positive}
use unicore_ros.Node.State.{Settings, AsciiLatest, BinaryLatest}
use unicore_ros.Node.Active.{
  active_jam_status, active_freq_jam_status, active_binary_jam_status,
  active_binary_freq_jam_status,
}
use unicore_ros.Report.Describe.{Display, is_int}
use unicore_ros.Report.Status.{Level, ok, warn, error, ReportSettings, has_value, at_least}
use unicore_ros.Report.Jamming.{max_int, strongest_flag, jamming_verdict, gps_jamming_status}

-- No flag of a JAMSTATUS.
abbrev pub quiet_jam : Option JamStatusData → Bool
quiet_jam none = true
quiet_jam (some jam) = not (positive jam.cw_flag)

-- No flag of the three bands of a FREQJAMSTATUS.
abbrev pub quiet_bands : Option FreqJamStatusData → Bool
quiet_bands none = true
quiet_bands (some freq) =
    not (positive (get_or freq.cw_flag 0 (pos 0)))
    && (not (positive (get_or freq.cw_flag 1 (pos 0)))
        && not (positive (get_or freq.cw_flag 2 (pos 0))))

max_int-positive : (x y : ℤ) → positive (max_int x y) ≡ (positive x || positive y)
max_int-positive (pos m) (pos n) = ground arith
max_int-positive (pos m) (negsuc n) = ground arith
max_int-positive (negsuc m) (pos n) = ground arith
max_int-positive (negsuc m) (negsuc n) = ground arith

strongest_flag-quiet :
    (jam : Option JamStatusData) (freq : Option FreqJamStatusData)
    → not (positive (strongest_flag jam freq)) ≡ (quiet_jam jam && quiet_bands freq)
unfolding strongest_flag
strongest_flag-quiet none none = refl
strongest_flag-quiet (some jam) none = ground arith
strongest_flag-quiet none (some freq) =
    rw (max_int-positive, max_int-positive, max_int-positive) (ground arith)
strongest_flag-quiet (some jam) (some freq) =
    rw (max_int-positive, max_int-positive, max_int-positive) (ground arith)

-- Whether a report is at hand, and a binary one if these are in use.
abbrev pub is_informed :
    (use_binary : Bool) (binary_jam jam : Option JamStatusData)
    (binary_freq freq : Option FreqJamStatusData)
    → Bool
is_informed use_binary binary_jam jam binary_freq freq =
    (has_value jam || has_value freq)
    && (not use_binary || (has_value binary_jam || has_value binary_freq))

positive-cases : (z : ℤ) → not (positive z) ≡ (not (at_least 2 z) && not (is_int z 1))
positive-cases z = ground arith

-- The first of four branches that is taken, or else the last one.
abbrev first_of : (b1 b2 b3 b4 : Bool) (x1 x2 x3 x4 x5 : Level × Text) → Level × Text
first_of b1 b2 b3 b4 x1 x2 x3 x4 x5 =
    if b1 then x1 else if b2 then x2 else if b3 then x3 else if b4 then x4 else x5

last_iff :
    (b1 b2 b3 b4 : Bool) (t1 t2 t3 t4 t5 : Text)
    → ((first_of b1 b2 b3 b4 (warn, t1) (warn, t2) (error, t3) (warn, t4) (ok, t5)).0 ≡ ok)
      ↔ ((not b1 && not b2) && (not b3 && not b4) ≡ true)
last_iff b1 b2 b3 b4 t1 t2 t3 t4 t5 = (λ e. ground arith, λ e. ground arith)

informed_lem :
    (j f u k l : Bool)
    → (not (not j && not f) && not (u && (not k && not l))) ≡ ((j || f) && (not u || (k || l)))
informed_lem j f u k l = ground arith

both_sides : {b1 b2 c1 c2 : Bool} → b1 ≡ c1 → b2 ≡ c2 → (b1 && b2) ≡ (c1 && c2)
both_sides e f = cc

module _ (F : Floats) (P : Display F) (o : Settings F.D) (r : ReportSettings F.D) (now : ℕ) where
  jamming_verdict-ok_iff :
      (binary_jam jam : Option JamStatusData) (binary_freq freq : Option FreqJamStatusData)
      → ((jamming_verdict F P o r now binary_jam jam binary_freq freq).0 ≡ ok) ↔ (
          is_informed o.use_binary_jamming_diag binary_jam jam binary_freq freq
            && (quiet_jam jam && quiet_bands freq)
          ≡ true)
  unfolding jamming_verdict
  jamming_verdict-ok_iff binary_jam jam binary_freq freq =
      let verdict = last_iff _ _ _ _ _ _ _ _ _ in
      let same =
        both_sides
          (informed_lem (has_value jam) (has_value freq) o.use_binary_jamming_diag
            (has_value binary_jam) (has_value binary_freq))
          (sym (positive-cases (strongest_flag jam freq)) ∙ strongest_flag-quiet jam freq) in
      (λ e. sym same ∙ verdict.0 e, λ e. verdict.1 (same ∙ e))

  module _ (a : AsciiLatest F.D) (b : BinaryLatest F.D) where
    -- While the jamming status is enabled, it is OK exactly when a current JAMSTATUS or FREQJAMSTATUS is
    -- at hand, one of a binary message if these are in use, and no flag of either is positive, neither the
    -- global one nor that of L1, L2 or L5.
    pub gps_jamming_status-ok_iff :
        r.enable_jamming_status ≡ true
        → ((gps_jamming_status F P o r now a b).level ≡ ok) ↔ (
            is_informed o.use_binary_jamming_diag
                (active_binary_jam_status F o now b)
                (active_jam_status F o now a b)
                (active_binary_freq_jam_status F o now b)
                (active_freq_jam_status F o now a b)
              && (quiet_jam (active_jam_status F o now a b)
                  && quiet_bands (active_freq_jam_status F o now a b))
            ≡ true)
    unfolding gps_jamming_status
    gps_jamming_status-ok_iff enabled = rw (enabled) (jamming_verdict-ok_iff _ _ _ _)
