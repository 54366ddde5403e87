-- ===== src/Report/Verdict.antt =====
-- What an OK of the RTK status of src/unicore_node.cpp rests on.
use unicore_ros.Base.{
  ℕ, ◌≡◌, ◌≢◌, refl, sym, ◌⊎◌, inl, inr, Bool, true, false, not, ◌&&◌, Option, none, some, arith,
  Bool-cases, ◌∙◌, ap, if◌then◌else◌,
}
use unicore_ros.Base.Int.{ℤ, pos}
use unicore_ros.Base.Text.{Text, codes, text_eq, text_eq_iff}
use unicore_ros.Floats.{Floats}
use unicore_ros.Sentence.{BestNavData, RtkStatusData}
use unicore_ros.Node.State.{TimedData, Latest, Settings, AsciiLatest, BinaryLatest}
use unicore_ros.Node.Active.{
  is_fresh, fresh_data, active_ascii_bestnav, active_binary_bestnav, active_bestnav,
  active_binary_rtk_status, active_rtk_status, prefer, max_double,
}
use unicore_ros.Nav.Names.{positive}
use unicore_ros.Report.Describe.{Display, is_int}
use unicore_ros.Report.Status.{Level, ok, warn, error, ReportSettings, has_value}
use unicore_ros.Report.Rtk.{rtk_grade, rtk_solution, rtk_verdict, rtk_quality, gps_rtk_status}

module _ (F : Floats) where
  -- The data were stored, and are not older than the timeout.
  pub record IsStored {A : Type 0} (timeout_sec : F.D) (now : ℕ) (latest : Latest A) (d : A)
      : Type 0 where
    pub timed : TimedData A
    pub stored : latest ≡ some timed
    pub same : timed.data_of ≡ d
    pub fresh : is_fresh F timed.received_at timeout_sec now ≡ true

  fresh_data-IsStored :
      {A : Type 0} (timeout_sec : F.D) (now : ℕ) (latest : Latest A) (d : A)
      → fresh_data F timeout_sec now latest ≡ some d
      → IsStored timeout_sec now latest d
  unfolding fresh_data
  fresh_data-IsStored timeout_sec now none d e = cc
  fresh_data-IsStored timeout_sec now (some timed) d e =
      elim (Bool-cases (is_fresh F timed.received_at timeout_sec now)) [
        | inl fresh ↦ record { timed = timed; stored = refl; same = ground arith; fresh = fresh }
        | inr old ↦ ground arith
      ]

  module _ (o : Settings F.D) (now : ℕ) (a : AsciiLatest F.D) (b : BinaryLatest F.D) where
    -- A BESTNAV that is current: of the binary side, if that is in use; or of the ASCII side, if the
    -- binary side is not in use or has no current one.
    abbrev pub IsCurrent : BestNavData F.D → Type 0
    IsCurrent n =
        ((o.use_binary_nav ≡ true)
          × IsStored o.binary_nav_timeout_sec now b.latest_binary_bestnav n)
        ⊎ (((o.use_binary_nav ≡ false) ⊎ (active_binary_bestnav F o now b ≡ none))
            × IsStored (max_double F (F.literal 20 1) o.rtcm_timeout_sec) now a.latest_bestnav n)

    prefer-cases :
        {A : Type 0} (chosen : Bool) (x y : Option A) (d : A)
        → prefer chosen x y ≡ some d
        → ((chosen ≡ true) × (x ≡ some d)) ⊎ (((chosen ≡ false) ⊎ (x ≡ none)) × (y ≡ some d))
    prefer-cases true none y d e = inr (inr refl, e)
    prefer-cases true (some c) y d e = inl (refl, e)
    prefer-cases false x y d e = inr (inl refl, e)

    active_bestnav-IsCurrent :
        (n : BestNavData F.D) → active_bestnav F o now a b ≡ some n → IsCurrent n
    unfolding active_bestnav active_ascii_bestnav
    active_bestnav-IsCurrent n e =
        elim (prefer-cases o.use_binary_nav (active_binary_bestnav F o now b)
          (active_ascii_bestnav F o now a) n e) [
            | inl (chosen, found) ↦ inl (
              chosen,
              fresh_data-IsStored _ now b.latest_binary_bestnav n
                  (unfold active_binary_bestnav in found),
            )
            | inr (other, found) ↦ inr (other, fresh_data-IsStored _ now a.latest_bestnav n found)
          ]

not-false : (b : Bool) → not b ≡ false → b ≡ true
not-false true e = refl
not-false false e = cc

error-ok : ◌≢◌ {A = Level} error ok
error-ok e = cc

warn-ok : ◌≢◌ {A = Level} warn ok
warn-ok e = cc

-- A branch that is no OK was not taken.
past :
    (b : Bool) (x y : Level × Text)
    → x.0 ≢ ok
    → (if b then x else y).0 ≡ ok
    → (b ≡ false) × (y.0 ≡ ok)
past true x y other e = absurd (other e)
past false x y other e = (refl, e)

only : (b : Bool) (x y : Level × Text) → y.0 ≢ ok → (if b then x else y).0 ≡ ok → b ≡ true
only true x y other e = refl
only false x y other e = absurd (other e)

not_ok :
    (b c : Bool) (x y z : Level × Text)
    → x.0 ≢ ok
    → y.0 ≢ ok
    → z.0 ≢ ok
    → (if b then x else if c then y else z).0 ≢ ok
not_ok true c x y z hx hy hz = hx
not_ok false true x y z hx hy hz = hy
not_ok false false x y z hx hy hz = hz

module _ (F : Floats) (P : Display F) (o : Settings F.D) (r : ReportSettings F.D) (now : ℕ) where
  is_int-pos : (z : ℤ) (n : ℕ) → is_int z n ≡ true → z ≡ pos n
  is_int-pos z n e = ground arith

  rtk_grade-ok : (quality : ℤ) → (rtk_grade F P o r now quality).0 ≡ ok → quality ≡ pos 4
  unfolding rtk_grade
  rtk_grade-ok quality e = is_int-pos quality 4 (
      only (is_int quality 4) (ok, codes "RTK fixed")
        (if is_int quality 5
          then (warn, codes "RTK float")
          else if positive quality
          then (warn, codes "non-RTK solution")
          else (error, codes "no valid RTK solution"))
        (not_ok (is_int quality 5) (positive quality) (warn, codes "RTK float")
          (warn, codes "non-RTK solution") (error, codes "no valid RTK solution") warn-ok warn-ok
          error-ok)
        e)

  rtk_solution-ok :
      (quality : ℤ) (n : BestNavData F.D)
      → (rtk_solution F P o r now quality n).0 ≡ ok
      → (n.solution_status ≡ codes "SOL_COMPUTED")
        × (F.less r.max_diff_age_sec n.diff_age_sec ≡ false)
        × (quality ≡ pos 4)
  unfolding rtk_solution
  rtk_solution-ok quality n e =
      let late = F.less r.max_diff_age_sec n.diff_age_sec in
      let (computed, e1) =
        past (not (text_eq n.solution_status (codes "SOL_COMPUTED")))
          (error, codes "solution not computed")
          (if late then (warn, codes "RTCM corrections too old") else rtk_grade F P o r now quality)
          error-ok e in
      let (recent, e2) =
        past late (warn, codes "RTCM corrections too old") (rtk_grade F P o r now quality) warn-ok
          e1 in
      (
        (text_eq_iff n.solution_status (codes "SOL_COMPUTED")).0
            (not-false (text_eq n.solution_status (codes "SOL_COMPUTED")) computed),
        recent,
        rtk_grade-ok quality e2,
      )

  rtk_verdict-ok :
      (bestnav : Option (BestNavData F.D)) (binary_rtk rtk : Option RtkStatusData) (quality : ℤ)
      → (rtk_verdict F P o r now bestnav binary_rtk rtk quality).0 ≡ ok
      → (n : BestNavData F.D) × (s : RtkStatusData) × (bestnav ≡ some n)
        × (rtk ≡ some s)
        × ((rtk_solution F P o r now quality n).0 ≡ ok)
        × (o.use_binary_rtk_diag && not (has_value binary_rtk) ≡ false)
  unfolding rtk_verdict
  rtk_verdict-ok none binary_rtk rtk quality e = cc
  rtk_verdict-ok (some n) binary_rtk none quality e = ground arith
  rtk_verdict-ok (some n) binary_rtk (some s) quality e =
      (n, s, refl, refl, ground arith, ground arith)

  module _ (a : AsciiLatest F.D) (b : BinaryLatest F.D) where
    rtk_level :
        r.enable_rtk_status ≡ true
        → (gps_rtk_status F P o r now a b).level
          ≡ (rtk_verdict F P o r now
              (active_bestnav F o now a b)
              (active_binary_rtk_status F o now b)
              (active_rtk_status F o now a b)
              (rtk_quality F P o r now
                (active_bestnav F o now a b)
                (active_rtk_status F o now a b))).0
    unfolding gps_rtk_status
    rtk_level enabled = rw (enabled, gps_rtk_status) refl

    rtk_quality-bestnav :
        (bestnav : Option (BestNavData F.D)) (rtk : Option RtkStatusData) (n : BestNavData F.D)
        → bestnav ≡ some n
        → rtk_quality F P o r now bestnav rtk ≡ n.fix_quality
    unfolding rtk_quality
    rtk_quality-bestnav bestnav rtk n e = ap (λ m. rtk_quality F P o r now m rtk) e

    -- While the RTK status is enabled and says OK, there is a current RTKSTATUS and a current BESTNAV,
    -- which is of the binary side, in use then, or of the ASCII side, and then the binary side is not in
    -- use or has no current one; the solution of that BESTNAV is computed and of quality 4, and its
    -- corrections are not older than allowed.
    pub gps_rtk_status-ok :
        r.enable_rtk_status ≡ true
        → (gps_rtk_status F P o r now a b).level ≡ ok
        → (n : BestNavData F.D) × (s : RtkStatusData) × IsCurrent F o now a b n
          × (active_rtk_status F o now a b ≡ some s)
          × (n.solution_status ≡ codes "SOL_COMPUTED")
          × (F.less r.max_diff_age_sec n.diff_age_sec ≡ false)
          × (n.fix_quality ≡ pos 4)
    gps_rtk_status-ok enabled e =
        let (n, s, found, rtk, solved, _) =
          rtk_verdict-ok (active_bestnav F o now a b) (active_binary_rtk_status F o now b)
            (active_rtk_status F o now a b) _ (sym (rtk_level enabled) ∙ e) in
        let (computed, recent, fixed) = rtk_solution-ok _ n solved in
        (
          n,
          s,
          active_bestnav-IsCurrent F o now a b n found,
          rtk,
          computed,
          recent,
          sym (
                rtk_quality-bestnav (active_bestnav F o now a b) (active_rtk_status F o now a b) n
                  found)
              ∙ fixed,
        )
