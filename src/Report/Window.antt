-- ===== src/Report/Window.antt =====
-- Which messages `gps_ntrip_status` of src/unicore_node.cpp counts. It takes old times off the front of
-- `rtcm_history_` only.
use unicore_ros.Base.{
  arith, ℕ, ◌≤◌, ◌≡◌, refl, sym, ap, Option, ◌∙◌, ◌↔◌, inl, inr, Bool, true, false, List, [], ◌∷◌,
  All, Bool-cases, if◌then◌else◌,
}
use unicore_ros.Base.Int.{sub_ℕ}
use unicore_ros.Floats.{Floats}
use unicore_ros.Node.State.{Settings, AsciiLatest, BinaryLatest}
use unicore_ros.Node.Active.{age_seconds}
use unicore_ros.Node.Rtcm.{Link}
use unicore_ros.Sentence.{RtcmStatusData}
use unicore_ros.Report.Describe.{Display}
use unicore_ros.Report.Status.{error, ReportSettings}
use unicore_ros.Report.Caster.{window_s, within_window, caster_verdict, gps_ntrip_status}

-- What IEEE 754 says of rounding: neither the conversion nor the quotient by a positive number
-- exchanges two values.
pub record KeepsOrder (F : Floats) : Type 0 where
  pub of_int_mono :
      (now s t : ℕ) → s ≤ t → F.less_equal (F.of_int (sub_ℕ now t)) (F.of_int (sub_ℕ now s)) ≡ true
  pub div_mono :
      (x y : F.D)
      → F.less_equal x y ≡ true
      → F.less_equal (F.div x (F.literal 1000000000 0)) (F.div y (F.literal 1000000000 0)) ≡ true
  pub less_trans : (x y z : F.D) → F.less x y ≡ true → F.less_equal y z ≡ true → F.less x z ≡ true

-- The oldest time first.
abbrev pub Ascending : List ℕ → Type 0
Ascending [] = Unit
Ascending (time ∷ times) = All (λ later. time ≤ later) times × Ascending times

module _ (F : Floats) (now : ℕ) where
  abbrev pub is_old : F.D → ℕ → Bool
  is_old window time = F.less window (age_seconds F time now)

  -- The times of a list that are not older than the window, wherever they stand.
  unfoldable pub recent : F.D → List ℕ → List ℕ
  recent window [] = []
  recent window (time ∷ times) =
      if is_old window time then recent window times else time ∷ recent window times

  older :
      KeepsOrder F
      → (window : F.D) (s t : ℕ) → s ≤ t
      → is_old window t ≡ true
      → is_old window s ≡ true
  unfolding age_seconds
  older laws window s t h e =
      laws.less_trans window _ _ e (laws.div_mono _ _ (laws.of_int_mono now s t h))

  recent_same :
      KeepsOrder F
      → (window : F.D) (time : ℕ) (times : List ℕ) → is_old window time ≡ false
      → All (λ later. time ≤ later) times
      → recent window times ≡ times
  unfolding recent
  recent_same laws window time [] young h = refl
  recent_same laws window time (next ∷ times) young (h, hs) =
      elim (Bool-cases (is_old window next)) [
        | inl old ↦ cc (young, older laws window time next h old)
        | inr new ↦ rw new (ap (λ l. next ∷ l) (recent_same laws window time times young hs))
      ]

module _ (F : Floats) (P : Display F) (o : Settings F.D) (r : ReportSettings F.D) (now : ℕ) where
  within_window-recent :
      KeepsOrder F
      → (times : List ℕ) → Ascending times
      → within_window F P o r now times ≡ recent F now (window_s F P o r now) times
  unfolding within_window recent
  within_window-recent laws [] h = refl
  within_window-recent laws (time ∷ times) (h, hs) =
      elim (Bool-cases (is_old F now (window_s F P o r now) time)) [
        | inl old ↦ rw old (within_window-recent laws times hs)
        | inr young ↦
            rw young (ap (λ l. time ∷ l) (sym (recent_same F now laws _ time times young h)))
      ]

  caster_verdict-error_iff :
      (times : List ℕ) (binary rtcm : Option RtcmStatusData) (age : F.D)
      → ((caster_verdict F P o r now times binary rtcm age).0 ≡ error) ↔ (times ≡ [])
  unfolding caster_verdict
  caster_verdict-error_iff [] binary rtcm age = (λ e. refl, λ e. refl)
  caster_verdict-error_iff (time ∷ times) binary rtcm age = (λ e. ground arith, λ e. cc)

  module _ (a : AsciiLatest F.D) (b : BinaryLatest F.D) where
    -- If the times of the history ascend, and conversions and quotients of doubles keep the order,
    -- `gps_ntrip_status` keeps exactly the messages that are not older than five seconds and nothing else
    -- of the link changes, and it reports an error exactly when there is no such message.
    pub gps_ntrip_status-recent :
        KeepsOrder F
        → (link : Link) → Ascending link.rtcm_history
        → ((gps_ntrip_status F P o r now a b link).1
            ≡ record link { rtcm_history = recent F now (F.literal 50 1) link.rtcm_history })
          × (((gps_ntrip_status F P o r now a b link).0.level ≡ error)
              ↔ (recent F now (F.literal 50 1) link.rtcm_history ≡ []))
    unfolding gps_ntrip_status
    gps_ntrip_status-recent laws link h =
        let kept = within_window-recent laws link.rtcm_history h in
        (
          ap (λ (l : List ℕ). record link { rtcm_history = l }) kept,
          (
            λ e. sym kept ∙ (caster_verdict-error_iff _ _ _ _).0 e,
            λ e. (caster_verdict-error_iff _ _ _ _).1 (kept ∙ e),
          ),
        )
