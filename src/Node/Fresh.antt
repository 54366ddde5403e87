-- ===== src/Node/Fresh.antt =====
-- What src/unicore_node.cpp takes for the current fix: valid, fresh, and of the best source that has
-- one.
use unicore_ros.Base.{
  ℕ, ◌≡◌, refl, ◌⊎◌, inl, inr, true, false, ◌&&◌, Option, none, some, Bool-cases,
}
use unicore_ros.Floats.{Floats}
use unicore_ros.Sentence.{FixData}
use unicore_ros.Node.State.{TimedData, Latest, Settings, AsciiLatest, BinaryLatest}
use unicore_ros.Node.Active.{is_fresh, fresh_fix, active_ascii_fix, active_binary_fix, active_fix}

module _ (F : Floats) where
  -- The slot holds this fix, which is valid and not older than the timeout.
  abbrev pub IsCurrent : F.D → ℕ → Latest (FixData F.D) → FixData F.D → Type 0
  IsCurrent timeout_sec now latest fix =
      (timed : TimedData (FixData F.D)) × (latest ≡ some timed)
      × (timed.data_of ≡ fix)
      × (fix.valid_fix ≡ true)
      × (is_fresh F timed.received_at timeout_sec now ≡ true)

  -- The slot holds no fix that is valid and fresh.
  abbrev pub HasNone : F.D → ℕ → Latest (FixData F.D) → Type 0
  HasNone timeout_sec now latest =
      (latest ≡ none)
      ⊎ ((timed : TimedData (FixData F.D)) × (latest ≡ some timed)
          × ((timed.data_of.valid_fix && is_fresh F timed.received_at timeout_sec now) ≡ false))

  -- What a slot gives.
  fresh_fix-cases :
      (timeout_sec : F.D) (now : ℕ) (latest : Latest (FixData F.D))
      → ((fix : FixData F.D) × (fresh_fix F timeout_sec now latest ≡ some fix)
          × IsCurrent timeout_sec now latest fix)
        ⊎ ((fresh_fix F timeout_sec now latest ≡ none) × HasNone timeout_sec now latest)
  unfolding fresh_fix
  fresh_fix-cases timeout_sec now none = inr (refl, inl refl)
  fresh_fix-cases timeout_sec now (some timed) = elim (Bool-cases (timed.data_of.valid_fix)) [
    | inr invalid ↦ inr (rw (invalid, fresh_fix) refl, inr (timed, refl, rw invalid refl))
    | inl valid ↦ elim (Bool-cases (is_fresh F timed.received_at timeout_sec now)) [
      | inr old ↦ inr (rw (valid, old, fresh_fix) refl, inr (timed, refl, rw (valid, old) refl))
      | inl fresh ↦
          inl (timed.data_of, rw (valid, fresh, fresh_fix) refl, (timed, refl, refl, valid, fresh))
    ]
  ]

  module _ (o : Settings F.D) (now : ℕ) (a : AsciiLatest F.D) (b : BinaryLatest F.D) where
    -- The three outcomes of the ASCII sources.
    abbrev pub AsciiChoice : Option (FixData F.D) → Type 0
    AsciiChoice none =
        HasNone o.data_timeout_sec now a.latest_pvtslna_fix
        × HasNone o.data_timeout_sec now a.latest_gga_fix
    AsciiChoice (some fix) =
        IsCurrent o.data_timeout_sec now a.latest_pvtslna_fix fix
        ⊎ (HasNone o.data_timeout_sec now a.latest_pvtslna_fix
            × IsCurrent o.data_timeout_sec now a.latest_gga_fix fix)

    active_ascii_fix-AsciiChoice : AsciiChoice (active_ascii_fix F o now a)
    unfolding active_ascii_fix
    active_ascii_fix-AsciiChoice =
        elim (fresh_fix-cases o.data_timeout_sec now a.latest_pvtslna_fix) [
          | inl (fix, e, current) ↦ rw (e, active_ascii_fix) (inl current)
          | inr (e, nothing) ↦ elim (fresh_fix-cases o.data_timeout_sec now a.latest_gga_fix) [
            | inl (fix, e', current) ↦ rw (e, e', active_ascii_fix) (inr (nothing, current))
            | inr (e', nothing') ↦ rw (e, e', active_ascii_fix) (nothing, nothing')
          ]
        ]

    -- The binary source comes first where the setting asks for it and it has a fix.
    abbrev pub Choice : Option (FixData F.D) → Type 0
    Choice chosen =
        ((o.use_binary_nav ≡ true)
          × (fix : FixData F.D) × (chosen ≡ some fix)
          × IsCurrent o.binary_nav_timeout_sec now b.latest_binary_pvtsln_fix fix)
        ⊎ (((o.use_binary_nav ≡ false)
              ⊎ HasNone o.binary_nav_timeout_sec now b.latest_binary_pvtsln_fix)
            × AsciiChoice chosen)

    -- The current fix is valid and not older than the timeout of its source; it is the binary one
    -- if the node uses binary navigation and that one is valid and fresh, else that of PVTSLNA, else
    -- that of GGA; and there is none only if all the sources asked have none that is valid and fresh.
    pub active_fix-Choice : Choice (active_fix F o now a b)
    unfolding active_fix active_binary_fix
    active_fix-Choice = elim (Bool-cases o.use_binary_nav) [
      | inr off ↦ rw (off, active_fix) (inr (inl refl, active_ascii_fix-AsciiChoice))
      | inl on ↦ elim (fresh_fix-cases o.binary_nav_timeout_sec now b.latest_binary_pvtsln_fix) [
        | inl (fix, e, current) ↦
            rw (on, e, active_fix, active_binary_fix) (inl (refl, fix, refl, current))
        | inr (e, nothing) ↦
            rw (on, e, active_fix, active_binary_fix)
              (inr (inr nothing, active_ascii_fix-AsciiChoice))
      ]
    ]
