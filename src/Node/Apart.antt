-- ===== src/Node/Apart.antt =====
-- The ASCII and the binary side of src/unicore_node.cpp do not disturb each other.
use unicore_ros.Base.{ℕ, ◌≡◌, refl, ap, ◌∙◌, inl, inr, false, List, [], Option-cases}
use unicore_ros.Transport.{Frame}
use unicore_ros.Floats.{Floats}
use unicore_ros.Nav.Observations.{parse}
use unicore_ros.Node.State.{Settings, AsciiLatest, BinaryLatest, NodeState}
use unicore_ros.Node.Active.{active_fix, active_heading}
use unicore_ros.Node.Publish.{Message}
use unicore_ros.Node.Process.{Readings, process_binary_frame, accept_binary, binary_messages}

module _ (F : Floats) (o : Settings F.D) (now : ℕ) where
  -- Without binary navigation the binary data do not matter.
  active-off :
      (a : AsciiLatest F.D) (b b' : BinaryLatest F.D)
      → o.use_binary_nav ≡ false
      → (active_fix F o now a b ≡ active_fix F o now a b')
        × (active_heading F o now a b ≡ active_heading F o now a b')
  unfolding active_fix active_heading
  active-off a b b' off = (rw (off, active_fix) refl, rw (off, active_heading) refl)

module _ (F : Floats) (o : Settings F.D) (at : Readings) where
  Kept : NodeState F.D → NodeState F.D × List (Message F.D) → Type 0
  Kept s r = (r.1 ≡ []) × (r.0.ascii ≡ s.ascii) × (r.0.parser ≡ s.parser)

  kept :
      (frame : Frame) (s : NodeState F.D)
      → o.use_binary_nav ≡ false
      → Kept s (process_binary_frame F o at frame s)
  unfolding process_binary_frame accept_binary binary_messages Kept
  kept frame s off = elim (Option-cases (parse F frame)) [
    | inl e ↦ rw (e, process_binary_frame) (refl, refl, refl)
    | inr (parsed, e) ↦ rw (e, process_binary_frame, off) (refl, refl, refl)
  ]

  -- While the node does not use binary navigation, a binary frame publishes nothing, whatever it
  -- holds, and neither the ASCII data nor the parser's counters change, so that the current fix and
  -- heading at any time are the same as without the frame.
  pub process_binary_frame-apart :
      (frame : Frame) (s : NodeState F.D) (now : ℕ)
      → o.use_binary_nav ≡ false
      → ((process_binary_frame F o at frame s).1 ≡ [])
        × ((process_binary_frame F o at frame s).0.ascii ≡ s.ascii)
        × ((process_binary_frame F o at frame s).0.parser ≡ s.parser)
        × (active_fix F o now
              (process_binary_frame F o at frame s).0.ascii
              (process_binary_frame F o at frame s).0.binary
            ≡ active_fix F o now s.ascii s.binary)
        × (active_heading F o now
              (process_binary_frame F o at frame s).0.ascii
              (process_binary_frame F o at frame s).0.binary
            ≡ active_heading F o now s.ascii s.binary)
  unfolding Kept
  process_binary_frame-apart frame s now off =
      let (nothing, same, counters) = kept frame s off in
      let after = (process_binary_frame F o at frame s).0 in
      let (fix, heading) = active-off F o now s.ascii after.binary s.binary off in
      (
        nothing,
        same,
        counters,
        ap (λ (a : AsciiLatest F.D). active_fix F o now a after.binary) same ∙ fix,
        ap (λ (a : AsciiLatest F.D). active_heading F o now a after.binary) same ∙ heading,
      )
