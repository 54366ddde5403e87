-- ===== src/Node/History.antt =====
-- The lists of recent RTCM message ids of src/unicore_node.cpp hold the last ids received.
use unicore_ros.Base.{
  ℕ, ◌-◌, ◌≤◌, ◌<◌, ◌≡◌, refl, sym, ap, ◌∙◌, inl, inr, Option, none, some, List, [], ◌∷◌, ◌++◌,
  arith, length, drop, length-append, length-drop, drop-drop, drop-append_le, append_assoc,
  append-nil, le→ltb-false, lt→ltb, ltb, if◌then◌else◌, Bool-cases, Option-cases, ltb→lt,
  ltb-false→le,
}
use unicore_ros.Base.Int.{ℤ, pos, negsuc}
use unicore_ros.Base.Text.{Text}
use unicore_ros.Transport.{Frame}
use unicore_ros.Floats.{Floats}
use unicore_ros.Sentence.{ParsedSentence, RtcmStatusData, FixData, HeadingData}
use unicore_ros.Nav.Observations.{parse}
use unicore_ros.Ascii.Line.{parse_line}
use unicore_ros.Node.State.{Settings, AsciiLatest, BinaryLatest, NodeState, initial_state}
use unicore_ros.Node.Process.{
  Readings, recent_limit, push_message_id, renew_ids, is_pvtslna, is_hpr, process_line,
  process_binary_frame, accept_sentence, accept_binary, take_fix, take_heading, take_rest,
  take_binary, store_fix, store_heading,
}

-- The last `n` of a list.
abbrev pub last_of {ℓ} : {A : Type ℓ} → ℕ → List A → List A
last_of n xs = drop (length xs - n) xs

-- The id of a status, unless it is negative.
abbrev pub id_of : Option RtcmStatusData → List ℤ
id_of none = []
id_of (some status) = elim status.message_id [ pos n ↦ pos n ∷ [] | negsuc n ↦ [] ]

abbrev trimmed : List ℤ → List ℤ
trimmed ids = if ltb recent_limit (length ids) then drop 1 ids else ids

last_of-short : (ids : List ℤ) → length ids ≤ recent_limit → last_of recent_limit ids ≡ ids
last_of-short ids h = ap (λ (k : ℕ). drop k ids) {x = length ids - 8} {y = 0} (omega arith)

trimmed-short : (ids : List ℤ) → length ids ≤ recent_limit → trimmed ids ≡ ids
trimmed-short ids h = rw (le→ltb-false recent_limit (length ids) h) refl

trimmed-long : (ids : List ℤ) → recent_limit < length ids → trimmed ids ≡ drop 1 ids
trimmed-long ids h = rw (lt→ltb recent_limit (length ids) h) refl

last_of-push :
    (id : ℤ) (ids : List ℤ)
    → trimmed (last_of recent_limit ids ++ (id ∷ [])) ≡ last_of recent_limit (ids ++ (id ∷ []))
last_of-push id ids = elim (Bool-cases (ltb (length ids) recent_limit)) [
  | inl e ↦
      let less = ltb→lt (length ids) recent_limit e in
      ap (λ (xs : List ℤ). trimmed (xs ++ (id ∷ []))) (last_of-short ids (omega arith))
      ∙ trimmed-short more (omega (arith, length-append ids (id ∷ [])))
      ∙ sym (last_of-short more (omega (arith, length-append ids (id ∷ []))))
  | inr e ↦
      let many = ltb-false→le (length ids) recent_limit e in
      ap trimmed (sym (drop-append_le (length ids - 8) ids (id ∷ []) (omega arith)))
      ∙ trimmed-long (drop (length ids - 8) more)
          (omega (arith, length-append ids (id ∷ []), length-drop (length ids - 8) more))
      ∙ drop-drop 1 (length ids - 8) more
      ∙ ap (λ (k : ℕ). drop k more) (omega (arith, length-append ids (id ∷ [])))
]
  where
    more : List ℤ
    more = ids ++ (id ∷ [])

renew_ids-last_of :
    (status : Option RtcmStatusData) (past : List ℤ)
    → renew_ids status (last_of recent_limit past) ≡ last_of recent_limit (past ++ id_of status)
unfolding renew_ids push_message_id
renew_ids-last_of none past = ap (last_of recent_limit) (sym (append-nil past))
renew_ids-last_of (some status) past = pushed status.message_id
  where
    pushed :
        (id : ℤ)
        → push_message_id id (last_of recent_limit past)
          ≡ last_of recent_limit (past ++ elim id [ pos n ↦ pos n ∷ [] | negsuc n ↦ [] ])
    pushed (pos n) = last_of-push (pos n) past
    pushed (negsuc n) = ap (last_of recent_limit) (sym (append-nil past))

-- A line or a frame, with the readings of the clock.
pub data NodeEvent : Type 0 where
  line : Readings → Text → NodeEvent
  frame : Readings → Frame → NodeEvent

module _ (F : Floats) (o : Settings F.D) where
  unfoldable pub process : NodeEvent → NodeState F.D → NodeState F.D
  unfolding process_line process_binary_frame
  process (NodeEvent.line at text) s = (process_line F o at text s).0
  process (NodeEvent.frame at bytes) s = (process_binary_frame F o at bytes s).0

  unfoldable pub process_all : List NodeEvent → NodeState F.D → NodeState F.D
  unfolding process
  process_all [] s = s
  process_all (event ∷ events) s = process_all events (process event s)

  -- The ids that an event reports on the ASCII and on the binary side.
  unfoldable pub ascii_ids : NodeEvent → NodeState F.D → List ℤ
  ascii_ids (NodeEvent.line at text) s = elim (parse_line F text s.parser).1 [
    | none ↦ []
    | some parsed ↦ id_of parsed.rtcm_status
  ]
  ascii_ids (NodeEvent.frame at bytes) s = []

  unfoldable pub binary_ids : NodeEvent → List ℤ
  binary_ids (NodeEvent.line at text) = []
  binary_ids (NodeEvent.frame at bytes) = elim (parse F bytes) [
    | none ↦ []
    | some parsed ↦ id_of parsed.rtcm_status
  ]

  take_fix-ids :
      (at : Readings) (fix : Option (FixData F.D)) (b : BinaryLatest F.D) (a : AsciiLatest F.D)
      → (take_fix F o at fix b a).0.recent_rtcm_message_ids ≡ a.recent_rtcm_message_ids
  unfolding take_fix store_fix
  take_fix-ids at none b a = refl
  take_fix-ids at (some fix) b a = elim (Bool-cases (is_pvtslna fix.source)) [
    | inl e ↦ rw (e, store_fix) refl
    | inr e ↦ rw (e, store_fix) refl
  ]

  take_heading-ids :
      (at : Readings) (heading : Option (HeadingData F.D)) (b : BinaryLatest F.D)
      (a : AsciiLatest F.D)
      → (take_heading F o at heading b a).0.recent_rtcm_message_ids ≡ a.recent_rtcm_message_ids
  unfolding take_heading store_heading
  take_heading-ids at none b a = refl
  take_heading-ids at (some heading) b a = elim (Bool-cases (is_hpr heading.source)) [
    | inl e ↦ rw (e, store_heading) refl
    | inr e ↦ rw (e, store_heading) refl
  ]

  accept_sentence-ids :
      (at : Readings) (parsed : ParsedSentence F.D) (b : BinaryLatest F.D) (a : AsciiLatest F.D)
      → (accept_sentence F o at parsed b a).0.recent_rtcm_message_ids
        ≡ renew_ids parsed.rtcm_status a.recent_rtcm_message_ids
  unfolding accept_sentence take_rest
  accept_sentence-ids at parsed b a =
      ap (renew_ids parsed.rtcm_status)
        (take_heading-ids at parsed.heading b _ ∙ take_fix-ids at parsed.fix b _)

  -- Both lists hold the last ids of a past.
  abbrev pub HoldsLast : List ℤ → List ℤ → NodeState F.D → Type 0
  HoldsLast ascii_past binary_past s =
      (s.ascii.recent_rtcm_message_ids ≡ last_of recent_limit ascii_past)
      × (s.binary.recent_binary_rtcm_message_ids ≡ last_of recent_limit binary_past)

  process-HoldsLast :
      (event : NodeEvent) (s : NodeState F.D) (ascii_past binary_past : List ℤ)
      → HoldsLast ascii_past binary_past s
      → HoldsLast
          (ascii_past ++ ascii_ids event s)
          (binary_past ++ binary_ids event)
          (process event s)
  unfolding process ascii_ids binary_ids process_line process_binary_frame accept_binary take_binary
  process-HoldsLast (NodeEvent.line at text) s ascii_past binary_past (ha, hb) =
      elim (Option-cases (parse_line F text s.parser).1) [
        | inl e ↦
            rw (e, process, process_line, ascii_ids)
              (
                ha ∙ ap (last_of recent_limit) (sym (append-nil ascii_past)),
                hb ∙ ap (last_of recent_limit) (sym (append-nil binary_past)),
              )
        | inr (parsed, e) ↦
            rw (e, process, process_line, ascii_ids)
              (
                accept_sentence-ids at parsed s.binary s.ascii
                    ∙ ap (renew_ids parsed.rtcm_status) ha
                    ∙ renew_ids-last_of parsed.rtcm_status ascii_past,
                hb ∙ ap (last_of recent_limit) (sym (append-nil binary_past)),
              )
      ]
  process-HoldsLast (NodeEvent.frame at bytes) s ascii_past binary_past (ha, hb) =
      elim (Option-cases (parse F bytes)) [
        | inl e ↦
            rw (e, process, process_binary_frame, binary_ids)
              (
                ha ∙ ap (last_of recent_limit) (sym (append-nil ascii_past)),
                hb ∙ ap (last_of recent_limit) (sym (append-nil binary_past)),
              )
        | inr (parsed, e) ↦
            rw (e, process, process_binary_frame, binary_ids)
              (
                ha ∙ ap (last_of recent_limit) (sym (append-nil ascii_past)),
                ap (renew_ids parsed.rtcm_status) hb
                    ∙ renew_ids-last_of parsed.rtcm_status binary_past,
              )
      ]

  -- All ids that events report, in order.
  unfoldable pub all_ascii_ids : List NodeEvent → NodeState F.D → List ℤ
  unfolding ascii_ids process
  all_ascii_ids [] s = []
  all_ascii_ids (event ∷ events) s = ascii_ids event s ++ all_ascii_ids events (process event s)

  unfoldable pub all_binary_ids : List NodeEvent → List ℤ
  unfolding binary_ids
  all_binary_ids [] = []
  all_binary_ids (event ∷ events) = binary_ids event ++ all_binary_ids events

  process_all-HoldsLast :
      (events : List NodeEvent) (s : NodeState F.D) (ascii_past binary_past : List ℤ)
      → HoldsLast ascii_past binary_past s
      → HoldsLast
          (ascii_past ++ all_ascii_ids events s)
          (binary_past ++ all_binary_ids events)
          (process_all events s)
  unfolding process_all all_ascii_ids all_binary_ids
  process_all-HoldsLast [] s ascii_past binary_past (ha, hb) = (
    ha ∙ ap (last_of recent_limit) (sym (append-nil ascii_past)),
    hb ∙ ap (last_of recent_limit) (sym (append-nil binary_past)),
  )
  process_all-HoldsLast (event ∷ events) s ascii_past binary_past h =
      let next = process event s in
      let (ha, hb) =
        process_all-HoldsLast events next (ascii_past ++ ascii_ids event s)
          (binary_past ++ binary_ids event) (process-HoldsLast event s ascii_past binary_past h) in
      (
        ha
            ∙ ap (last_of recent_limit)
                (append_assoc ascii_past (ascii_ids event s) (all_ascii_ids events next)),
        hb
            ∙ ap (last_of recent_limit)
                (append_assoc binary_past (binary_ids event) (all_binary_ids events)),
      )

  -- After any lines and frames, in any order, each list of recent RTCM message ids holds the last 8,
  -- or all if there are fewer, of the non-negative ids that the sentences of its side have reported.
  pub process_all-recent :
      (events : List NodeEvent)
      → HoldsLast
          (all_ascii_ids events (initial_state F.D))
          (all_binary_ids events)
          (process_all events (initial_state F.D))
  process_all-recent events = process_all-HoldsLast events (initial_state F.D) [] [] (refl, refl)
