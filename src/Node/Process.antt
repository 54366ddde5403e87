-- ===== src/Node/Process.antt =====
-- `process_line` and `process_binary_frame` of src/unicore_node.cpp: the new state, and the messages
-- published on the way. The clock is read for the stamp of the data and for each publication.
use unicore_ros.Base.{
  ℕ, Bool, true, false, Option, none, some, List, [], ◌∷◌, ◌++◌, ltb, if◌then◌else◌, length, drop,
}
use unicore_ros.Base.Int.{ℤ, pos, negsuc}
use unicore_ros.Base.Text.{Text, text_eq}
use unicore_ros.Transport.{EventKind, Event, Frame, increment}
use unicore_ros.Transport.Drain.{is_empty}
use unicore_ros.Dispatch.{dispatch}
use unicore_ros.Floats.{Floats}
use unicore_ros.Sentence.{
  FixSource, HeadingSource, FixData, HeadingData, RtcmStatusData, GsvData, ParsedSentence,
}
use unicore_ros.Nav.Observations.{parse}
use unicore_ros.Ascii.Line.{parse_line}
use unicore_ros.Node.State.{TimedData, Latest, Settings, AsciiLatest, BinaryLatest, NodeState}
use unicore_ros.Node.Publish.{Message, publish_active_fix, publish_active_heading}

-- The readings of the clock by one call.
pub record Readings : Type 0 where
  pub received_at : ℕ
  pub fix_at : ℕ
  pub heading_at : ℕ

-- `latest = TimedData{*field, received_at}`, if the field is there.
unfoldable pub renew : {A : Type 0} → Option A → ℕ → Latest A → Latest A
renew none received_at latest = latest
renew (some a) received_at latest = some (record { data_of = a; received_at = received_at })

-- The ids kept in a `recent_..._message_ids_`: a negative one is not added.
abbrev pub recent_limit : ℕ
recent_limit = 8

unfoldable pub push_message_id : ℤ → List ℤ → List ℤ
push_message_id (negsuc n) ids = ids
push_message_id (pos n) ids =
    let pushed = ids ++ (pos n ∷ []) in
    if ltb recent_limit (length pushed) then drop 1 pushed else pushed

unfoldable pub renew_ids : Option RtcmStatusData → List ℤ → List ℤ
unfolding push_message_id
renew_ids none ids = ids
renew_ids (some status) ids = push_message_id status.message_id ids

abbrev stamp : {A : Type 0} → Option A → ℕ → Option ℕ → Option ℕ
stamp none received_at old = old
stamp (some a) received_at old = some received_at

-- `++sentence_counts_[type]`.
unfoldable pub count_sentence : Text → List (Text × ℕ) → List (Text × ℕ)
count_sentence type [] = (type, increment 0) ∷ []
count_sentence type ((key, n) ∷ rest) =
    let later = count_sentence type rest in
    if text_eq key type then (key, increment n) ∷ rest else (key, n) ∷ later

-- `gsv_counts_[talker] = ...`.
unfoldable pub set_gsv : Text → TimedData ℤ → List (Text × TimedData ℤ) → List (Text × TimedData ℤ)
set_gsv talker value [] = (talker, value) ∷ []
set_gsv talker value ((key, old) ∷ rest) =
    let later = set_gsv talker value rest in
    if text_eq key talker then (key, value) ∷ rest else (key, old) ∷ later

unfoldable pub renew_gsv :
    Option GsvData → ℕ → List (Text × TimedData ℤ) → List (Text × TimedData ℤ)
unfolding set_gsv
renew_gsv none received_at counts = counts
renew_gsv (some gsv) received_at counts =
    set_gsv gsv.talker (record { data_of = gsv.satellites_in_view; received_at = received_at })
      counts

abbrev is_frame : EventKind → Bool
is_frame EventKind.binary_frame = true
is_frame kind = false

abbrev pub is_pvtslna : FixSource → Bool
is_pvtslna FixSource.pvtslna = true
is_pvtslna source = false

abbrev pub is_hpr : HeadingSource → Bool
is_hpr HeadingSource.hpr = true
is_hpr source = false

module _ (F : Floats) (o : Settings F.D) (at : Readings) where
  unfoldable pub store_fix : FixData F.D → AsciiLatest F.D → AsciiLatest F.D
  store_fix fix a =
      let timed = some (record { data_of = fix; received_at = at.received_at }) in
      if is_pvtslna fix.source
      then record a { latest_pvtslna_fix = timed }
      else record a { latest_gga_fix = timed }

  unfoldable pub store_heading : HeadingData F.D → AsciiLatest F.D → AsciiLatest F.D
  store_heading heading a =
      let timed = some (record { data_of = heading; received_at = at.received_at }) in
      if is_hpr heading.source
      then record a { latest_hpr_heading = timed }
      else record a { latest_hdt_heading = timed }

  -- The fix of a sentence is stored, and the fix that is current then is published.
  unfoldable pub take_fix :
      Option (FixData F.D)
      → BinaryLatest F.D
      → AsciiLatest F.D
      → AsciiLatest F.D × List (Message F.D)
  unfolding store_fix publish_active_fix
  take_fix none b a = (a, [])
  take_fix (some fix) b a = (store_fix fix a, publish_active_fix F o at.fix_at (store_fix fix a) b)

  unfoldable pub take_heading :
      Option (HeadingData F.D)
      → BinaryLatest F.D
      → AsciiLatest F.D
      → AsciiLatest F.D × List (Message F.D)
  unfolding store_heading publish_active_heading
  take_heading none b a = (a, [])
  take_heading (some heading) b a = (
    store_heading heading a,
    publish_active_heading F o at.heading_at (store_heading heading a) b,
  )

  -- The fields after the heading.
  unfoldable pub take_rest : ParsedSentence F.D → AsciiLatest F.D → AsciiLatest F.D
  unfolding renew renew_ids renew_gsv
  take_rest parsed a = record a {
    latest_velocity = renew parsed.velocity at.received_at a.latest_velocity;
    latest_bestnav = renew parsed.bestnav at.received_at a.latest_bestnav;
    latest_rtk_status = renew parsed.rtk_status at.received_at a.latest_rtk_status;
    last_rtkstatus_time = stamp parsed.rtk_status at.received_at a.last_rtkstatus_time;
    latest_rtcm_status = renew parsed.rtcm_status at.received_at a.latest_rtcm_status;
    last_rtcmstatus_time = stamp parsed.rtcm_status at.received_at a.last_rtcmstatus_time;
    recent_rtcm_message_ids = renew_ids parsed.rtcm_status a.recent_rtcm_message_ids;
    latest_bestsat = renew parsed.bestsat at.received_at a.latest_bestsat;
    latest_satsinfo = renew parsed.satsinfo at.received_at a.latest_satsinfo;
    latest_agc = renew parsed.agc at.received_at a.latest_agc;
    latest_hw_status = renew parsed.hw_status at.received_at a.latest_hw_status;
    latest_jam_status = renew parsed.jam_status at.received_at a.latest_jam_status;
    latest_freq_jam_status = renew parsed.freq_jam_status at.received_at a.latest_freq_jam_status;
    gsv_counts = renew_gsv parsed.gsv at.received_at a.gsv_counts;
  }

  unfoldable pub accept_sentence :
      ParsedSentence F.D → BinaryLatest F.D → AsciiLatest F.D → AsciiLatest F.D × List (Message F.D)
  unfolding count_sentence take_fix take_heading take_rest
  accept_sentence parsed b a =
      let counted = record a {
        sentence_counts = count_sentence parsed.sentence_type a.sentence_counts;
      } in
      let (with_fix, fix_messages) = take_fix parsed.fix b counted in
      let (with_heading, heading_messages) = take_heading parsed.heading b with_fix in
      (take_rest parsed with_heading, fix_messages ++ heading_messages)

  unfoldable pub process_line : Text → NodeState F.D → NodeState F.D × List (Message F.D)
  unfolding parse_line accept_sentence
  process_line line s = elim (parse_line F line s.parser).1 [
    | none ↦ (record s { parser = (parse_line F line s.parser).0 }, [])
    | some parsed ↦ (
      record s {
        parser = (parse_line F line s.parser).0;
        ascii = (accept_sentence parsed s.binary s.ascii).0;
      },
      (accept_sentence parsed s.binary s.ascii).1,
    )
  ]

  -- The publications of `process_binary_frame`, each with the state of its time.
  unfoldable pub binary_messages :
      ParsedSentence F.D
      → AsciiLatest F.D
      → BinaryLatest F.D
      → BinaryLatest F.D
      → List (Message F.D)
  unfolding publish_active_fix publish_active_heading
  binary_messages parsed a with_fix with_heading =
      if o.use_binary_nav
      then elim parsed.fix [ none ↦ [] | some fix ↦ publish_active_fix F o at.fix_at a with_fix ]
        ++ elim parsed.heading [
          | none ↦ []
          | some heading ↦ publish_active_heading F o at.heading_at a with_heading
        ]
      else []

  unfoldable pub take_binary : ParsedSentence F.D → BinaryLatest F.D → BinaryLatest F.D
  unfolding renew renew_ids
  take_binary parsed b = record b {
    latest_binary_velocity = renew parsed.velocity at.received_at b.latest_binary_velocity;
    latest_binary_bestnav = renew parsed.bestnav at.received_at b.latest_binary_bestnav;
    latest_binary_rtk_status = renew parsed.rtk_status at.received_at b.latest_binary_rtk_status;
    latest_binary_rtcm_status = renew parsed.rtcm_status at.received_at b.latest_binary_rtcm_status;
    recent_binary_rtcm_message_ids = renew_ids parsed.rtcm_status b.recent_binary_rtcm_message_ids;
    latest_binary_bestsat = renew parsed.bestsat at.received_at b.latest_binary_bestsat;
    latest_binary_satsinfo = renew parsed.satsinfo at.received_at b.latest_binary_satsinfo;
    latest_binary_raw_observations =
        renew parsed.raw_observations at.received_at b.latest_binary_raw_observations;
    latest_binary_agc = renew parsed.agc at.received_at b.latest_binary_agc;
    latest_binary_hw_status = renew parsed.hw_status at.received_at b.latest_binary_hw_status;
    latest_binary_jam_status = renew parsed.jam_status at.received_at b.latest_binary_jam_status;
    latest_binary_freq_jam_status =
        renew parsed.freq_jam_status at.received_at b.latest_binary_freq_jam_status;
  }

  unfoldable pub accept_binary :
      ParsedSentence F.D
      → AsciiLatest F.D
      → BinaryLatest F.D
      → BinaryLatest F.D × List (Message F.D)
  unfolding renew take_binary binary_messages
  accept_binary parsed a b =
      let with_fix = record b {
        latest_binary_pvtsln_fix = renew parsed.fix at.received_at b.latest_binary_pvtsln_fix;
      } in
      let with_heading = record with_fix {
        latest_binary_heading = renew parsed.heading at.received_at b.latest_binary_heading;
      } in
      (take_binary parsed with_heading, binary_messages parsed a with_fix with_heading)

  -- From `dispatch` on `last_message_id` is always there.
  unfoldable pub process_binary_frame : Frame → NodeState F.D → NodeState F.D × List (Message F.D)
  unfolding dispatch parse accept_binary
  process_binary_frame frame s =
      let counters = (dispatch frame s.binary_dispatcher).0 in
      let noted = record s.binary {
        last_binary_frame_time = some at.received_at;
        last_binary_msg_id = elim counters.last_message_id [
          | none ↦ s.binary.last_binary_msg_id
          | some id ↦ some id
        ];
      } in
      elim (parse F frame) [
        | none ↦ (record s { binary_dispatcher = counters; binary = noted }, [])
        | some parsed ↦ (
          record s {
            binary_dispatcher = counters;
            binary = (accept_binary parsed s.ascii noted).0;
          },
          (accept_binary parsed s.ascii noted).1,
        )
      ]

  -- One round of the loop of `drain_transport`, which handles what is no frame as a line.
  unfoldable pub process_event : Event → NodeState F.D → NodeState F.D × List (Message F.D)
  unfolding process_line process_binary_frame
  process_event event s =
      let as_line = if is_empty event.line then (s, []) else process_line event.line s in
      elim event.frame [
        | none ↦ as_line
        | some frame ↦ if is_frame event.kind then process_binary_frame frame s else as_line
      ]
