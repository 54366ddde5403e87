-- ===== src/Transport/Segments.antt =====
-- What `drain` of src/unicore_transport.cpp does to the bytes, with no state but the bytes: the
-- buffer falls into consecutive pieces, each a frame, a line or skipped bytes, and what is left waits for
-- more input.
use unicore_ros.Base.{
  ℕ, zero, suc, ◌+◌, ◌≤◌, ◌<◌, ◌≡◌, refl, sym, ap, ◌∙◌, ◌⊎◌, inl, inr, Bool, true, false, ◌||◌,
  Option, none, some, List, [], ◌∷◌, ◌++◌, arith, length, take, drop, ltb, Bool-cases, ◌==◌,
}
use mathlib.Core.Path.{subst, subst₂}
use unicore_ros.Wire.{Bytes, find_byte, is_sync, find_binary_sync, begins_with_binary_sync_prefix}
use unicore_ros.Wire.Search.{find_binary_sync-first}
use unicore_ros.Transport.{
  Transport, Event, Options, frame_event, frame_size, payload_length, expected_crc, actual_crc,
  decode_frame, resync, count_binary_parse_reason, check_frame, try_extract_binary_frame,
}
use unicore_ros.Transport.Drain.{
  Round, stop, again, strip_cr, line_events, cut_line, drop_line, is_empty, front_is,
  count_candidate, extract_round, frame_round, line_round, tail_round, ascii_round, binary_round,
  drain_round, drain, Drains, stops, goes,
}
use unicore_ros.Transport.Total.{
  short, too_large, incomplete, checked, extraction, count_candidate_keeps, drain-Drains,
  drain_round-Advances,
}

-- The comparison of the CRCs of the frame at the front.
abbrev pub crc_ok : Bytes → Bool
crc_ok b = expected_crc b == actual_crc b

-- The frame at the front is complete, within the limit, and its CRC is right if that is asked for.
pub record HasFrame (o : Options) (b : Bytes) : Type 0 where
  pub synced : is_sync b ≡ true
  pub header_there : 28 ≤ length b
  pub within_limit : frame_size b ≤ o.binary_max_frame_size
  pub complete : frame_size b ≤ length b
  pub crc_checked : o.strict_binary_crc ≡ true → crc_ok b ≡ true

abbrev pub frame_of : Bytes → Event
frame_of b = frame_event (decode_frame (crc_ok b) (expected_crc b) (payload_length b) b)

-- One piece off the front of `b`, the events it makes, and the bytes behind it.
pub data Piece (o : Options) (b : Bytes) (new : List Event) (rest : Bytes) : Type 0 where
  skip : (n : ℕ) → o.enable_binary ≡ true → 0 < n → new ≡ [] → rest ≡ drop n b → Piece o b new rest
  line :
      (n : ℕ)
      → find_byte b'\n' b ≡ some n
      → new ≡ line_events (strip_cr (take n b))
      → rest ≡ drop (n + 1) b
      → Piece o b new rest
  frame :
      o.enable_binary ≡ true
      → HasFrame o b
      → new ≡ frame_of b ∷ []
      → rest ≡ drop (frame_size b) b
      → Piece o b new rest

-- What the loop leaves: in ASCII mode a line with no end, in binary mode a part of a line, of the
-- sync pattern, or of a frame.
pub data Waits (o : Options) (b : Bytes) : Type 0 where
  nothing : is_empty b ≡ true → Waits o b
  open_line : o.enable_binary ≡ false → find_byte b'\n' b ≡ none → Waits o b
  marked_line :
      find_byte b'\n' b ≡ none
      → find_binary_sync b ≡ none
      → (front_is b'$' b || front_is b'#' b) ≡ true
      → Waits o b
  pattern_part :
      find_byte b'\n' b ≡ none
      → find_binary_sync b ≡ none
      → begins_with_binary_sync_prefix b ≡ true
      → Waits o b
  frame_part :
      is_sync b ≡ true
      → (length b < 28) ⊎ ((length b < frame_size b) × (frame_size b ≤ o.binary_max_frame_size))
      → Waits o b

pub data Segments (o : Options) : Bytes → List Event → Bytes → Type 0 where
  left :
      {b rest : Bytes} {events : List Event}
      → Waits o b
      → events ≡ []
      → rest ≡ b
      → Segments o b events rest
  piece :
      {b b' rest : Bytes} {events new later : List Event}
      → Piece o b new b'
      → Segments o b' later rest
      → events ≡ new ++ later
      → Segments o b events rest

-- What a round does, in these terms.
abbrev Does : Options → Bytes → Round → Type 0
Does o b (stop u) = Waits o b × (u.buffer ≡ b)
Does o b (again u new) = Piece o b new u.buffer

frame_events :
    (b : Bytes) (ok : Bool)
    → crc_ok b ≡ ok
    → frame_event (decode_frame ok (expected_crc b) (payload_length b) b) ∷ [] ≡ frame_of b ∷ []
frame_events b ok e =
    ap (λ (c : Bool). frame_event (decode_frame c (expected_crc b) (payload_length b) b) ∷ [])
      (sym e)

module _ (t : Transport) (on : t.options.enable_binary ≡ true)
    (synced : is_sync t.buffer ≡ true) where
  abbrev Made : Transport × List Event → Type 0
  Made r = Piece t.options t.buffer r.1 r.0.buffer

  check_frame-Piece :
      (ok : Bool)
      → crc_ok t.buffer ≡ ok
      → 28 ≤ length t.buffer
      → frame_size t.buffer ≤ t.options.binary_max_frame_size
      → frame_size t.buffer ≤ length t.buffer
      → Made (check_frame ok (expected_crc t.buffer) (payload_length t.buffer) t)
  unfolding check_frame
  check_frame-Piece true e long within there =
      frame on
        (record {
          synced = synced;
          header_there = long;
          within_limit = within;
          complete = there;
          crc_checked = λ _. e;
        })
        (frame_events t.buffer true e) refl
  check_frame-Piece false e long within there = elim (Bool-cases t.options.strict_binary_crc) [
    | inl strict ↦ simp strict (skip 1 on (omega arith) refl refl)
    | inr lax ↦ simp lax (
        frame on
          (record {
            synced = synced;
            header_there = long;
            within_limit = within;
            complete = there;
            crc_checked = λ h. cc;
          })
          (frame_events t.buffer false e) refl)
  ]

  extract_round-Does : Does t.options t.buffer (extract_round t (try_extract_binary_frame t))
  unfolding extract_round count_binary_parse_reason resync
  extract_round-Does = elim (extraction t) [
    | short few e ↦ rw e (frame_part synced (inl few), refl)
    | too_large _ _ e ↦ rw e (skip 1 on (omega arith) refl refl)
    | incomplete _ within few e ↦ rw e (frame_part synced (inr (few, within)), refl)
    | checked long within there e ↦ rw e (check_frame-Piece _ refl long within there)
  ]

Does-along :
    (s t : Transport) (r : Round)
    → (s.buffer ≡ t.buffer) × (s.options ≡ t.options)
    → Does s.options s.buffer r
    → Does t.options t.buffer r
Does-along s t r (b, o) h = subst₂ (λ (x : Options) (y : Bytes). Does x y r) o b h

frame_round-Does :
    (t : Transport)
    → t.options.enable_binary ≡ true
    → is_sync t.buffer ≡ true
    → Does t.options t.buffer (frame_round t)
unfolding frame_round
frame_round-Does t on synced =
    let (b, o) = count_candidate_keeps t in
    Does-along (count_candidate t) t _ (b, o)
      (extract_round-Does (count_candidate t) (ap (λ (x : Options). x.enable_binary) o ∙ on)
        (ap is_sync b ∙ synced))

line_round-Does :
    (t : Transport) (n : ℕ)
    → find_byte b'\n' t.buffer ≡ some n
    → Does t.options t.buffer (line_round n t)
unfolding line_round drop_line cut_line
line_round-Does t n e = line n e refl refl

tail_round-Does :
    (t : Transport)
    → t.options.enable_binary ≡ true
    → find_binary_sync t.buffer ≡ none
    → find_byte b'\n' t.buffer ≡ none
    → Does t.options t.buffer (tail_round t)
unfolding tail_round resync
tail_round-Does t on s n = elim (Bool-cases (front_is b'$' t.buffer || front_is b'#' t.buffer)) [
  | inl a ↦ rw a (marked_line n s a, refl)
  | inr a ↦ elim (Bool-cases (begins_with_binary_sync_prefix t.buffer)) [
    | inl b ↦ rw (a, b) (pattern_part n s b, refl)
    | inr b ↦ rw (a, b) (skip 1 on (omega arith) refl refl)
  ]
]

binary_round-Does :
    (t : Transport) (sync newline : Option ℕ)
    → t.options.enable_binary ≡ true
    → find_binary_sync t.buffer ≡ sync
    → find_byte b'\n' t.buffer ≡ newline
    → Does t.options t.buffer (binary_round t sync newline)
unfolding binary_round resync
binary_round-Does t (some zero) newline on s n =
    frame_round-Does t on (find_binary_sync-first t.buffer 0 s).0
binary_round-Does t (some (suc sync)) none on s n = skip (suc sync) on (omega arith) refl refl
binary_round-Does t none (some newline) on s n = line_round-Does t newline n
binary_round-Does t none none on s n = tail_round-Does t on s n
binary_round-Does t (some (suc sync)) (some newline) on s n =
    elim (Bool-cases (ltb newline (suc sync))) [
      | inl e ↦ rw e (line_round-Does t newline n)
      | inr e ↦ rw e (skip (suc sync) on (omega arith) refl refl)
    ]

ascii_round-Does :
    (t : Transport) (newline : Option ℕ)
    → t.options.enable_binary ≡ false
    → find_byte b'\n' t.buffer ≡ newline
    → Does t.options t.buffer (ascii_round t newline)
unfolding ascii_round drop_line cut_line
ascii_round-Does t none off n = (open_line off n, refl)
ascii_round-Does t (some newline) off n = line newline n refl refl

drain_round-Does : (t : Transport) → Does t.options t.buffer (drain_round t)
unfolding drain_round
drain_round-Does t = elim (Bool-cases (is_empty t.buffer)) [
  | inl e ↦ rw e (nothing e, refl)
  | inr e ↦ elim (Bool-cases t.options.enable_binary) [
    | inl b ↦ simp (e, b) (binary_round-Does t _ _ b refl refl)
    | inr b ↦ simp (e, b) (ascii_round-Does t _ b refl)
  ]
]

Drains-Segments :
    {u t : Transport} {events : List Event}
    → Drains u t events
    → Segments t.options t.buffer events u.buffer
Drains-Segments {t} (stops e p) = let (w, b) = rw e at (drain_round-Does t) in left w p b
Drains-Segments {u} {t} (goes {v = v} {later = later} e d p) =
    let (n, pos, b, o) = rw e at (drain_round-Advances t) in
    piece (rw e at (drain_round-Does t))
      (subst (λ (x : Options). Segments x v.buffer later u.buffer) o (Drains-Segments d)) p

-- Whatever the buffer holds, `drain` cuts it into consecutive pieces off the front. Each line ends
-- at the first newline. Each binary frame is reported from its own bytes, which hold the pattern, a
-- whole frame within the size limit and, under `strict_binary_crc`, a matching CRC. What
-- stays in the buffer is empty, a line or pattern not yet complete, or a frame not yet complete.
pub drain-Segments :
    (t u : Transport) (events : List Event)
    → drain t ≡ some (u, events)
    → Segments t.options t.buffer events u.buffer
drain-Segments t u events e = Drains-Segments (drain-Drains t u events e)
