-- ===== src/Transport/FrameRound.antt =====
-- One round of `drain` on a well-formed frame at the front of the buffer, and on a part of one.
use unicore_ros.Base.{
  ℕ, zero, suc, ◌+◌, ◌-◌, ◌^◌, ◌≤◌, ◌<◌, ◌≡◌, refl, sym, ap, ◌∙◌, ◌⊎◌, inl, inr, true, false, none,
  some, [], ◌∷◌, ◌++◌, append_assoc, arith, length, length-append, length-take, min, All-append,
  take, drop, take-append_length, drop-append_length, take-append_add, drop-append_add, drop-drop,
  All, ◌==◌, ==_iff,
}
use mathlib.Core.Path.{ap₂}
use unicore_ros.Wire.{
  Bytes, IsByte, find_byte, is_sync, find_binary_sync, begins_with_binary_sync_prefix, read_le32,
  crc32_unicore_binary,
}
use unicore_ros.Wire.Crc.{crc32_from-IsU32}
use unicore_ros.Wire.Fields.{le32, read_le16-le16, read_le32-le32}
use unicore_ros.Transport.{
  Transport, Frame, Options, frame_event, frame_size, payload_length, expected_crc, actual_crc,
  increment, decode_frame, accept_frame, check_frame, try_extract_binary_frame,
}
use unicore_ros.Transport.Drain.{
  stop, again, is_empty, count_candidate, extract_round, frame_round, binary_round, drain_round,
  tail_round, front_is,
}
use unicore_ros.Transport.Total.{
  count_candidate_keeps, short, too_large, incomplete, checked, extraction, drain_round-empty,
}
use unicore_ros.Transport.Stream.{header, encode, IsFrame}

-- The state after the frame `f` is taken off the front, with `rest` behind it.
abbrev pub accepted : Frame → Bytes → Transport → Transport
accepted f rest t = record t {
  buffer = rest;
  counters = record (t.counters) {
    frames_total = increment t.counters.frames_total;
    last_header_length = some 24;
    last_payload_length = some f.payload_length;
  };
  counted_sync_candidate = false;
}

check_frame_ok :
    (crc len : ℕ) (t : Transport)
    → check_frame true crc len t
      ≡ accept_frame (decode_frame true crc len t.buffer) (24 + len + 4) t
unfolding check_frame
check_frame_ok crc len t = refl

accept_frame_at :
    {g f : Frame} {rest : Bytes}
    → g ≡ f
    → (n : ℕ) (t : Transport) → drop n t.buffer ≡ rest
    → accept_frame g n t ≡ (accepted f rest t, frame_event f ∷ [])
unfolding accept_frame
accept_frame_at p n t q = λ i. (accepted (p i) (q i) t, frame_event (p i) ∷ [])

-- When the size of the frame is there and within the limit, the CRCs decide.
pub try_extract-checked :
    (t : Transport) (len : ℕ)
    → frame_size t.buffer ≡ 28 + len
    → 28 + len ≤ t.options.binary_max_frame_size
    → 28 + len ≤ length t.buffer
    → try_extract_binary_frame t
      ≡ some (
          check_frame
            (expected_crc t.buffer == actual_crc t.buffer)
            (expected_crc t.buffer)
            (payload_length t.buffer)
            t)
try_extract-checked t len size fits there = elim (extraction t) [
  | short a e ↦ absurd (omega arith)
  | too_large a b e ↦ absurd (omega arith)
  | incomplete a b c e ↦ absurd (omega arith)
  | checked a b c e ↦ e
]

-- The pattern at the front of the buffer.
pub drain_round-sync :
    (t : Transport) (rest : Bytes)
    → t.options.enable_binary ≡ true
    → t.buffer ≡ 0xAA ∷ 0x44 ∷ 0xB5 ∷ rest
    → drain_round t ≡ frame_round t
unfolding drain_round is_empty find_binary_sync is_sync binary_round
drain_round-sync t rest on b = rw (drain_round, b) (simp on)

-- One or two bytes of the pattern.
drain_round-one :
    (t : Transport) → t.options.enable_binary ≡ true → t.buffer ≡ 0xAA ∷ [] → drain_round t ≡ stop t
unfolding drain_round is_empty find_binary_sync is_sync find_byte binary_round tail_round front_is
    begins_with_binary_sync_prefix
drain_round-one t on b = rw (drain_round, b) (simp on)

drain_round-two :
    (t : Transport)
    → t.options.enable_binary ≡ true
    → t.buffer ≡ 0xAA ∷ 0x44 ∷ []
    → drain_round t ≡ stop t
unfolding drain_round is_empty find_binary_sync is_sync find_byte binary_round tail_round front_is
    begins_with_binary_sync_prefix
drain_round-two t on b = rw (drain_round, b) (simp on)

module _ {max reserved : ℕ} {f : Frame} (h : IsFrame max reserved f) where
  -- The fields are read back from the layout.
  payload_length-header :
      (rest : Bytes) → payload_length (header reserved f rest) ≡ f.payload_length
  payload_length-header rest = read_le16-le16 f.payload_length _ h.payload_length_fits

  payload_back :
      (rest : Bytes) → take f.payload_length ((f.payload ++ le32 f.crc32) ++ rest) ≡ f.payload
  payload_back rest =
      ap₂ take h.payload_length_is (append_assoc f.payload (le32 f.crc32) rest)
      ∙ take-append_length f.payload (le32 f.crc32 ++ rest)

  crc_behind :
      (rest : Bytes)
      → drop f.payload_length ((f.payload ++ le32 f.crc32) ++ rest) ≡ le32 f.crc32 ++ rest
  crc_behind rest =
      ap₂ drop h.payload_length_is (append_assoc f.payload (le32 f.crc32) rest)
      ∙ drop-append_length f.payload (le32 f.crc32 ++ rest)

  decode_frame-encode :
      (rest : Bytes) → decode_frame true f.crc32 f.payload_length (encode reserved f ++ rest) ≡ f
  unfolding decode_frame
  decode_frame-encode rest = λ i. record {
    header_length = sym h.header_length_is i;
    cpu_idle = f.cpu_idle;
    message_id =
        read_le16-le16 f.message_id (drop 6 (encode reserved f ++ rest)) h.message_id_fits i;
    payload_length = f.payload_length;
    time_ref = f.time_ref;
    time_status = f.time_status;
    week = read_le16-le16 f.week (drop 12 (encode reserved f ++ rest)) h.week_fits i;
    milliseconds =
        read_le32-le32 f.milliseconds (drop 16 (encode reserved f ++ rest)) h.milliseconds_fits i;
    version = read_le32-le32 f.version (drop 20 (encode reserved f ++ rest)) h.version_fits i;
    leap_seconds = f.leap_seconds;
    delay_ms = read_le16-le16 f.delay_ms (drop 24 (encode reserved f ++ rest)) h.delay_ms_fits i;
    crc_valid = sym h.crc_is_valid i;
    crc32 = f.crc32;
    payload = payload_back rest i;
  }

  pub length-encode : length (encode reserved f) ≡ 28 + f.payload_length
  length-encode = omega (arith, length-append f.payload (le32 f.crc32), h.payload_length_is)

  -- Everything that `try_extract_binary_frame` reads off the front of such a buffer.
  frame_size-encode :
      (rest : Bytes) → frame_size (encode reserved f ++ rest) ≡ 28 + f.payload_length
  frame_size-encode rest = omega (
    arith,
    read_le16-le16 f.payload_length (drop 8 (encode reserved f ++ rest)) h.payload_length_fits,
  )

  body_of :
      (rest : Bytes)
      → take (24 + f.payload_length) (encode reserved f ++ rest) ≡ header reserved f f.payload
  body_of rest =
      take-append_add (header reserved f []) ((f.payload ++ le32 f.crc32) ++ rest) f.payload_length
      ∙ ap (header reserved f) (payload_back rest)

  crc_of :
      (rest : Bytes)
      → drop (24 + f.payload_length) (encode reserved f ++ rest) ≡ le32 f.crc32 ++ rest
  crc_of rest =
      drop-append_add (header reserved f []) ((f.payload ++ le32 f.crc32) ++ rest) f.payload_length
      ∙ crc_behind rest

  drop_frame : (rest : Bytes) → drop (24 + f.payload_length + 4) (encode reserved f ++ rest) ≡ rest
  drop_frame rest = sym (drop-drop 4 (24 + f.payload_length) _) ∙ ap (drop 4) (crc_of rest)

  size_less : (rest : Bytes) → frame_size (encode reserved f ++ rest) - 4 ≡ 24 + f.payload_length
  size_less rest = omega (arith, frame_size-encode rest)

  pub header-IsByte : All IsByte (header reserved f f.payload)
  header-IsByte = All-append IsByte (header reserved f []) f.payload (omega arith) h.payload_bytes

  pub crc32_fits : f.crc32 < 2 ^ 32
  unfolding crc32_unicore_binary
  crc32_fits =
      rw h.crc32_is (crc32_from-IsU32 0 (header reserved f f.payload) (omega arith) header-IsByte)

  expected_crc-encode : (rest : Bytes) → expected_crc (encode reserved f ++ rest) ≡ f.crc32
  expected_crc-encode rest =
      ap (λ (n : ℕ). read_le32 (drop n (encode reserved f ++ rest))) (size_less rest)
      ∙ ap read_le32 (crc_of rest)
      ∙ read_le32-le32 f.crc32 rest crc32_fits

  actual_crc-encode : (rest : Bytes) → actual_crc (encode reserved f ++ rest) ≡ f.crc32
  actual_crc-encode rest =
      ap (λ (n : ℕ). crc32_unicore_binary (take n (encode reserved f ++ rest))) (size_less rest)
      ∙ ap crc32_unicore_binary (body_of rest)
      ∙ sym h.crc32_is

  -- A round takes the frame off the buffer, and makes its event.
  try_extract-frame :
      (t : Transport) (rest : Bytes)
      → t.buffer ≡ encode reserved f ++ rest
      → t.options.binary_max_frame_size ≡ max
      → try_extract_binary_frame t ≡ some (accepted f rest t, frame_event f ∷ [])
  try_extract-frame t rest b m =
      try_extract-checked t f.payload_length size (omega (arith, h.size_fits)) there
      ∙ ap some (
          (λ i. check_frame (equal i) (crc i) (len i) t)
          ∙ check_frame_ok f.crc32 f.payload_length t
          ∙ accept)
    where
      size : frame_size t.buffer ≡ 28 + f.payload_length
      size = ap frame_size b ∙ frame_size-encode rest

      there : 28 + f.payload_length ≤ length t.buffer
      there =
          omega
            (arith, ap (length {A = ℕ}) b, length-append (encode reserved f) rest, length-encode)

      crc : expected_crc t.buffer ≡ f.crc32
      crc = ap expected_crc b ∙ expected_crc-encode rest

      len : payload_length t.buffer ≡ f.payload_length
      len = ap payload_length b ∙ payload_length-header _

      equal : (expected_crc t.buffer == actual_crc t.buffer) ≡ true
      equal = (==_iff _ _).1 (crc ∙ sym (ap actual_crc b ∙ actual_crc-encode rest))

      accept :
          accept_frame
            (decode_frame true f.crc32 f.payload_length t.buffer)
            (24 + f.payload_length + 4)
            t
          ≡ (accepted f rest t, frame_event f ∷ [])
      accept =
          accept_frame_at
            (ap (decode_frame true f.crc32 f.payload_length) b ∙ decode_frame-encode rest)
            (24 + f.payload_length + 4) t
            (ap (drop (24 + f.payload_length + 4)) b ∙ drop_frame rest)

  -- The state that `drain` goes on with after the round of this frame.
  frame_round-frame :
      (t : Transport) (rest : Bytes)
      → t.buffer ≡ encode reserved f ++ rest
      → t.options.binary_max_frame_size ≡ max
      → frame_round t ≡ again (accepted f rest (count_candidate t)) (frame_event f ∷ [])
  unfolding frame_round extract_round
  frame_round-frame t rest b m =
      let (kb, ko) = count_candidate_keeps t in
      ap (extract_round (count_candidate t)) (
        try_extract-frame (count_candidate t) rest (kb ∙ b)
          (ap (λ (o : Options). o.binary_max_frame_size) ko ∙ m))

  -- A frame at the front of the buffer is taken off in one round, with its event.
  pub drain_round-frame :
      (t : Transport) (rest : Bytes)
      → t.options.enable_binary ≡ true
      → t.options.binary_max_frame_size ≡ max
      → t.buffer ≡ encode reserved f ++ rest
      → drain_round t ≡ again (accepted f rest (count_candidate t)) (frame_event f ∷ [])
  drain_round-frame t rest on m b =
      drain_round-sync t (drop 3 (encode reserved f ++ rest)) on b ∙ frame_round-frame t rest b m

  part_of :
      (n : ℕ)
      → 24 ≤ n
      → take n (encode reserved f) ≡ header reserved f (take (n - 24) (f.payload ++ le32 f.crc32))
  part_of n long =
      ap (λ (k : ℕ). take k (encode reserved f)) split
      ∙ take-append_add (header reserved f []) (f.payload ++ le32 f.crc32) (n - 24)
    where
      split : n ≡ 24 + (n - 24)
      split = omega arith

  -- A part of a frame: its first `n` bytes.
  try_extract-part :
      (t : Transport) (n : ℕ)
      → n < length (encode reserved f)
      → t.buffer ≡ take n (encode reserved f)
      → t.options.binary_max_frame_size ≡ max
      → try_extract_binary_frame t ≡ none
  try_extract-part t n less b m = elim (extraction t) [
    | short _ e ↦ e
    | too_large long over e ↦ absurd (omega (arith, size long, h.size_fits, limit))
    | incomplete _ _ _ e ↦ e
    | checked long _ there e ↦ absurd (omega (arith, size long, length-encode, taken))
  ]
    where
      limit : t.options.binary_max_frame_size ≡ max
      limit = m

      taken : length t.buffer ≡ min n (length (encode reserved f))
      taken = ap (length {A = ℕ}) b ∙ length-take n (encode reserved f)

      size : 28 ≤ length t.buffer → frame_size t.buffer ≡ 28 + f.payload_length
      size long =
          ap frame_size (b ∙ part_of n (omega (arith, taken)))
          ∙ omega (arith, payload_length-header (take (n - 24) (f.payload ++ le32 f.crc32)))

  frame_round-part :
      (t : Transport) (n : ℕ)
      → n < length (encode reserved f)
      → t.buffer ≡ take n (encode reserved f)
      → t.options.binary_max_frame_size ≡ max
      → frame_round t ≡ stop (count_candidate t)
  unfolding frame_round extract_round
  frame_round-part t n less b m =
      let (kb, ko) = count_candidate_keeps t in
      ap (extract_round (count_candidate t)) (
        try_extract-part (count_candidate t) n less (kb ∙ b)
          (ap (λ (o : Options). o.binary_max_frame_size) ko ∙ m))

  -- On the first `n` bytes of a frame the loop stops and waits: at most the candidate is counted.
  pub drain_round-part :
      (t : Transport) (n : ℕ)
      → n < length (encode reserved f)
      → t.buffer ≡ take n (encode reserved f)
      → t.options.enable_binary ≡ true
      → t.options.binary_max_frame_size ≡ max
      → (drain_round t ≡ stop t) ⊎ (drain_round t ≡ stop (count_candidate t))
  drain_round-part t zero less b on m =
      inl (drain_round-empty t (omega (arith, ap (length {A = ℕ}) b)))
  drain_round-part t (suc zero) less b on m = inl (drain_round-one t on b)
  drain_round-part t (suc (suc zero)) less b on m = inl (drain_round-two t on b)
  drain_round-part t (suc (suc (suc n))) less b on m =
      inr (drain_round-sync t _ on b ∙ frame_round-part t (suc (suc (suc n))) less b m)
