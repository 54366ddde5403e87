-- ===== src/Transport/Corrupt.antt =====
-- A frame of src/unicore_transport.cpp in which one byte of the header or the payload, behind the
-- length field, has changed on the way.
use unicore_ros.Base.{
  ℕ, ◌+◌, ◌-◌, ◌%◌, ◌^◌, ◌≤◌, ◌≡◌, refl, false, if◌then◌else◌, sym, ap, ◌∙◌, ◌≢◌, Bool, true, false,
  some, [], ◌∷◌, ◌++◌, append_assoc, arith, length, length-append, take, drop, take-append_length,
  drop-append_length, All, All-split, Bool-cases, ◌==◌, ==_iff, inl, inr,
}
use mathlib.Core.Path.{subst}
use unicore_ros.Wire.{Bytes, IsByte, read_le32, crc32_unicore_binary}
use unicore_ros.Wire.Crc.{crc32_one_byte}
use unicore_ros.Wire.Fields.{le16, le32, read_le16-le16, read_le32-le32}
use unicore_ros.Transport.{
  Transport, Frame, Options, frame_size, payload_length, expected_crc, actual_crc, resync,
  count_crc_error, count_binary_parse_reason, increment_at, check_frame, try_extract_binary_frame,
}
use unicore_ros.Transport.Drain.{again, count_candidate, extract_round, frame_round, drain_round}
use unicore_ros.Transport.Total.{count_candidate_keeps}
use unicore_ros.Transport.Stream.{header, IsFrame}
use unicore_ros.Transport.FrameRound.{
  try_extract-checked, drain_round-sync, crc32_fits, header-IsByte,
}

-- The first eight bytes: the pattern, the idle time, the message id and the payload length.
abbrev pub prefix : Frame → Bytes → Bytes
prefix f rest =
    0xAA ∷ 0x44 ∷ 0xB5 ∷ f.cpu_idle ∷ (le16 f.message_id ++ (le16 f.payload_length ++ rest))

-- The frame with the byte `b` between `front` and `back`.
abbrev pub damaged : Frame → Bytes → ℕ → Bytes → Bytes
damaged f front b back = prefix f (front ++ (b ∷ back)) ++ le32 f.crc32

module _ {max reserved : ℕ} {f : Frame} (h : IsFrame max reserved f) (front back : Bytes) (a b : ℕ)
    (whole : header reserved f f.payload ≡ prefix f (front ++ (a ∷ back))) (byte : IsByte b)
    (changed : a ≢ b) where
  body_bytes : All IsByte (prefix f (front ++ (a ∷ back)))
  body_bytes = subst (All IsByte) whole (header-IsByte h)

  parts : All IsByte (prefix f front) × All IsByte (a ∷ back)
  parts = All-split IsByte (prefix f front) (a ∷ back) body_bytes

  crc_differs : f.crc32 ≢ crc32_unicore_binary (prefix f (front ++ (b ∷ back)))
  crc_differs e =
      crc32_one_byte (prefix f front) back a b parts.0 parts.1.1 parts.1.0 byte changed
        (ap crc32_unicore_binary (sym whole) ∙ sym h.crc32_is ∙ e)

  length-body : length (prefix f (front ++ (b ∷ back))) ≡ 24 + f.payload_length
  length-body = omega (
    arith,
    ap (length {A = ℕ}) whole,
    h.payload_length_is,
    length-append front (a ∷ back),
    length-append front (b ∷ back),
  )

  damaged_split :
      (rest : Bytes)
      → damaged f front b back ++ rest ≡ prefix f (front ++ (b ∷ back)) ++ (le32 f.crc32 ++ rest)
  damaged_split rest = append_assoc (prefix f (front ++ (b ∷ back))) (le32 f.crc32) rest

  size_of : (rest : Bytes) → frame_size (damaged f front b back ++ rest) ≡ 28 + f.payload_length
  size_of rest = omega (
    arith,
    read_le16-le16 f.payload_length (drop 8 (damaged f front b back ++ rest)) h.payload_length_fits,
  )

  size_less :
      (rest : Bytes)
      → frame_size (damaged f front b back ++ rest) - 4 ≡ length (prefix f (front ++ (b ∷ back)))
  size_less rest = omega (arith, size_of rest, length-body)

  crcs_differ :
      (rest : Bytes)
      → (expected_crc (damaged f front b back ++ rest)
          == actual_crc (damaged f front b back ++ rest))
        ≡ false
  crcs_differ rest =
      elim (Bool-cases (
        expected_crc (damaged f front b back ++ rest)
        == actual_crc (damaged f front b back ++ rest))) [
          | inl e ↦ absurd (crc_differs (sym expected ∙ (==_iff _ _).0 e ∙ actual))
          | inr e ↦ e
        ]
    where
      expected : expected_crc (damaged f front b back ++ rest) ≡ f.crc32
      expected =
          ap (λ (n : ℕ). read_le32 (drop n (damaged f front b back ++ rest))) (size_less rest)
          ∙ ap (λ (x : Bytes). read_le32 (drop (length (prefix f (front ++ (b ∷ back)))) x))
              (damaged_split rest)
          ∙ ap read_le32
              (drop-append_length (prefix f (front ++ (b ∷ back))) (le32 f.crc32 ++ rest))
          ∙ read_le32-le32 f.crc32 rest (crc32_fits h)

      actual :
          actual_crc (damaged f front b back ++ rest)
          ≡ crc32_unicore_binary (prefix f (front ++ (b ∷ back)))
      actual =
          ap (λ (n : ℕ). crc32_unicore_binary (take n (damaged f front b back ++ rest)))
            (size_less rest)
          ∙ ap
              (λ (x : Bytes).
                crc32_unicore_binary (take (length (prefix f (front ++ (b ∷ back)))) x))
              (damaged_split rest)
          ∙ ap crc32_unicore_binary
              (take-append_length (prefix f (front ++ (b ∷ back))) (le32 f.crc32 ++ rest))

  check_frame-strict :
      (crc len : ℕ) (t : Transport)
      → t.options.strict_binary_crc ≡ true
      → check_frame false crc len t ≡ (resync 1 (count_crc_error t), [])
  unfolding check_frame
  check_frame-strict crc len t strict = simp strict

  try_extract-damaged :
      (t : Transport) (rest : Bytes)
      → t.buffer ≡ damaged f front b back ++ rest
      → t.options.binary_max_frame_size ≡ max
      → t.options.strict_binary_crc ≡ true
      → try_extract_binary_frame t ≡ some (resync 1 (count_crc_error t), [])
  try_extract-damaged t rest e m strict =
      try_extract-checked t f.payload_length (ap frame_size e ∙ size_of rest)
        (omega (arith, h.size_fits)) there
      ∙ ap some (
          ap (λ (ok : Bool). check_frame ok (expected_crc t.buffer) (payload_length t.buffer) t)
            (ap (λ (x : Bytes). expected_crc x == actual_crc x) e ∙ crcs_differ rest)
          ∙ check_frame-strict (expected_crc t.buffer) (payload_length t.buffer) t strict)
    where
      there : 28 + f.payload_length ≤ length t.buffer
      there = omega (
        arith,
        ap (length {A = ℕ}) e,
        length-append (damaged f front b back) rest,
        length-append (front ++ (b ∷ back)) (le32 f.crc32),
        length-body,
      )

  -- What a rejected frame leaves.
  rejected :
      (t : Transport)
      → resync 1 (count_crc_error (count_candidate t)) ≡ record t {
        buffer = drop 1 t.buffer;
        counters = record (t.counters) {
          crc_errors = (t.counters.crc_errors + 1) % 2 ^ 64;
          resync_count = (t.counters.resync_count + 1) % 2 ^ 64;
          sync_candidates =
              if t.counted_sync_candidate
              then t.counters.sync_candidates
              else (t.counters.sync_candidates + 1) % 2 ^ 64;
          frame_parse_errors_by_reason =
              increment_at "crc_mismatch" t.counters.frame_parse_errors_by_reason;
        };
        counted_sync_candidate = false;
      }
  unfolding resync count_crc_error count_binary_parse_reason count_candidate
  rejected t = elim (Bool-cases t.counted_sync_candidate) [ inl e ↦ rw e refl | inr e ↦ rw e refl ]

  -- A well-formed frame in which one byte `a` of the header or the payload, behind the length
  -- field, arrives as another byte `b` is not reported under `strict_binary_crc`: the round makes no
  -- event and drops one byte, the counts of CRC errors and of resynchronisations grow by one modulo
  -- 2^64, and that of candidates too unless this one is counted already.
  pub drain_round-damaged :
      (t : Transport) (rest : Bytes)
      → t.options.enable_binary ≡ true
      → t.options.binary_max_frame_size ≡ max
      → t.options.strict_binary_crc ≡ true
      → t.buffer ≡ damaged f front b back ++ rest
      → drain_round t
        ≡ again
            (record t {
              buffer = drop 1 t.buffer;
              counters = record (t.counters) {
                crc_errors = (t.counters.crc_errors + 1) % 2 ^ 64;
                resync_count = (t.counters.resync_count + 1) % 2 ^ 64;
                sync_candidates =
                    if t.counted_sync_candidate
                    then t.counters.sync_candidates
                    else (t.counters.sync_candidates + 1) % 2 ^ 64;
                frame_parse_errors_by_reason =
                    increment_at "crc_mismatch" t.counters.frame_parse_errors_by_reason;
              };
              counted_sync_candidate = false;
            })
            []
  unfolding frame_round extract_round
  drain_round-damaged t rest on m strict e =
      let (kb, ko) = count_candidate_keeps t in
      drain_round-sync t (drop 3 (damaged f front b back ++ rest)) on e
      ∙ ap (extract_round (count_candidate t)) (
          try_extract-damaged (count_candidate t) rest (kb ∙ e)
            (ap (λ (o : Options). o.binary_max_frame_size) ko ∙ m)
            (ap (λ (o : Options). o.strict_binary_crc) ko ∙ strict))
      ∙ ap (λ (u : Transport). again u []) (rejected t)
