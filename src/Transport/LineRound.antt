-- ===== src/Transport/LineRound.antt =====
-- One round of `drain` in binary mode on an ASCII line at the front of the buffer, and on a part of
-- one.
use unicore_ros.Base.{
  ℕ, zero, suc, ◌+◌, ◌≤◌, ◌<◌, ◌≡◌, refl, sym, ap, ◌∙◌, ◌≢◌, ◌⊎◌, inl, inr, true, false, Option,
  none, some, List, [], ◌∷◌, ◌++◌, append_assoc, arith, length, length-append, take, drop,
  take-append_length, drop-append_length, All-append, lt→ltb,
}
use mathlib.Core.Path.{ap₂, subst}
use unicore_ros.Wire.{Bytes, find_byte, find_binary_sync}
use unicore_ros.Wire.Search.{
  Absent, find_byte-at, find_byte-Absent, find_binary_sync-Absent, find_binary_sync-none,
}
use unicore_ros.Transport.{Transport, Event, line_event}
use unicore_ros.Transport.Drain.{
  stop, again, strip_cr, line_events, cut_line, drop_line, is_empty, front_is, line_round,
  tail_round, binary_round, drain_round,
}
use unicore_ros.Transport.Total.{drain_round-empty}
use unicore_ros.Transport.Stream.{IsLine}

strip_cr-crlf : (line : Bytes) → strip_cr (line ++ (b'\r' ∷ [])) ≡ line
unfolding strip_cr
strip_cr-crlf [] = refl
strip_cr-crlf (c ∷ []) = refl
strip_cr-crlf (c ∷ d ∷ rest) = ap (◌∷◌ c) (strip_cr-crlf (d ∷ rest))

drain_round-positions :
    (t : Transport)
    → t.options.enable_binary ≡ true
    → is_empty t.buffer ≡ false
    → drain_round t ≡ binary_round t (find_binary_sync t.buffer) (find_byte b'\n' t.buffer)
unfolding drain_round
drain_round-positions t on some_byte = simp (some_byte, on)

-- A newline that stands before the pattern, or with no pattern in the buffer, ends a line.
binary_round-line :
    (t : Transport) (n : ℕ)
    → (find_binary_sync t.buffer ≡ none)
      ⊎ ((k : ℕ) × (find_binary_sync t.buffer ≡ some (suc (n + k))))
    → binary_round t (find_binary_sync t.buffer) (some n) ≡ line_round n t
unfolding binary_round
binary_round-line t n (inl e) = rw e
binary_round-line t n (inr (k, e)) =
    ap (λ (s : Option ℕ). binary_round t s (some n)) e ∙ rw (lt→ltb n (suc (n + k)) (omega arith))

-- The state after the line is taken off the front, with `rest` behind it.
abbrev pub line_taken : Bytes → Transport → Transport
line_taken rest t = record t { buffer = rest; counted_sync_candidate = false }

All-take : (c n : ℕ) (xs ys : Bytes) → n ≤ length xs → Absent c xs → Absent c (take n (xs ++ ys))
All-take c zero xs ys less h = tt
All-take c (suc n) [] ys less h = elim less [ ]
All-take c (suc n) (x ∷ xs) ys less h = (h.0, All-take c n xs ys (omega arith) h.1)

-- A buffer that starts with the mark of a line waits for the newline.
tail_round-marked :
    (t : Transport) (c : ℕ) (rest : Bytes)
    → (c ≡ b'$') ⊎ (c ≡ b'#')
    → t.buffer ≡ c ∷ rest
    → tail_round t ≡ stop t
unfolding tail_round front_is
tail_round-marked t c rest (inl e) b = rw (tail_round, b, e) refl
tail_round-marked t c rest (inr e) b = rw (tail_round, b, e) refl

-- A buffer with no newline and no byte 0xAA is left to the last branches.
drain_round-quiet :
    (t : Transport)
    → t.options.enable_binary ≡ true
    → is_empty t.buffer ≡ false
    → Absent b'\n' t.buffer
    → Absent 0xAA t.buffer
    → drain_round t ≡ tail_round t
unfolding binary_round
drain_round-quiet t on some_byte a s =
    drain_round-positions t on some_byte
    ∙ ap₂ (binary_round t) (find_binary_sync-none t.buffer s) (find_byte-Absent b'\n' t.buffer a)

module _ {line : Bytes} (h : IsLine line) where
  abbrev crlf : Bytes
  crlf = b'\r' ∷ b'\n' ∷ []

  no_newline_cr : Absent b'\n' (line ++ (b'\r' ∷ []))
  no_newline_cr =
      All-append (λ x. x ≢ b'\n') line (b'\r' ∷ []) h.no_newline ((λ e. absurd (omega arith)), tt)

  no_sync_crlf : Absent 0xAA (line ++ crlf)
  no_sync_crlf =
      All-append (λ x. x ≢ 0xAA) line crlf h.no_sync
        ((λ e. absurd (omega arith)), ((λ e. absurd (omega arith)), tt))

  regroup : (rest : Bytes) → (line ++ crlf) ++ rest ≡ (line ++ (b'\r' ∷ [])) ++ (b'\n' ∷ rest)
  regroup rest = append_assoc line crlf rest ∙ sym (append_assoc line (b'\r' ∷ []) (b'\n' ∷ rest))

  length-cr : length (line ++ (b'\r' ∷ [])) ≡ length line + 1
  length-cr = length-append line (b'\r' ∷ [])

  newline_at : (rest : Bytes) → find_byte b'\n' ((line ++ crlf) ++ rest) ≡ some (length line + 1)
  newline_at rest =
      ap (find_byte b'\n') (regroup rest)
      ∙ find_byte-at b'\n' (line ++ (b'\r' ∷ [])) rest no_newline_cr
      ∙ ap some length-cr

  sync_behind :
      (rest : Bytes)
      → (find_binary_sync ((line ++ crlf) ++ rest) ≡ none)
        ⊎ ((k : ℕ) × (find_binary_sync ((line ++ crlf) ++ rest) ≡ some (suc (length line + 1 + k))))
  sync_behind rest = elim (find_binary_sync-Absent (line ++ crlf) rest no_sync_crlf) [
    | inl e ↦ inl e
    | inr (k, e) ↦ inr (k, e ∙ ap some (omega (arith, length-append line crlf)))
  ]

  taken : (rest : Bytes) → take (length line + 1) ((line ++ crlf) ++ rest) ≡ line ++ (b'\r' ∷ [])
  taken rest =
      ap₂ take (sym length-cr) (regroup rest)
      ∙ take-append_length (line ++ (b'\r' ∷ [])) (b'\n' ∷ rest)

  dropped : (rest : Bytes) → drop (length line + 1 + 1) ((line ++ crlf) ++ rest) ≡ rest
  dropped rest =
      ap (λ (n : ℕ). drop n ((line ++ crlf) ++ rest)) (omega (arith, length-append line crlf))
      ∙ drop-append_length (line ++ crlf) rest

  line_events-line : line_events line ≡ line_event line ∷ []
  unfolding line_events
  line_events-line = rw h.splits

  line_round-line :
      (t : Transport) (rest : Bytes)
      → t.buffer ≡ (line ++ crlf) ++ rest
      → line_round (length line + 1) t ≡ again (line_taken rest t) (line_event line ∷ [])
  unfolding line_round drop_line cut_line
  line_round-line t rest b =
      ap₂ (λ (x : Bytes) (l : List Event). again (line_taken x t) l)
        (ap (drop (length line + 1 + 1)) b ∙ dropped rest)
        (ap line_events
            (ap strip_cr (ap (take (length line + 1)) b ∙ taken rest) ∙ strip_cr-crlf line)
          ∙ line_events-line)

  nonempty : (rest : Bytes) → is_empty ((line ++ crlf) ++ rest) ≡ false
  unfolding is_empty
  nonempty rest = rw h.splits

  -- A line at the front of the buffer is taken off in one round, with its event, and no byte is
  -- counted as a loss of synchronisation.
  pub drain_round-line :
      (t : Transport) (rest : Bytes)
      → t.options.enable_binary ≡ true
      → t.buffer ≡ (line ++ crlf) ++ rest
      → drain_round t ≡ again (line_taken rest t) (line_event line ∷ [])
  drain_round-line t rest on b =
      drain_round-positions t on (ap is_empty b ∙ nonempty rest)
      ∙ ap (binary_round t (find_binary_sync t.buffer)) (ap (find_byte b'\n') b ∙ newline_at rest)
      ∙ binary_round-line t (length line + 1) (rw b (sync_behind rest))
      ∙ line_round-line t rest b

  part-Absent :
      (c n : ℕ)
      → Absent c (line ++ (b'\r' ∷ []))
      → n < length (line ++ crlf)
      → Absent c (take n (line ++ crlf))
  part-Absent c n none_there less =
      subst (λ (x : Bytes). Absent c (take n x)) (append_assoc line (b'\r' ∷ []) (b'\n' ∷ []))
        (All-take c n (line ++ (b'\r' ∷ [])) (b'\n' ∷ [])
          (omega (arith, length-cr, length-append line crlf)) none_there)

  no_sync_cr : Absent 0xAA (line ++ (b'\r' ∷ []))
  no_sync_cr =
      All-append (λ x. x ≢ 0xAA) line (b'\r' ∷ []) h.no_sync ((λ e. absurd (omega arith)), tt)

  part_front : (n : ℕ) → take (suc n) (line ++ crlf) ≡ h.first ∷ take n (h.rest ++ crlf)
  part_front n = ap (λ (x : Bytes). take (suc n) (x ++ crlf)) h.splits

  -- On the first `n` bytes of a line the loop stops and waits, with nothing changed.
  pub drain_round-line_part :
      (t : Transport) (n : ℕ)
      → n < length (line ++ crlf)
      → t.options.enable_binary ≡ true
      → t.buffer ≡ take n (line ++ crlf)
      → drain_round t ≡ stop t
  drain_round-line_part t zero less on b =
      drain_round-empty t (omega (arith, ap (length {A = ℕ}) b))
  drain_round-line_part t (suc n) less on b =
      drain_round-quiet t on (ap is_empty (b ∙ part_front n) ∙ unfold is_empty in refl)
        (rw b (part-Absent b'\n' (suc n) no_newline_cr less))
        (rw b (part-Absent 0xAA (suc n) no_sync_cr less))
      ∙ tail_round-marked t h.first (take n (h.rest ++ crlf)) h.marked (b ∙ part_front n)
