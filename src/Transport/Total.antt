-- ===== src/Transport/Total.antt =====
-- `drain` ends: each round that goes on shortens the buffer. And what it returns is what the rounds
-- make one after the other.
use unicore_ros.Base.{
  ℕ, zero, suc, ◌+◌, ◌≤◌, ◌<◌, ◌≡◌, refl, sym, ap, ◌∙◌, ◌⊎◌, inl, inr, Bool, true, false, ◌||◌,
  Option, none, some, List, [], ◌∷◌, ◌++◌, append-nil, append_assoc, arith, ltb, ltb→lt,
  ltb-false→le, ◌==◌, length, drop, length-drop, Bool-cases,
}
use mathlib.Core.Path.{subst, subst₂, ap₂}
use unicore_ros.Wire.{Bytes, begins_with_binary_sync_prefix}
use unicore_ros.Transport.{
  Transport, Event, resync, count_binary_parse_reason, frame_size, payload_length, expected_crc,
  actual_crc, check_frame, try_extract_binary_frame,
}
use unicore_ros.Transport.Drain.{
  Round, stop, again, front_is, is_empty, drop_line, count_candidate, extract_round, ascii_round,
  frame_round, line_round, tail_round, binary_round, drain_round, drain_loop, drain, Drains, stops,
  goes,
}

is_empty_of_length : (bs : Bytes) → length bs ≡ 0 → is_empty bs ≡ true
unfolding is_empty
is_empty_of_length [] h = refl
is_empty_of_length (b ∷ bs) h = absurd (omega arith)

-- What a round does to the options and the buffer: one that goes on cuts bytes off the front.
abbrev Cuts : Transport → Transport → Type 0
Cuts t u = (n : ℕ) × (0 < n) × (u.buffer ≡ drop n t.buffer) × (u.options ≡ t.options)

abbrev pub Advances : Transport → Round → Type 0
Advances t (stop u) = (u.buffer ≡ t.buffer) × (u.options ≡ t.options)
Advances t (again u new) = Cuts t u

check_frame-Cuts : (ok : Bool) (crc len : ℕ) (t : Transport) → Cuts t (check_frame ok crc len t).0
unfolding check_frame
check_frame-Cuts true crc len t = (24 + len + 4, omega arith, refl, refl)
check_frame-Cuts false crc len t = elim (Bool-cases t.options.strict_binary_crc) [
  | inl strict ↦ (1, omega arith, rw strict, rw strict)
  | inr lax ↦ (24 + len + 4, omega arith, rw lax, rw lax)
]

-- The four ways through `try_extract_binary_frame`.
pub data Extraction (t : Transport) (r : Option (Transport × List Event)) : Type 0 where
  short : length t.buffer < 28 → r ≡ none → Extraction t r
  too_large :
      28 ≤ length t.buffer
      → t.options.binary_max_frame_size < frame_size t.buffer
      → r ≡ some (count_binary_parse_reason "frame_too_large" (resync 1 t), [])
      → Extraction t r
  incomplete :
      28 ≤ length t.buffer
      → frame_size t.buffer ≤ t.options.binary_max_frame_size
      → length t.buffer < frame_size t.buffer
      → r ≡ none
      → Extraction t r
  checked :
      28 ≤ length t.buffer
      → frame_size t.buffer ≤ t.options.binary_max_frame_size
      → frame_size t.buffer ≤ length t.buffer
      → r
        ≡ some (
            check_frame
              (expected_crc t.buffer == actual_crc t.buffer)
              (expected_crc t.buffer)
              (payload_length t.buffer)
              t)
      → Extraction t r

pub extraction : (t : Transport) → Extraction t (try_extract_binary_frame t)
unfolding try_extract_binary_frame
extraction t = elim (Bool-cases (ltb (length t.buffer) 28)) [
  | inl a ↦ short (ltb→lt _ _ a) (rw a)
  | inr a ↦ elim (Bool-cases (ltb t.options.binary_max_frame_size (frame_size t.buffer))) [
    | inl b ↦ too_large (ltb-false→le _ _ a) (ltb→lt _ _ b) (rw (a, b))
    | inr b ↦ elim (Bool-cases (ltb (length t.buffer) (frame_size t.buffer))) [
      | inl c ↦ incomplete (ltb-false→le _ _ a) (ltb-false→le _ _ b) (ltb→lt _ _ c) (rw (a, b, c))
      | inr c ↦
          checked (ltb-false→le _ _ a) (ltb-false→le _ _ b) (ltb-false→le _ _ c) (rw (a, b, c))
    ]
  ]
]

extract_round-Advances : (t : Transport) → Advances t (extract_round t (try_extract_binary_frame t))
unfolding extract_round count_binary_parse_reason resync
extract_round-Advances t = elim (extraction t) [
  | short _ e ↦ rw e (refl, refl)
  | too_large _ _ e ↦ rw e (1, omega arith, refl, refl)
  | incomplete _ _ _ e ↦ rw e (refl, refl)
  | checked _ _ _ e ↦ rw e (check_frame-Cuts _ _ _ t)
]

pub count_candidate_keeps :
    (t : Transport)
    → ((count_candidate t).buffer ≡ t.buffer) × ((count_candidate t).options ≡ t.options)
unfolding count_candidate
count_candidate_keeps t = ground arith

Advances-along :
    (s t : Transport) (r : Round)
    → (s.buffer ≡ t.buffer) × (s.options ≡ t.options)
    → Advances s r
    → Advances t r
Advances-along s t (stop u) (b, o) h = (h.0 ∙ b, h.1 ∙ o)
Advances-along s t (again u new) (b, o) (n, pos, e, o') = (n, pos, e ∙ ap (drop n) b, o' ∙ o)

frame_round-Advances : (t : Transport) → Advances t (frame_round t)
unfolding frame_round
frame_round-Advances t =
    Advances-along (count_candidate t) t _ (count_candidate_keeps t)
      (extract_round-Advances (count_candidate t))

line_round-Advances : (newline : ℕ) (t : Transport) → Advances t (line_round newline t)
unfolding line_round drop_line
line_round-Advances newline t = (newline + 1, omega arith, refl, refl)

tail_round-Advances : (t : Transport) → Advances t (tail_round t)
unfolding tail_round resync
tail_round-Advances t = elim (Bool-cases (front_is b'$' t.buffer || front_is b'#' t.buffer)) [
  | inl a ↦ rw a (refl, refl)
  | inr a ↦ elim (Bool-cases (begins_with_binary_sync_prefix t.buffer)) [
    | inl b ↦ rw (a, b) (refl, refl)
    | inr b ↦ rw (a, b) (1, omega arith, refl, refl)
  ]
]

binary_round-Advances :
    (t : Transport) (sync newline : Option ℕ) → Advances t (binary_round t sync newline)
unfolding binary_round resync
binary_round-Advances t (some zero) newline = frame_round-Advances t
binary_round-Advances t (some (suc sync)) none = (suc sync, omega arith, refl, refl)
binary_round-Advances t none (some newline) = line_round-Advances newline t
binary_round-Advances t none none = tail_round-Advances t
binary_round-Advances t (some (suc sync)) (some newline) =
    elim (Bool-cases (ltb newline (suc sync))) [
      | inl e ↦ rw e (line_round-Advances newline t)
      | inr e ↦ rw e (suc sync, omega arith, refl, refl)
    ]

ascii_round-Advances : (t : Transport) (newline : Option ℕ) → Advances t (ascii_round t newline)
unfolding ascii_round drop_line
ascii_round-Advances t none = (refl, refl)
ascii_round-Advances t (some newline) = (newline + 1, omega arith, refl, refl)

-- Every round keeps the options, and one that goes on cuts at least one byte off the front.
pub drain_round-Advances : (t : Transport) → Advances t (drain_round t)
unfolding drain_round
drain_round-Advances t = elim (Bool-cases (is_empty t.buffer)) [
  | inl e ↦ rw e (refl, refl)
  | inr e ↦ elim (Bool-cases t.options.enable_binary) [
    | inl b ↦ simp (e, b) (binary_round-Advances t _ _)
    | inr b ↦ simp (e, b) (ascii_round-Advances t _)
  ]
]

pub drain_round-empty : (t : Transport) → length t.buffer ≡ 0 → drain_round t ≡ stop t
unfolding drain_round
drain_round-empty t h = rw (is_empty_of_length t.buffer h)

Round-cases :
    (r : Round)
    → ((u : Transport) × (r ≡ stop u)) ⊎ ((u : Transport) × (new : List Event) × (r ≡ again u new))
Round-cases (stop u) = inl (u, refl)
Round-cases (again u new) = inr (u, new, refl)

drain_loop_stop :
    (fuel : ℕ) (t u : Transport) (events : List Event)
    → drain_round t ≡ stop u
    → drain_loop (suc fuel) t events ≡ some (u, events)
unfolding drain_loop
drain_loop_stop fuel t u events e = rw (e, drain_loop)

drain_loop_again :
    (fuel : ℕ) (t u : Transport) (events new : List Event)
    → drain_round t ≡ again u new
    → drain_loop (suc fuel) t events ≡ drain_loop fuel u (events ++ new)
unfolding drain_loop
drain_loop_again fuel t u events new e = rw (e, drain_loop)

Cuts-shorter :
    (t u : Transport) → Cuts t u → 0 < length t.buffer → length u.buffer < length t.buffer
Cuts-shorter t u (n, pos, e, o) h = omega (arith, ap (length {A = ℕ}) e, length-drop n t.buffer)

-- A round that goes on started on a byte.
again_nonempty :
    (t u : Transport) (new : List Event) → drain_round t ≡ again u new → 0 < length t.buffer
again_nonempty t u new e = elim (zero_or_pos (length t.buffer)) [
  | inl z ↦ cc (drain_round-empty t z)
  | inr p ↦ p
]
  where
    zero_or_pos : (n : ℕ) → (n ≡ 0) ⊎ (0 < n)
    zero_or_pos n = omega arith

pub drain_round-shorter :
    (t u : Transport) (new : List Event)
    → drain_round t ≡ again u new
    → length u.buffer < length t.buffer
drain_round-shorter t u new e =
    Cuts-shorter t u (rw e at (drain_round-Advances t)) (again_nonempty t u new e)

drain_loop_total :
    (fuel : ℕ) (t : Transport) (events : List Event)
    → length t.buffer < fuel
    → (u : Transport) × (later : List Event) × (drain_loop fuel t events
        ≡ some (u, events ++ later))
      × Drains u t later
drain_loop_total zero t events h = absurd (omega arith)
drain_loop_total (suc fuel) t events h = elim (Round-cases (drain_round t)) [
  | inl (u, e) ↦ (u, [], rw append-nil (drain_loop_stop fuel t u events e), stops e refl)
  | inr (v, new, e) ↦
      let (u, later, run, rest) =
        drain_loop_total fuel v (events ++ new) (omega (arith, drain_round-shorter t v new e)) in
      (
        u,
        new ++ later,
        drain_loop_again fuel t v events new e
            ∙ run
            ∙ ap (λ (l : List Event). some (u, l)) (append_assoc events new later),
        goes e rest refl,
      )
]

-- `drain` returns on every state: its fuel is enough, and the result is that of the rounds
-- made one after the other until one of them stops.
pub drain_total :
    (t : Transport)
    → (u : Transport) × (events : List Event) × (drain t ≡ some (u, events)) × Drains u t events
unfolding drain
drain_total t = drain_loop_total (suc (length t.buffer)) t [] (omega arith)

pair_of_some :
    {u v : Transport} {xs ys : List Event}
    → ◌≡◌ {A = Option (Transport × List Event)} (some (u, xs)) (some (v, ys))
    → (u ≡ v) × (xs ≡ ys)
pair_of_some e = ground arith

pub drain-Drains :
    (t u : Transport) (events : List Event) → drain t ≡ some (u, events) → Drains u t events
drain-Drains t u events e =
    let (v, evs, run, rounds) = drain_total t in
    let (p, q) = pair_of_some (sym run ∙ e) in
    subst₂ (λ (w : Transport) (l : List Event). Drains w t l) p q rounds

again_injective :
    {u v : Transport} {xs ys : List Event} → again u xs ≡ again v ys → (u ≡ v) × (xs ≡ ys)
again_injective e = ground arith

-- The rounds have one outcome only.
pub Drains-unique :
    {u v t : Transport} {xs ys : List Event} → Drains u t xs → Drains v t ys → (u ≡ v) × (xs ≡ ys)
Drains-unique (stops a p) (stops b q) = ground arith
Drains-unique (stops a p) (goes b d q) = cc
Drains-unique (goes a d p) (stops b q) = cc
Drains-unique {v} (goes {later = l} a d p) (goes {later = l'} b d' q) =
    let (w, n) = again_injective (sym a ∙ b) in
    let (x, y) = Drains-unique d (subst (λ (s : Transport). Drains v s l') (sym w) d') in
    (x, p ∙ ap₂ (◌++◌ {A = Event}) n y ∙ sym q)

pub Drains-drain :
    {t u : Transport} {events : List Event} → Drains u t events → drain t ≡ some (u, events)
Drains-drain {t} d =
    let (v, evs, run, rounds) = drain_total t in
    let (p, q) = Drains-unique rounds d in
    run ∙ ap₂ (λ (w : Transport) (l : List Event). some (w, l)) p q
