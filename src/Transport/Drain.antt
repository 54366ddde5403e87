-- ===== src/Transport/Drain.antt =====
-- `UnicoreTransport::drain` of src/unicore_transport.cpp: one round of its `while` loop, and the
-- loop. A round ends the loop (`stop`), or goes on with the events that it appended (`again`).
use unicore_ros.Base.{
  ℕ, zero, suc, ◌+◌, Bool, true, false, not, ◌||◌, Option, none, some, List, [], ◌∷◌, ◌++◌, ltb,
  ◌==◌, if◌then◌else◌, length, take, drop, ◌≡◌,
}
use unicore_ros.Wire.{Bytes, find_byte, find_binary_sync, begins_with_binary_sync_prefix}
use unicore_ros.Transport.{
  Transport, Event, line_event, increment, resync, try_extract_binary_frame,
}

pub data Round : Type 0 where
  stop : Transport → Round
  again : Transport → List Event → Round

-- `if (!line.empty() && line.back() == '\r') line.pop_back()`
unfoldable pub strip_cr : Bytes → Bytes
strip_cr [] = []
strip_cr (c ∷ []) = if c == b'\r' then [] else c ∷ []
strip_cr (c ∷ d ∷ rest) = c ∷ strip_cr (d ∷ rest)

-- An empty line makes no event.
unfoldable pub line_events : Bytes → List Event
line_events [] = []
line_events (c ∷ rest) = line_event (c ∷ rest) ∷ []

unfoldable pub cut_line : ℕ → Transport → List Event
cut_line newline t = line_events (strip_cr (take newline t.buffer))

-- The line and its newline leave the buffer.
unfoldable pub drop_line : ℕ → Transport → Transport
drop_line newline t = record t { buffer = drop (newline + 1) t.buffer }

-- The branch with `enable_binary` off, at the position of the first newline.
unfoldable pub ascii_round : Transport → Option ℕ → Round
ascii_round t none = stop t
ascii_round t (some newline) = again (drop_line newline t) (cut_line newline t)

-- The branch `sync == 0`.
unfoldable pub count_candidate : Transport → Transport
count_candidate t =
    if not t.counted_sync_candidate
    then record t {
      counters = record (t.counters) { sync_candidates = increment t.counters.sync_candidates };
      counted_sync_candidate = true;
    }
    else t

unfoldable pub extract_round : Transport → Option (Transport × List Event) → Round
extract_round t none = stop t
extract_round t (some (u, events)) = again u events

unfoldable pub frame_round : Transport → Round
frame_round t = extract_round (count_candidate t) (try_extract_binary_frame (count_candidate t))

unfoldable pub line_round : ℕ → Transport → Round
line_round newline t =
    again (record (drop_line newline t) { counted_sync_candidate = false }) (cut_line newline t)

unfoldable pub front_is : ℕ → Bytes → Bool
front_is c [] = false
front_is c (x ∷ xs) = x == c

-- No newline and no sync pattern in the buffer.
unfoldable pub tail_round : Transport → Round
tail_round t =
    if front_is b'$' t.buffer || front_is b'#' t.buffer
    then stop t
    else if begins_with_binary_sync_prefix t.buffer
    then stop t
    else again (resync 1 t) []

-- The branches with `enable_binary` on, by the positions of the pattern and of the newline.
unfoldable pub binary_round : Transport → Option ℕ → Option ℕ → Round
binary_round t (some zero) newline = frame_round t
binary_round t (some (suc sync)) (some newline) =
    if ltb newline (suc sync) then line_round newline t else again (resync (suc sync) t) []
binary_round t (some (suc sync)) none = again (resync (suc sync) t) []
binary_round t none (some newline) = line_round newline t
binary_round t none none = tail_round t

unfoldable pub is_empty : Bytes → Bool
is_empty [] = true
is_empty (x ∷ xs) = false

unfoldable pub drain_round : Transport → Round
drain_round t =
    if is_empty t.buffer
    then stop t
    else if not t.options.enable_binary
    then ascii_round t (find_byte b'\n' t.buffer)
    else binary_round t (find_binary_sync t.buffer) (find_byte b'\n' t.buffer)

-- `none` means that the fuel ran out.
unfoldable pub drain_loop : ℕ → Transport → List Event → Option (Transport × List Event)
drain_loop zero t events = none
drain_loop (suc fuel) t events = elim (drain_round t) [
  | stop u ↦ some (u, events)
  | again u new ↦ drain_loop fuel u (events ++ new)
]

-- Each round takes a byte at least, so one round more than there are bytes is enough.
unfoldable pub drain : Transport → Option (Transport × List Event)
unfolding drain_loop
drain t = drain_loop (suc (length t.buffer)) t []

-- The rounds from `t` end at `u`, and append `events`.
pub data Drains (u : Transport) : Transport → List Event → Type 0 where
  stops :
      {t : Transport} {events : List Event}
      → drain_round t ≡ stop u
      → events ≡ []
      → Drains u t events
  goes :
      {t v : Transport} {events new later : List Event}
      → drain_round t ≡ again v new
      → Drains u v later
      → events ≡ new ++ later
      → Drains u t events
