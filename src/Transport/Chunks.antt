-- ===== src/Transport/Chunks.antt =====
-- The loop of `poll_serial` in src/unicore_node.cpp, which appends what each read returned and
-- drains, over a stream of well-formed frames and lines that the reads cut anywhere.
use unicore_ros.Base.{
  ℕ, ◌<◌, ◌≡◌, refl, sym, ap, ◌∙◌, ◌⊎◌, inl, inr, true, Option, none, some, List, [], ◌∷◌, ◌++◌,
  append-nil, append_assoc, arith, length, length-append, take, drop, take-append_length,
  take-append_le, append_split, append-eq-nil, All-split, length-take, All, ltb, Bool-cases, ltb→lt,
  ltb-false→le,
}
use mathlib.Core.Path.{subst}
use unicore_ros.Wire.{Bytes}
use unicore_ros.Transport.{Transport, Event, Options, append}
use unicore_ros.Transport.Drain.{
  stop, again, drain_round, drain, Drains, stops, goes, count_candidate,
}
use unicore_ros.Transport.Total.{Drains-drain, drain_round-empty}
use unicore_ros.Transport.Stream.{Item, line, frame, IsItem, wire_item, wire, event_of, events_of}
use unicore_ros.Transport.FrameRound.{accepted, drain_round-frame, drain_round-part}
use unicore_ros.Transport.LineRound.{line_taken, drain_round-line, drain_round-line_part}

-- The events of one drain come before those of the next.
abbrev pub before : List Event → Option (Transport × List Event) → Option (Transport × List Event)
before events none = none
before events (some (u, later)) = some (u, events ++ later)

-- One round of the loop for each read.
unfoldable pub feed : List Bytes → Transport → Option (Transport × List Event)
feed [] t = some (t, [])
feed (chunk ∷ chunks) t = elim (drain (append chunk t)) [
  | none ↦ none
  | some (u, events) ↦ before events (feed chunks u)
]

-- No error and no loss of synchronisation is counted, and the options stay.
pub record Keeps (t u : Transport) : Type 0 where
  pub options_kept : u.options ≡ t.options
  pub crc_errors_kept : u.counters.crc_errors ≡ t.counters.crc_errors
  pub resync_count_kept : u.counters.resync_count ≡ t.counters.resync_count
  pub reasons_kept :
      u.counters.frame_parse_errors_by_reason ≡ t.counters.frame_parse_errors_by_reason

Keeps-trans : {t u v : Transport} → Keeps t u → Keeps u v → Keeps t v
Keeps-trans a b = record {
  options_kept = b.options_kept ∙ a.options_kept;
  crc_errors_kept = b.crc_errors_kept ∙ a.crc_errors_kept;
  resync_count_kept = b.resync_count_kept ∙ a.resync_count_kept;
  reasons_kept = b.reasons_kept ∙ a.reasons_kept;
}

Keeps-refl : (t : Transport) → Keeps t t
Keeps-refl t = record {
  options_kept = refl;
  crc_errors_kept = refl;
  resync_count_kept = refl;
  reasons_kept = refl;
}

count_candidate-Keeps :
    (t : Transport) → Keeps t (count_candidate t) × ((count_candidate t).buffer ≡ t.buffer)
unfolding count_candidate
count_candidate-Keeps t = elim (Bool-cases t.counted_sync_candidate) [
  | inl e ↦ simp e (Keeps-refl t, refl)
  | inr e ↦ simp e (
    record {
      options_kept = refl;
      crc_errors_kept = refl;
      resync_count_kept = refl;
      reasons_kept = refl;
    },
    refl,
  )
]

abbrev pub IsReady : ℕ → Transport → Type 0
IsReady max t = (t.options.enable_binary ≡ true) × (t.options.binary_max_frame_size ≡ max)

IsReady-Keeps : (max : ℕ) {t u : Transport} → IsReady max t → Keeps t u → IsReady max u
IsReady-Keeps max (on, m) k = (
  ap (λ (o : Options). o.enable_binary) k.options_kept ∙ on,
  ap (λ (o : Options). o.binary_max_frame_size) k.options_kept ∙ m,
)

-- The bytes read so far of the first item: fewer than it has.
abbrev pub IsPart : List Item → Bytes → Type 0
IsPart [] p = p ≡ []
IsPart (i ∷ items) p = (n : ℕ) × (n < length (wire_item i)) × (p ≡ take n (wire_item i))

-- The outcome of a whole drain: where it stops, with what in the buffer.
abbrev Ends : Transport → List Event → Bytes → Type 0
Ends t events p = (u : Transport) × Drains u t events × (u.buffer ≡ p) × Keeps t u

stop_as :
    (t : Transport) (p : Bytes)
    → t.buffer ≡ p
    → (drain_round t ≡ stop t) ⊎ (drain_round t ≡ stop (count_candidate t))
    → Ends t [] p
stop_as t p b (inl e) = (t, stops e refl, b, Keeps-refl t)
stop_as t p b (inr e) =
    let (k, same) = count_candidate-Keeps t in (count_candidate t, stops e refl, same ∙ b, k)

module _ (max : ℕ) where
  part_waits :
      (items : List Item) (p : Bytes) (t : Transport)
      → All (IsItem max) items
      → IsPart items p
      → IsReady max t
      → t.buffer ≡ p
      → Ends t [] p
  part_waits [] p t h part (on, m) b =
      stop_as t p b (inl (drain_round-empty t (ap (length {A = ℕ}) (b ∙ part))))
  part_waits (line l ∷ items) p t (h, hs) (n, less, e) (on, m) b =
      stop_as t p b (inl (drain_round-line_part h t n less on (b ∙ e)))
  part_waits (frame r f ∷ items) p t (h, hs) (n, less, e) (on, m) b =
      stop_as t p b (drain_round-part h t n less (b ∙ e) on m)

  -- One item at the front of the buffer.
  item_taken :
      (i : Item) (rest : Bytes) (t : Transport)
      → IsItem max i
      → IsReady max t
      → t.buffer ≡ wire_item i ++ rest
      → (u : Transport) × (drain_round t ≡ again u (event_of i ∷ []))
        × (u.buffer ≡ rest)
        × Keeps t u
  item_taken (line l) rest t h (on, m) b = (
    line_taken rest t,
    drain_round-line h t rest on b,
    refl,
    record {
      options_kept = refl;
      crc_errors_kept = refl;
      resync_count_kept = refl;
      reasons_kept = refl;
    },
  )
  item_taken (frame r f) rest t h (on, m) b =
      let (k, same) = count_candidate-Keeps t in
      (
        accepted f rest (count_candidate t),
        drain_round-frame h t rest on m b,
        refl,
        Keeps-trans k (record {
          options_kept = refl;
          crc_errors_kept = refl;
          resync_count_kept = refl;
          reasons_kept = refl;
        }),
      )

  -- Whole items, and a part of the item that comes next.
  stream_drains :
      (done left : List Item) (p : Bytes) (t : Transport)
      → All (IsItem max) done
      → All (IsItem max) left
      → IsPart left p
      → IsReady max t
      → t.buffer ≡ wire done ++ p
      → Ends t (events_of done) p
  stream_drains [] left p t hd hl part ready b = part_waits left p t hl part ready b
  stream_drains (i ∷ done) left p t (hi, hd) hl part ready b =
      let (v, e, rest, k) =
        item_taken i (wire done ++ p) t hi ready (b ∙ append_assoc (wire_item i) (wire done) p) in
      let (u, d, end, k') =
        stream_drains done left p v hd hl part (IsReady-Keeps max ready k) rest in
      (u, goes e d refl, end, Keeps-trans k k')

abbrev pub flatten : List Bytes → Bytes
flatten [] = []
flatten (chunk ∷ chunks) = chunk ++ flatten chunks

events_of-append : (xs ys : List Item) → events_of (xs ++ ys) ≡ events_of xs ++ events_of ys
events_of-append [] ys = refl
events_of-append (x ∷ xs) ys = ap (◌∷◌ (event_of x)) (events_of-append xs ys)

part_of_short :
    (b r w rest : Bytes) → b ++ r ≡ w ++ rest → length b < length w → b ≡ take (length b) w
part_of_short b r w rest e less =
    sym (take-append_length b r)
    ∙ ap (take (length b)) e
    ∙ take-append_le (length b) w rest (omega arith)

-- A prefix of the stream: whole items, and a part of the next one.
record Cut (items : List Item) (b r : Bytes) : Type 0 where
  done : List Item
  left : List Item
  part : Bytes
  items_are : items ≡ done ++ left
  read : b ≡ wire done ++ part
  unread : part ++ r ≡ wire left
  is_part : IsPart left part

cut : (items : List Item) (b r : Bytes) → b ++ r ≡ wire items → Cut items b r
cut [] b r e =
    let (p, q) = append-eq-nil b r e in
    record {
      done = [];
      left = [];
      part = b;
      items_are = refl;
      read = refl;
      unread = e;
      is_part = p;
    }
cut (i ∷ items) b r e = elim (Bool-cases (ltb (length b) (length (wire_item i)))) [
  | inl short ↦ record {
    done = [];
    left = i ∷ items;
    part = b;
    items_are = refl;
    read = refl;
    unread = e;
    is_part = (
      length b,
      ltb→lt _ _ short,
      part_of_short b r (wire_item i) (wire items) e (ltb→lt _ _ short),
    );
  }
  | inr whole ↦
      let (p, q) = append_split (wire_item i) (wire items) b r (sym e) (ltb-false→le _ _ whole) in
      let c = cut items (drop (length (wire_item i)) b) r q in
      record {
        done = i ∷ c.done;
        left = c.left;
        part = c.part;
        items_are = ap (◌∷◌ i) c.items_are;
        read =
            p
            ∙ ap (◌++◌ (wire_item i)) c.read
            ∙ sym (append_assoc (wire_item i) (wire c.done) c.part);
        unread = c.unread;
        is_part = c.is_part;
      }
]

-- A part is no whole stream, unless that is empty.
part_is_end : (items : List Item) (p : Bytes) → IsPart items p → p ≡ wire items → items ≡ []
part_is_end [] p part e = refl
part_is_end (i ∷ items) p (n, less, q) e = absurd (
    omega (
      arith,
      ap (length {A = ℕ}) e,
      ap (length {A = ℕ}) q,
      length-append (wire_item i) (wire items),
      length-take n (wire_item i),
    ))

feed_step :
    (chunk : Bytes) (chunks : List Bytes) (t u v : Transport) (xs ys : List Event)
    → drain (append chunk t) ≡ some (u, xs)
    → feed chunks u ≡ some (v, ys)
    → feed (chunk ∷ chunks) t ≡ some (v, xs ++ ys)
unfolding feed
feed_step chunk chunks t u v xs ys p q = rw (p, feed) (rw q refl)

append-Keeps :
    (chunk : Bytes) (t : Transport)
    → Keeps t (append chunk t) × ((append chunk t).buffer ≡ t.buffer ++ chunk)
unfolding append
append-Keeps chunk t = (
  record {
    options_kept = refl;
    crc_errors_kept = refl;
    resync_count_kept = refl;
    reasons_kept = refl;
  },
  refl,
)

feed_none : (t : Transport) → feed [] t ≡ some (t, [])
unfolding feed
feed_none t = refl

module _ (max : ℕ) where
  feed-wire_from :
      (chunks : List Bytes) (items : List Item) (t : Transport)
      → All (IsItem max) items
      → IsPart items t.buffer
      → IsReady max t
      → t.buffer ++ flatten chunks ≡ wire items
      → (u : Transport) × (feed chunks t ≡ some (u, events_of items)) × (u.buffer ≡ []) × Keeps t u
  feed-wire_from [] items t h part ready e =
      let none_left = part_is_end items t.buffer part (sym (append-nil t.buffer) ∙ e) in
      (
        t,
        feed_none t ∙ ap (λ (l : List Item). some (t, events_of l)) (sym none_left),
        sym (append-nil t.buffer) ∙ e ∙ ap wire none_left,
        Keeps-refl t,
      )
  feed-wire_from (chunk ∷ chunks) items t h part ready e =
      let c =
        cut items (t.buffer ++ chunk) (flatten chunks)
          (append_assoc t.buffer chunk (flatten chunks) ∙ e) in
      let (h1, h2) =
        All-split (IsItem max) c.done c.left (subst (All (IsItem max)) c.items_are h) in
      let (k, b) = append-Keeps chunk t in
      let (u, d, end, k') =
        stream_drains max c.done c.left c.part (append chunk t) h1 h2 c.is_part
          (IsReady-Keeps max ready k) (b ∙ c.read) in
      let (v, run, empty, k'') =
        feed-wire_from chunks c.left u h2 (subst (IsPart c.left) (sym end) c.is_part)
          (IsReady-Keeps max ready (Keeps-trans k k'))
          (ap (λ (x : Bytes). x ++ flatten chunks) end ∙ c.unread) in
      (
        v,
        feed_step chunk chunks t u v (events_of c.done) (events_of c.left) (Drains-drain d) run
            ∙ ap (λ (l : List Event). some (v, l))
                (sym (events_of-append c.done c.left) ∙ ap events_of (sym c.items_are)),
        empty,
        Keeps-trans k (Keeps-trans k' k''),
      )

  IsPart-nil : (items : List Item) → All (IsItem max) items → IsPart items []
  IsPart-nil [] h = refl
  IsPart-nil (line l ∷ items) (h, hs) =
      (0, omega (arith, length-append l (b'\r' ∷ b'\n' ∷ [])), refl)
  IsPart-nil (frame r f ∷ items) (h, hs) = (0, omega arith, refl)

  -- Whatever the reads that cut a stream of well-formed frames and lines into chunks, a transport in
  -- binary mode with an empty buffer reports exactly these frames and lines, in order, ends with an
  -- empty buffer, and counts no CRC error, no resynchronisation and no parse error.
  pub feed-wire :
      (chunks : List Bytes) (items : List Item) (t : Transport)
      → All (IsItem max) items
      → IsReady max t
      → t.buffer ≡ []
      → flatten chunks ≡ wire items
      → (u : Transport) × (feed chunks t ≡ some (u, events_of items)) × (u.buffer ≡ []) × Keeps t u
  feed-wire chunks items t h ready b e =
      feed-wire_from chunks items t h (subst (IsPart items) (sym b) (IsPart-nil items h)) ready
        (ap (λ (x : Bytes). x ++ flatten chunks) b ∙ e)
