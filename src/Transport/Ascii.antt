-- ===== src/Transport/Ascii.antt =====
-- With `enable_binary` off, src/unicore_transport.cpp cuts the buffer at newlines and nothing else:
-- however the input is cut into reads, the same lines come out.
use unicore_ros.Base.{
  ℕ, ◌+◌, ◌<◌, ◌≡◌, refl, sym, ap, ◌∙◌, inl, inr, true, false, none, some, List, [], ◌∷◌, ◌++◌,
  append_assoc, arith, length, take-append_le, drop-append_le, Bool-cases, Option-cases,
}
use mathlib.Core.Path.{subst, subst₂, ap₂}
use unicore_ros.Wire.{Bytes, find_byte}
use unicore_ros.Wire.Search.{find_byte-append, find_byte-first}
use unicore_ros.Transport.{Transport, Event, Options, append}
use unicore_ros.Transport.Drain.{
  stop, again, strip_cr, line_events, cut_line, drop_line, ascii_round, is_empty, drain_round,
  drain, Drains, stops, goes,
}
use unicore_ros.Transport.Total.{Advances, drain-Drains, Drains-drain, drain_round-Advances}

abbrev pub IsAscii : Transport → Type 0
IsAscii t = t.options.enable_binary ≡ false

-- On an ASCII transport a round is decided by the first newline.
ascii-drain_round :
    (t : Transport) → IsAscii t → drain_round t ≡ ascii_round t (find_byte b'\n' t.buffer)
unfolding drain_round ascii_round
ascii-drain_round t h = elim (Bool-cases (is_empty t.buffer)) [
  | inl e ↦ simp (e, find_in_empty t.buffer e)
  | inr e ↦ simp (e, h)
]
  where
    find_in_empty : (bs : Bytes) → is_empty bs ≡ true → find_byte b'\n' bs ≡ none
    find_in_empty [] e = unfold find_byte in refl
    find_in_empty (b ∷ bs) e = unfold is_empty in cc

drop_line-append :
    (n : ℕ) (t : Transport) (more : Bytes)
    → n < length t.buffer
    → drop_line n (append more t) ≡ append more (drop_line n t)
unfolding drop_line append
drop_line-append n t more h =
    ap (λ (b : Bytes). record t { buffer = b }) (drop-append_le (n + 1) t.buffer more (omega arith))

cut_line-append :
    (n : ℕ) (t : Transport) (more : Bytes)
    → n < length t.buffer
    → cut_line n (append more t) ≡ cut_line n t
unfolding cut_line append
cut_line-append n t more h =
    ap (λ (b : Bytes). line_events (strip_cr b)) (take-append_le n t.buffer more (omega arith))

ascii_round-append :
    (t : Transport) (more : Bytes) (n : ℕ)
    → n < length t.buffer
    → ascii_round (append more t) (some n) ≡ again (append more (drop_line n t)) (cut_line n t)
unfolding ascii_round
ascii_round-append t more n h = ap₂ again (drop_line-append n t more h) (cut_line-append n t more h)

ascii_round-none : (t : Transport) → ascii_round t none ≡ stop t
unfolding ascii_round
ascii_round-none t = refl

ascii_round-some :
    (t : Transport) (n : ℕ) → ascii_round t (some n) ≡ again (drop_line n t) (cut_line n t)
unfolding ascii_round
ascii_round-some t n = refl

again-append :
    {u v : Transport} {xs ys : List Event} (more : Bytes)
    → again u xs ≡ again v ys
    → again (append more u) xs ≡ again (append more v) ys
again-append more e = cc

stop_injective : {u v : Transport} → stop u ≡ stop v → u ≡ v
stop_injective e = cc

find_in_append :
    (t : Transport) (more : Bytes) (n : ℕ)
    → find_byte b'\n' t.buffer ≡ some n
    → find_byte b'\n' ((append more t).buffer) ≡ some n
unfolding append
find_in_append t more n e = find_byte-append b'\n' t.buffer more n e

IsAscii-append : (t : Transport) (more : Bytes) → IsAscii t → IsAscii (append more t)
unfolding append
IsAscii-append t more h = h

-- A round that goes on does the same, whatever is appended to the buffer.
round-append :
    (t u : Transport) (new : List Event) (more : Bytes)
    → IsAscii t
    → drain_round t ≡ again u new
    → drain_round (append more t) ≡ again (append more u) new
round-append t u new more h e = elim (Option-cases (find_byte b'\n' t.buffer)) [
  | inl f ↦ cc (ascii-drain_round t h, ap (ascii_round t) f, ascii_round-none t)
  | inr (n, f) ↦
      ascii-drain_round (append more t) (IsAscii-append t more h)
      ∙ ap (ascii_round (append more t)) (find_in_append t more n f)
      ∙ ascii_round-append t more n (find_byte-first b'\n' t.buffer n f).0
      ∙ again-append more (
          sym (ascii_round-some t n) ∙ sym (ap (ascii_round t) f) ∙ sym (ascii-drain_round t h) ∙ e)
]

-- A stop leaves the state as it is.
round-stop : (t u : Transport) → IsAscii t → drain_round t ≡ stop u → u ≡ t
round-stop t u h e = elim (Option-cases (find_byte b'\n' t.buffer)) [
  | inl f ↦
      stop_injective (sym e ∙ ascii-drain_round t h ∙ ap (ascii_round t) f ∙ ascii_round-none t)
  | inr (n, f) ↦ cc (e, ascii-drain_round t h, ap (ascii_round t) f, ascii_round-some t n)
]

IsAscii-next :
    (t w : Transport) (new : List Event) → IsAscii t → drain_round t ≡ again w new → IsAscii w
IsAscii-next t w new h e =
    let (n, pos, b, o) = advanced in ap (λ (x : Options). x.enable_binary) o ∙ h
  where
    advanced : Advances t (again w new)
    advanced = rw e at (drain_round-Advances t)

append-append :
    (t : Transport) (front back : Bytes) → append back (append front t) ≡ append (front ++ back) t
unfolding append
append-append t front back =
    ap (λ (b : Bytes). record t { buffer = b }) (append_assoc t.buffer front back)

Drains-append :
    {u v t : Transport} {xs ys : List Event} (more : Bytes)
    → IsAscii t
    → Drains u t xs
    → Drains v (append more u) ys
    → Drains v (append more t) (xs ++ ys)
Drains-append {v} {ys = ys} more h (stops {t} a p) d =
    subst₂ (λ (s : Transport) (l : List Event). Drains v (append more s) l) (round-stop t _ h a)
      (sym (ap (λ (l : List Event). l ++ ys) p)) d
Drains-append {ys = ys} more h (goes {t} {v = w} {new = new} {later = later} a r p) d =
    goes (round-append t w new more h a) (Drains-append more (IsAscii-next t w new h a) r d)
      (ap (λ (l : List Event). l ++ ys) p ∙ append_assoc new later ys)

-- Reading `front` and draining, and then `back` and draining, ends in the same state and gives
-- the same events as reading both at once.
pub drain_chunks :
    (t u v : Transport) (front back : Bytes) (xs ys : List Event)
    → IsAscii t
    → drain (append front t) ≡ some (u, xs)
    → drain (append back u) ≡ some (v, ys)
    → drain (append (front ++ back) t) ≡ some (v, xs ++ ys)
drain_chunks t u v front back xs ys h p q =
    subst (λ (s : Transport). drain s ≡ some (v, xs ++ ys)) (append-append t front back)
      (Drains-drain (
        Drains-append back (IsAscii-append t front h) (drain-Drains _ u xs p)
          (drain-Drains _ v ys q)))
