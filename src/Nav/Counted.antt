-- ===== src/Nav/Counted.antt =====
-- What SATSINFO gives in src/unicore_binary_nav.cpp: as many satellites as it says, each with a
-- signal.
use mathlib.Core.Path.{subst}
use unicore_ros.Base.{
  ℕ, zero, suc, ◌+◌, ◌*◌, ◌<◌, ◌≡◌, refl, sym, ap, ◌∙◌, Bool, true, false, not, Option, none, some,
  List, arith, All, length, ltb, ◌==◌, if◌then◌else◌,
}
use unicore_ros.Base.Int.{pos}
use unicore_ros.Base.Maybe.{bind-eq-some}
use unicore_ros.Floats.{Floats}
use unicore_ros.Sentence.{ParsedSentence, SatsInfoEntry, SatsInfoSignal, SatsInfoData}
use unicore_ros.Payload.{Payload, has_range, read_u8, read_i16}
use unicore_ros.Nav.SatsInfo.{
  satsinfo_minimum_payload_size, read_signal, signal_loop, read_satellite, satellite_loop,
  parse_satsinfob,
}

some_injective {ℓ} : {A : Type ℓ} {a b : A} → some a ≡ some b → a ≡ b
some_injective e = cc

-- A test that must have failed for a result to be there.
unless-none {ℓ} :
    {A : Type ℓ} (b : Bool) (x : Option A) (a : A)
    → (if b then none else x) ≡ some a
    → (b ≡ false) × (x ≡ some a)
unless-none true x a e = cc
unless-none false x a e = (refl, e)

nonzero_lt : (n : ℕ) → (n == 0) ≡ false → 0 < n
nonzero_lt n h = ground arith

module _ (F : Floats) where
  abbrev pub HasSignal : SatsInfoEntry F.D → Type 0
  HasSignal entry = 0 < length entry.signals

  signal_loop-length :
      (p : Payload) (n offset : ℕ) (signals : List (SatsInfoSignal F.D))
      → signal_loop F p n offset ≡ some signals
      → length signals ≡ n
  unfolding signal_loop
  signal_loop-length p zero offset signals e = ap length (sym (some_injective e))
  signal_loop-length p (suc n) offset signals e =
      let (next, e1, f1) = bind-eq-some (read_signal F p offset) _ e in
      let (later, e2, f2) = bind-eq-some (signal_loop F p n (offset + 4)) _ f1 in
      ap length (sym (some_injective f2)) ∙ ap suc (signal_loop-length p n (offset + 4) later e2)

  read_satellite-HasSignal :
      (p : Payload) (cursor : ℕ) (next : SatsInfoEntry F.D × ℕ)
      → read_satellite F p cursor ≡ some next
      → HasSignal next.0
  unfolding read_satellite
  read_satellite-HasSignal p cursor next e =
      let (there, e0) = unless-none (not (has_range p cursor 8)) _ next e in
      let (prn, e1, f1) = bind-eq-some (read_u8 p cursor) _ e0 in
      let (azimuth, e2, f2) = bind-eq-some (read_i16 p (cursor + 1)) _ f1 in
      let (elevation, e3, f3) = bind-eq-some (read_u8 p (cursor + 3)) _ f2 in
      let (system, e4, f4) = bind-eq-some (read_u8 p (cursor + 4)) _ f3 in
      let (cn0, e5, f5) = bind-eq-some (read_u8 p (cursor + 5)) _ f4 in
      let (frequency, e6, f6) = bind-eq-some (read_u8 p (cursor + 6)) _ f5 in
      let (count, e7, f7) = bind-eq-some (read_u8 p (cursor + 7)) _ f6 in
      let (nonzero, f8) = unless-none (count == 0) _ next f7 in
      let (fits, f9) = unless-none (not (has_range p cursor (4 + count * 4))) _ next f8 in
      let (signals, e10, f10) = bind-eq-some (signal_loop F p count (cursor + 4)) _ f9 in
      omega (
        arith,
        signal_loop-length p count (cursor + 4) signals e10,
        nonzero_lt count nonzero,
        ap (λ (r : SatsInfoEntry F.D × ℕ). length r.0.signals) (some_injective f10),
      )

  satellite_loop-length :
      (p : Payload) (n cursor : ℕ) (entries : List (SatsInfoEntry F.D))
      → satellite_loop F p n cursor ≡ some entries
      → (length entries ≡ n) × All HasSignal entries
  unfolding satellite_loop
  satellite_loop-length p zero cursor entries e =
      subst (λ (es : List (SatsInfoEntry F.D)). (length es ≡ 0) × All HasSignal es)
        (some_injective e) (refl, tt)
  satellite_loop-length p (suc n) cursor entries e =
      let (next, e1, f1) = bind-eq-some (read_satellite F p cursor) _ e in
      let (later, e2, f2) = bind-eq-some (satellite_loop F p n (cursor + next.1)) _ f1 in
      let (size, signals) = satellite_loop-length p n (cursor + next.1) later e2 in
      subst (λ (es : List (SatsInfoEntry F.D)). (length es ≡ suc n) × All HasSignal es)
        (some_injective f2) (ap suc size, (read_satellite-HasSignal p cursor next e1, signals))

  -- A SATSINFO sentence that the parser gives for a payload has the satellite information, with as
  -- many satellites as the payload's first byte, which is also the count it states, and each of them
  -- has at least one signal.
  pub parse_satsinfob-HasSignal :
      (p : Payload) (sentence : ParsedSentence F.D)
      → parse_satsinfob F p ≡ some sentence
      → (count : ℕ) × (info : SatsInfoData F.D) × (read_u8 p 0 ≡ some count)
        × (sentence.satsinfo ≡ some info)
        × (info.satellite_count ≡ pos count)
        × (length info.entries ≡ count)
        × All HasSignal info.entries
  unfolding parse_satsinfob
  parse_satsinfob-HasSignal p sentence e =
      let (long, e0) = unless-none (ltb (length p) satsinfo_minimum_payload_size) _ sentence e in
      let (count, e1, f1) = bind-eq-some (read_u8 p 0) _ e0 in
      let (info_version, e2, f2) = bind-eq-some (read_u8 p 1) _ f1 in
      let (flag, e3, f3) = bind-eq-some (read_u8 p 5) _ f2 in
      let (read, e4, f4) = bind-eq-some (satellite_loop F p count 6) _ f3 in
      let (size, signals) = satellite_loop-length p count 6 read e4 in
      (
        count,
        record {
          satellite_count = pos count;
          version = pos info_version;
          frequency_flag = pos flag;
          entries = read;
        },
        e1,
        ap (λ (s : ParsedSentence F.D). s.satsinfo) (sym (some_injective f4)),
        refl,
        size,
        signals,
      )
