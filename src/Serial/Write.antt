-- ===== src/Serial/Write.antt =====
-- `SerialPort::write` of src/serial_port.cpp returns, and hands the bytes over in order.
use unicore_ros.Base.{
  ℕ, zero, suc, ◌+◌, ◌≤◌, ◌<◌, ◌≡◌, refl, sym, ap, ◌∙◌, inl, inr, Bool, false, Option, none, some,
  [], ◌∷◌, ◌++◌, append-nil, append_assoc, arith, length, take, drop, ltb, ltb→lt, Bool-cases,
  length-drop, take-append-drop,
}
use unicore_ros.Wire.{Bytes}
use unicore_ros.Serial.System.{System, Errno, Written, Polled, IsWriter, IsPatient}
use unicore_ros.Serial.Port.{Port, is_eintr, is_eagain, wait_loop, write_loop, write}

data IsPolled (x : Polled) : Type 0 where
  ready : (out : Bool) → x ≡ Polled.ready out → IsPolled x
  timed_out : x ≡ Polled.timed_out → IsPolled x
  failed : (e : Errno) → x ≡ Polled.failed e → IsPolled x

Polled-cases : (x : Polled) → IsPolled x
Polled-cases (Polled.ready out) = ready out refl
Polled-cases Polled.timed_out = timed_out refl
Polled-cases (Polled.failed e) = failed e refl

data IsWritten (x : Written) : Type 0 where
  wrote : (n : ℕ) → x ≡ Written.wrote n → IsWritten x
  unwritten : (e : Errno) → x ≡ Written.failed e → IsWritten x

Written-cases : (x : Written) → IsWritten x
Written-cases (Written.wrote n) = wrote n refl
Written-cases (Written.failed e) = unwritten e refl

take-take-drop : (n k : ℕ) (xs : Bytes) → take n xs ++ take k (drop n xs) ≡ take (n + k) xs
take-take-drop zero k xs = ap (λ (m : ℕ). take m xs) plain
  where
    plain : k ≡ 0 + k
    plain = omega arith
take-take-drop (suc n) zero [] = refl_take (suc n + 0)
  where
    refl_take : (m : ℕ) → [] ≡ take {A = ℕ} m []
    refl_take zero = refl
    refl_take (suc m) = refl
take-take-drop (suc n) (suc k) [] = refl_take (suc n + suc k)
  where
    refl_take : (m : ℕ) → [] ≡ take {A = ℕ} m []
    refl_take zero = refl
    refl_take (suc m) = refl
take-take-drop (suc n) k (x ∷ xs) =
    ap (◌∷◌ x) (take-take-drop n k xs) ∙ ap (λ (m : ℕ). take m (x ∷ xs)) one_more
  where
    one_more : suc (n + k) ≡ suc n + k
    one_more = omega arith

nothing_out : {w v : Bytes} (n : ℕ) (rest : Bytes) → ltb 0 n ≡ false → v ≡ w ++ take n rest → v ≡ w
nothing_out {w} zero rest h e = e ∙ append-nil w
nothing_out (suc n) rest h e = absurd (ground arith)

module _ (S : System) (O : IsWriter S) (P : IsPatient S) (fd : ℕ) where
  -- A wait ends, with nothing written and no patience gained.
  abbrev Waits : ℕ → S.World → Type 0
  Waits fuel w =
      (out : Bool) × (w' : S.World) × (wait_loop S fuel fd w ≡ some (out, w'))
      × (O.output fd w' ≡ O.output fd w)
      × (P.patience w' ≤ P.patience w)

  wait_loop-Waits : (fuel : ℕ) (w : S.World) → P.patience w < fuel → Waits fuel w
  unfolding wait_loop
  wait_loop-Waits zero w h = elim h [ ]
  wait_loop-Waits (suc fuel) w h = elim (Polled-cases (S.poll fd w).0) [
    | ready out e ↦
        (out, (S.poll fd w).1, rw (e, wait_loop) refl, O.output-poll fd w, P.patience-poll fd w)
    | timed_out e ↦
        (false, (S.poll fd w).1, rw (e, wait_loop) refl, O.output-poll fd w, P.patience-poll fd w)
    | failed err e ↦ elim (Bool-cases (is_eintr err)) [
      | inr other ↦ (
        false,
        (S.poll fd w).1,
        rw (e, wait_loop, other) refl,
        O.output-poll fd w,
        P.patience-poll fd w,
      )
      | inl eintr ↦
          let (out, w', run, same, less) =
            wait_loop-Waits fuel (S.poll fd w).1
              (omega (arith, P.patience-poll_failed fd w err e)) in
          (
            out,
            w',
            rw (e, wait_loop, eintr) run,
            same ∙ O.output-poll fd w,
            omega (arith, P.patience-poll fd w),
          )
    ]
  ]

  -- A total says that all bytes are out in order; -1 that the first `k` are.
  abbrev pub Sent : ℕ → Bytes → S.World → Option ℕ → S.World → Type 0
  Sent total rest w (some n) w' =
      (n ≡ total + length rest) × (O.output fd w' ≡ O.output fd w ++ rest)
  Sent total rest w none w' =
      (k : ℕ) × (k ≤ length rest) × (O.output fd w' ≡ O.output fd w ++ take k rest)

  Sent-nothing :
      (total : ℕ) (rest : Bytes) (w w' : S.World)
      → O.output fd w' ≡ O.output fd w
      → Sent total rest w none w'
  Sent-nothing total rest w w' e = (0, omega arith, e ∙ sym (append-nil (O.output fd w)))

  -- The same bytes from a state with the same output.
  Sent-again :
      (total : ℕ) (rest : Bytes) (w v : S.World) (r : Option ℕ) (w' : S.World)
      → O.output fd v ≡ O.output fd w
      → Sent total rest v r w'
      → Sent total rest w r w'
  Sent-again total rest w v (some n) w' e (size, out) =
      (size, out ∙ ap (λ (x : Bytes). x ++ rest) e)
  Sent-again total rest w v none w' e (k, le, out) =
      (k, le, out ∙ ap (λ (x : Bytes). x ++ take k rest) e)

  -- The bytes behind the first `n`, which are out.
  Sent-further :
      (total n : ℕ) (rest : Bytes) (w v : S.World) (r : Option ℕ) (w' : S.World)
      → n ≤ length rest
      → O.output fd v ≡ O.output fd w ++ take n rest
      → Sent (total + n) (drop n rest) v r w'
      → Sent total rest w r w'
  Sent-further total n rest w v (some m) w' le e (size, out) = (
    omega (arith, length-drop n rest),
    out
        ∙ ap (λ (x : Bytes). x ++ drop n rest) e
        ∙ append_assoc (O.output fd w) (take n rest) (drop n rest)
        ∙ ap (λ (x : Bytes). O.output fd w ++ x) (take-append-drop n rest),
  )
  Sent-further total n rest w v none w' le e (k, short, out) = (
    n + k,
    omega (arith, length-drop n rest),
    out
        ∙ ap (λ (x : Bytes). x ++ take k (drop n rest)) e
        ∙ append_assoc (O.output fd w) (take n rest) (take k (drop n rest))
        ∙ ap (λ (x : Bytes). O.output fd w ++ x) (take-take-drop n k rest),
  )

  abbrev Writes : ℕ → Bytes → ℕ → S.World → Type 0
  Writes fuel rest total w =
      (r : Option ℕ) × (w' : S.World) × (write_loop S fuel fd rest total w ≡ some (r, w'))
      × Sent total rest w r w'

  write_loop-Writes :
      (fuel : ℕ) (rest : Bytes) (total : ℕ) (w : S.World)
      → length rest + P.patience w < fuel
      → Writes fuel rest total w
  unfolding write_loop
  write_loop-Writes zero rest total w h = elim h [ ]
  write_loop-Writes (suc fuel) [] total w h =
      (some total, w, refl, (omega arith, sym (append-nil (O.output fd w))))
  write_loop-Writes (suc fuel) (b ∷ rest) total w h =
      elim (Written-cases (S.write fd (b ∷ rest) w).0) [
        | wrote n e ↦ elim (Bool-cases (ltb 0 n)) [
          | inr zero_bytes ↦ (
            none,
            (S.write fd (b ∷ rest) w).1,
            rw (e, write_loop, zero_bytes) refl,
            Sent-nothing total (b ∷ rest) w (S.write fd (b ∷ rest) w).1
                (nothing_out n (b ∷ rest) zero_bytes (O.output-wrote fd (b ∷ rest) w n e)),
          )
          | inl some_bytes ↦
              let (r, w', run, sent) =
                write_loop-Writes fuel (drop n (b ∷ rest)) (total + n) (S.write fd (b ∷ rest) w).1 (
                  omega (
                    arith,
                    length-drop {A = ℕ} n (b ∷ rest),
                    ltb→lt 0 n some_bytes,
                    P.patience-write fd (b ∷ rest) w,
                    O.wrote-le fd (b ∷ rest) w n e,
                  )) in
              (
                r,
                w',
                rw (e, write_loop, some_bytes) run,
                Sent-further total n (b ∷ rest) w (S.write fd (b ∷ rest) w).1 r w'
                    (O.wrote-le fd (b ∷ rest) w n e) (O.output-wrote fd (b ∷ rest) w n e) sent,
              )
        ]
        | unwritten err e ↦
            let calm = P.patience-interrupted fd (b ∷ rest) w err e in
            let same = O.output-failed fd (b ∷ rest) w err e in
            elim (Bool-cases (is_eintr err)) [
              | inl eintr ↦
                  let (r, w', run, sent) =
                    write_loop-Writes fuel (b ∷ rest) total (S.write fd (b ∷ rest) w).1
                      (omega arith) in
                  (
                    r,
                    w',
                    rw (e, write_loop, eintr) run,
                    Sent-again total (b ∷ rest) w (S.write fd (b ∷ rest) w).1 r w' same sent,
                  )
              | inr not_eintr ↦ elim (Bool-cases (is_eagain err)) [
                | inr other ↦ (
                  none,
                  (S.write fd (b ∷ rest) w).1,
                  rw (e, write_loop, not_eintr, other) refl,
                  Sent-nothing total (b ∷ rest) w (S.write fd (b ∷ rest) w).1 same,
                )
                | inl eagain ↦
                    let (out, v, wait, waited, less) =
                      wait_loop-Waits fuel (S.write fd (b ∷ rest) w).1 (omega arith) in
                    elim (Bool-cases out) [
                      | inr full ↦ (
                        none,
                        v,
                        rw (e, write_loop, not_eintr, eagain, wait, full) refl,
                        Sent-nothing total (b ∷ rest) w v (waited ∙ same),
                      )
                      | inl writable ↦
                          let (r, w', run, sent) =
                            write_loop-Writes fuel (b ∷ rest) total v (omega arith) in
                          (
                            r,
                            w',
                            rw (e, write_loop, not_eintr, eagain, wait, writable) run,
                            Sent-again total (b ∷ rest) w v r w' (waited ∙ same) sent,
                          )
                    ]
              ]
            ]
      ]

-- On an open port, `write` returns when the fuel exceeds the number of bytes and of the
-- interruptions that the system still makes. A total as its result means that it is the number of
-- bytes and that the descriptor was given all of them, in order; -1 means that it was given the first
-- `k` of them and nothing else, for some `k`.
pub write-Sent :
    (S : System) (O : IsWriter S) (P : IsPatient S) (fuel : ℕ) (port : Port) (fd : ℕ)
    (buffer : Bytes) (w : S.World)
    → port.fd ≡ some fd
    → length buffer + P.patience w < fuel
    → (r : Option ℕ) × (w' : S.World) × (write S fuel port buffer w ≡ some (r, w'))
      × Sent S O P fd 0 buffer w r w'
unfolding write
write-Sent S O P fuel port fd buffer w e h =
    let (r, w', run, sent) = write_loop-Writes S O P fd fuel buffer 0 w h in
    (r, w', rw (e, write) run, sent)
