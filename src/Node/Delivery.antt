-- ===== src/Node/Delivery.antt =====
-- An RTCM message that src/unicore_node.cpp receives reaches the port whole, or the port is closed.
use unicore_ros.Base.{
  ℕ, ◌+◌, ◌%◌, ◌^◌, [], ltb, drop, if◌then◌else◌, ◌≤◌, ◌<◌, ◌≡◌, refl, ap, ◌∙◌, true, Option, none,
  some, ◌∷◌, ◌++◌, arith, length, take,
}
use unicore_ros.Wire.{Bytes}
use unicore_ros.Floats.{Floats}
use unicore_ros.Serial.System.{System, IsWriter, IsPatient}
use unicore_ros.Serial.Port.{is_open, close_fd, close, write}
use unicore_ros.Serial.Write.{Sent, write-Sent}
use unicore_ros.Node.Open.{is_open-some, ensure-open}
use unicore_ros.Node.Rtcm.{Link, count_rtcm, push_history, written_link, send_rtcm, handle_rtcm}

module _ (F : Floats) (S : System) (O : IsWriter S) (P : IsPatient S) (interval : F.D) where
  -- Either all bytes are out in order, the message and its bytes are counted modulo 2^64 and the
  -- history ends with the time, without its first entry if it then has more than 1024; or a prefix is
  -- out and the port closed.
  pub data IsDelivery (fd now : ℕ) (message : Bytes) (link : Link) (w : S.World)
      (final : Link × S.World) : Type 0 where
    whole :
        O.output fd final.1 ≡ O.output fd w ++ message
        → final.0 ≡ record link {
          rtcm_message_count = (link.rtcm_message_count + 1) % 2 ^ 64;
          rtcm_byte_count = (link.rtcm_byte_count + length message) % 2 ^ 64;
          rtcm_history =
              if ltb 1024 (length (link.rtcm_history ++ (now ∷ [])))
              then drop 1 (link.rtcm_history ++ (now ∷ []))
              else link.rtcm_history ++ (now ∷ []);
        }
        → IsDelivery fd now message link w final
    broken :
        (k : ℕ) (w' : S.World)
        → k ≤ length message
        → O.output fd w' ≡ O.output fd w ++ take k message
        → final.1 ≡ S.close fd w'
        → final.0 ≡ record link { serial = record link.serial { fd = none } }
        → IsDelivery fd now message link w final

  written-IsDelivery :
      (fd now : ℕ) (message : Bytes) (link : Link) (w : S.World) (r : Option ℕ) (w' : S.World)
      → link.serial.fd ≡ some fd
      → Sent S O P fd 0 message w r w'
      → IsDelivery fd now message link w (written_link F S interval now link (r, w'))
  unfolding written_link close close_fd count_rtcm push_history
  written-IsDelivery fd now message link w (some n) w' e (size, out) =
      whole out (ap (λ (m : ℕ). count_rtcm m now link) (size ∙ omega arith))
  written-IsDelivery fd now message link w none w' e (k, le, out) =
      broken k w' le out (ap (λ (f : Option ℕ). close_fd S f w') e) refl

  send_rtcm-written :
      (fuel now : ℕ) (b : ℕ) (message : Bytes) (link : Link) (w : S.World)
      (result : Option ℕ × S.World)
      → is_open link.serial ≡ true
      → write S fuel link.serial (b ∷ message) w ≡ some result
      → send_rtcm F S interval fuel now (b ∷ message) (link, w)
        ≡ some (written_link F S interval now link result)
  unfolding send_rtcm
  send_rtcm-written fuel now b message link w result e run = rw (send_rtcm, e, run) refl

  -- A message that arrives while the port is open is handled to the end, given fuel for its bytes
  -- and for the interruptions that the system still makes. Either all of its bytes are given to the
  -- descriptor in order, the counters grow by one message and its bytes modulo 2^64, and the history by
  -- the time, without its first entry if it then has more than 1024; or the first `k` bytes are, for some
  -- `k`, the port is closed, and nothing is counted.
  pub handle_rtcm-IsDelivery :
      (fuel opening now : ℕ) (b : ℕ) (message : Bytes) (link : Link) (fd : ℕ) (w : S.World)
      → link.serial.fd ≡ some fd
      → length (b ∷ message) + P.patience w < fuel
      → (final : Link × S.World) × (handle_rtcm F S interval fuel opening now (b ∷ message) link w
          ≡ some final)
        × IsDelivery fd now (b ∷ message) link w final
  unfolding handle_rtcm
  handle_rtcm-IsDelivery fuel opening now b message link fd w e h =
      let (r, w', run, sent) = write-Sent S O P fuel link.serial fd (b ∷ message) w e h in
      (
        written_link F S interval now link (r, w'),
        ap (send_rtcm F S interval fuel now (b ∷ message))
              (ensure-open F S interval opening link w (is_open-some link.serial fd e))
            ∙ send_rtcm-written fuel now b message link w (r, w') (is_open-some link.serial fd e)
                run,
        written-IsDelivery fd now (b ∷ message) link w r w' e sent,
      )
