-- ===== src/Checks/Parts.antt =====
-- The theorems on the CRC, the search, the payload reads and the dispatcher of
-- src/unicore_transport.cpp and src/unicore_binary_nav.cpp at concrete inputs.
use unicore_ros.Base.{ℕ, ◌≡◌, refl, true, [], ◌∷◌, arith, ◌/◌, ◌%◌, ◌^◌}
use unicore_ros.Wire.{Bytes}
use unicore_ros.Transport.{Frame}
use unicore_ros.Payload.{read_u8, read_u16, read_u32, read_bits64, read_bits_le}
use unicore_ros.Payload.Range.{read_le, le_value, read-read_le}
use unicore_ros.Payload.BitField.{read_bits_le-value}
use unicore_ros.Dispatch.{
  contains, default_dispatch_counters, dispatch_all, known_message_name, find_name,
}
use unicore_ros.Dispatch.Recent.{IsRecent, Distinct, unknown_count, dispatch_all-IsRecent}
use unicore_ros.Dispatch.Kept.{dispatch_all-kept}
use unicore_ros.Checks.{example_frame, fit, fit-All}

abbrev example_payload : Bytes
example_payload = 7 ∷ 200 ∷ 36 ∷ 255 ∷ 1 ∷ []

read-read_le_example :
    (read_u8 example_payload 1 ≡ read_le 1 example_payload 1)
    × (read_u16 example_payload 1 ≡ read_le 2 example_payload 1)
    × (read_u32 example_payload 1 ≡ read_le 4 example_payload 1)
    × (read_bits64 example_payload 1 ≡ read_le 8 example_payload 1)
unfolding fit
read-read_le_example = read-read_le example_payload 1 (fit-All example_payload refl)

read_bits_le-value_example :
    read_bits_le example_payload 3 11 ≡ le_value example_payload / 2 ^ 3 % 2 ^ 11
unfolding fit
read_bits_le-value_example =
    read_bits_le-value example_payload 3 11 (fit-All example_payload refl) (omega arith)

abbrev unknown_frame : ℕ → Frame
unknown_frame id = record example_frame { message_id = id }

dispatch_all-IsRecent_example :
    IsRecent
      (dispatch_all
        (example_frame ∷ unknown_frame 1 ∷ [])
        default_dispatch_counters).recent_unknown_message_ids
    × ((dispatch_all
          (example_frame ∷ unknown_frame 1 ∷ [])
          default_dispatch_counters).dispatched_frames
        ≡ 2)
    × ((dispatch_all
          (example_frame ∷ unknown_frame 1 ∷ [])
          default_dispatch_counters).unknown_frames
        ≡ 1)
unfolding unknown_count known_message_name find_name
dispatch_all-IsRecent_example = dispatch_all-IsRecent (example_frame ∷ unknown_frame 1 ∷ [])

nothing-IsRecent : IsRecent []
unfolding Distinct
nothing-IsRecent = record { limited = omega arith; distinct = tt; unknown = tt }

dispatch_all-kept_example :
    contains 3
      (dispatch_all
        (unknown_frame 3 ∷ unknown_frame 4 ∷ example_frame ∷ [])
        default_dispatch_counters).recent_unknown_message_ids
    ≡ true
unfolding contains known_message_name find_name
dispatch_all-kept_example =
    dispatch_all-kept (unknown_frame 3) (unknown_frame 4 ∷ example_frame ∷ [])
      default_dispatch_counters nothing-IsRecent refl refl (omega arith)
