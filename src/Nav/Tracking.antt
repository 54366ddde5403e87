-- ===== src/Nav/Tracking.antt =====
-- The fields of the tracking status of OBSVMCMP, src/unicore_binary_nav.cpp.
use unicore_ros.Base.{ℕ, ◌+◌, ◌*◌, ◌/◌, ◌%◌, ◌^◌, ◌≡◌, bit_and, Bool, true, false, not, ◌==◌, arith}
use unicore_ros.Base.Bits.{bit_and-mask, bit_and-one}
use unicore_ros.Nav.Signals.{
  obsvmcmp_system_id, obsvmcmp_signal_type, obsvmcmp_l2c_flag, obsvmcmp_carrier_phase_valid,
  obsvmcmp_pseudorange_valid,
}

-- A flag as a digit.
abbrev pub digit : Bool → ℕ
digit true = 1
digit false = 0

digit-mod : (n : ℕ) → digit (not (n % 2 == 0)) ≡ n % 2
digit-mod n = ground arith

flag-bit : (n : ℕ) → digit (not (bit_and n 1 == 0)) ≡ n % 2
flag-bit n = rw (bit_and-one n) (digit-mod n)

quotients :
    (t : ℕ)
    → t / 65536 % 8
        + 8 * (t / 524288 % 2)
        + 16 * (t / 1048576 % 2)
        + 32 * (t / 2097152 % 32)
        + 1024 * (t / 67108864 % 2)
      ≡ t / 65536 % 2048
quotients t = omega arith

-- The five fields that the parser takes from a tracking status are its bits 16 to 26: no bit of them
-- is read twice, none is left out, and each stands at its place.
pub obsvmcmp_fields :
    (t : ℕ)
    → obsvmcmp_system_id t
        + 8 * digit (obsvmcmp_carrier_phase_valid t)
        + 16 * digit (obsvmcmp_pseudorange_valid t)
        + 32 * obsvmcmp_signal_type t
        + 1024 * digit (obsvmcmp_l2c_flag t)
      ≡ t / 2 ^ 16 % 2 ^ 11
unfolding obsvmcmp_system_id obsvmcmp_carrier_phase_valid obsvmcmp_pseudorange_valid
    obsvmcmp_signal_type obsvmcmp_l2c_flag
obsvmcmp_fields t = omega (
  arith,
  bit_and-mask 3 (t / 65536),
  bit_and-mask 5 (t / 2097152),
  flag-bit (t / 524288),
  flag-bit (t / 1048576),
  flag-bit (t / 67108864),
  quotients t,
)
