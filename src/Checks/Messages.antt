-- ===== src/Checks/Messages.antt =====
-- The theorems on the messages of src/unicore_binary_nav.cpp at concrete payloads.
use unicore_ros.Base.{ℕ, ◌≡◌, refl, none, some, List, [], ◌∷◌, arith}
use unicore_ros.Wire.{Bytes}
use unicore_ros.Payload.Range.{le_value}
use unicore_ros.Nav.Status.{
  parse_agcb, parse_jamstatusb, parse_freqjamstatusb, parse_rtkstatusb, parse_rtcmstatusb,
}
use unicore_ros.Sentence.{BestSatEntry}
use unicore_ros.Nav.BestSat.{parse_bestsatb}
use unicore_ros.Nav.Fields.{field}
use unicore_ros.Nav.Accepts.{from_size, agc_of, jam_of, freq_jam_of, parse_status-fields}
use unicore_ros.Nav.Entries.{bestsat_sentence, AreEntries, parse_bestsatb-AreEntries}
use unicore_ros.Checks.{fit, fit-All}

-- One satellite: Galileo, number 12, used on E1 and E5.
abbrev one_satellite : Bytes
one_satellite = 1 ∷ 0 ∷ 0 ∷ 0 ∷ 5 ∷ 0 ∷ 0 ∷ 0 ∷ 12 ∷ 0 ∷ 0 ∷ 0 ∷ 0 ∷ 0 ∷ 0 ∷ 0 ∷ 3 ∷ 0 ∷ 0 ∷ 0 ∷ []

parse_status-fields_example :
    (parse_agcb ℕ one_satellite ≡ from_size 20 (agc_of ℕ) one_satellite)
    × (parse_jamstatusb ℕ one_satellite ≡ from_size 8 (jam_of ℕ) one_satellite)
    × (parse_freqjamstatusb ℕ one_satellite ≡ from_size 12 (freq_jam_of ℕ) one_satellite)
    × (parse_rtkstatusb ℕ one_satellite ≡ none)
    × (parse_rtcmstatusb ℕ one_satellite ≡ none)
unfolding fit
parse_status-fields_example = parse_status-fields ℕ one_satellite (fit-All one_satellite refl)

parse_bestsatb-AreEntries_example :
    (read : List BestSatEntry) × (parse_bestsatb ℕ one_satellite ≡ some (bestsat_sentence ℕ 1 read))
    × AreEntries one_satellite 1 4 read
unfolding fit field le_value
parse_bestsatb-AreEntries_example =
    parse_bestsatb-AreEntries ℕ one_satellite (fit-All one_satellite refl) (omega arith)
