-- ===== src/Nav/BestSat.antt =====
-- `parse_bestsatb` of src/unicore_binary_nav.cpp: a count and that many entries of 16 bytes.
use unicore_ros.Base.{
  ℕ, zero, suc, ◌+◌, ◌*◌, not, bit_and, Option, none, some, List, [], ◌∷◌, ltb, ◌==◌, if◌then◌else◌,
  length,
}
use unicore_ros.Base.Text.{codes}
use unicore_ros.Base.Maybe.{◌>>=◌}
use unicore_ros.Payload.{Payload, read_u32}
use unicore_ros.Sentence.{ParsedSentence, sentence_of, BestSatEntry}
use unicore_ros.Nav.Names.{
  bestsat_constellation_name_from_system_id, bestsat_satellite_id, bestsat_status_name,
  bestsat_signal_bands,
}
use unicore_ros.Nav.Status.{to_int}

abbrev pub bestsat_entry_size : ℕ
bestsat_entry_size = 16

unfoldable pub best_sat_entry : ℕ → ℕ → ℕ → ℕ → BestSatEntry
best_sat_entry system_id satellite_id status_code mask =
    let constellation = bestsat_constellation_name_from_system_id system_id in
    record {
      constellation = constellation;
      satellite_id = bestsat_satellite_id system_id satellite_id;
      status = bestsat_status_name status_code;
      signal_mask = to_int mask;
      common_view = not (bit_and mask 0x10 == 0);
      used_signal_bands = bestsat_signal_bands constellation mask;
    }

-- One round of the loop.
unfoldable pub read_entry : Payload → ℕ → Option BestSatEntry
unfolding best_sat_entry
read_entry payload cursor = do
  system_id ← read_u32 payload cursor
  satellite_id ← read_u32 payload (cursor + 4)
  status_code ← read_u32 payload (cursor + 8)
  mask ← read_u32 payload (cursor + 12)
  some (best_sat_entry system_id satellite_id status_code mask)

-- The rounds left, and `cursor`.
unfoldable pub entry_loop : Payload → ℕ → ℕ → Option (List BestSatEntry)
entry_loop payload zero cursor = some []
entry_loop payload (suc n) cursor = do
  entry ← read_entry payload cursor
  entries ← entry_loop payload n (cursor + bestsat_entry_size)
  some (entry ∷ entries)

unfoldable pub parse_bestsatb : (D : Type 0) → Payload → Option (ParsedSentence D)
unfolding entry_loop
parse_bestsatb D payload = do
  count ← read_u32 payload 0
  if ltb (length payload) (4 + count * bestsat_entry_size) then none else do
    read ← entry_loop payload count 4
    some (record (sentence_of D (codes "BESTSATB")) {
      bestsat = some (record { entry_count = to_int count; entries = read });
    })
