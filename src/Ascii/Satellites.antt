-- ===== src/Ascii/Satellites.antt =====
-- BESTSATA and SATSINFOA of src/unicore_parser.cpp: a count and that many entries, those of SATSINFOA
-- of varying length.
use unicore_ros.Base.{
  ℕ, zero, suc, ◌+◌, ◌-◌, ◌*◌, bit_and, Bool, true, false, not, Option, none, some, List, [], ◌∷◌,
  ltb, leb, ◌==◌, if◌then◌else◌, length,
}
use unicore_ros.Base.Int.{ℤ, pos, negsuc, pos_part}
use unicore_ros.Base.Text.{Text, codes}
use unicore_ros.Base.Maybe.{◌>>=◌}
use unicore_ros.Floats.{Floats}
use unicore_ros.Sentence.{ParsedSentence, sentence_of, BestSatEntry, SatsInfoSignal, SatsInfoEntry}
use unicore_ros.Ascii.Numbers.{parse_int, parse_uint32}
use unicore_ros.Ascii.Fields.{at, field_after_semicolon, normalize_constellation_name}
use unicore_ros.Ascii.Names.{
  constellation_name_from_system_id, bestsat_signal_bands, signal_band_from_frequency_id,
}
use unicore_ros.Nav.Names.{positive}
use unicore_ros.Nav.Status.{to_int}

abbrev is_negative : ℤ → Bool
is_negative (pos n) = false
is_negative (negsuc n) = true

-- One round of the loop of `parse_bestsata`.
unfoldable pub bestsata_entry : List Text → ℕ → Option BestSatEntry
bestsata_entry fields cursor = do
  mask ← parse_uint32 (at fields (cursor + 3)) 16
  let name = normalize_constellation_name (at fields cursor)
  some (record {
    constellation = name;
    satellite_id = at fields (cursor + 1);
    status = at fields (cursor + 2);
    signal_mask = to_int mask;
    common_view = not (bit_and mask 0x10 == 0);
    used_signal_bands = bestsat_signal_bands name mask;
  })

unfoldable pub bestsata_loop : List Text → ℕ → ℕ → Option (List BestSatEntry)
bestsata_loop fields zero cursor = some []
bestsata_loop fields (suc n) cursor = do
  entry ← bestsata_entry fields cursor
  entries ← bestsata_loop fields n (cursor + 4)
  some (entry ∷ entries)

unfoldable pub parse_bestsata : (D : Type 0) → List Text → Option (ParsedSentence D)
parse_bestsata D fields = if leb (length fields) 9 then none else do
  count ← parse_int (field_after_semicolon (at fields 9))
  if is_negative count
      then none
      else if ltb (length fields) (10 + pos_part count * 4)
      then none
      else do
        read ← bestsata_loop fields (pos_part count) 10
        some (record (sentence_of D (codes "BESTSATA")) {
          bestsat = some (record { entry_count = count; entries = read });
        })

module _ (F : Floats) where
  unfoldable pub satsinfo_signal : ℤ → ℤ → ℤ → SatsInfoSignal F.D
  satsinfo_signal system cn0 frequency =
      let name = constellation_name_from_system_id system in
      record {
        constellation = name;
        band = signal_band_from_frequency_id name frequency;
        system_id = system;
        frequency_id = frequency;
        cn0_db_hz = F.of_int cn0;
      }

  -- The loop over the further frequencies of a satellite: the rounds left and `cursor`; the signals
  -- and the cursor after them.
  unfoldable pub extra_loop : List Text → ℕ → ℕ → Option (List (SatsInfoSignal F.D) × ℕ)
  extra_loop fields zero cursor = some ([], cursor)
  extra_loop fields (suc n) cursor = if leb (length fields) (cursor + 3) then none else do
    system ← parse_int (at fields cursor)
    cn0 ← parse_int (at fields (cursor + 1))
    frequency ← parse_int (at fields (cursor + 2))
    repeated ← parse_int (at fields (cursor + 3))
    later ← extra_loop fields n (cursor + 4)
    some (satsinfo_signal system cn0 frequency ∷ later.0, later.1)

  -- One round of the loop over the satellites.
  unfoldable pub satellite : List Text → ℕ → Option (SatsInfoEntry F.D × ℕ)
  satellite fields cursor = if leb (length fields) (cursor + 6) then none else do
    prn ← parse_int (at fields cursor)
    azimuth ← parse_int (at fields (cursor + 1))
    elevation ← parse_int (at fields (cursor + 2))
    system ← parse_int (at fields (cursor + 3))
    cn0 ← parse_int (at fields (cursor + 4))
    frequency ← parse_int (at fields (cursor + 5))
    count ← parse_int (at fields (cursor + 6))
    if not (positive count) then none else do
      extra ← extra_loop fields (pos_part count - 1) (cursor + 7)
      some (
        record {
          constellation = constellation_name_from_system_id system;
          prn = prn;
          azimuth_deg = azimuth;
          elevation_deg = elevation;
          signals = satsinfo_signal system cn0 frequency ∷ extra.0;
        },
        extra.1,
      )

  unfoldable pub satellite_loop : List Text → ℕ → ℕ → Option (List (SatsInfoEntry F.D))
  satellite_loop fields zero cursor = some []
  satellite_loop fields (suc n) cursor = do
    next ← satellite fields cursor
    entries ← satellite_loop fields n next.1
    some (next.0 ∷ entries)

  unfoldable pub parse_satsinfoa : List Text → Option (ParsedSentence F.D)
  parse_satsinfoa fields = if leb (length fields) 14 then none else do
    count ← parse_int (field_after_semicolon (at fields 9))
    version ← parse_int (at fields 10)
    flag ← parse_int (at fields 14)
    if is_negative count then none else do
      read ← satellite_loop fields (pos_part count) 15
      some (record (sentence_of F.D (codes "SATSINFOA")) {
        satsinfo = some (record {
          satellite_count = count;
          version = version;
          frequency_flag = flag;
          entries = read;
        });
      })
