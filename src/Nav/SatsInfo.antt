-- ===== src/Nav/SatsInfo.antt =====
-- `parse_satsinfob` of src/unicore_binary_nav.cpp: satellites of 4 bytes each, with 4 bytes for every
-- signal.
use unicore_ros.Base.{
  ℕ, zero, suc, ◌+◌, ◌*◌, not, Option, none, some, List, [], ◌∷◌, ltb, ◌==◌, if◌then◌else◌, length,
}
use unicore_ros.Base.Int.{pos}
use unicore_ros.Base.Text.{codes}
use unicore_ros.Base.Maybe.{◌>>=◌}
use unicore_ros.Floats.{Floats}
use unicore_ros.Payload.{Payload, has_range, read_u8, read_i16}
use unicore_ros.Sentence.{ParsedSentence, sentence_of, SatsInfoSignal, SatsInfoEntry}
use unicore_ros.Nav.Names.{satsinfo_constellation_name_from_system_id}
use unicore_ros.Nav.Signals.{signal_band_from_frequency_id}

abbrev pub satsinfo_minimum_payload_size : ℕ
satsinfo_minimum_payload_size = 6

module _ (F : Floats) where
  -- One round of the loop over the frequencies.
  unfoldable pub read_signal : Payload → ℕ → Option (SatsInfoSignal F.D)
  read_signal p offset = do
    system ← read_u8 p offset
    cn0 ← read_u8 p (offset + 1)
    frequency ← read_u8 p (offset + 2)
    repeated ← read_u8 p (offset + 3)
    let name = satsinfo_constellation_name_from_system_id system
    some (record {
      constellation = name;
      band = signal_band_from_frequency_id name (pos frequency);
      system_id = pos system;
      frequency_id = pos frequency;
      cn0_db_hz = F.of_int (pos cn0);
    })

  -- The rounds left, and the offset.
  unfoldable pub signal_loop : Payload → ℕ → ℕ → Option (List (SatsInfoSignal F.D))
  signal_loop p zero offset = some []
  signal_loop p (suc n) offset = do
    next ← read_signal p offset
    later ← signal_loop p n (offset + 4)
    some (next ∷ later)

  -- One round of the loop over the satellites, with the size of its record.
  unfoldable pub read_satellite : Payload → ℕ → Option (SatsInfoEntry F.D × ℕ)
  read_satellite p cursor = if not (has_range p cursor 8) then none else do
    prn ← read_u8 p cursor
    azimuth ← read_i16 p (cursor + 1)
    elevation ← read_u8 p (cursor + 3)
    system ← read_u8 p (cursor + 4)
    cn0 ← read_u8 p (cursor + 5)
    frequency ← read_u8 p (cursor + 6)
    count ← read_u8 p (cursor + 7)
    if count == 0 then none else if not (has_range p cursor (4 + count * 4)) then none else do
      read ← signal_loop p count (cursor + 4)
      some (
        record {
          constellation = satsinfo_constellation_name_from_system_id system;
          prn = pos prn;
          azimuth_deg = azimuth;
          elevation_deg = pos elevation;
          signals = read;
        },
        4 + count * 4,
      )

  -- The rounds left, and `cursor`.
  unfoldable pub satellite_loop : Payload → ℕ → ℕ → Option (List (SatsInfoEntry F.D))
  satellite_loop p zero cursor = some []
  satellite_loop p (suc n) cursor = do
    next ← read_satellite p cursor
    later ← satellite_loop p n (cursor + next.1)
    some (next.0 ∷ later)

  unfoldable pub parse_satsinfob : Payload → Option (ParsedSentence F.D)
  parse_satsinfob p = if ltb (length p) satsinfo_minimum_payload_size then none else do
    count ← read_u8 p 0
    info_version ← read_u8 p 1
    flag ← read_u8 p 5
    read ← satellite_loop p count 6
    some (record (sentence_of F.D (codes "SATSINFOB")) {
      satsinfo = some (record {
        satellite_count = pos count;
        version = pos info_version;
        frequency_flag = pos flag;
        entries = read;
      });
    })
