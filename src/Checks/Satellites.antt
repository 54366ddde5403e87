-- ===== src/Checks/Satellites.antt =====
-- The theorem on SATSINFO of src/unicore_binary_nav.cpp at a payload with one Galileo satellite.
use unicore_ros.Base.{ℕ, ◌≡◌, refl, some, [], ◌∷◌, All, length}
use unicore_ros.Base.Int.{pos}
use unicore_ros.Base.Text.{codes}
use unicore_ros.Sentence.{ParsedSentence, SatsInfoData, sentence_of}
use unicore_ros.Payload.{Payload, has_range, read_u8, read_i16}
use unicore_ros.Nav.Names.{satsinfo_constellation_name_from_system_id, switch}
use unicore_ros.Nav.Signals.{signal_band_from_frequency_id}
use unicore_ros.Nav.SatsInfo.{
  read_signal, signal_loop, read_satellite, satellite_loop, parse_satsinfob,
}
use unicore_ros.Nav.Counted.{HasSignal, parse_satsinfob-HasSignal}
use unicore_ros.Checks.Sentences.{numbers}

abbrev one_seen : Payload
one_seen = 1 ∷ 1 ∷ 0 ∷ 0 ∷ 0 ∷ 0 ∷ 12 ∷ 90 ∷ 0 ∷ 45 ∷ 3 ∷ 40 ∷ 1 ∷ 1 ∷ []

abbrev seen : ParsedSentence ℕ
seen = record (sentence_of ℕ (codes "SATSINFOB")) {
  satsinfo = some (record {
    satellite_count = pos 1;
    version = pos 1;
    frequency_flag = pos 0;
    entries =
        record {
          constellation = codes "GAL";
          prn = pos 12;
          azimuth_deg = pos 90;
          elevation_deg = pos 45;
          signals =
              record {
                constellation = codes "GAL";
                band = codes "E1";
                system_id = pos 3;
                frequency_id = pos 1;
                cn0_db_hz = 40;
              }
              ∷ [];
        }
        ∷ [];
  });
}

parse_satsinfob-HasSignal_example :
    (count : ℕ) × (info : SatsInfoData ℕ) × (read_u8 one_seen 0 ≡ some count)
    × (seen.satsinfo ≡ some info)
    × (info.satellite_count ≡ pos count)
    × (length info.entries ≡ count)
    × All (HasSignal numbers) info.entries
unfolding parse_satsinfob satellite_loop read_satellite signal_loop read_signal has_range read_u8
    read_i16 satsinfo_constellation_name_from_system_id switch signal_band_from_frequency_id
parse_satsinfob-HasSignal_example = parse_satsinfob-HasSignal numbers one_seen seen refl
