-- ===== src/Dispatch.antt =====
-- `UnicoreBinaryDispatcher` of src/unicore_transport.cpp and its header: the table of message ids and
-- the counters of the frames that were dispatched. The counts are `std::size_t`, which wraps.
pub mod Recent
pub mod Kept
use unicore_ros.Base.{
  ℕ, ◌^◌, Bool, true, false, not, Option, none, some, List, [], ◌∷◌, ◌++◌, ltb, ◌==◌, if◌then◌else◌,
  length, drop,
}
use unicore_ros.Base.Text.{Text, codes}
use unicore_ros.Transport.{Frame, increment}

pub record DispatchResult : Type 0 where
  pub known_message : Bool
  pub message_name : Text

pub record DispatchCounters : Type 0 where
  pub dispatched_frames : ℕ
  pub unknown_frames : ℕ
  pub last_message_id : Option ℕ
  pub recent_unknown_message_ids : List ℕ

abbrev pub recent_unknown_ids_limit : ℕ
recent_unknown_ids_limit = 8

abbrev pub default_dispatch_counters : DispatchCounters
default_dispatch_counters = record {
  dispatched_frames = 0;
  unknown_frames = 0;
  last_message_id = none;
  recent_unknown_message_ids = [];
}

abbrev known_message_ids : List (ℕ × Text)
known_message_ids =
    (138, codes "OBSVMCMP")
    ∷ (218, codes "HWSTATUS")
    ∷ (220, codes "AGC")
    ∷ (240, codes "BESTNAVXYZ")
    ∷ (242, codes "BESTNAVXYZH")
    ∷ (509, codes "RTKSTATUS")
    ∷ (511, codes "JAMSTATUS")
    ∷ (519, codes "FREQJAMSTATUS")
    ∷ (954, codes "STADOP")
    ∷ (972, codes "UNIHEADING")
    ∷ (1021, codes "PVTSLN")
    ∷ (1041, codes "BESTSAT")
    ∷ (2116, codes "SPPNAVH")
    ∷ (2117, codes "ADRNAVH")
    ∷ (2118, codes "BESTNAV")
    ∷ (2119, codes "BESTNAVH")
    ∷ (2124, codes "SATSINFO")
    ∷ (2125, codes "RTCMSTATUS")
    ∷ []

-- `find` in the table; a missing id has the empty name.
unfoldable pub find_name : ℕ → List (ℕ × Text) → Text
find_name message_id [] = []
find_name message_id ((id, name) ∷ rest) =
    if id == message_id then name else find_name message_id rest

unfoldable pub known_message_name : ℕ → Text
unfolding find_name
known_message_name message_id = find_name message_id known_message_ids

abbrev pub is_empty_name : Text → Bool
is_empty_name [] = true
is_empty_name (c ∷ rest) = false

-- `std::find(...) != end()`.
unfoldable pub contains : ℕ → List ℕ → Bool
contains id [] = false
contains id (x ∷ xs) = if x == id then true else contains id xs

-- `push_back`, and `erase(begin())` over the limit.
unfoldable pub push_recent : ℕ → List ℕ → List ℕ
push_recent id ids =
    let pushed = ids ++ (id ∷ []) in
    if ltb recent_unknown_ids_limit (length pushed) then drop 1 pushed else pushed

unfoldable pub record_unknown : ℕ → List ℕ → List ℕ
unfolding contains push_recent
record_unknown id ids = if not (contains id ids) then push_recent id ids else ids

unfoldable pub dispatch : Frame → DispatchCounters → DispatchCounters × DispatchResult
unfolding known_message_name record_unknown
dispatch frame c =
    let name = known_message_name frame.message_id in
    let known = not (is_empty_name name) in
    let counted = record c {
      dispatched_frames = increment c.dispatched_frames;
      last_message_id = some frame.message_id;
    } in
    let after =
      if not known
      then record counted {
        unknown_frames = increment c.unknown_frames;
        recent_unknown_message_ids = record_unknown frame.message_id c.recent_unknown_message_ids;
      }
      else counted in
    (after, record { known_message = known; message_name = name })

-- The frames of a stream, one after the other.
unfoldable pub dispatch_all : List Frame → DispatchCounters → DispatchCounters
unfolding dispatch
dispatch_all [] c = c
dispatch_all (frame ∷ frames) c = dispatch_all frames (dispatch frame c).0
