-- ===== src/Ntrip/Client.antt =====
-- The state of `NTRIPClientNode`, ntrip_client_node/src/ntrip_client_node.cpp, and what each of its
-- callbacks does to it. A callback that gives up a lock in between is split at that point.
use unicore_ros.Base.{
  ℕ, ◌+◌, ◌-◌, ◌%◌, ◌^◌, Bool, true, false, not, List, [], ◌∷◌, ◌++◌, leb, if◌then◌else◌, length,
}
use unicore_ros.Base.Int.{ℤ}
use unicore_ros.Base.Text.{Text, codes, text_eq}
use unicore_ros.Ntrip.Config.{
  Config, connection_url, Parameter, SetResult, successful, is_blank, set_parameters,
}

-- What `curl_easy_setopt` has set of the handle for the next request.
pub record CurlOptions : Type 0 where
  pub url : Text
  pub userpwd : Text
  pub verbose : Bool
  pub maxage_conn : ℤ
  pub headers : List Text

pub record Client : Type 0 where
  pub config : Config
  pub pending : Config
  pub streaming_exit : Bool
  pub desired_count_reached : Bool
  pub reconfigure_needed : Bool
  pub record_count : ℕ
  pub latest_gga : Text
  pub curl : CurlOptions

abbrev pub version_header : Text
version_header = codes "Ntrip-Version: Ntrip/2.0"

abbrev pub gga_header : Text → Text
gga_header gga = codes "Ntrip-GGA: " ++ gga

-- The first part of `apply_curl_options`.
unfoldable pub set_connection : Config → CurlOptions → CurlOptions
unfolding connection_url
set_connection c options = record options {
  url = connection_url c;
  userpwd = c.username ++ (codes ":" ++ c.password);
  verbose = not (text_eq c.log_level (codes "INFO"));
  maxage_conn = c.maxage_conn;
}

-- The second part: the header list, built under `gga_mutex_`.
unfoldable pub header_list : Text → List Text
header_list gga = if is_blank gga then version_header ∷ [] else version_header ∷ gga_header gga ∷ []

unfoldable pub build_headers : Text → CurlOptions → CurlOptions
unfolding header_list
build_headers gga options = record options { headers = header_list gga }

unfoldable pub apply_curl_options : Config → Text → CurlOptions → CurlOptions
unfolding set_connection build_headers
apply_curl_options c gga options = build_headers gga (set_connection c options)

abbrev pub no_options : CurlOptions
no_options = record { url = []; userpwd = []; verbose = false; maxage_conn = ℤ.pos 0; headers = [] }

-- The constructor, with a curl handle.
unfoldable pub start_client : Config → Client
unfolding apply_curl_options
start_client c = record {
  config = c;
  pending = c;
  streaming_exit = false;
  desired_count_reached = false;
  reconfigure_needed = false;
  record_count = 0;
  latest_gga = [];
  curl = apply_curl_options c [] no_options;
}

-- `on_set_parameters_callback` holds `params_mutex_` to its end.
abbrev pub queue_change : SetResult → Client → Client
queue_change successful c = record c { reconfigure_needed = true }
queue_change _ c = c

unfoldable pub on_set_parameters_callback : List Parameter → Client → Client × SetResult
unfolding set_parameters
on_set_parameters_callback parameters c =
    let (pending, result) = set_parameters parameters c.pending in
    (queue_change result (record c { pending = pending }), result)

-- `on_fix` with the text of `format_gga`, under `gga_mutex_`: the new state, and `first_fix`.
unfoldable pub store_gga : Text → Client → Client × Bool
store_gga gga c = (record c { latest_gga = gga }, is_blank c.latest_gga)

-- `reconfigure_needed_.store(true)` behind the lock.
unfoldable pub request_reconfigure : Client → Client
request_reconfigure c = record c { reconfigure_needed = true }

-- `on_fix` when nothing comes between.
unfoldable pub on_fix : Text → Client → Client
unfolding store_gga request_reconfigure
on_fix gga c =
    if is_blank gga
    then c
    else let (stored, first_fix) = store_gga gga c in
      if first_fix then request_reconfigure stored else stored

-- `gga_refresh_timer_`.
unfoldable pub refresh : Client → Client
refresh c = if is_blank c.latest_gga then c else record c { reconfigure_needed = true }

pub record RtcmMessage : Type 0 where
  pub frame_id : Text
  pub message : List ℕ

abbrev pub desired_count : ℕ
desired_count = 10

-- `write_callback`: the state, the message that is published, and the `size_t` that is returned. The
-- private pointer of the handle reads back as `desired_count`.
unfoldable pub write_callback : List ℕ → Client → Client × RtcmMessage × ℕ
write_callback bytes c =
    let message : RtcmMessage = record { frame_id = c.config.mountpoint; message = bytes } in
    if leb desired_count (c.record_count + 1)
    then (
      record c { record_count = 0; desired_count_reached = true },
      message,
      (length bytes + 2 ^ 64 - 1) % 2 ^ 64,
    )
    else (record c { record_count = c.record_count + 1 }, message, length bytes)

-- `desired_count_reached_ = false` before `curl_easy_perform`.
unfoldable pub begin_request : Client → Client
begin_request c = record c { desired_count_reached = false }

-- The assignments under `params_mutex_` and the first part of `apply_curl_options`.
unfoldable pub adopt_pending : Client → Client
unfolding set_connection
adopt_pending c = record c { config = c.pending; curl = set_connection c.pending c.curl }

-- The second part of `apply_curl_options`.
unfoldable pub adopt_gga : Client → Client
unfolding build_headers
adopt_gga c = record c { curl = build_headers c.latest_gga c.curl }

-- `reconfigure_needed_.store(false)`.
unfoldable pub finish_reconfigure : Client → Client
finish_reconfigure c = record c { reconfigure_needed = false }
