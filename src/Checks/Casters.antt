-- ===== src/Checks/Casters.antt =====
-- The theorems on ntrip_client_node/src/ntrip_client_node.cpp at concrete settings and interleavings.
use unicore_ros.Base.{ℕ, ◌≡◌, refl, true, false, some, List, [], ◌∷◌, arith}
use unicore_ros.Base.Int.{ℤ, pos}
use unicore_ros.Base.Text.{Text, codes, to_string, to_string_int}
use unicore_ros.Ascii.Hex.{hex, hex_digit}
use unicore_ros.Ascii.Checksum.{xor_from}
use unicore_ros.Ntrip.Config.{
  Config, is_blank, connection_url, Parameter, string, integer, rejected, set_parameters,
}
use unicore_ros.Ntrip.Client.{
  on_set_parameters_callback, begin_request, adopt_pending, adopt_gga, finish_reconfigure,
  store_gga, request_reconfigure, set_connection, build_headers, version_header, start_client,
  apply_curl_options,
}
use unicore_ros.Ntrip.Threads.{
  receive_chunk, hear_parameters, hear_fix, Stage, Executor, ThreadState, begin, chunk, end, adopt,
  head, lower, sleep, wake, set, fix, store, start, Reach, here, next,
}
use unicore_ros.Ntrip.Settings.{IsSuccessful, IsSettled, Reach-IsSettled}
use unicore_ros.Ntrip.Valid.{IsValid, IsSound, Reach-IsSound}
use unicore_ros.Ntrip.Header.{Never}
use unicore_ros.Ntrip.Lost.{Follows, Unrefreshed, none_yet, later, lost_gga, Unrefreshed-bare}
use unicore_ros.Ntrip.Gga.{
  Printing, BrokenTime, NavSatFix, gga_body, framed, quality_of, time_text, angle_text, side,
  padded, zeros, minutes_of, format_gga,
}
use unicore_ros.Checks.Sentences.{numbers}

abbrev home : Config
home = record {
  use_https = true;
  host = codes "crtk.net";
  port = pos 443;
  mountpoint = codes "NEAR";
  username = codes "u";
  password = codes "p";
  log_level = codes "INFO";
  maxage_conn = pos 30;
}

connection_url-home : connection_url home ≡ codes "https://crtk.net:443/NEAR"
unfolding connection_url to_string_int
connection_url-home = refl

abbrev new_host : List Parameter
new_host = record { name = codes "host"; value = string (codes "a.org") } ∷ []

abbrev new_port : ℤ → List Parameter
new_port n = record { name = codes "port"; value = integer n } ∷ []

port_zero :
    set_parameters (new_port (pos 0)) home
    ≡ (home, rejected (codes "port must be between 1 and 65535"))
unfolding set_parameters
port_zero = refl

home-IsValid : IsValid home
home-IsValid = record { some_host = λ e. cc; some_mountpoint = λ e. cc; a_port = omega arith }

-- A request during which the host changes, up to its end.
asked : (s : ThreadState) × Reach IsSuccessful home s
unfolding start receive_chunk begin_request on_set_parameters_callback hear_parameters
asked = (
  _,
  next
      (next (next (next here (begin refl refl)) (chunk (1 ∷ 2 ∷ []) refl))
        (set new_host refl refl refl))
      (end true refl),
)

-- The reconnection.
served : (s : ThreadState) × Reach IsSuccessful home s
unfolding start receive_chunk begin_request on_set_parameters_callback hear_parameters adopt_pending
    adopt_gga finish_reconfigure hear_fix store_gga request_reconfigure asked
served = (_, next (next (next asked.1 (adopt true refl refl)) (head refl)) (lower refl))

served_url : served.0.client.curl.url ≡ codes "https://a.org:443/NEAR"
unfolding start receive_chunk begin_request on_set_parameters_callback hear_parameters adopt_pending
    adopt_gga finish_reconfigure hear_fix store_gga request_reconfigure asked served set_connection
    connection_url to_string_int build_headers
served_url = refl

Reach-IsSettled_example : IsSettled served.0
Reach-IsSettled_example = Reach-IsSettled home served.1

Reach-IsSound_example : IsSound served.0.client
Reach-IsSound_example = Reach-IsSound home home-IsValid served.1

-- A first position during the first request.
located : (s : ThreadState) × Reach Never home s
unfolding start receive_chunk begin_request on_set_parameters_callback hear_parameters adopt_pending
    adopt_gga finish_reconfigure hear_fix store_gga request_reconfigure
located = (
  _,
  next
      (next
        (next
          (next
            (next (next (next here (begin refl refl)) (fix (codes "$GP") refl refl)) (store refl))
            (end false refl))
          (adopt false refl refl))
        (head refl))
      (lower refl),
)

lost_gga_example :
    (t : ThreadState) × Follows IsSuccessful asked.0 t
    × (t.stage ≡ Stage.requesting)
    × (t.executor ≡ Executor.idle)
    × (t.client.reconfigure_needed ≡ false)
    × (t.client.latest_gga ≡ codes "$GP")
    × (t.client.curl.headers ≡ version_header ∷ [])
unfolding start receive_chunk begin_request on_set_parameters_callback hear_parameters adopt_pending
    adopt_gga finish_reconfigure hear_fix store_gga request_reconfigure asked
lost_gga_example = lost_gga asked.0 (codes "$GP") refl refl refl refl refl refl

-- A request of a node that knows its position, without a header for it.
abbrev bare_request : ThreadState
unfolding start
bare_request =
    let s = start home in
    record s { stage = Stage.requesting; client = record (s.client) { latest_gga = codes "$GP" } }

-- The request fails, and a further position comes before the next one.
retried : (t : ThreadState) × Unrefreshed bare_request t
unfolding start begin_request hear_fix store_gga start_client apply_curl_options set_connection
    build_headers
retried = (
  _,
  later
      (later
        (later (later (later none_yet (end false refl) refl) (sleep false refl refl) refl)
          (wake _ refl) refl)
        (fix (codes "$GQ") refl refl) refl)
      (begin refl refl) refl,
)

Unrefreshed-bare_example :
    (is_blank retried.0.client.latest_gga ≡ false)
    × (retried.0.client.reconfigure_needed ≡ false)
    × (retried.0.client.curl.headers ≡ version_header ∷ [])
unfolding start begin_request hear_fix store_gga start_client apply_curl_options set_connection
    build_headers retried
Unrefreshed-bare_example = Unrefreshed-bare refl refl refl refl refl retried.1

-- Texts in the place of the conversions of `printf`.
abbrev printing : Printing numbers
printing = record { fabs = λ x. x; truncate = λ x. pos x; fixed = λ w d x. codes "07.0380" }

abbrev here_fix : NavSatFix ℕ
here_fix = record { status = pos 2; latitude = 48; longitude = 11; altitude = 545 }

abbrev noon : BrokenTime
noon = record { tm_hour = 12; tm_min = 5; tm_sec = 9 }

gga_line :
    format_gga numbers printing noon here_fix
    ≡ some (codes "$GPGGA,120509.00,4807.0380,N,01107.0380,E,4,10,1.0,07.0380,M,0.0,M,,*56")
unfolding format_gga gga_body framed quality_of time_text angle_text side padded zeros minutes_of
    to_string hex hex_digit xor_from
gga_line = refl
