-- ===== src/Ntrip/Settings.antt =====
-- Parameter changes that the callback accepts reach the requests of `do_streaming`.
use unicore_ros.Base.{◌≡◌, refl, false, not, ◌++◌, arith}
use unicore_ros.Base.Text.{codes, text_eq}
use unicore_ros.Ntrip.Config.{Config, connection_url, SetResult, successful}
use unicore_ros.Ntrip.Client.{
  CurlOptions, on_set_parameters_callback, store_gga, request_reconfigure, refresh, write_callback,
  begin_request, adopt_pending, adopt_gga, finish_reconfigure, set_connection, build_headers,
  apply_curl_options,
}
use unicore_ros.Ntrip.Threads.{
  ThreadState, is_unlocked, receive_chunk, hear_fix, hear_parameters, Step, leave, begin, chunk,
  end, adopt, head, lower, sleep, wake, set, fix, store, tick, stop, start, Reach, here, next,
}

-- The options of a handle that is set up for a request with these settings.
pub record AreOptions (c : Config) (options : CurlOptions) : Type 0 where
  pub url_fits : options.url ≡ connection_url c
  pub userpwd_fits : options.userpwd ≡ c.username ++ (codes ":" ++ c.password)
  pub verbose_fits : options.verbose ≡ not (text_eq c.log_level (codes "INFO"))
  pub maxage_conn_fits : options.maxage_conn ≡ c.maxage_conn

abbrev pub IsSuccessful : SetResult → Type 0
IsSuccessful r = r ≡ successful

-- While the flag is down, and while the streaming thread holds the lock, nothing is pending; and the
-- handle is always set up for the settings in use.
pub record IsSettled (s : ThreadState) : Type 0 where
  pub at_rest : s.client.reconfigure_needed ≡ false → s.client.config ≡ s.client.pending
  pub locked : is_unlocked s.stage ≡ false → s.client.config ≡ s.client.pending
  pub set_up : AreOptions s.client.config s.client.curl

start-IsSettled : (c : Config) → IsSettled (start c)
unfolding start set_connection build_headers apply_curl_options
start-IsSettled c = record {
  at_rest = λ _. refl;
  locked = λ _. refl;
  set_up = record {
    url_fits = refl;
    userpwd_fits = refl;
    verbose_fits = refl;
    maxage_conn_fits = refl;
  };
}

Step-IsSettled : {s t : ThreadState} → Step IsSuccessful s t → IsSettled s → IsSettled t
unfolding receive_chunk write_callback hear_fix store_gga hear_parameters on_set_parameters_callback
    refresh request_reconfigure begin_request adopt_pending set_connection adopt_gga build_headers
    finish_reconfigure
Step-IsSettled (leave a b) h = ground arith
Step-IsSettled (begin a b) h = ground arith
Step-IsSettled (chunk bytes a) h = ground arith
Step-IsSettled (end ok a) h = ground arith
Step-IsSettled (adopt ok a b) h = ground arith
Step-IsSettled (head a) h = ground arith
Step-IsSettled (lower a) h = ground arith
Step-IsSettled (sleep ok a b) h = ground arith
Step-IsSettled (wake n a) h = ground arith
Step-IsSettled (set ps a b c) h = ground arith
Step-IsSettled (fix gga a b) h = ground arith
Step-IsSettled (store a) h = ground arith
Step-IsSettled (tick a) h = ground arith
Step-IsSettled (stop a) h = ground arith

-- In every interleaving of the streaming thread and the executor in which the parameter callbacks
-- succeed: while no reconnection is asked for, and while the streaming thread holds the lock of the
-- parameters, the settings in use are the pending ones; and URL, credentials, verbosity and connection
-- age of the curl handle are always those of the settings in use.
pub Reach-IsSettled : (c : Config) {s : ThreadState} → Reach IsSuccessful c s → IsSettled s
Reach-IsSettled c here = start-IsSettled c
Reach-IsSettled c (next r step) = Step-IsSettled step (Reach-IsSettled c r)
