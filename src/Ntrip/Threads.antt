-- ===== src/Ntrip/Threads.antt =====
-- The two threads of `NTRIPClientNode`, ntrip_client_node/src/ntrip_client_node.cpp: the one of
-- `do_streaming`, and the executor's, which runs one callback at a time. A step is what happens under
-- one lock, or one access of an atomic; the steps of the two come in any order.
use unicore_ros.Base.{ℕ, ◌≡◌, Bool, true, false, List, [], ◌∷◌, ◌++◌, ◌==◌, if◌then◌else◌, length}
use unicore_ros.Base.Text.{Text}
use unicore_ros.Ntrip.Config.{Config, Parameter, SetResult, is_blank}
use unicore_ros.Ntrip.Client.{
  Client, start_client, on_set_parameters_callback, store_gga, request_reconfigure, refresh,
  RtcmMessage, write_callback, begin_request, adopt_pending, adopt_gga, finish_reconfigure,
}

-- Where `do_streaming` stands: at the test of the loop, inside `curl_easy_perform`, behind it with
-- whether it gave CURLE_OK, in a sleep of so many milliseconds, or under `params_mutex_` before and
-- behind the header list.
pub data Stage : Type 0 where
  testing : Stage
  requesting : Stage
  returned : (ok : Bool) → Stage
  sleeping : (milliseconds : ℕ) → Stage
  adopting : Stage
  clearing : Stage
  finished : Stage

-- Between two callbacks, or in `on_fix` before the store of a first fix.
pub data Executor : Type 0 where
  idle storing : Executor

pub record ThreadState : Type 0 where
  pub client : Client
  pub stage : Stage
  pub executor : Executor
  pub published : List RtcmMessage

-- Nobody holds `params_mutex_`.
abbrev pub is_unlocked : Stage → Bool
is_unlocked Stage.adopting = false
is_unlocked Stage.clearing = false
is_unlocked _ = true

-- The sleep of an iteration that does not reconfigure.
unfoldable pub pause : (ok desired_count_reached : Bool) → ℕ
pause ok desired_count_reached = if ok then 0 else if desired_count_reached then 100 else 1000

-- curl goes on only if the callback returned the size of the data.
unfoldable pub receive_chunk : List ℕ → ThreadState → ThreadState
unfolding write_callback
receive_chunk bytes s =
    let (client, message, count) = write_callback bytes s.client in
    record s {
      client = client;
      stage = if count == length bytes then Stage.requesting else Stage.returned false;
      published = s.published ++ (message ∷ []);
    }

unfoldable pub hear_fix : Text → ThreadState → ThreadState
unfolding store_gga
hear_fix gga s =
    let (client, first_fix) = store_gga gga s.client in
    record s { client = client; executor = if first_fix then Executor.storing else s.executor }

unfoldable pub hear_parameters : List Parameter → ThreadState → ThreadState
unfolding on_set_parameters_callback
hear_parameters parameters s = record s {
  client = (on_set_parameters_callback parameters s.client).0;
}

-- `Allowed` says how the parameter callbacks may end.
pub data Step (Allowed : SetResult → Type 0) (s : ThreadState) : ThreadState → Type 0 where
  leave :
      s.stage ≡ Stage.testing
      → s.client.streaming_exit ≡ true
      → Step Allowed s (record s { stage = Stage.finished })
  begin :
      s.stage ≡ Stage.testing
      → s.client.streaming_exit ≡ false
      → Step Allowed s (record s { stage = Stage.requesting; client = begin_request s.client })
  chunk : (bytes : List ℕ) → s.stage ≡ Stage.requesting → Step Allowed s (receive_chunk bytes s)
  end :
      (ok : Bool)
      → s.stage ≡ Stage.requesting
      → Step Allowed s (record s { stage = Stage.returned ok })
  adopt :
      (ok : Bool)
      → s.stage ≡ Stage.returned ok
      → s.client.reconfigure_needed ≡ true
      → Step Allowed s (record s { stage = Stage.adopting; client = adopt_pending s.client })
  head :
      s.stage ≡ Stage.adopting
      → Step Allowed s (record s { stage = Stage.clearing; client = adopt_gga s.client })
  lower :
      s.stage ≡ Stage.clearing
      → Step Allowed s (record s { stage = Stage.testing; client = finish_reconfigure s.client })
  sleep :
      (ok : Bool)
      → s.stage ≡ Stage.returned ok
      → s.client.reconfigure_needed ≡ false
      → Step Allowed s
          (record s { stage = Stage.sleeping (pause ok s.client.desired_count_reached) })
  wake :
      (milliseconds : ℕ)
      → s.stage ≡ Stage.sleeping milliseconds
      → Step Allowed s (record s { stage = Stage.testing })
  set :
      (parameters : List Parameter)
      → s.executor ≡ Executor.idle
      → is_unlocked s.stage ≡ true
      → Allowed (on_set_parameters_callback parameters s.client).1
      → Step Allowed s (hear_parameters parameters s)
  fix :
      (gga : Text)
      → s.executor ≡ Executor.idle
      → is_blank gga ≡ false
      → Step Allowed s (hear_fix gga s)
  store :
      s.executor ≡ Executor.storing
      → Step Allowed s
          (record s { executor = Executor.idle; client = request_reconfigure s.client })
  tick : s.executor ≡ Executor.idle → Step Allowed s (record s { client = refresh s.client })
  stop :
      s.executor ≡ Executor.idle
      → Step Allowed s (record s { client = record (s.client) { streaming_exit = true } })

-- The node as it is constructed.
unfoldable pub start : Config → ThreadState
unfolding start_client
start c = record {
  client = start_client c;
  stage = Stage.testing;
  executor = Executor.idle;
  published = [];
}

pub data Reach (Allowed : SetResult → Type 0) (c : Config) : ThreadState → Type 0 where
  here : Reach Allowed c (start c)
  next : {s t : ThreadState} → Reach Allowed c s → Step Allowed s t → Reach Allowed c t
