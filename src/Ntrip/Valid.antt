-- ===== src/Ntrip/Valid.antt =====
-- What the parameter callback of ntrip_client_node/src/ntrip_client_node.cpp lets through.
use unicore_ros.Base.{ℕ, ◌≤◌, ◌<◌, ◌≢◌, List, [], ◌∷◌, arith}
use unicore_ros.Base.Int.{ℤ, pos, negsuc}
use unicore_ros.Ntrip.Config.{
  Config, Parameter, ParameterValue, string, SetResult, Assigned, kept, ended, Setting, setting_of,
  assign, set_parameter, set_parameters,
}
use unicore_ros.Ntrip.Client.{
  Client, start_client, queue_change, on_set_parameters_callback, store_gga, request_reconfigure,
  refresh, write_callback, begin_request, adopt_pending, adopt_gga, finish_reconfigure,
  desired_count,
}
use unicore_ros.Ntrip.Threads.{
  ThreadState, receive_chunk, hear_fix, hear_parameters, Step, leave, begin, chunk, end, adopt,
  head, lower, sleep, wake, set, fix, store, tick, stop, start, Reach, here, next,
}

abbrev pub IsPort : ℤ → Type 0
IsPort (pos n) = (1 ≤ n) × (n ≤ 65535)
IsPort (negsuc n) = ⊥

-- A request can be made with these settings.
pub record IsValid (c : Config) : Type 0 where
  pub some_host : c.host ≢ []
  pub some_mountpoint : c.mountpoint ≢ []
  pub a_port : IsPort c.port

abbrev Keeps : Assigned → Type 0
Keeps (kept c) = IsValid c
Keeps (ended r) = Unit {0}

assign-IsValid : (f : Setting) (v : ParameterValue) (c : Config) → IsValid c → Keeps (assign f v c)
unfolding assign
assign-IsValid Setting.host (string []) c h = tt
assign-IsValid Setting.host (string (x ∷ t)) c h = record {
  some_host = λ e. cc;
  some_mountpoint = h.some_mountpoint;
  a_port = h.a_port;
}
assign-IsValid Setting.mountpoint (string []) c h = tt
assign-IsValid Setting.mountpoint (string (x ∷ t)) c h = record {
  some_host = h.some_host;
  some_mountpoint = λ e. cc;
  a_port = h.a_port;
}
assign-IsValid f v c h = ground arith

set_parameter-IsValid : (p : Parameter) (c : Config) → IsValid c → Keeps (set_parameter p c)
unfolding set_parameter
set_parameter-IsValid p c h = assign-IsValid (setting_of p.name) p.value c h

set_parameters-IsValid :
    (parameters : List Parameter) (c : Config) → IsValid c → IsValid (set_parameters parameters c).0
unfolding set_parameters
set_parameters-IsValid [] c v = v
set_parameters-IsValid (p ∷ parameters) c v =
    after (set_parameter p c) (set_parameter-IsValid p c v) (set_parameters-IsValid parameters)
  where
    after :
        (a : Assigned)
        → Keeps a
        → ((d : Config) → IsValid d → IsValid (set_parameters parameters d).0)
        → IsValid
            (elim a as (λ _. Config × SetResult) [
              | kept d ↦ set_parameters parameters d
              | ended result ↦ (c, result)
            ]).0
    after (kept d) h rest = rest d h
    after (ended result) h rest = v

-- The settings in use and the pending ones can be used, and the count of chunks stays below 10.
pub record IsSound (c : Client) : Type 0 where
  pub config_valid : IsValid c.config
  pub pending_valid : IsValid c.pending
  pub counted : c.record_count < desired_count

queue_change-IsSound : (r : SetResult) (c : Client) → IsSound c → IsSound (queue_change r c)
queue_change-IsSound r c h = ground arith

write_callback-IsSound :
    (bytes : List ℕ) (c : Client) → IsSound c → IsSound (write_callback bytes c).0
unfolding write_callback
write_callback-IsSound bytes c h = ground arith

Step-IsSound :
    {Allowed : SetResult → Type 0} {s t : ThreadState}
    → Step Allowed s t
    → IsSound s.client
    → IsSound t.client
unfolding receive_chunk hear_fix store_gga hear_parameters on_set_parameters_callback refresh
    request_reconfigure begin_request adopt_pending adopt_gga finish_reconfigure
Step-IsSound {s} (chunk bytes a) h = write_callback-IsSound bytes s.client h
Step-IsSound {s} (set ps a b allowed) h = queue_change-IsSound _ _ (record {
  config_valid = h.config_valid;
  pending_valid = set_parameters-IsValid ps s.client.pending h.pending_valid;
  counted = h.counted;
})
Step-IsSound (leave a b) h = h
Step-IsSound (begin a b) h = ground arith
Step-IsSound (end ok a) h = h
Step-IsSound (adopt ok a b) h = ground arith
Step-IsSound (head a) h = ground arith
Step-IsSound (lower a) h = ground arith
Step-IsSound (sleep ok a b) h = h
Step-IsSound (wake n a) h = h
Step-IsSound (fix gga a b) h = ground arith
Step-IsSound (store a) h = ground arith
Step-IsSound (tick a) h = ground arith
Step-IsSound (stop a) h = ground arith

-- In every interleaving, whatever the parameter callbacks are given: if the node starts with a host, a
-- mountpoint and a port from 1 to 65535, the settings in use and the pending ones keep them, and the
-- count of chunks stays below 10.
pub Reach-IsSound :
    {Allowed : SetResult → Type 0} (c : Config) {s : ThreadState}
    → IsValid c
    → Reach Allowed c s
    → IsSound s.client
unfolding start start_client
Reach-IsSound c v here = record { config_valid = v; pending_valid = v; counted = omega arith }
Reach-IsSound c v (next r step) = Step-IsSound step (Reach-IsSound c v r)
