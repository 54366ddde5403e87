-- ===== src/Ntrip/Lost.antt =====
-- How ntrip_client_node/src/ntrip_client_node.cpp can miss the first position: `do_streaming` lowers
-- `reconfigure_needed_` behind the building of the header list.
use unicore_ros.Base.{◌≡◌, ◌≢◌, refl, ap, Bool, true, false, [], ◌∷◌, arith, if◌then◌else◌}
use unicore_ros.Base.Text.{Text}
use unicore_ros.Ntrip.Config.{SetResult, is_blank}
use unicore_ros.Ntrip.Client.{
  version_header, header_list, store_gga, request_reconfigure, write_callback, begin_request,
  adopt_pending, set_connection, adopt_gga, build_headers, finish_reconfigure,
}
use unicore_ros.Ntrip.Threads.{
  Stage, Executor, ThreadState, receive_chunk, hear_fix, Step, leave, begin, chunk, end, adopt,
  head, lower, sleep, wake, set, fix, store, tick, stop,
}
use unicore_ros.Ntrip.Header.{Never}

-- The states that come after `s` by steps of the two threads.
pub data Follows (Allowed : SetResult → Type 0) (s : ThreadState) : ThreadState → Type 0 where
  same : Follows Allowed s s
  after : {t u : ThreadState} → Follows Allowed s t → Step Allowed t u → Follows Allowed s u

abbrev pub is_tick : {Allowed : SetResult → Type 0} → {s t : ThreadState} → Step Allowed s t → Bool
is_tick (tick idle) = true
is_tick step = false

-- Those without a call of the refresh timer, and without new parameters.
pub data Unrefreshed (s : ThreadState) : ThreadState → Type 0 where
  none_yet : Unrefreshed s s
  later :
      {t u : ThreadState}
      → Unrefreshed s t
      → (step : Step Never t u) → is_tick step ≡ false
      → Unrefreshed s u

module _ (s : ThreadState) where
  -- `on_fix` between the header list and the clearing of the flag.
  overtaken : Text → ThreadState
  overtaken gga =
      let client = adopt_gga (adopt_pending s.client) in
      record s {
        stage = Stage.requesting;
        executor = Executor.idle;
        client =
            begin_request
              (finish_reconfigure (request_reconfigure (record client { latest_gga = gga })));
      }

module _ {Allowed : SetResult → Type 0} (s : ThreadState) where
  -- From every state with a reconnection asked for behind the end of a request, not asked to leave, and
  -- no position yet, steps of the two threads lead to one in which a request is made, the first position
  -- is known, no reconnection is asked for any more, and the headers do not carry the position.
  pub lost_gga :
      {ok : Bool} (gga : Text)
      → s.stage ≡ Stage.returned ok
      → s.client.reconfigure_needed ≡ true
      → s.client.streaming_exit ≡ false
      → s.executor ≡ Executor.idle
      → s.client.latest_gga ≡ []
      → is_blank gga ≡ false
      → (t : ThreadState) × Follows Allowed s t
        × (t.stage ≡ Stage.requesting)
        × (t.executor ≡ Executor.idle)
        × (t.client.reconfigure_needed ≡ false)
        × (t.client.latest_gga ≡ gga)
        × (t.client.curl.headers ≡ version_header ∷ [])
  unfolding overtaken hear_fix store_gga begin_request finish_reconfigure request_reconfigure
      adopt_gga adopt_pending build_headers set_connection
  lost_gga {ok} gga at up run idle blank some_gga = (
    overtaken s gga,
    after
        (after
          (after (after (after (after same (adopt ok at up)) (head refl)) (fix gga idle some_gga))
            (store (ap (λ (g : Text). if is_blank g then Executor.storing else s.executor) blank)))
          (lower refl))
        (begin refl run),
    refl,
    refl,
    refl,
    refl,
    ap header_list blank,
  )

-- The position is known, but is neither in the headers nor on its way to them.
record IsLost (s : ThreadState) : Type 0 where
  known : is_blank s.client.latest_gga ≡ false
  down : s.client.reconfigure_needed ≡ false
  idle : s.executor ≡ Executor.idle
  not_adopting : s.stage ≢ Stage.adopting
  not_clearing : s.stage ≢ Stage.clearing
  bare : s.client.curl.headers ≡ version_header ∷ []

Step-IsLost :
    {s t : ThreadState} (step : Step Never s t) → is_tick step ≡ false → IsLost s → IsLost t
unfolding receive_chunk write_callback hear_fix store_gga begin_request
Step-IsLost (leave a b) e h = ground arith
Step-IsLost (begin a b) e h = ground arith
Step-IsLost (chunk bytes a) e h = ground arith
Step-IsLost (end ok a) e h = ground arith
Step-IsLost (adopt ok a b) e h = ground arith
Step-IsLost (head a) e h = absurd (h.not_adopting a)
Step-IsLost (lower a) e h = absurd (h.not_clearing a)
Step-IsLost (sleep ok a b) e h = ground arith
Step-IsLost (wake n a) e h = ground arith
Step-IsLost (set ps a b c) e h = absurd c
Step-IsLost (fix gga a b) e h = ground arith
Step-IsLost (store a) e h = ground arith
Step-IsLost (tick a) e h = cc
Step-IsLost (stop a) e h = ground arith

Unrefreshed-IsLost : {s t : ThreadState} → Unrefreshed s t → IsLost s → IsLost t
Unrefreshed-IsLost none_yet h = h
Unrefreshed-IsLost (later r step e) h = Step-IsLost step e (Unrefreshed-IsLost r h)

-- Once a request is made between two callbacks with the position known, no reconnection asked for and
-- headers without the position, then until the refresh timer fires or a parameter is set, however many
-- requests, chunks and fixes come: the position stays known, no reconnection is asked for, and the headers
-- stay without it.
pub Unrefreshed-bare :
    {s t : ThreadState}
    → s.stage ≡ Stage.requesting
    → s.executor ≡ Executor.idle
    → is_blank s.client.latest_gga ≡ false
    → s.client.reconfigure_needed ≡ false
    → s.client.curl.headers ≡ version_header ∷ []
    → Unrefreshed s t
    → (is_blank t.client.latest_gga ≡ false)
      × (t.client.reconfigure_needed ≡ false)
      × (t.client.curl.headers ≡ version_header ∷ [])
Unrefreshed-bare at idle known down bare r =
    let lost = Unrefreshed-IsLost r (record {
      known = known;
      down = down;
      idle = idle;
      not_adopting = λ e. cc;
      not_clearing = λ e. cc;
      bare = bare;
    }) in
    (lost.known, lost.down, lost.bare)
