-- ===== src/Ntrip/Header.antt =====
-- The position that ntrip_client_node/src/ntrip_client_node.cpp sends with its requests.
use unicore_ros.Base.{◌≡◌, ◌⊎◌, true, false, List}
use unicore_ros.Base.Text.{Text}
use unicore_ros.Ntrip.Config.{Config, SetResult, is_blank}
use unicore_ros.Ntrip.Client.{header_list}
use unicore_ros.Ntrip.Threads.{Stage, Executor, ThreadState}

-- The parameters are never set.
abbrev pub Never : SetResult → Type 0
Never r = ⊥

abbrev pub HasGga : List Text → Type 0
HasGga headers = (gga : Text) × (is_blank gga ≡ false) × (headers ≡ header_list gga)

-- A request for a reconnection, and a reconnection, need a position; and where there is one, its
-- header is there or is on its way.
record IsOnItsWay (s : ThreadState) : Type 0 where
  flag_up : s.client.reconfigure_needed ≡ true → is_blank s.client.latest_gga ≡ false
  on_adopting : s.stage ≡ Stage.adopting → is_blank s.client.latest_gga ≡ false
  on_clearing : s.stage ≡ Stage.clearing → HasGga s.client.curl.headers
  on_storing : s.executor ≡ Executor.storing → is_blank s.client.latest_gga ≡ false
  on_its_way :
      is_blank s.client.latest_gga ≡ false
      → (s.client.reconfigure_needed ≡ true)
        ⊎ ((s.executor ≡ Executor.storing) ⊎ HasGga s.client.curl.headers)
