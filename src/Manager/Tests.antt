-- ===== src/Manager/Tests.antt =====
-- A manager with controllers of several ids, and UWB controllers, which all have one id.
use near_object_framework.Common.{
  ◌≡◌, refl, true, false, ◌+◌, ℕ, List, [], ◌∷◌, ◌++◌, none, some, map,
}
use near_object_framework.Controller.{
  NearObjectDeviceController, make_controller, make_uwb_controller,
}
use near_object_framework.DiscoveryAgent.{Agent, AgentImpl, ready, arrived, departed}
use near_object_framework.DiscoveryAgent.Transitions.{Call, starts, stops, calls}
use near_object_framework.Manager.{
  NearObjectDeviceControllerManager, add_device, remove_device, on_device_presence_changed,
  get_all_devices, add_discovery_agent,
}
use near_object_framework.Manager.Devices.{Presence, present, count_id, tally, count_id-present}
use near_object_framework.Manager.Agents.{World, report, brings, reports_reach_manager}
use near_object_framework.Manager.Race.{add_discovery_agent_while, probe_races}

two : NearObjectDeviceControllerManager
unfolding make_uwb_controller make_controller
two = record {
  m_near_object_devices = make_uwb_controller 5 ∷ make_uwb_controller 6 ∷ [];
  m_discovery_agents = 9 ∷ [];
}

events : List Presence
unfolding make_uwb_controller make_controller
events =
    (arrived, make_uwb_controller 7)
    ∷ (departed, make_controller 8 3)
    ∷ (departed, make_uwb_controller 7)
    ∷ []

events_run : get_all_devices (present 9 events two) ≡ 6 ∷ 7 ∷ []
unfolding present on_device_presence_changed add_device remove_device get_all_devices two events
    make_uwb_controller make_controller
events_run = refl

count_id-present_example :
    count_id 0x1234 (present 9 events two).m_near_object_devices
    ≡ tally 0x1234 events (count_id 0x1234 two.m_near_object_devices)
count_id-present_example = count_id-present 9 0x1234 events two

two_uwb : two.m_near_object_devices ≡ map make_uwb_controller (5 ∷ 6 ∷ [])
unfolding make_uwb_controller make_controller two
two_uwb = refl

-- A derived class that finds one device whenever it is probed, and counts its starts.
finder : AgentImpl ℕ
unfolding make_uwb_controller make_controller
finder = record {
  start_impl = λ n. n + 1;
  stop_impl = λ n. n;
  probe_async_impl = λ n. (n, ready (make_uwb_controller 4 ∷ []));
}

abbrev running : Agent ℕ World
running = record {
  address = 10;
  m_started = true;
  m_on_device_presence_changed = none;
  derived = 0;
}

running-brings : brings finder running ≡ make_uwb_controller 4 ∷ []
unfolding make_uwb_controller make_controller finder
running-brings = refl

abbrev restarts : List Call
restarts = stops false ∷ starts false ∷ []

abbrev restarted : Agent ℕ World
restarted = calls finder restarts (add_discovery_agent finder false running two).1

reports_run :
    (report events restarted (some two) ≡ some (present 10 events two))
    × (report events restarted none ≡ none)
reports_run = reports_reach_manager finder false running two restarts events two

abbrev found_device : NearObjectDeviceController
found_device = make_uwb_controller 4

finder_finds : (finder.probe_async_impl running.derived).1 ≡ ready (found_device ∷ [])
unfolding finder make_uwb_controller make_controller
finder_finds = refl

abbrev empty_manager : NearObjectDeviceControllerManager
empty_manager = record { m_near_object_devices = []; m_discovery_agents = [] }

probe_races_example :
    ((add_discovery_agent_while finder false
        ((arrived, found_device) ∷ [])
        running
        empty_manager).0.m_near_object_devices
      ≡ [] ++ ((found_device ∷ []) ++ (found_device ∷ [])))
    × ((add_discovery_agent_while finder false
          ((departed, found_device) ∷ [])
          running
          empty_manager).0.m_near_object_devices
        ≡ [] ++ found_device ∷ [])
probe_races_example =
    probe_races finder false running empty_manager (found_device ∷ []) found_device refl
      finder_finds tt
