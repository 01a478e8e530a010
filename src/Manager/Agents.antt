-- ===== src/Manager/Agents.antt =====
-- A discovery agent that has been added to a manager: what the manager has then, and where the
-- agent's events go.
use near_object_framework.Common.{
  ℕ, ◌≡◌, refl, Bool, true, false, not, ◌||◌, List, [], ◌∷◌, ◌++◌, Option, none, some, arith,
  if◌then◌else◌, ap, ◌∙◌, append_assoc, append-nil, sym,
}
use near_object_framework.Controller.{NearObjectDeviceController}
use near_object_framework.DiscoveryAgent
use near_object_framework.DiscoveryAgent.{
  Agent, AgentImpl, Callback, NearObjectDevicePresence, Probe, ready, timed_out,
  device_presence_changed, is_started,
}
use near_object_framework.DiscoveryAgent.Transitions.{Call, starts, stops, call, calls}
use near_object_framework.Manager.{
  NearObjectDeviceControllerManager, add_devices, add_probed, weak_callback, add_discovery_agent,
  engage,
}
use near_object_framework.Manager.Devices.{Presence, present, devices-add_device}

abbrev pub World : Type 0
World = Option NearObjectDeviceControllerManager

-- The devices that a probe finds in time.
abbrev pub found : Probe → List NearObjectDeviceController
found (ready devices) = devices
found timed_out = []

pub devices-add_devices :
    (ds : List NearObjectDeviceController) (m : NearObjectDeviceControllerManager)
    → add_devices ds m ≡ record m { m_near_object_devices = m.m_near_object_devices ++ ds }
unfolding add_devices
devices-add_devices [] m =
    ap (λ l. record m { m_near_object_devices = l }) (sym (append-nil m.m_near_object_devices))
devices-add_devices (d ∷ ds) m = rw (devices-add_device d m) (
    devices-add_devices ds (record m { m_near_object_devices = m.m_near_object_devices ++ d ∷ [] })
    ∙ ap (λ l. record m { m_near_object_devices = l })
        (append_assoc m.m_near_object_devices (d ∷ []) ds))

add_probed-found :
    (p : Probe) (m : NearObjectDeviceControllerManager)
    → add_probed (some p) m
      ≡ record m { m_near_object_devices = m.m_near_object_devices ++ found p }
unfolding add_probed
add_probed-found timed_out m =
    ap (λ l. record m { m_near_object_devices = l }) (sym (append-nil m.m_near_object_devices))
add_probed-found (ready ds) m = devices-add_devices ds m

module _ {S : Type 0} where
  -- The devices that adding an agent brings: those of its probe, if it was started already.
  abbrev pub brings : AgentImpl S → Agent S World → List NearObjectDeviceController
  brings impl agent = if agent.m_started then found (impl.probe_async_impl agent.derived).1 else []

  -- AddDiscoveryAgent appends the agent to the agents; it appends to the devices what the agent's
  -- probe found, if the agent was started already and the probe was in time, and nothing else; and
  -- it starts an agent that was not started, unless the exchange fails spuriously.
  pub add_discovery_agent_lem :
      (impl : AgentImpl S) (spurious : Bool) (agent : Agent S World)
      (m : NearObjectDeviceControllerManager)
      → let r = add_discovery_agent impl spurious agent m in
        (r.0.m_near_object_devices ≡ m.m_near_object_devices ++ brings impl agent)
        × (r.0.m_discovery_agents ≡ m.m_discovery_agents ++ agent.address ∷ [])
        × (is_started r.1 ≡ (agent.m_started || not spurious))
  unfolding add_discovery_agent engage add_probed is_started DiscoveryAgent.start
      DiscoveryAgent.probe_async DiscoveryAgent.register_discovery_event_callback
  add_discovery_agent_lem impl spurious agent m =
      let owned = record m { m_discovery_agents = m.m_discovery_agents ++ agent.address ∷ [] } in
      let probe = (impl.probe_async_impl agent.derived).1 in
      ground (arith, add_probed-found probe owned, append-nil m.m_near_object_devices)

  -- The agent reports devices one after another.
  pub report : List Presence → Agent S World → World → World
  report [] agent world = world
  report ((presence, device) ∷ events) agent world =
      report events agent (device_presence_changed presence device agent world)

  abbrev pub Registered : ℕ → Agent S World → Type 0
  Registered a agent = agent.m_on_device_presence_changed ≡ some (weak_callback a)

  Registered-call :
      (impl : AgentImpl S) (c : Call) (agent : Agent S World) (a : ℕ)
      → Registered a agent
      → Registered a (call impl c agent)
  unfolding call
  Registered-call impl (starts true) agent a h = ground arith
  Registered-call impl (starts false) agent a h = ground arith
  Registered-call impl (stops s) agent a h = ground arith

  Registered-calls :
      (impl : AgentImpl S) (cs : List Call) (agent : Agent S World) (a : ℕ)
      → Registered a agent
      → Registered a (calls impl cs agent)
  unfolding calls
  Registered-calls impl [] agent a h = h
  Registered-calls impl (c ∷ cs) agent a h =
      Registered-calls impl cs (call impl c agent) a (Registered-call impl c agent a h)

  pub presence-Registered :
      (p : NearObjectDevicePresence) (d : NearObjectDeviceController) (agent : Agent S World)
      (a : ℕ) (w : World)
      → Registered a agent
      → device_presence_changed p d agent w ≡ weak_callback a p d w
  unfolding device_presence_changed
  presence-Registered p d agent a w h = rw h

  -- An agent whose callback is AddDiscoveryAgent's reports to that manager, as long as there is one.
  report-Registered :
      (events : List Presence) (agent : Agent S World) (a : ℕ)
      (m : NearObjectDeviceControllerManager)
      → Registered a agent
      → report events agent (some m) ≡ some (present a events m)
  unfolding report present weak_callback
  report-Registered [] agent a m h = refl
  report-Registered ((p, d) ∷ events) agent a m h =
      rw (presence-Registered p d agent a (some m) h) (report-Registered events agent a _ h)

  report-gone :
      (events : List Presence) (agent : Agent S World) (a : ℕ)
      → Registered a agent
      → report events agent none ≡ none
  unfolding report weak_callback
  report-gone [] agent a h = refl
  report-gone ((p, d) ∷ events) agent a h =
      rw (presence-Registered p d agent a none h) (report-gone events agent a h)

  pub Registered-add :
      (impl : AgentImpl S) (spurious : Bool) (agent : Agent S World)
      (m : NearObjectDeviceControllerManager)
      → Registered agent.address (add_discovery_agent impl spurious agent m).1
  unfolding add_discovery_agent engage is_started DiscoveryAgent.start DiscoveryAgent.probe_async
      DiscoveryAgent.register_discovery_event_callback
  Registered-add impl spurious agent m = ground arith

  -- Once AddDiscoveryAgent has added an agent, and after any calls of the agent's Start and Stop, the
  -- devices that the agent reports reach the manager, one after another; and the same agent's reports
  -- do nothing when the manager is gone.
  pub reports_reach_manager :
      (impl : AgentImpl S) (spurious : Bool) (agent : Agent S World)
      (m : NearObjectDeviceControllerManager) (cs : List Call) (events : List Presence)
      (later : NearObjectDeviceControllerManager)
      → let added = calls impl cs (add_discovery_agent impl spurious agent m).1 in
        (report events added (some later) ≡ some (present agent.address events later))
        × (report events added none ≡ none)
  reports_reach_manager impl spurious agent m cs events later =
      let kept =
        Registered-calls impl cs (add_discovery_agent impl spurious agent m).1 agent.address
          (Registered-add impl spurious agent m) in
      let added = calls impl cs (add_discovery_agent impl spurious agent m).1 in
      (
        report-Registered events added agent.address later kept,
        report-gone events added agent.address kept,
      )
