-- ===== src/Manager/Race.antt =====
-- What comes while AddDiscoveryAgent waits for the probe: lines 107 to 129 of
-- lib/nearobject/service/NearObjectDeviceControllerManager.cxx, with the agent's callback in between.
use near_object_framework.Common.{
  ℕ, ◌≡◌, refl, ap, ◌∙◌, Bool, true, List, [], ◌∷◌, ◌++◌, some, map, Every, append_assoc, ◌≢◌, inl,
  inr, subst,
}
use near_object_framework.Controller.{NearObjectDeviceController, id}
use near_object_framework.DiscoveryAgent
use near_object_framework.DiscoveryAgent.{Agent, AgentImpl, ready, arrived, departed, is_started}
use near_object_framework.Manager.{
  NearObjectDeviceControllerManager, weak_callback, engage, add_probed, add_discovery_agent,
  on_device_presence_changed, add_devices, add_device,
}
use near_object_framework.Manager.Agents.{World, devices-add_devices}
use near_object_framework.Manager.Devices.{Presence, present, remove_device_lem}

present-arrivals :
    (agent : ℕ) (ds : List NearObjectDeviceController) (m : NearObjectDeviceControllerManager)
    → present agent (map (λ d. (arrived, d)) ds) m ≡ add_devices ds m
unfolding present add_devices on_device_presence_changed
present-arrivals agent [] m = refl
present-arrivals agent (d ∷ ds) m = present-arrivals agent ds (add_device d m)

Every-split :
    {A : Type 0} (Q : A → Type 0) (front : List A) (x : A) (rest : List A)
    → Every Q (front ++ x ∷ rest)
    → Q x
Every-split Q [] x rest h = h.0
Every-split Q (y ∷ front) x rest h = Every-split Q front x rest h.1

departed_nothing :
    (agent : ℕ) (d : NearObjectDeviceController) (m : NearObjectDeviceControllerManager)
    → Every (λ x. id x ≢ id d) m.m_near_object_devices
    → present agent ((departed, d) ∷ []) m ≡ m
unfolding present on_device_presence_changed
departed_nothing agent d m absent = elim (remove_device_lem d m) [
  | inl r ↦ absurd (
      Every-split (λ x. id x ≢ id d) r.0.front r.0.removed r.0.rest
        (subst (Every (λ x. id x ≢ id d)) r.0.before_split absent) r.0.id-removed)
  | inr r ↦ r.1
]

module _ {S : Type 0} where
  -- NearObjectDeviceControllerManager::AddDiscoveryAgent, where the agent reports these events between the
  -- end of the probe and the addition of what it has found.
  pub add_discovery_agent_while :
      AgentImpl S
      → Bool
      → List Presence
      → Agent S World
      → NearObjectDeviceControllerManager
      → NearObjectDeviceControllerManager × Agent S World
  add_discovery_agent_while impl spurious events agent m =
      let registered =
        DiscoveryAgent.register_discovery_event_callback (some (weak_callback agent.address))
          agent in
      let engaged = engage impl spurious registered in
      let owned = record m { m_discovery_agents = m.m_discovery_agents ++ agent.address ∷ [] } in
      (add_probed engaged.1 (present agent.address events owned), engaged.0)

  nothing_between :
      (impl : AgentImpl S) (spurious : Bool) (agent : Agent S World)
      (m : NearObjectDeviceControllerManager)
      → add_discovery_agent_while impl spurious [] agent m
        ≡ add_discovery_agent impl spurious agent m
  unfolding add_discovery_agent_while add_discovery_agent present
  nothing_between impl spurious agent m = refl

  added_between :
      (impl : AgentImpl S) (spurious : Bool) (agent : Agent S World)
      (m : NearObjectDeviceControllerManager) (events : List Presence)
      (ds : List NearObjectDeviceController)
      → agent.m_started ≡ true
      → (impl.probe_async_impl agent.derived).1 ≡ ready ds
      → (add_discovery_agent_while impl spurious events agent m).0
        ≡ add_devices ds (
            present agent.address events
              (record m { m_discovery_agents = m.m_discovery_agents ++ agent.address ∷ [] }))
  unfolding add_discovery_agent_while engage is_started add_probed DiscoveryAgent.probe_async
      DiscoveryAgent.register_discovery_event_callback
  added_between impl spurious agent m events ds started found = rw started (rw found)

  -- AddDiscoveryAgent of an agent that has been started and whose probe finds devices in time. When the
  -- agent reports the arrival of these devices while the manager waits, the manager holds each of them
  -- twice in the end. When it reports the departure of one of them, and the manager has no device with
  -- that id yet, the manager holds the device that has departed with the others.
  pub probe_races :
      (impl : AgentImpl S) (spurious : Bool) (agent : Agent S World)
      (m : NearObjectDeviceControllerManager) (ds : List NearObjectDeviceController)
      (d : NearObjectDeviceController)
      → agent.m_started ≡ true
      → (impl.probe_async_impl agent.derived).1 ≡ ready ds
      → Every (λ x. id x ≢ id d) m.m_near_object_devices
      → ((add_discovery_agent_while impl spurious
            (map (λ x. (arrived, x)) ds)
            agent
            m).0.m_near_object_devices
          ≡ m.m_near_object_devices ++ (ds ++ ds))
        × ((add_discovery_agent_while impl spurious
              ((departed, d) ∷ [])
              agent
              m).0.m_near_object_devices
            ≡ m.m_near_object_devices ++ ds)
  probe_races impl spurious agent m ds d started found absent =
      let a = agent.address in
      let owned = record m { m_discovery_agents = m.m_discovery_agents ++ a ∷ [] } in
      let devices = m.m_near_object_devices in
      let between =
        λ (events : List Presence). added_between impl spurious agent m events ds started found in
      (
        ap (λ n. n.m_near_object_devices)
              (between (map (λ x. (arrived, x)) ds)
                ∙ ap (λ n. add_devices ds n)
                    (present-arrivals a ds owned ∙ devices-add_devices ds owned)
                ∙ devices-add_devices ds (record owned { m_near_object_devices = devices ++ ds }))
            ∙ append_assoc devices ds ds,
        ap (λ n. n.m_near_object_devices)
            (between ((departed, d) ∷ [])
              ∙ ap (λ n. add_devices ds n) (departed_nothing a d owned absent)
              ∙ devices-add_devices ds owned),
      )
