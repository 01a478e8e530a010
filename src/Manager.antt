-- ===== src/Manager.antt =====
-- lib/nearobject/service: NearObjectDeviceControllerManager.{hxx,cxx}. An agent is owned by its
-- address, and its object is passed along. The world that a callback acts on is the manager, `none`
-- once it has been destroyed and weak_ptr::lock fails. Pointers to devices are not null.
pub mod Devices
pub mod Agents
mod Race
mod Tests
use near_object_framework.Common.{
  ℕ, ◌≡◌, Bool, true, false, List, [], ◌∷◌, ◌++◌, Option, none, some, if◌then◌else◌, any_of, map,
}
use near_object_framework.Controller.{NearObjectDeviceController, controller_eq}
use near_object_framework.DiscoveryAgent
use near_object_framework.DiscoveryAgent.{
  Agent, AgentImpl, Callback, Probe, ready, timed_out, NearObjectDevicePresence, arrived, departed,
}

-- NearObjectDeviceControllerManager.
pub record NearObjectDeviceControllerManager : Type 0 where
  pub m_near_object_devices : List NearObjectDeviceController
  pub m_discovery_agents : List ℕ

-- NearObjectDeviceControllerManager::Create.
unfoldable pub create : NearObjectDeviceControllerManager
create = record { m_near_object_devices = []; m_discovery_agents = [] }

-- std::find_if and erase: the first element that passes the test is taken out, if there is one.
abbrev pub erase_first :
    (NearObjectDeviceController → Bool)
    → List NearObjectDeviceController
    → List NearObjectDeviceController
erase_first p [] = []
erase_first p (d ∷ ds) = if p d then ds else d ∷ erase_first p ds

-- NearObjectDeviceControllerManager::AddDevice. The test for an existing device is always false.
unfoldable pub add_device :
    NearObjectDeviceController
    → NearObjectDeviceControllerManager
    → NearObjectDeviceControllerManager
add_device device m =
    let exists = any_of (λ existing. false) m.m_near_object_devices in
    if exists
    then m
    else record m { m_near_object_devices = m.m_near_object_devices ++ device ∷ [] }

-- NearObjectDeviceControllerManager::RemoveDevice.
unfoldable pub remove_device :
    NearObjectDeviceController
    → NearObjectDeviceControllerManager
    → NearObjectDeviceControllerManager
remove_device device m = record m {
  m_near_object_devices =
      erase_first (λ existing. controller_eq existing device) m.m_near_object_devices;
}

-- NearObjectDeviceControllerManager::GetDefaultDevice: a null pointer is `none`.
pub get_default_device : NearObjectDeviceControllerManager → Option NearObjectDeviceController
get_default_device m = elim m.m_near_object_devices [ [] ↦ none | d ∷ ds ↦ some d ]

-- NearObjectDeviceControllerManager::GetAllDevices: weak pointers, by their addresses.
unfoldable pub get_all_devices : NearObjectDeviceControllerManager → List ℕ
get_all_devices m = map (λ d. d.address) m.m_near_object_devices

-- NearObjectDeviceControllerManager::OnDevicePresenceChanged.
unfoldable pub on_device_presence_changed :
    ℕ
    → NearObjectDevicePresence
    → NearObjectDeviceController
    → NearObjectDeviceControllerManager
    → NearObjectDeviceControllerManager
unfolding add_device remove_device
on_device_presence_changed agent arrived device m = add_device device m
on_device_presence_changed agent departed device m = remove_device device m

-- The callback that AddDiscoveryAgent registers: it does nothing once the manager is gone.
unfoldable pub weak_callback : ℕ → Callback (Option NearObjectDeviceControllerManager)
weak_callback agent presence device none = none
weak_callback agent presence device (some m) =
    some (on_device_presence_changed agent presence device m)

pub add_devices :
    List NearObjectDeviceController
    → NearObjectDeviceControllerManager
    → NearObjectDeviceControllerManager
add_devices [] m = m
add_devices (d ∷ ds) m = add_devices ds (add_device d m)

-- What becomes of the probe that AddDiscoveryAgent waits for, if there is one.
pub add_probed :
    Option Probe → NearObjectDeviceControllerManager → NearObjectDeviceControllerManager
unfolding add_devices
add_probed none m = m
add_probed (some timed_out) m = m
add_probed (some (ready existing)) m = add_devices existing m

abbrev AgentOf : Type 0 → Type 0
AgentOf S = Agent S (Option NearObjectDeviceControllerManager)

-- The agent after AddDiscoveryAgent has probed or started it, with the probe.
engage : {S : Type 0} → AgentImpl S → Bool → AgentOf S → AgentOf S × Option Probe
engage impl spurious agent =
    if DiscoveryAgent.is_started agent
    then (let probed = DiscoveryAgent.probe_async impl agent in (probed.0, some probed.1))
    else (DiscoveryAgent.start impl spurious agent, none)

-- NearObjectDeviceControllerManager::AddDiscoveryAgent.
pub add_discovery_agent :
    {S : Type 0}
    → AgentImpl S
    → Bool
    → AgentOf S
    → NearObjectDeviceControllerManager
    → NearObjectDeviceControllerManager × AgentOf S
unfolding engage add_probed weak_callback
add_discovery_agent impl spurious agent m =
    let registered =
      DiscoveryAgent.register_discovery_event_callback (some (weak_callback agent.address)) agent in
    let engaged = engage impl spurious registered in
    let owned = record m { m_discovery_agents = m.m_discovery_agents ++ agent.address ∷ [] } in
    (add_probed engaged.1 owned, engaged.0)
