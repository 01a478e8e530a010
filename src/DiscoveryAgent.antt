-- ===== src/DiscoveryAgent.antt =====
-- lib/nearobject/service: NearObjectDeviceControllerDiscoveryAgent.{hxx,cxx}. What a derived class
-- keeps is a type, and its virtual functions a record. A callback acts on the world outside the
-- agent. compare_exchange_weak may fail spuriously, so its luck is an argument.
pub mod Transitions
mod Overlap
mod Gate
mod Tests
use near_object_framework.Common.{
  ℕ, Bool, true, false, not, ◌&&◌, List, [], ◌∷◌, ◌++◌, Option, none, some, if◌then◌else◌,
}
use near_object_framework.Controller.{NearObjectDeviceController}

-- NearObjectDevicePresence.
pub data NearObjectDevicePresence : Type 0 where
  arrived departed : NearObjectDevicePresence

-- A registered callback, by what it does to the world.
abbrev pub Callback : Type 0 → Type 0
Callback W = NearObjectDevicePresence → NearObjectDeviceController → W → W

-- The future of a probe, by what a caller that waits for it gets.
pub data Probe : Type 0 where
  ready : List NearObjectDeviceController → Probe
  timed_out : Probe

-- NearObjectDeviceControllerDiscoveryAgent, with the state of the derived class. An empty
-- std::function is `none`.
pub record Agent (S W : Type 0) : Type 0 where
  pub address : ℕ
  pub m_started : Bool
  pub m_on_device_presence_changed : Option (Callback W)
  pub derived : S

-- The virtual functions.
pub record AgentImpl (S : Type 0) : Type 0 where
  pub start_impl : S → S
  pub stop_impl : S → S
  pub probe_async_impl : S → S × Probe

-- The functions of the base class itself.
unfoldable pub base_impl : {S : Type 0} → AgentImpl S
base_impl = record {
  start_impl = λ s. s;
  stop_impl = λ s. s;
  probe_async_impl = λ s. (s, ready []);
}

-- std::atomic<bool>::compare_exchange_weak: the new value, and whether it was exchanged.
abbrev pub compare_exchange_weak : Bool → Bool → Bool → Bool → Bool × Bool
compare_exchange_weak spurious current true desired =
    if current && not spurious then (desired, true) else (current, false)
compare_exchange_weak spurious current false desired =
    if not current && not spurious then (desired, true) else (current, false)

module _ {S W : Type 0} where
  -- The constructors.
  unfoldable pub make_agent : ℕ → Option (Callback W) → S → Agent S W
  make_agent address callback derived = record {
    address = address;
    m_started = false;
    m_on_device_presence_changed = callback;
    derived = derived;
  }

  -- NearObjectDeviceControllerDiscoveryAgent::RegisterDiscoveryEventCallback.
  unfoldable pub register_discovery_event_callback : Option (Callback W) → Agent S W → Agent S W
  register_discovery_event_callback callback agent = record agent {
    m_on_device_presence_changed = callback;
  }

  -- NearObjectDeviceControllerDiscoveryAgent::DevicePresenceChanged.
  unfoldable pub device_presence_changed :
      NearObjectDevicePresence → NearObjectDeviceController → Agent S W → W → W
  device_presence_changed presence device agent world = elim agent.m_on_device_presence_changed [
    | none ↦ world
    | some callback ↦ callback presence device world
  ]

  unfoldable pub is_started : Agent S W → Bool
  is_started agent = agent.m_started

  -- The exchange of Start, and whether it succeeds; no lock covers it and the call of StartImpl.
  abbrev pub start_exchange : Bool → Agent S W → Agent S W × Bool
  start_exchange spurious agent =
      let r = compare_exchange_weak spurious agent.m_started false true in
      (record agent { m_started = r.0 }, r.1)

  -- The exchange of Stop, likewise.
  abbrev pub stop_exchange : Bool → Agent S W → Agent S W × Bool
  stop_exchange spurious agent =
      let r = compare_exchange_weak spurious agent.m_started true false in
      (record agent { m_started = r.0 }, r.1)

  abbrev pub calls_start_impl : AgentImpl S → Agent S W → Agent S W
  calls_start_impl impl agent = record agent { derived = impl.start_impl agent.derived }

  abbrev pub calls_stop_impl : AgentImpl S → Agent S W → Agent S W
  calls_stop_impl impl agent = record agent { derived = impl.stop_impl agent.derived }

  -- NearObjectDeviceControllerDiscoveryAgent::Start, where no other call comes between.
  unfoldable pub start : AgentImpl S → Bool → Agent S W → Agent S W
  start impl spurious agent =
      let r = start_exchange spurious agent in if r.1 then calls_start_impl impl r.0 else r.0

  -- NearObjectDeviceControllerDiscoveryAgent::Stop, where no other call comes between.
  unfoldable pub stop : AgentImpl S → Bool → Agent S W → Agent S W
  stop impl spurious agent =
      let r = stop_exchange spurious agent in if r.1 then calls_stop_impl impl r.0 else r.0

  -- NearObjectDeviceControllerDiscoveryAgent::ProbeAsync.
  unfoldable pub probe_async : AgentImpl S → Agent S W → Agent S W × Probe
  probe_async impl agent =
      let r = impl.probe_async_impl agent.derived in (record agent { derived = r.0 }, r.1)
