-- ===== src/UwbAgent.antt =====
-- windows/nearobject/service: NearObjectDeviceDiscoveryAgentUwb.{hxx,cxx}. A device object has an
-- address that no other object ever has, and the objects that have not been destroyed are listed;
-- weak_ptr::lock succeeds for these. The registration with Windows is a parameter. The cache is
-- locked for each addition and extraction; a probe locks it name by name, so a probe that other
-- calls come between is several probes of its names.
pub mod Cache
mod Names
pub mod History
mod Distinct
mod Removal
mod Probes
pub mod Delivery
mod Tests
use near_object_framework.Common.{
  ℕ, suc, ◌≡◌, Bool, true, false, not, List, [], ◌∷◌, Option, none, some, ◌==◌, if◌then◌else◌,
  any_of, copy_if, ◌&&◌, map,
}
use near_object_framework.Controller.{
  NearObjectDeviceController, make_uwb_controller, NearObjectDeviceControllerUwb,
  make_controller_of,
}
use near_object_framework.DeviceEnumerator.{
  Name, ConfigurationManager, get_device_interface_class_instance_names,
}
use near_object_framework.UwbDevice.{UwbDevice, make_uwb_device}
use near_object_framework.DiscoveryAgent.{
  Agent, AgentImpl, Probe, ready, timed_out, NearObjectDevicePresence, arrived, departed,
  device_presence_changed,
}

-- CM_NOTIFY_ACTION.
pub data NotifyAction : Type 0 where
  device_interface_arrival device_interface_removal other_action : NotifyAction

-- == of two std::wstring.
unfoldable pub name_eq : Name → Name → Bool
name_eq [] [] = true
name_eq [] (b ∷ l) = false
name_eq (a ∷ k) [] = false
name_eq (a ∷ k) (b ∷ l) = a == b && name_eq k l

-- The objects that have not been destroyed, and the address of the next one.
pub record Heap : Type 0 where
  pub live : List ℕ
  pub next : ℕ

-- std::make_shared.
unfoldable pub allocate : Heap → Heap × ℕ
allocate h = (record { live = h.next ∷ h.live; next = suc h.next }, h.next)

-- weak_ptr::lock.
abbrev pub lock : Heap → ℕ → Bool
lock h address = any_of (λ a. a == address) h.live

-- What NearObjectDeviceDiscoveryAgentUwb adds to the base class, with the heap. The cache maps
-- names to weak pointers. The controllers that were ever made are listed with their
-- UwbDevice objects.
pub record Devices : Type 0 where
  pub m_uwb_hcm_notification_handle : Option ℕ
  pub m_near_object_device_cache : List (Name × ℕ)
  pub heap : Heap
  pub controllers : List (NearObjectDeviceControllerUwb UwbDevice)

abbrev pub Cache : Type 0
Cache = List (Name × ℕ)

-- std::unordered_map: find, erase and operator[].
unfoldable pub find : Name → Cache → Option ℕ
unfolding name_eq
find name [] = none
find name ((k, v) ∷ cache) = if name_eq k name then some v else find name cache

unfoldable pub erase : Name → Cache → Cache
unfolding name_eq
erase name [] = []
erase name ((k, v) ∷ cache) = if name_eq k name then erase name cache else (k, v) ∷ erase name cache

unfoldable pub assign : Name → ℕ → Cache → Cache
unfolding name_eq
assign name v [] = (name, v) ∷ []
assign name v ((k, w) ∷ cache) =
    if name_eq k name then (k, v) ∷ cache else (k, w) ∷ assign name v cache

-- CreateNearObjectUwbDevice: a new controller with a UwbDevice for the name.
unfoldable pub create_near_object_uwb_device : Name → Devices → Devices × ℕ
unfolding allocate
create_near_object_uwb_device name d =
    let (heap, address) = allocate d.heap in
    let device = make_uwb_device name [] in
    (
      record d { heap = heap; controllers = make_controller_of address device ∷ d.controllers },
      address,
    )

-- A new controller, put into the cache.
unfoldable pub add_new : Name → Devices → Devices × ℕ
unfolding create_near_object_uwb_device assign
add_new name d =
    let (d', address) = create_near_object_uwb_device name d in
    let cache = assign name address d'.m_near_object_device_cache in
    (record d' { m_near_object_device_cache = cache }, address)

-- What follows the search of the cache.
unfoldable pub add_found : Name → Option ℕ → Devices → Devices × ℕ
unfolding add_new erase
add_found name none d = add_new name d
add_found name (some address) d =
    if lock d.heap address
    then (d, address)
    else add_new name
        (record d { m_near_object_device_cache = erase name d.m_near_object_device_cache })

-- NearObjectDeviceDiscoveryAgentUwb::AddCachedUwbNearObjectDevice.
unfoldable pub add_cached_uwb_near_object_device : Name → Devices → Devices × ℕ
unfolding add_found find
add_cached_uwb_near_object_device name d = add_found name (find name d.m_near_object_device_cache) d

-- weak_ptr::lock of the extracted node, if there is one.
abbrev pub extracted : Heap → Option ℕ → Option ℕ
extracted h none = none
extracted h (some address) = if lock h address then some address else none

-- NearObjectDeviceDiscoveryAgentUwb::ExtractCachedNearObjectDevice: a null pointer is `none`.
unfoldable pub extract_cached_near_object_device : Name → Devices → Devices × Option ℕ
unfolding find erase
extract_cached_near_object_device name d =
    let address = find name d.m_near_object_device_cache in
    let cache = erase name d.m_near_object_device_cache in
    (record d { m_near_object_device_cache = cache }, extracted d.heap address)

abbrev pub Event : Type 0
Event = NearObjectDevicePresence × NearObjectDeviceController

abbrev pub departure : Option ℕ → Option Event
departure none = none
departure (some address) = some (departed, make_uwb_controller address)

-- The state and the call of DevicePresenceChanged that a notification makes.
unfoldable pub notified : NotifyAction → Name → Devices → Devices × Option Event
unfolding add_cached_uwb_near_object_device extract_cached_near_object_device
notified device_interface_arrival name d =
    let (d', address) = add_cached_uwb_near_object_device name d in
    (d', some (arrived, make_uwb_controller address))
notified device_interface_removal name d =
    let (d', address) = extract_cached_near_object_device name d in (d', departure address)
notified other_action name d = (d, none)

module _ {W : Type 0} where
  abbrev pub send : Option Event → Agent Devices W → W → W
  send none agent world = world
  send (some event) agent world = device_presence_changed event.0 event.1 agent world

  -- NearObjectDeviceDiscoveryAgentUwb::OnDeviceInterfaceNotification; the name is the symbolic link.
  pub on_device_interface_notification :
      NotifyAction → Name → Agent Devices W → W → Agent Devices W × W
  unfolding notified
  on_device_interface_notification action name agent world =
      let (devices, event) = notified action name agent.derived in
      (record agent { derived = devices }, send event agent world)

-- The loop of Probe over the names.
unfoldable pub add_names : List Name → Devices → Devices × List NearObjectDeviceController
unfolding add_cached_uwb_near_object_device
add_names [] d = (d, [])
add_names (name ∷ names) d =
    let (d', address) = add_cached_uwb_near_object_device name d in
    let (d'', devices) = add_names names d' in (d'', make_uwb_controller address ∷ devices)

-- What Windows does: the handle that CM_Register_Notification writes, and its lists of names.
pub record Windows : Type 0 where
  pub registered : Option ℕ
  pub configuration_manager : ConfigurationManager

abbrev pub probe_names :
    Option (List Name) → Devices → Option (Devices × List NearObjectDeviceController)
unfolding add_names
probe_names none d = none
probe_names (some names) d = some (add_names names d)

-- NearObjectDeviceDiscoveryAgentUwb::Probe.
unfoldable pub probe : Windows → Devices → Option (Devices × List NearObjectDeviceController)
unfolding probe_names
probe w d = probe_names (get_device_interface_class_instance_names w.configuration_manager) d

-- The objects of a heap without one, which has been destroyed.
unfoldable pub destroyed : ℕ → Heap → Heap
destroyed address h = record h { live = copy_if (λ a. not (a == address)) h.live }

-- NearObjectDeviceDiscoveryAgentUwb::RegisterForUwbDeviceClassNotifications. The address of the
-- handle frees the one that it holds, so that after a failure there is none.
pub register_for_uwb_device_class_notifications : Windows → Devices → Devices
register_for_uwb_device_class_notifications w d = record d {
  m_uwb_hcm_notification_handle = w.registered;
}

-- NearObjectDeviceDiscoveryAgentUwb::UnregisterForUwbDeviceClassNotifications.
pub unregister_for_uwb_device_class_notifications : Devices → Devices
unregister_for_uwb_device_class_notifications d = record d { m_uwb_hcm_notification_handle = none }

-- StartImpl, StopImpl and ProbeAsyncImpl, where the enumeration gives these names, and the thread of
-- the probe is in time or not for the caller that waits for it.
pub uwb_impl : Windows → List Name → Bool → AgentImpl Devices
unfolding register_for_uwb_device_class_notifications unregister_for_uwb_device_class_notifications
    add_names
uwb_impl w names in_time = record {
  start_impl = register_for_uwb_device_class_notifications w;
  stop_impl = unregister_for_uwb_device_class_notifications;
  probe_async_impl = λ d.
      (let (d', devices) = add_names names d in (d', if in_time then ready devices else timed_out));
}
