-- ===== src/UwbSystem.antt =====
-- The Windows UWB agent and the manager that it reports to, together. The manager has the only pointers
-- that own the devices, so a device is destroyed when the manager has let it go and the notification is
-- over. What becomes of a single event is in lib/nearobject/service/NearObjectDeviceControllerManager.cxx
-- and windows/nearobject/service/NearObjectDeviceDiscoveryAgentUwb.cxx.
mod Ghost
mod Overtaking
mod Shows
mod Steps
mod Fifo
mod Tests
use near_object_framework.Common.{ℕ, List, [], ◌∷◌, Option, none, some, ◌==◌, any_of, copy_if}
use near_object_framework.DeviceEnumerator.{Name}
use near_object_framework.Manager
use near_object_framework.Manager.{NearObjectDeviceControllerManager, on_device_presence_changed}
use near_object_framework.UwbAgent.{NotifyAction, notified, Devices, Event, Heap}

pub record System : Type 0 where
  pub devices : Devices
  pub manager : NearObjectDeviceControllerManager

-- What the manager does with what the agent reports, if it reports anything. OnDevicePresenceChanged
-- does not read which agent that was.
pub heard : ℕ → Option Event → NearObjectDeviceControllerManager → NearObjectDeviceControllerManager
heard agent none m = m
heard agent (some event) m = on_device_presence_changed agent event.0 event.1 m

-- The objects that the manager holds live on.
pub collected : NearObjectDeviceControllerManager → Heap → Heap
collected m h = record h {
  live = copy_if (λ a. any_of (λ d. d.address == a) m.m_near_object_devices) h.live;
}

-- A notification, to its end.
pub notify : ℕ → NotifyAction → Name → System → System
unfolding heard collected
notify agent action name s =
    let (devices, event) = notified action name s.devices in
    let manager = heard agent event s.manager in
    record { devices = record devices { heap = collected manager devices.heap }; manager = manager }

pub notify_all : ℕ → List (NotifyAction × Name) → System → System
unfolding notify
notify_all agent [] s = s
notify_all agent ((action, name) ∷ ns) s = notify_all agent ns (notify agent action name s)

-- A new agent at a new manager.
pub create : System
create = record {
  devices = record {
    m_uwb_hcm_notification_handle = none;
    m_near_object_device_cache = [];
    heap = record { live = []; next = 1 };
    controllers = [];
  };
  manager = Manager.create;
}
