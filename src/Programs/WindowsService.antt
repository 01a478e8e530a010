-- ===== src/Programs/WindowsService.antt =====
-- How the Windows service ends, and where its UWB agent reports.
use near_object_framework.Common.{ℕ, suc, ◌≡◌, Bool, [], false, none, some, ap, if◌then◌else◌, List}
use near_object_framework.DeviceEnumerator.{Name}
use near_object_framework.DiscoveryAgent
use near_object_framework.Manager
use near_object_framework.Manager.Devices.{present}
use near_object_framework.Manager.Agents.{add_discovery_agent_lem}
use near_object_framework.UwbAgent.{Windows, uwb_impl}
use near_object_framework.UwbAgent.Delivery.{
  Notification, notify_all, events_of, notifications_reach_manager,
}
use near_object_framework.Programs.{
  Paths, Objects, Schedule, returns, waits, done, objects_in, windows_main, windows_devices,
  windows_get_user_home_path, agent_address, no_devices,
}
use near_object_framework.Programs.Runtime.{started_runtime_lem, leave_lem, stays, Steps}

-- In the Windows service, as main puts it together, notifications in any order bring to the device
-- manager the arrivals and departures that the cache of the agent gives for them, in order, and nothing
-- else, on top of no devices.
pub service_hears_notifications :
    (w : Windows) (names : List Name) (in_time spurious : Bool) (ns : List Notification)
    → let (manager, agent) = windows_devices w names in_time spurious in
      ((notify_all ns agent (some manager)).1
        ≡ some (present agent_address (events_of ns agent.derived) manager))
      × (manager.m_near_object_devices ≡ [])
unfolding windows_devices Manager.create DiscoveryAgent.make_agent
service_hears_notifications w names in_time spurious ns =
    let agent = DiscoveryAgent.make_agent agent_address none no_devices in
    let manager = (windows_devices w names in_time spurious).0 in
    (
      notifications_reach_manager w names in_time spurious agent Manager.create manager ns,
      (add_discovery_agent_lem (uwb_impl w names in_time) spurious agent Manager.create).0,
    )

-- Where the environment names a home path, main makes its objects, the exchanges of Start and Stop do
-- not fail spuriously, and the thread of the runtime has a step behind the notification of Stop, and
-- one after a spurious wakeup if there is one: main returns 0. It waits instead, however many steps
-- the thread has, exactly if the thread had made one step before the destruction, makes none between
-- the exchange and the notification, and is not woken up spuriously.
pub service_ends_at_once :
    {P : Type 0} (paths : Paths P) (home : P) (w : Windows) (names : List Name)
    (in_time spurious : Bool) (objects : Objects P) (schedule : Schedule) (n : ℕ)
    → objects_in paths home (windows_devices w names in_time spurious).0 ≡ done objects
    → schedule.start_spurious ≡ false
    → schedule.stop_spurious ≡ false
    → schedule.during ≡ suc n
    → Steps schedule.woken
    → windows_main paths 0 (some home) w names in_time spurious schedule
      ≡ some (if stays schedule then waits else returns 0)
unfolding windows_main windows_get_user_home_path
service_ends_at_once paths home w names in_time spurious objects schedule n made starts stops steps
      more =
    rw made (
      rw (started_runtime_lem schedule objects.service starts)
        (ap some (leave_lem schedule n objects.service stops steps more)))
