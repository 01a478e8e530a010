-- ===== src/UwbAgent/Delivery.antt =====
-- The notifications of a UWB agent that has been added to a manager.
use near_object_framework.Common.{◌≡◌, refl, ℕ, Bool, List, [], ◌∷◌, Option, none, some, ap, ◌∙◌}
use near_object_framework.DeviceEnumerator.{Name}
use near_object_framework.DiscoveryAgent.{Agent}
use near_object_framework.Manager.{
  NearObjectDeviceControllerManager, weak_callback, add_discovery_agent,
}
use near_object_framework.Manager.Devices.{Presence, present}
use near_object_framework.Manager.Agents.{World, Registered, Registered-add, presence-Registered}
use near_object_framework.UwbAgent.{
  NotifyAction, notified, Devices, Event, send, on_device_interface_notification, Windows, uwb_impl,
}

abbrev pub Notification : Type 0
Notification = NotifyAction × Name

pub notify_all : List Notification → Agent Devices World → World → Agent Devices World × World
unfolding on_device_interface_notification
notify_all [] agent world = (agent, world)
notify_all ((action, name) ∷ ns) agent world =
    let (agent', world') = on_device_interface_notification action name agent world in
    notify_all ns agent' world'

abbrev reported : Option Event → List Event → List Event
reported none events = events
reported (some event) events = event ∷ events

-- The events that the notifications make, from the cache alone.
pub events_of : List Notification → Devices → List Presence
unfolding notified
events_of [] d = []
events_of ((action, name) ∷ ns) d =
    let (d', event) = notified action name d in reported event (events_of ns d')

send-Registered :
    (a : ℕ) (event : Option Event) (agent : Agent Devices World)
    (m : NearObjectDeviceControllerManager)
    → Registered a agent
    → send event agent (some m) ≡ some (present a (reported event []) m)
unfolding present weak_callback
send-Registered a none agent m h = refl
send-Registered a (some (presence, device)) agent m h =
    presence-Registered presence device agent a (some m) h

present-reported :
    (a : ℕ) (event : Option Event) (events : List Event) (m : NearObjectDeviceControllerManager)
    → present a events (present a (reported event []) m) ≡ present a (reported event events) m
unfolding present
present-reported a none events m = refl
present-reported a (some event) events m = refl

notify_all-Registered :
    (a : ℕ) (ns : List Notification) (agent : Agent Devices World)
    (m : NearObjectDeviceControllerManager)
    → Registered a agent
    → (notify_all ns agent (some m)).1 ≡ some (present a (events_of ns agent.derived) m)
unfolding notify_all events_of present on_device_interface_notification
notify_all-Registered a [] agent m h = refl
notify_all-Registered a ((action, name) ∷ ns) agent m h =
    let (devices, event) = notified action name agent.derived in
    let agent' = record agent { derived = devices } in
    let events = events_of ns devices in
    ap (λ world. (notify_all ns agent' world).1) (send-Registered a event agent m h)
    ∙ notify_all-Registered a ns agent' (present a (reported event []) m) h
    ∙ ap (λ x. some x) (present-reported a event events m)

-- Once AddDiscoveryAgent has added a UWB agent to a manager, notifications in any order change the
-- manager by the arrivals and departures that the agent's cache gives for them, in order, and by
-- nothing else.
pub notifications_reach_manager :
    (w : Windows) (names : List Name) (in_time spurious : Bool) (agent : Agent Devices World)
    (m later : NearObjectDeviceControllerManager) (ns : List Notification)
    → let added = (add_discovery_agent (uwb_impl w names in_time) spurious agent m).1 in
      (notify_all ns added (some later)).1
      ≡ some (present agent.address (events_of ns added.derived) later)
notifications_reach_manager w names in_time spurious agent m later ns =
    let impl = uwb_impl w names in_time in
    let added = (add_discovery_agent impl spurious agent m).1 in
    notify_all-Registered agent.address ns added later (Registered-add impl spurious agent m)
