-- ===== src/UwbSystem/Tests.antt =====
-- Devices under the names of one letter.
use near_object_framework.Common.{
  ◌≡◌, refl, ◌≢◌, false, List, [], ◌∷◌, arith, any_of, none, some, ◌++◌, map,
}
use near_object_framework.Controller.{
  NearObjectDeviceController, make_controller, make_uwb_controller,
}
use near_object_framework.DiscoveryAgent.{departed}
use near_object_framework.UwbSystem.Overtaking.{removal_overtakes}
use near_object_framework.DeviceEnumerator.{Name}
use near_object_framework.Manager
use near_object_framework.Manager.{NearObjectDeviceControllerManager, get_all_devices}
use near_object_framework.UwbAgent.{
  NotifyAction, device_interface_arrival, device_interface_removal, name_eq, notified, find,
  add_cached_uwb_near_object_device,
}
use near_object_framework.UwbSystem.{System, notify_all, create, heard}
use near_object_framework.UwbSystem.Ghost.{ghost_device}
use near_object_framework.UwbSystem.Fifo.{Fifo, over, arrives, leaves, Mirrors, notify_all-Mirrors}

abbrev a : Name
a = b'a' ∷ []

abbrev b : Name
b = b'b' ∷ []

a_differs : a ≢ b
a_differs e = ground arith

ghost_of_two :
    get_all_devices
      (notify_all 7
        ((device_interface_arrival, a)
          ∷ (device_interface_arrival, b)
          ∷ (device_interface_removal, b)
          ∷ (device_interface_removal, a)
          ∷ [])
        create).manager
    ≡ 2 ∷ []
ghost_of_two = ghost_device 7 a b a_differs

abbrev plugged : List (NotifyAction × Name)
plugged =
    (device_interface_arrival, a)
    ∷ (device_interface_arrival, b)
    ∷ (device_interface_removal, a)
    ∷ (device_interface_arrival, a)
    ∷ []

b_alone : any_of (λ n. name_eq n b) (a ∷ []) ≡ false
unfolding name_eq
b_alone = refl

a_again : any_of (λ n. name_eq n a) (b ∷ []) ≡ false
unfolding name_eq
a_again = refl

plugged-Fifo : Fifo [] plugged (b ∷ a ∷ [])
plugged-Fifo = arrives a refl (arrives b b_alone (leaves a (arrives a a_again over)))

notify_all-Mirrors_example : Mirrors (notify_all 7 plugged create) (b ∷ a ∷ [])
notify_all-Mirrors_example = notify_all-Mirrors 7 plugged-Fifo

abbrev one_device : System
one_device = notify_all 7 ((device_interface_arrival, a) ∷ []) create

-- A manager with a device of another kind, the device of `a`, and one more UWB device.
abbrev other_kind : NearObjectDeviceController
other_kind = record { address = 8; m_device_id = 3; m_sessions = [] }

three_devices : NearObjectDeviceControllerManager
unfolding Manager.create
three_devices = record Manager.create {
  m_near_object_devices = other_kind ∷ make_uwb_controller 1 ∷ make_uwb_controller 9 ∷ [];
}

three_devices-split :
    three_devices.m_near_object_devices
    ≡ (other_kind ∷ []) ++ make_uwb_controller 1 ∷ make_uwb_controller 9 ∷ []
unfolding three_devices
three_devices-split = refl

uwb_id : (make_uwb_controller 1).m_device_id ≡ 0x1234
unfolding make_uwb_controller make_controller
uwb_id = refl

-- The removal of `b` overtakes its arrival.
removal_overtakes_example :
    let (d1, arrival) = notified device_interface_arrival b one_device.devices in
    let (d2, removal) = notified device_interface_removal b d1 in
    let device = (add_cached_uwb_near_object_device b one_device.devices).1 in
    let after = heard 7 arrival (heard 7 removal three_devices) in
    (find b d2.m_near_object_device_cache ≡ none)
    × (removal ≡ some (departed, make_uwb_controller device))
    × (get_all_devices after
        ≡ map (λ x. x.address) ((other_kind ∷ []) ++ make_uwb_controller 9 ∷ []) ++ device ∷ [])
removal_overtakes_example =
    removal_overtakes 7 b one_device.devices three_devices (other_kind ∷ [])
      (make_uwb_controller 9 ∷ []) (make_uwb_controller 1) three_devices-split
      ((λ e. ground arith), tt) uwb_id
