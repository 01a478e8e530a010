-- ===== src/UwbAgent/Tests.antt =====
-- An agent that knows the device 3 under the name `a`, the device 4, which has been destroyed, under
-- `b`, and no device under `c`.
use near_object_framework.Common.{◌≡◌, refl, List, [], ◌∷◌, none, some, arith}
use near_object_framework.Controller.{make_uwb_controller}
use near_object_framework.Controller.{make_controller_of}
use near_object_framework.UwbDevice.{make_uwb_device}
use near_object_framework.DeviceEnumerator.{Name}
use near_object_framework.DiscoveryAgent.{arrived, departed}
use near_object_framework.UwbAgent.{
  device_interface_arrival, device_interface_removal, notified, Devices,
  add_cached_uwb_near_object_device, extract_cached_near_object_device, add_new, add_found, find,
  allocate, create_near_object_uwb_device, name_eq,
}
use near_object_framework.UwbAgent.History.{
  Happening, notifies, probes, destroys, happens, same_device_while_alive,
}
use near_object_framework.UwbAgent.Names.{IsNamed, name_of, MadeFor, happens-MadeFor}

abbrev a : Name
a = 97 ∷ []

abbrev b : Name
b = 98 ∷ []

abbrev c : Name
c = 99 ∷ []

abbrev devices : Devices
devices = record {
  m_uwb_hcm_notification_handle = none;
  m_near_object_device_cache = (a, 3) ∷ (b, 4) ∷ [];
  heap = record { live = 3 ∷ []; next = 5 };
  controllers =
      make_controller_of 4 (make_uwb_device b [])
      ∷ make_controller_of 3 (make_uwb_device a [])
      ∷ [];
}

known_runs : add_cached_uwb_near_object_device a devices ≡ (devices, 3)
unfolding add_cached_uwb_near_object_device add_found find name_eq
known_runs = refl

stale_runs : (add_cached_uwb_near_object_device b devices).1 ≡ 5
unfolding add_cached_uwb_near_object_device add_found add_new find name_eq allocate
    create_near_object_uwb_device
stale_runs = refl

extract_runs :
    ((extract_cached_near_object_device a devices).1 ≡ some 3)
    × ((extract_cached_near_object_device b devices).1 ≡ none)
    × ((extract_cached_near_object_device c devices).1 ≡ none)
unfolding extract_cached_near_object_device find name_eq
extract_runs = (refl, refl, refl)

abbrev busy : List Happening
busy =
    destroys 4
    ∷ notifies device_interface_arrival b
    ∷ notifies device_interface_removal b
    ∷ probes (c ∷ a ∷ [])
    ∷ notifies device_interface_arrival a
    ∷ []

abbrev after : Devices
after = happens busy (add_cached_uwb_near_object_device a devices).0

same_device_while_alive_example :
    (notified device_interface_arrival a after ≡ (
      after,
      some (arrived, make_uwb_controller (add_cached_uwb_near_object_device a devices).1),
    ))
    × ((notified device_interface_removal a after).1
        ≡ some (departed, make_uwb_controller (add_cached_uwb_near_object_device a devices).1))
unfolding add_cached_uwb_near_object_device add_found find name_eq
same_device_while_alive_example =
    same_device_while_alive a busy devices (refl, (refl, (refl, (refl, (refl, tt)))))

abbrev empty : Devices
empty = record {
  m_uwb_hcm_notification_handle = some 1;
  m_near_object_device_cache = [];
  heap = record { live = []; next = 0 };
  controllers = [];
}

empty-IsNamed : IsNamed empty
unfolding find
empty-IsNamed = record {
  separate = record {
    below = λ n x h. absurd (ground arith);
    apart = λ m n x h k. absurd (ground arith);
  };
  named = λ n x h. absurd (ground arith);
}

abbrev quiet : List Happening
quiet = notifies device_interface_arrival b ∷ probes (c ∷ []) ∷ destroys 3 ∷ []

happens-MadeFor_example :
    (name_of
        (add_cached_uwb_near_object_device b (happens quiet empty)).1
        (add_cached_uwb_near_object_device b (happens quiet empty)).0.controllers
      ≡ some b)
    × MadeFor b (happens quiet empty) (extract_cached_near_object_device b (happens quiet empty)).1
happens-MadeFor_example = happens-MadeFor b quiet empty empty-IsNamed
