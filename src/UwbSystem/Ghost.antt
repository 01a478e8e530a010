-- ===== src/UwbSystem/Ghost.antt =====
-- What is left of devices that have gone.
use near_object_framework.Common.{ℕ, ◌≡◌, ◌≢◌, false, [], ◌∷◌, arith, sym}
use near_object_framework.Controller.{make_controller, make_uwb_controller}
use near_object_framework.DeviceEnumerator.{Name}
use near_object_framework.Manager
use near_object_framework.Manager.{
  on_device_presence_changed, add_device, remove_device, get_all_devices,
}
use near_object_framework.UwbAgent.{
  device_interface_arrival, device_interface_removal, notified, name_eq,
  add_cached_uwb_near_object_device, extract_cached_near_object_device, add_found, add_new, find,
  erase, assign, allocate, create_near_object_uwb_device,
}
use near_object_framework.UwbAgent.Cache.{name_eq_self, name_eq_iff}
use near_object_framework.UwbSystem.{heard, collected, notify, notify_all, create}

name_ne : (a b : Name) → a ≢ b → name_eq a b ≡ false
name_ne a b h = ground (arith, name_eq_iff a b)

-- Where the manager alone owns the devices, two of them arrive under different names and both are
-- removed, the later one first: the manager then has the one that came second, although there is
-- none.
pub ghost_device :
    (agent : ℕ) (a b : Name)
    → a ≢ b
    → get_all_devices
        (notify_all agent
          ((device_interface_arrival, a)
            ∷ (device_interface_arrival, b)
            ∷ (device_interface_removal, b)
            ∷ (device_interface_removal, a)
            ∷ [])
          create).manager
      ≡ 2 ∷ []
unfolding notify_all notify heard collected create notified add_cached_uwb_near_object_device
    extract_cached_near_object_device add_found add_new find erase assign allocate
    create_near_object_uwb_device make_uwb_controller make_controller on_device_presence_changed
    add_device remove_device get_all_devices Manager.create
ghost_device agent a b h =
    let ab : name_eq a b ≡ false = name_ne a b h in
    let ba : name_eq b a ≡ false = name_ne b a (λ e. h (sym e)) in
    let aa = name_eq_self a in let bb = name_eq_self b in ground (arith, ab, ba, aa, bb)
