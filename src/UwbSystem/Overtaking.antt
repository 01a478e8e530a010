-- ===== src/UwbSystem/Overtaking.antt =====
-- Two notifications at once. The agent's mutex covers the cache and not the call of
-- DevicePresenceChanged, so that a removal can overtake the arrival that came before it.
use near_object_framework.Common.{
  ℕ, ◌≡◌, ◌≢◌, List, [], ◌∷◌, ◌++◌, none, some, ◌∙◌, map, Every, arith, ap,
}
use near_object_framework.Controller.{
  NearObjectDeviceController, make_controller, make_uwb_controller, controller_eq,
}
use near_object_framework.DeviceEnumerator.{Name}
use near_object_framework.DiscoveryAgent.{departed}
use near_object_framework.Manager.{
  NearObjectDeviceControllerManager, on_device_presence_changed, add_device, remove_device,
  get_all_devices, erase_first,
}
use near_object_framework.UwbAgent.{
  Devices, device_interface_arrival, device_interface_removal, notified, find,
  add_cached_uwb_near_object_device, extract_cached_near_object_device,
}
use near_object_framework.UwbAgent.Cache.{name_eq_self, find-erase, add_cached_lem}
use near_object_framework.Manager.Devices.{devices-add_device}
use near_object_framework.UwbSystem.{heard}
use near_object_framework.UwbSystem.Shows.{map-snoc}

get_all_devices-add_device :
    (a : ℕ) (m : NearObjectDeviceControllerManager)
    → get_all_devices (add_device (make_uwb_controller a) m) ≡ get_all_devices m ++ a ∷ []
unfolding get_all_devices make_uwb_controller make_controller
get_all_devices-add_device a m =
    rw (devices-add_device (make_uwb_controller a) m)
      (map-snoc (λ d. d.address) m.m_near_object_devices (make_uwb_controller a))

erase_first-split :
    (a : ℕ) (front back : List NearObjectDeviceController) (first : NearObjectDeviceController)
    → Every (λ x. x.m_device_id ≢ 0x1234) front
    → first.m_device_id ≡ 0x1234
    → erase_first (λ x. controller_eq x (make_uwb_controller a)) (front ++ first ∷ back)
      ≡ front ++ back
unfolding make_uwb_controller make_controller
erase_first-split a [] back first others same = rw same
erase_first-split a (x ∷ front) back first others same =
    ground (arith, others.0, erase_first-split a front back first others.1 same)

-- A device arrives and is removed, and the two notifications reach the cache in this order but the
-- callback in the other one, to a manager that holds devices, and a first one among them with the id
-- that all UWB devices have: the manager lets go that first one, and holds the rest in their order and
-- behind them the removed device, which the agent does not know any more.
pub removal_overtakes :
    (agent : ℕ) (name : Name) (d : Devices) (m : NearObjectDeviceControllerManager)
    (front back : List NearObjectDeviceController) (first : NearObjectDeviceController)
    → m.m_near_object_devices ≡ front ++ first ∷ back
    → Every (λ x. x.m_device_id ≢ 0x1234) front
    → first.m_device_id ≡ 0x1234
    → let (d1, arrival) = notified device_interface_arrival name d in
      let (d2, removal) = notified device_interface_removal name d1 in
      let device = (add_cached_uwb_near_object_device name d).1 in
      let after = heard agent arrival (heard agent removal m) in
      (find name d2.m_near_object_device_cache ≡ none)
      × (removal ≡ some (departed, make_uwb_controller device))
      × (get_all_devices after ≡ map (λ x. x.address) (front ++ back) ++ device ∷ [])
unfolding notified heard on_device_presence_changed extract_cached_near_object_device remove_device
    get_all_devices
removal_overtakes agent name d m front back first holds others same =
    let device : ℕ = (add_cached_uwb_near_object_device name d).1 in
    let added = add_cached_lem name d in
    let d1 = (add_cached_uwb_near_object_device name d).0 in
    let leads : find name d1.m_near_object_device_cache ≡ some device =
      added.leads name ∙ rw (name_eq_self name) in
    let left : get_all_devices (remove_device (make_uwb_controller device) m)
        ≡ map (λ x. x.address) (front ++ back) =
      rw holds
        (ap (map (λ x. x.address)) (erase_first-split device front back first others same)) in
    (
      find-erase name name _ ∙ rw (name_eq_self name),
      rw leads (rw added.alive),
      rw leads (
          rw added.alive (
            get_all_devices-add_device device (remove_device (make_uwb_controller device) m)
            ∙ ap (λ l. l ++ device ∷ []) left)),
    )
