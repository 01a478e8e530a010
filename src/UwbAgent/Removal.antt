-- ===== src/UwbAgent/Removal.antt =====
-- Removals under names that lead to nothing.
use near_object_framework.Common.{◌≡◌, Bool, false, List, [], ◌∷◌, none, any_of, arith, ◌∙◌, Every}
use near_object_framework.DeviceEnumerator.{Name}
use near_object_framework.UwbAgent.{
  device_interface_arrival, device_interface_removal, other_action, notified, name_eq, Devices,
  find, add_names, add_cached_uwb_near_object_device, extract_cached_near_object_device,
}
use near_object_framework.UwbAgent.Cache.{name_eq_self, find-erase, add_cached_lem}
use near_object_framework.UwbAgent.History.{Happening, notifies, probes, destroys, happen, happens}

-- The arrival of a device of this name, by a notification or a probe.
abbrev pub adds : Name → Happening → Bool
adds name (notifies device_interface_arrival other) = name_eq other name
adds name (notifies device_interface_removal other) = false
adds name (notifies other_action other) = false
adds name (probes others) = any_of (λ other. name_eq other name) others
adds name (destroys b) = false

Unknown : Name → Devices → Type 0
Unknown name d = find name d.m_near_object_device_cache ≡ none

Unknown-add :
    (name other : Name) (d : Devices)
    → name_eq other name ≡ false
    → Unknown name d
    → Unknown name (add_cached_uwb_near_object_device other d).0
unfolding Unknown
Unknown-add name other d differs h = (add_cached_lem other d).leads name ∙ rw differs h

Unknown-add_names :
    (name : Name) (others : List Name) (d : Devices)
    → any_of (λ other. name_eq other name) others ≡ false
    → Unknown name d
    → Unknown name (add_names others d).0
unfolding add_names
Unknown-add_names name [] d absent h = h
Unknown-add_names name (other ∷ others) d absent h =
    Unknown-add_names name others (add_cached_uwb_near_object_device other d).0 (ground arith)
      (Unknown-add name other d (ground arith) h)

Unknown-happen :
    (name : Name) (x : Happening) (d : Devices)
    → adds name x ≡ false
    → Unknown name d
    → Unknown name (happen x d)
unfolding happen notified extract_cached_near_object_device Unknown
Unknown-happen name (notifies device_interface_arrival other) d absent h =
    Unknown-add name other d absent h
Unknown-happen name (notifies device_interface_removal other) d absent h =
    ground (arith, find-erase other name d.m_near_object_device_cache)
Unknown-happen name (notifies other_action other) d absent h = h
Unknown-happen name (probes others) d absent h = Unknown-add_names name others d absent h
Unknown-happen name (destroys b) d absent h = h

Unknown-happens :
    (name : Name) (xs : List Happening) (d : Devices)
    → Every (λ x. adds name x ≡ false) xs
    → Unknown name d
    → Unknown name (happens xs d)
unfolding happens
Unknown-happens name [] d absent h = h
Unknown-happens name (x ∷ xs) d absent h =
    Unknown-happens name xs (happen x d) absent.1 (Unknown-happen name x d absent.0 h)

-- Once the removal of a name has been notified, and after anything but an arrival or a probe of that
-- name, another removal of the name reports no device.
pub removal_reports_once :
    (name : Name) (xs : List Happening) (d : Devices)
    → Every (λ x. adds name x ≡ false) xs
    → (notified device_interface_removal name
        (happens xs (happen (notifies device_interface_removal name) d))).1
      ≡ none
unfolding notified extract_cached_near_object_device happen Unknown
removal_reports_once name xs d absent =
    let gone = find-erase name name d.m_near_object_device_cache ∙ rw (name_eq_self name) in
    let first = happen (notifies device_interface_removal name) d in
    rw (Unknown-happens name xs first absent gone)
