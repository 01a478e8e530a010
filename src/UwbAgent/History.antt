-- ===== src/UwbAgent/History.antt =====
-- Notifications, probes and destructions of devices in any order, against the devices that the
-- agent reports.
use near_object_framework.Common.{
  ℕ, ◌≡◌, inl, inr, Bool, true, false, not, List, [], ◌∷◌, some, ◌==◌, if◌then◌else◌, any_of,
  copy_if, Bool-cases, arith, ◌∙◌, Every,
}
use near_object_framework.Controller.{make_uwb_controller}
use near_object_framework.DeviceEnumerator.{Name}
use near_object_framework.DiscoveryAgent.{arrived, departed}
use near_object_framework.UwbAgent.{
  NotifyAction, device_interface_arrival, device_interface_removal, other_action, notified, name_eq,
  Heap, lock, Devices, find, add_names, add_found, add_cached_uwb_near_object_device,
  extract_cached_near_object_device, destroyed,
}
use near_object_framework.UwbAgent.Cache.{name_eq_self, name_eq_sound, find-erase, add_cached_lem}

-- What can happen: a notification, a probe of some names, or the last owner of a device lets it go.
pub data Happening : Type 0 where
  notifies : NotifyAction → Name → Happening
  probes : List Name → Happening
  destroys : ℕ → Happening

unfoldable pub happen : Happening → Devices → Devices
unfolding notified add_names destroyed
happen (notifies action name) d = (notified action name d).0
happen (probes names) d = (add_names names d).0
happen (destroys address) d = record d { heap = destroyed address d.heap }

unfoldable pub happens : List Happening → Devices → Devices
unfolding happen
happens [] d = d
happens (x ∷ xs) d = happens xs (happen x d)

-- The notification that a device of this name has gone, or the end of this object.
abbrev pub loses : Name → ℕ → Happening → Bool
loses name a (notifies device_interface_removal other) = name_eq other name
loses name a (notifies device_interface_arrival other) = false
loses name a (notifies other_action other) = false
loses name a (probes names) = false
loses name a (destroys b) = a == b

-- The name leads to the device, which lives.
pub Leads : Name → ℕ → Devices → Type 0
Leads name a d = (find name d.m_near_object_device_cache ≡ some a) × (lock d.heap a ≡ true)

lock-destroyed :
    (a b : ℕ) (h : Heap) → lock (destroyed b h) a ≡ (if a == b then false else lock h a)
unfolding destroyed
lock-destroyed a b h = kept h.live
  where
    kept :
        (live : List ℕ)
        → any_of (λ x. x == a) (copy_if (λ x. not (x == b)) live)
          ≡ (if a == b then false else any_of (λ x. x == a) live)
    kept [] = ground arith
    kept (x ∷ live) = ground (arith, kept live)

pub known_again :
    (name : Name) (a : ℕ) (d : Devices)
    → Leads name a d
    → add_cached_uwb_near_object_device name d ≡ (d, a)
unfolding Leads add_cached_uwb_near_object_device add_found
known_again name a d h = rw h.0 (rw h.1)

Leads-add :
    (name other : Name) (a : ℕ) (d : Devices)
    → Leads name a d
    → Leads name a (add_cached_uwb_near_object_device other d).0
unfolding Leads
Leads-add name other a d h =
    let added = add_cached_lem other d in
    elim (Bool-cases (name_eq other name)) [
      | inl same ↦
          let again = known_again name a d h in rw (name_eq_sound other name same) (rw again h)
      | inr differs ↦ (added.leads name ∙ rw differs h.0, added.others_live a h.1)
    ]

pub Leads-add_names :
    (name : Name) (others : List Name) (a : ℕ) (d : Devices)
    → Leads name a d
    → Leads name a (add_names others d).0
unfolding add_names
Leads-add_names name [] a d h = h
Leads-add_names name (other ∷ others) a d h =
    Leads-add_names name others a (add_cached_uwb_near_object_device other d).0
      (Leads-add name other a d h)

Leads-happen :
    (name : Name) (a : ℕ) (x : Happening) (d : Devices)
    → loses name a x ≡ false
    → Leads name a d
    → Leads name a (happen x d)
unfolding happen notified extract_cached_near_object_device Leads
Leads-happen name a (notifies device_interface_arrival other) d keeps h = Leads-add name other a d h
Leads-happen name a (notifies device_interface_removal other) d keeps h =
    (find-erase other name d.m_near_object_device_cache ∙ rw keeps h.0, h.1)
Leads-happen name a (notifies other_action other) d keeps h = h
Leads-happen name a (probes others) d keeps h = Leads-add_names name others a d h
Leads-happen name a (destroys b) d keeps h = (h.0, lock-destroyed a b d.heap ∙ rw keeps h.1)

pub Leads-happens :
    (name : Name) (a : ℕ) (xs : List Happening) (d : Devices)
    → Every (λ x. loses name a x ≡ false) xs
    → Leads name a d
    → Leads name a (happens xs d)
unfolding happens
Leads-happens name a [] d keeps h = h
Leads-happens name a (x ∷ xs) d keeps h =
    Leads-happens name a xs (happen x d) keeps.1 (Leads-happen name a x d keeps.0 h)

pub Leads-added :
    (name : Name) (d : Devices)
    → let r = add_cached_uwb_near_object_device name d in Leads name r.1 r.0
unfolding Leads
Leads-added name d =
    let added = add_cached_lem name d in (added.leads name ∙ rw (name_eq_self name), added.alive)

-- A device that the agent reports or finds for a name stays the device of that name: after any
-- notifications, probes and destructions, as long as it is not destroyed itself and the removal of
-- the name is not notified, an arrival under the name reports the same device again and leaves the
-- agent as it is, and a removal reports that this device has departed.
pub same_device_while_alive :
    (name : Name) (xs : List Happening) (d : Devices)
    → Every (λ x. loses name (add_cached_uwb_near_object_device name d).1 x ≡ false) xs
    → let (first, a) = add_cached_uwb_near_object_device name d in
      let later = happens xs first in
      (notified device_interface_arrival name later
        ≡ (later, some (arrived, make_uwb_controller a)))
      × ((notified device_interface_removal name later).1 ≡ some (departed, make_uwb_controller a))
unfolding notified extract_cached_near_object_device Leads
same_device_while_alive name xs d keeps =
    let (first, a) = add_cached_uwb_near_object_device name d in
    let kept = Leads-happens name a xs first keeps (Leads-added name d) in
    (rw (known_again name a (happens xs first) kept), rw kept.0 (rw kept.1))
