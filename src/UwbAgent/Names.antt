-- ===== src/UwbAgent/Names.antt =====
-- Which device a controller was made for.
use near_object_framework.Common.{
  ℕ, ◌≡◌, refl, inl, inr, false, List, [], ◌∷◌, Option, none, some, Bool-cases, arith, sym, ◌∙◌,
  subst, ap, ◌==◌, if◌then◌else◌,
}
use near_object_framework.DeviceEnumerator.{Name}
use near_object_framework.Controller.{
  NearObjectDeviceControllerUwb, make_controller_of, make_uwb_controller, make_controller,
}
use near_object_framework.UwbDevice.{UwbDevice, make_uwb_device, device_name_of}
use near_object_framework.UwbAgent.{
  device_interface_arrival, device_interface_removal, other_action, notified, name_eq, Devices,
  lock, find, add_names, add_new, add_found, allocate, create_near_object_uwb_device,
  add_cached_uwb_near_object_device, extract_cached_near_object_device, destroyed, extracted,
}
use near_object_framework.UwbAgent.Cache.{name_eq_sound, name_eq_self, Added, add_cached_lem, Stale}
use near_object_framework.UwbAgent.History.{Happening, notifies, probes, destroys, happen, happens}
use near_object_framework.UwbAgent.Distinct.{IsApart, IsApart-Added, IsApart-happen, find_erased}

-- The name of the UwbDevice of a controller, by its address.
abbrev pub name_of : ℕ → List (NearObjectDeviceControllerUwb UwbDevice) → Option Name
name_of a [] = none
name_of a (c ∷ made) =
    if c.controller.address == a then some (device_name_of c.m_uwb_device) else name_of a made

-- The names of the cache lead to controllers of devices with these names.
pub record IsNamed (d : Devices) : Type 0 where
  pub separate : IsApart d
  pub named :
      (n : Name) (a : ℕ)
      → find n d.m_near_object_device_cache ≡ some a
      → name_of a d.controllers ≡ some n

abbrev made_new : Name → Devices → NearObjectDeviceControllerUwb UwbDevice
made_new name d = make_controller_of d.heap.next (make_uwb_device name [])

new_controller :
    (name : Name) (d : Devices)
    → Stale name d
    → (add_cached_uwb_near_object_device name d).0.controllers ≡ made_new name d ∷ d.controllers
unfolding add_cached_uwb_near_object_device add_found add_new allocate create_near_object_uwb_device
    Stale
new_controller name d stale = found_new (find name d.m_near_object_device_cache) stale
  where
    found_new :
        (o : Option ℕ)
        → ((a : ℕ) → o ≡ some a → lock d.heap a ≡ false)
        → (add_found name o d).0.controllers ≡ made_new name d ∷ d.controllers
    found_new none h = refl
    found_new (some a) h = rw (h a refl)

named_new :
    (name : Name) (d after : Devices) (n : Name) (a : ℕ)
    → Added name d after d.heap.next
    → after.controllers ≡ made_new name d ∷ d.controllers
    → IsNamed d
    → find n after.m_near_object_device_cache ≡ some a
    → name_of a after.controllers ≡ some n
unfolding make_controller_of make_uwb_controller make_controller make_uwb_device device_name_of
named_new name d after n a added made w e = rw made (elim (Bool-cases (name_eq name n)) [
  | inl same ↦
      let new : d.heap.next ≡ a = ground (arith, added.leads n) in
      let equal = name_eq_sound name n same in ground (arith, ap (λ x. some x) equal)
  | inr other ↦
      let old : find n d.m_near_object_device_cache ≡ some a = ground (arith, added.leads n) in
      let known = w.named n a old in let less = w.separate.below n a old in ground arith
])

IsNamed-Added :
    (name : Name) (d : Devices) → IsNamed d → IsNamed (add_cached_uwb_near_object_device name d).0
IsNamed-Added name d w =
    let (after, address) = add_cached_uwb_near_object_device name d in
    let added = add_cached_lem name d in
    elim added.known_or_new [
      | inl known ↦ subst IsNamed (sym known.1) w
      | inr new ↦ record {
        separate = IsApart-Added name d after address added w.separate;
        named = λ n a e.
            named_new name d after n a (subst (λ x. Added name d after x) new.1 added)
              (new_controller name d new.0) w e;
      }
    ]

IsNamed-add_names : (names : List Name) (d : Devices) → IsNamed d → IsNamed (add_names names d).0
unfolding add_names
IsNamed-add_names [] d w = w
IsNamed-add_names (name ∷ names) d w =
    IsNamed-add_names names (add_cached_uwb_near_object_device name d).0 (IsNamed-Added name d w)

IsNamed-happen : (x : Happening) (d : Devices) → IsNamed d → IsNamed (happen x d)
unfolding happen notified extract_cached_near_object_device destroyed
IsNamed-happen (notifies device_interface_arrival name) d w = IsNamed-Added name d w
IsNamed-happen (notifies device_interface_removal name) d w = record {
  separate = IsApart-happen (notifies device_interface_removal name) d w.separate;
  named = λ n a e. w.named n a (find_erased name n d.m_near_object_device_cache a e);
}
IsNamed-happen (notifies other_action name) d w = w
IsNamed-happen (probes names) d w = IsNamed-add_names names d w
IsNamed-happen (destroys b) d w = record {
  separate = IsApart-happen (destroys b) d w.separate;
  named = w.named;
}

pub happens-IsNamed : (xs : List Happening) (d : Devices) → IsNamed d → IsNamed (happens xs d)
unfolding happens
happens-IsNamed [] d w = w
happens-IsNamed (x ∷ xs) d w = happens-IsNamed xs (happen x d) (IsNamed-happen x d w)

-- The device, if there is one, was made for the name.
abbrev pub MadeFor : Name → Devices → Option ℕ → Type 0
MadeFor name d none = Unit
MadeFor name d (some a) = name_of a d.controllers ≡ some name

MadeFor-extracted :
    (name : Name) (d : Devices) (o : Option ℕ)
    → find name d.m_near_object_device_cache ≡ o
    → IsNamed d
    → MadeFor name d (extracted d.heap o)
MadeFor-extracted name d none e w = tt
MadeFor-extracted name d (some a) e w = elim (Bool-cases (lock d.heap a)) [
  | inl lives ↦ rw lives (w.named name a e)
  | inr dead ↦ rw dead tt
]

-- Where the names of the cache lead to controllers of devices with these names, and after any
-- notifications, probes and destructions: the controller that an arrival or a probe of a name gives
-- stands for the UwbDevice that was made with that name, and so does the one that a removal of the name
-- reports, if it reports one.
pub happens-MadeFor :
    (name : Name) (xs : List Happening) (d : Devices)
    → IsNamed d
    → let later = happens xs d in
      let (after, address) = add_cached_uwb_near_object_device name later in
      (name_of address after.controllers ≡ some name)
      × MadeFor name later (extract_cached_near_object_device name later).1
unfolding extract_cached_near_object_device
happens-MadeFor name xs d w =
    let later = happens xs d in
    let (after, address) = add_cached_uwb_near_object_device name later in
    let now = happens-IsNamed xs d w in
    let added = add_cached_lem name later in
    (
      (IsNamed-Added name later now).named name address (added.leads name ∙ rw (name_eq_self name)),
      MadeFor-extracted name later (find name later.m_near_object_device_cache) refl now,
    )
