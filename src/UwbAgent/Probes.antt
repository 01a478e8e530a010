-- ===== src/UwbAgent/Probes.antt =====
-- What a probe finds.
use near_object_framework.Common.{
  ◌≡◌, refl, Bool, true, false, List, [], ◌∷◌, ap, not, ◌&&◌, arith, Every, sym,
}
use near_object_framework.Controller.{NearObjectDeviceController, make_uwb_controller}
use near_object_framework.DeviceEnumerator.{Name}
use near_object_framework.UwbAgent.{Devices, add_names, add_cached_uwb_near_object_device}
use near_object_framework.UwbAgent.History.{
  Leads, Leads-added, Leads-add_names, Leads-happens, known_again, Happening, happens, loses,
}

-- Each name leads to its device, in order, and the devices live.
AllLead : List Name → List NearObjectDeviceController → Devices → Type 0
AllLead [] [] d = Unit {0}
AllLead [] (c ∷ cs) d = ⊥
AllLead (n ∷ ns) [] d = ⊥
AllLead (n ∷ ns) (c ∷ cs) d =
    (Leads n c.address d × (c ≡ make_uwb_controller c.address)) × AllLead ns cs d

AllLead-add_names :
    (names : List Name) (d : Devices) → AllLead names (add_names names d).1 (add_names names d).0
unfolding AllLead add_names make_uwb_controller
AllLead-add_names [] d = tt
AllLead-add_names (name ∷ names) d =
    let (d', address) = add_cached_uwb_near_object_device name d in
    ((Leads-add_names name names address d' (Leads-added name d), refl), AllLead-add_names names d')

found_again :
    (names : List Name) (cs : List NearObjectDeviceController) (d : Devices)
    → AllLead names cs d
    → add_names names d ≡ (d, cs)
unfolding AllLead add_names
found_again [] [] d h = refl
found_again [] (c ∷ cs) d h = absurd h
found_again (n ∷ ns) [] d h = absurd h
found_again (n ∷ ns) (c ∷ cs) d h =
    rw (known_again n c.address d h.0.0)
      (rw (found_again ns cs d h.1) (ap (λ x. (d, x ∷ cs)) (sym h.0.1)))

-- What happens is neither the removal of one of the names nor the end of one of the devices.
abbrev pub spares : List Name → List NearObjectDeviceController → Happening → Bool
spares [] cs x = true
spares (n ∷ ns) [] x = true
spares (n ∷ ns) (c ∷ cs) x = not (loses n c.address x) && spares ns cs x

spares_head :
    (n : Name) (ns : List Name) (c : NearObjectDeviceController)
    (cs : List NearObjectDeviceController) (xs : List Happening)
    → Every (λ x. spares (n ∷ ns) (c ∷ cs) x ≡ true) xs
    → Every (λ x. loses n c.address x ≡ false) xs × Every (λ x. spares ns cs x ≡ true) xs
spares_head n ns c cs [] h = (tt, tt)
spares_head n ns c cs (x ∷ xs) h =
    let rest = spares_head n ns c cs xs h.1 in ((ground arith, rest.0), (ground arith, rest.1))

AllLead-happens :
    (names : List Name) (cs : List NearObjectDeviceController) (xs : List Happening) (d : Devices)
    → Every (λ x. spares names cs x ≡ true) xs
    → AllLead names cs d
    → AllLead names cs (happens xs d)
unfolding AllLead
AllLead-happens [] [] xs d spared h = tt
AllLead-happens [] (c ∷ cs) xs d spared h = h
AllLead-happens (n ∷ ns) [] xs d spared h = h
AllLead-happens (n ∷ ns) (c ∷ cs) xs d spared h =
    let (first, rest) = spares_head n ns c cs xs spared in
    ((Leads-happens n c.address xs d first h.0.0, h.0.1), AllLead-happens ns cs xs d rest h.1)

-- A second probe of some names finds the same devices in the same order as the first, and leaves the
-- agent as it is, after anything but a removal of one of the names and the end of one of the
-- devices.
pub probe_again :
    (names : List Name) (xs : List Happening) (d : Devices)
    → Every (λ x. spares names (add_names names d).1 x ≡ true) xs
    → let (first, devices) = add_names names d in
      let later = happens xs first in add_names names later ≡ (later, devices)
probe_again names xs d spared =
    let (first, devices) = add_names names d in
    let led = AllLead-happens names devices xs first spared (AllLead-add_names names d) in
    found_again names devices (happens xs first) led
