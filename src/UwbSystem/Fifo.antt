-- ===== src/UwbSystem/Fifo.antt =====
-- Devices that leave in the order in which they came.
use near_object_framework.Common.{
  ℕ, ◌≡◌, refl, ◌∙◌, ap, false, ◌||◌, List, [], ◌∷◌, ◌++◌, arith, map, any_of, subst,
}
use near_object_framework.DeviceEnumerator.{Name}
use near_object_framework.Manager
use near_object_framework.Manager.{
  NearObjectDeviceControllerManager, on_device_presence_changed, add_device, remove_device,
}
use near_object_framework.UwbAgent.{
  NotifyAction, device_interface_arrival, device_interface_removal, other_action, name_eq, find,
}
use near_object_framework.UwbSystem.{System, notify, notify_all, create}
use near_object_framework.UwbSystem.Shows.{Entry, among, Shows, map-snoc}
use near_object_framework.UwbSystem.Steps.{Shows-arrival, Shows-removal, Shows-other}

-- Notifications under which a device arrives under a name that is not present, and the device that leaves
-- is the one that has been there longest: the names that are present before and after.
pub data Fifo : List Name → List (NotifyAction × Name) → List Name → Type 0 where
  over : {present : List Name} → Fifo present [] present
  arrives :
      {present after : List Name} {ns : List (NotifyAction × Name)} (name : Name)
      → any_of (λ n. name_eq n name) present ≡ false
      → Fifo (present ++ name ∷ []) ns after
      → Fifo present ((device_interface_arrival, name) ∷ ns) after
  leaves :
      {present after : List Name} {ns : List (NotifyAction × Name)} (name : Name)
      → Fifo present ns after
      → Fifo (name ∷ present) ((device_interface_removal, name) ∷ ns) after
  nothing :
      {present after : List Name} {ns : List (NotifyAction × Name)} (name : Name)
      → Fifo present ns after
      → Fifo present ((other_action, name) ∷ ns) after

-- The system shows the names that are present.
pub record Mirrors (s : System) (present : List Name) : Type 0 where
  pub entries : List Entry
  pub names : map (λ p. p.0) entries ≡ present
  pub shows : Shows s entries

among_names :
    (name : Name) (ps : List Entry)
    → among name ps ≡ any_of (λ n. name_eq n name) (map (λ p. p.0) ps)
among_names name [] = refl
among_names name (p ∷ ps) = ap (λ b. name_eq p.0 name || b) (among_names name ps)

first_entry :
    (name : Name) (present : List Name) (ps : List Entry)
    → map (λ p. p.0) ps ≡ name ∷ present
    → (a : ℕ) × (rest : List Entry) × (ps ≡ (name, a) ∷ rest) × (map (λ p. p.0) rest ≡ present)
first_entry name present [] e = absurd (ground arith)
first_entry name present ((n, a) ∷ ps) e = (a, ps, ground arith, ground arith)

Fifo-Mirrors :
    {present after : List Name} {ns : List (NotifyAction × Name)} (agent : ℕ) (s : System)
    → Fifo present ns after
    → Mirrors s present
    → Mirrors (notify_all agent ns s) after
unfolding notify_all
Fifo-Mirrors agent s over m = m
Fifo-Mirrors agent s (arrives name absent f) m =
    Fifo-Mirrors agent (notify agent device_interface_arrival name s) f (record {
      entries = m.entries ++ (name, s.devices.heap.next) ∷ [];
      names =
          map-snoc (λ p. p.0) m.entries (name, s.devices.heap.next)
          ∙ ap (λ l. l ++ name ∷ []) m.names;
      shows =
          Shows-arrival agent name s m.entries m.shows (
            among_names name m.entries ∙ ap (λ l. any_of (λ n. name_eq n name) l) m.names ∙ absent);
    })
Fifo-Mirrors agent s (leaves {present} name f) m =
    let (a, rest, e, names) = first_entry name present m.entries m.names in
    Fifo-Mirrors agent (notify agent device_interface_removal name s) f (record {
      entries = rest;
      names = names;
      shows = Shows-removal agent name a s rest (subst (Shows s) e m.shows);
    })
Fifo-Mirrors agent s (nothing name f) m =
    Fifo-Mirrors agent (notify agent other_action name s) f (record {
      entries = m.entries;
      names = m.names;
      shows = Shows-other agent name s m.entries m.shows;
    })

-- From a new agent on, and a new manager that alone owns the devices, whatever arrives and leaves
-- as long as the devices leave in the order in which they came: the manager holds one device for
-- each name that is present, in the order of their arrival, the agent knows each of them under its
-- name, and no other device lives.
pub notify_all-Mirrors :
    {present : List Name} {ns : List (NotifyAction × Name)} (agent : ℕ)
    → Fifo [] ns present
    → Mirrors (notify_all agent ns create) present
unfolding create Manager.create find
notify_all-Mirrors agent f = Fifo-Mirrors agent create f (record {
  entries = [];
  names = refl;
  shows = record {
    held = refl;
    leads = tt;
    lives = λ a. refl;
    below = λ n a e. absurd (ground arith);
    owned = λ n a e h. absurd (ground arith);
    apart = tt;
  };
})
