-- ===== src/UwbSystem/Shows.antt =====
-- The manager and the agent that show the same devices, and the notifications that keep them so.
use near_object_framework.Common.{
  ℕ, suc, ◌<◌, ◌≡◌, refl, sym, ◌∙◌, ap, Bool, true, false, ◌&&◌, ◌||◌, List, [], ◌∷◌, ◌++◌, some,
  none, arith, map, any_of, copy_if, Every, ◌==◌, ==_iff, inl, inr, Bool-cases, Option,
}
use near_object_framework.Controller.{make_controller, make_uwb_controller}
use near_object_framework.DeviceEnumerator.{Name}
use near_object_framework.DiscoveryAgent.{arrived, departed}
use near_object_framework.Manager.{
  NearObjectDeviceControllerManager, on_device_presence_changed, remove_device,
}
use near_object_framework.Manager.Devices.{devices-add_device}
use near_object_framework.UwbAgent.{
  name_eq, find, lock, Heap, Devices, add_cached_uwb_near_object_device, add_found, add_new,
  allocate, create_near_object_uwb_device,
}
use near_object_framework.UwbAgent.Cache.{name_eq_iff, Stale}
use near_object_framework.UwbSystem.{System, heard, collected}

abbrev pub Entry : Type 0
Entry = Name × ℕ

abbrev pub held_at : ℕ → List Entry → Bool
held_at a ps = any_of (λ p. p.1 == a) ps

abbrev pub among : Name → List Entry → Bool
among n ps = any_of (λ p. name_eq p.0 n) ps

abbrev pub Apart : List Entry → Type 0
Apart [] = Unit
Apart (p ∷ ps) = (among p.0 ps ≡ false) × Apart ps

-- The manager holds the devices of these entries, in order, and these devices live and no others; the
-- agent knows each under its name.
pub record Shows (s : System) (ps : List Entry) : Type 0 where
  pub held : s.manager.m_near_object_devices ≡ map (λ p. make_uwb_controller p.1) ps
  pub leads : Every (λ p. find p.0 s.devices.m_near_object_device_cache ≡ some p.1) ps
  pub lives : (a : ℕ) → lock s.devices.heap a ≡ held_at a ps
  pub below :
      (n : Name) (a : ℕ)
      → find n s.devices.m_near_object_device_cache ≡ some a
      → a < s.devices.heap.next
  pub owned :
      (n : Name) (a : ℕ)
      → find n s.devices.m_near_object_device_cache ≡ some a
      → held_at a ps ≡ true
      → among n ps ≡ true
  pub apart : Apart ps

pub any_of-snoc :
    {A : Type 0} (f : A → Bool) (xs : List A) (x : A)
    → any_of f (xs ++ x ∷ []) ≡ (any_of f xs || f x)
any_of-snoc f [] x = ground arith
any_of-snoc f (y ∷ xs) x = ground (arith, any_of-snoc f xs x)

pub any_of-copy_if :
    (p : ℕ → Bool) (a : ℕ) (live : List ℕ)
    → any_of (λ x. x == a) (copy_if p live) ≡ (p a && any_of (λ x. x == a) live)
any_of-copy_if p a [] = ground arith
any_of-copy_if p a (x ∷ live) = elim (Bool-cases (x == a)) [
  | inl same ↦
      let e : x ≡ a = (==_iff x a).0 same in ground (arith, any_of-copy_if p a live, ap p e)
  | inr other ↦ ground (arith, any_of-copy_if p a live)
]

addresses_held :
    (a : ℕ) (ps : List Entry)
    → any_of (λ d. d.address == a) (map (λ p. make_uwb_controller p.1) ps) ≡ held_at a ps
unfolding make_uwb_controller make_controller
addresses_held a [] = refl
addresses_held a (p ∷ ps) = ground (arith, addresses_held a ps)

pub lock-collected :
    (m : NearObjectDeviceControllerManager) (h : Heap) (ps : List Entry) (a : ℕ)
    → m.m_near_object_devices ≡ map (λ p. make_uwb_controller p.1) ps
    → lock (collected m h) a ≡ (held_at a ps && lock h a)
unfolding collected
lock-collected m h ps a held =
    any_of-copy_if (λ b. any_of (λ d. d.address == b) m.m_near_object_devices) a h.live
    ∙ ap (λ b. b && lock h a)
        (ap (λ ds. any_of (λ d. d.address == a) ds) held ∙ addresses_held a ps)

-- A name that leads to no device that lives gets a new one.
pub new_device :
    (name : Name) (d : Devices)
    → Stale name d
    → ((add_cached_uwb_near_object_device name d).1 ≡ d.heap.next)
      × ((add_cached_uwb_near_object_device name d).0.heap
          ≡ record { live = d.heap.next ∷ d.heap.live; next = suc d.heap.next })
unfolding add_cached_uwb_near_object_device add_found add_new allocate create_near_object_uwb_device
    Stale
new_device name d stale = found_new (find name d.m_near_object_device_cache) stale
  where
    found_new :
        (o : Option ℕ)
        → ((a : ℕ) → o ≡ some a → lock d.heap a ≡ false)
        → ((add_found name o d).1 ≡ d.heap.next)
          × ((add_found name o d).0.heap
              ≡ record { live = d.heap.next ∷ d.heap.live; next = suc d.heap.next })
    found_new none h = (refl, refl)
    found_new (some a) h = rw (h a refl) (refl, refl)

pub Stale-absent :
    (name : Name) (s : System) (ps : List Entry)
    → Shows s ps
    → among name ps ≡ false
    → Stale name s.devices
unfolding Stale
Stale-absent name s ps v absent a e = elim (Bool-cases (held_at a ps)) [
  | inl here ↦ absurd (ground (arith, v.owned name a e here))
  | inr gone ↦ v.lives a ∙ gone
]

pub map-snoc :
    {A B : Type 0} (f : A → B) (xs : List A) (x : A) → map f (xs ++ x ∷ []) ≡ map f xs ++ f x ∷ []
map-snoc f [] x = refl
map-snoc f (y ∷ xs) x = ap (λ l. f y ∷ l) (map-snoc f xs x)

pub heard_arrival :
    (agent a : ℕ) (m : NearObjectDeviceControllerManager) (ps : List Entry) (name : Name)
    → m.m_near_object_devices ≡ map (λ p. make_uwb_controller p.1) ps
    → (heard agent (some (arrived, make_uwb_controller a)) m).m_near_object_devices
      ≡ map (λ p. make_uwb_controller p.1) (ps ++ (name, a) ∷ [])
unfolding heard on_device_presence_changed
heard_arrival agent a m ps name held =
    ap (λ n. n.m_near_object_devices) (devices-add_device (make_uwb_controller a) m)
    ∙ ap (λ ds. ds ++ make_uwb_controller a ∷ []) held
    ∙ sym (map-snoc (λ p. make_uwb_controller p.1) ps (name, a))

pub heard_departure :
    (agent a : ℕ) (m : NearObjectDeviceControllerManager) (ps : List Entry) (name : Name)
    → m.m_near_object_devices ≡ map (λ p. make_uwb_controller p.1) ((name, a) ∷ ps)
    → (heard agent (some (departed, make_uwb_controller a)) m).m_near_object_devices
      ≡ map (λ p. make_uwb_controller p.1) ps
unfolding heard on_device_presence_changed remove_device make_uwb_controller make_controller
heard_departure agent a m ps name held = rw held

pub Apart-snoc :
    (ps : List Entry) (q : Entry) → Apart ps → among q.0 ps ≡ false → Apart (ps ++ q ∷ [])
Apart-snoc [] q h absent = (refl, tt)
Apart-snoc (p ∷ ps) q h absent = (
  ground (arith, any_of-snoc (λ r. name_eq r.0 p.0) ps q, name_eq_iff p.0 q.0, name_eq_iff q.0 p.0),
  Apart-snoc ps q h.1 (ground arith),
)
