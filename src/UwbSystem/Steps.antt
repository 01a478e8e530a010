-- ===== src/UwbSystem/Steps.antt =====
-- The notifications after which the manager and the agent show the same devices still.
use near_object_framework.Common.{
  ℕ, ◌≡◌, ◌∙◌, ap, Bool, true, false, ◌&&◌, ◌||◌, List, [], ◌∷◌, ◌++◌, some, arith, map, Every,
  ◌==◌, ==_self, Every-append, subst,
}
use near_object_framework.Controller.{make_uwb_controller}
use near_object_framework.DeviceEnumerator.{Name}
use near_object_framework.DiscoveryAgent.{departed}
use near_object_framework.UwbAgent.{
  device_interface_arrival, device_interface_removal, other_action, notified, name_eq, find, erase,
  lock, Devices, add_cached_uwb_near_object_device, extract_cached_near_object_device,
}
use near_object_framework.UwbAgent.Cache.{
  name_eq_self, name_eq_iff, find-erase, add_cached_lem, Added,
}
use near_object_framework.UwbSystem.{System, heard, notify}
use near_object_framework.UwbSystem.Shows.{
  Entry, among, held_at, Shows, any_of-snoc, lock-collected, new_device, Stale-absent,
  heard_arrival, heard_departure, Apart-snoc,
}

-- The names that the agent knew still lead where they led.
leads_kept :
    (name : Name) (d after : Devices) (a : ℕ) (ps : List Entry)
    → Added name d after a
    → among name ps ≡ false
    → Every (λ p. find p.0 d.m_near_object_device_cache ≡ some p.1) ps
    → Every (λ p. find p.0 after.m_near_object_device_cache ≡ some p.1) ps
leads_kept name d after a [] added absent h = tt
leads_kept name d after a (p ∷ ps) added absent h = (
  ground (arith, added.leads p.0, name_eq_iff name p.0, name_eq_iff p.0 name),
  leads_kept name d after a ps added (ground arith) h.1,
)

still_held :
    {x y : Bool} (a : ℕ) (old alive : Bool) (next : ℕ)
    → x ≡ (old || next == a)
    → alive ≡ old
    → y ≡ ((next == a) || alive)
    → (x && y) ≡ x
still_held a old alive next e f g = ground arith

pub Shows-arrival :
    (agent : ℕ) (name : Name) (s : System) (ps : List Entry)
    → Shows s ps
    → among name ps ≡ false
    → Shows (notify agent device_interface_arrival name s) (ps ++ (name, s.devices.heap.next) ∷ [])
unfolding notify notified
Shows-arrival agent name s ps v absent =
    let d = s.devices in
    let next = d.heap.next in
    let after = (add_cached_uwb_near_object_device name d).0 in
    let added = add_cached_lem name d in
    let new = new_device name d (Stale-absent name s ps v absent) in
    let added' : Added name d after next = subst (λ a. Added name d after a) new.0 added in
    let held =
      heard_arrival agent (add_cached_uwb_near_object_device name d).1 s.manager ps name v.held
      ∙ ap (λ a. map (λ p. make_uwb_controller p.1) (ps ++ (name, a) ∷ [])) new.0 in
    let manager = (notify agent device_interface_arrival name s).manager in
    record {
      held = held;
      leads =
          Every-append ps ((name, next) ∷ [])
            (λ p. find p.0 after.m_near_object_device_cache ≡ some p.1)
            (leads_kept name d after next ps added' absent v.leads)
            (added'.leads name ∙ rw (name_eq_self name), tt);
      lives = λ a.
          lock-collected manager after.heap (ps ++ (name, next) ∷ []) a held
          ∙ still_held a (held_at a ps) (lock d.heap a) next
              (any_of-snoc (λ p. p.1 == a) ps (name, next)) (v.lives a) (ap (λ h. lock h a) new.1);
      below = λ n a e. ground (arith, added'.leads n, v.below n a, ap (λ h. h.next) new.1);
      owned = λ n a e h. ground (
        arith,
        added'.leads n,
        v.below n a,
        v.owned n a,
        any_of-snoc (λ p. p.1 == a) ps (name, next),
        any_of-snoc (λ p. name_eq p.0 n) ps (name, next),
        name_eq_iff name n,
      );
      apart = Apart-snoc ps (name, next) v.apart absent;
    }

leads_erased :
    (name : Name) (cache : List Entry) (ps : List Entry)
    → among name ps ≡ false
    → Every (λ p. find p.0 cache ≡ some p.1) ps
    → Every (λ p. find p.0 (erase name cache) ≡ some p.1) ps
leads_erased name cache [] absent h = tt
leads_erased name cache (p ∷ ps) absent h = (
  ground (arith, find-erase name p.0 cache, name_eq_iff name p.0, name_eq_iff p.0 name),
  leads_erased name cache ps (ground arith) h.1,
)

still_held' : (rest alive first : Bool) → alive ≡ (first || rest) → (rest && alive) ≡ rest
still_held' rest alive first e = ground arith

pub Shows-removal :
    (agent : ℕ) (name : Name) (a : ℕ) (s : System) (ps : List Entry)
    → Shows s ((name, a) ∷ ps)
    → Shows (notify agent device_interface_removal name s) ps
unfolding notify notified extract_cached_near_object_device
Shows-removal agent name a s ps v =
    let found = v.leads.0 in
    let alive : lock s.devices.heap a ≡ true = v.lives a ∙ rw (==_self a) in
    let held = heard_departure agent a s.manager ps name v.held in
    let manager = heard agent (some (departed, make_uwb_controller a)) s.manager in
    let cache = s.devices.m_near_object_device_cache in
    rw found (
      rw alive (record {
        held = held;
        leads = leads_erased name cache ps v.apart.0 v.leads.1;
        lives = λ x.
            lock-collected manager s.devices.heap ps x held
            ∙ still_held' (held_at x ps) (lock s.devices.heap x) (a == x) (v.lives x);
        below = λ n x e. ground (arith, find-erase name n cache, v.below n x);
        owned = λ n x e h. ground (arith, find-erase name n cache, v.owned n x);
        apart = v.apart.1;
      }))

pub Shows-other :
    (agent : ℕ) (name : Name) (s : System) (ps : List Entry)
    → Shows s ps
    → Shows (notify agent other_action name s) ps
unfolding notify notified heard
Shows-other agent name s ps v = record {
  held = v.held;
  leads = v.leads;
  lives = λ x.
      lock-collected s.manager s.devices.heap ps x v.held
      ∙ still_held' (held_at x ps) (lock s.devices.heap x) false (v.lives x);
  below = v.below;
  owned = v.owned;
  apart = v.apart;
}
