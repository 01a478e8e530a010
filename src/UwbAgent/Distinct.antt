-- ===== src/UwbAgent/Distinct.antt =====
-- Which devices the names of the cache lead to.
use near_object_framework.Common.{
  ℕ, suc, ◌≡◌, ◌<◌, ◌⊎◌, inl, inr, List, [], ◌∷◌, some, Bool-cases, arith, sym, ◌∙◌, subst,
}
use near_object_framework.DeviceEnumerator.{Name}
use near_object_framework.UwbAgent.{
  device_interface_arrival, device_interface_removal, other_action, notified, name_eq, Devices,
  Cache, find, erase, add_names, add_cached_uwb_near_object_device,
  extract_cached_near_object_device, destroyed,
}
use near_object_framework.UwbAgent.Cache.{name_eq_sound, find-erase, Added, add_cached_lem}
use near_object_framework.UwbAgent.History.{Happening, notifies, probes, destroys, happen, happens}

-- The devices of the cache exist, and no two names lead to one device.
pub record IsApart (d : Devices) : Type 0 where
  pub below : (n : Name) (a : ℕ) → find n d.m_near_object_device_cache ≡ some a → a < d.heap.next
  pub apart :
      (m n : Name) (a : ℕ)
      → find m d.m_near_object_device_cache ≡ some a
      → find n d.m_near_object_device_cache ≡ some a
      → m ≡ n

module _ (name : Name) (d after : Devices) where
  -- What a name leads to afterwards is the new device, or what it led to.
  after_new :
      (n : Name) (a : ℕ)
      → Added name d after d.heap.next
      → find n after.m_near_object_device_cache ≡ some a
      → ((name ≡ n) × (a ≡ d.heap.next)) ⊎ (find n d.m_near_object_device_cache ≡ some a)
  after_new n a added h = elim (Bool-cases (name_eq name n)) [
    | inl same ↦ inl (name_eq_sound name n same, ground (arith, added.leads n))
    | inr other ↦ inr (ground (arith, added.leads n))
  ]

  apart_new :
      (m n : Name) (a : ℕ)
      → ((name ≡ m) × (a ≡ d.heap.next)) ⊎ (find m d.m_near_object_device_cache ≡ some a)
      → ((name ≡ n) × (a ≡ d.heap.next)) ⊎ (find n d.m_near_object_device_cache ≡ some a)
      → IsApart d
      → m ≡ n
  apart_new m n a (inl x) (inl y) w = sym x.0 ∙ y.0
  apart_new m n a (inl x) (inr y) w = absurd (omega (arith, w.below n a y))
  apart_new m n a (inr x) (inl y) w = absurd (omega (arith, w.below m a x))
  apart_new m n a (inr x) (inr y) w = w.apart m n a x y

  below_new :
      (n : Name) (a : ℕ)
      → ((name ≡ n) × (a ≡ d.heap.next)) ⊎ (find n d.m_near_object_device_cache ≡ some a)
      → IsApart d
      → a < suc d.heap.next
  below_new n a (inl x) w = omega arith
  below_new n a (inr x) w = omega (arith, w.below n a x)

  IsApart-new :
      Added name d after d.heap.next → after.heap.next ≡ suc d.heap.next → IsApart d → IsApart after
  IsApart-new added next w = record {
    below = λ n a h. rw next (below_new n a (after_new n a added h) w);
    apart = λ m n a h k. apart_new m n a (after_new m a added h) (after_new n a added k) w;
  }

pub IsApart-Added :
    (name : Name) (d after : Devices) (address : ℕ)
    → Added name d after address
    → IsApart d
    → IsApart after
IsApart-Added name d after address added w = elim added.known_or_new [
  | inl known ↦ subst IsApart (sym known.1) w
  | inr new ↦ IsApart-new name d after (subst (λ x. Added name d after x) new.1 added) new.2 w
]

pub IsApart-add_names :
    (names : List Name) (d : Devices) → IsApart d → IsApart (add_names names d).0
unfolding add_names
IsApart-add_names [] d w = w
IsApart-add_names (name ∷ names) d w =
    let (d', address) = add_cached_uwb_near_object_device name d in
    IsApart-add_names names d' (IsApart-Added name d d' address (add_cached_lem name d) w)

pub find_erased :
    (name n : Name) (c : Cache) (a : ℕ) → find n (erase name c) ≡ some a → find n c ≡ some a
find_erased name n c a h = ground (arith, find-erase name n c)

pub IsApart-happen : (x : Happening) (d : Devices) → IsApart d → IsApart (happen x d)
unfolding happen notified extract_cached_near_object_device destroyed
IsApart-happen (notifies device_interface_arrival name) d w =
    let (d', address) = add_cached_uwb_near_object_device name d in
    IsApart-Added name d d' address (add_cached_lem name d) w
IsApart-happen (notifies device_interface_removal name) d w = record {
  below = λ n a h. w.below n a (find_erased name n d.m_near_object_device_cache a h);
  apart = λ m n a h k.
      w.apart m n a (find_erased name m d.m_near_object_device_cache a h)
        (find_erased name n d.m_near_object_device_cache a k);
}
IsApart-happen (notifies other_action name) d w = w
IsApart-happen (probes names) d w = IsApart-add_names names d w
IsApart-happen (destroys b) d w = record { below = w.below; apart = w.apart }

-- After any notifications, probes and destructions, the names of the cache lead to devices that
-- exist or have existed, and no two names lead to one device, if that is so at the start.
pub happens-IsApart : (xs : List Happening) (d : Devices) → IsApart d → IsApart (happens xs d)
unfolding happens
happens-IsApart [] d w = w
happens-IsApart (x ∷ xs) d w = happens-IsApart xs (happen x d) (IsApart-happen x d w)
