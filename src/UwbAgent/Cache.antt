-- ===== src/UwbAgent/Cache.antt =====
-- The laws of the cache, and what adding a device does to it.
use near_object_framework.Common.{
  ℕ, suc, ◌≡◌, ◌↔◌, ◌⊎◌, inl, inr, refl, true, false, [], ◌∷◌, Option, none, some, ==_self,
  if◌then◌else◌, Bool-cases, arith, sym,
}
use near_object_framework.DeviceEnumerator.{Name}
use near_object_framework.UwbAgent.{
  name_eq, lock, allocate, create_near_object_uwb_device, Devices, Cache, find, erase, assign,
  add_new, add_found, add_cached_uwb_near_object_device,
}

pub name_eq_self : (n : Name) → name_eq n n ≡ true
unfolding name_eq
name_eq_self [] = refl
name_eq_self (c ∷ n) = ground (arith, name_eq_self n)

pub name_eq_sound : (m n : Name) → name_eq m n ≡ true → m ≡ n
unfolding name_eq
name_eq_sound [] [] h = refl
name_eq_sound [] (b ∷ l) h = absurd (ground arith)
name_eq_sound (a ∷ k) [] h = absurd (ground arith)
name_eq_sound (a ∷ k) (b ∷ l) h = ground (arith, name_eq_sound k l)

pub name_eq_iff : (m n : Name) → (name_eq m n ≡ true) ↔ (m ≡ n)
name_eq_iff m n = (name_eq_sound m n, λ e. rw e (name_eq_self n))

pub find-erase :
    (n m : Name) (c : Cache) → find m (erase n c) ≡ (if name_eq n m then none else find m c)
unfolding find erase
find-erase n m [] = ground arith
find-erase n m ((k, v) ∷ c) =
    ground (arith, find-erase n m c, name_eq_iff k n, name_eq_iff k m, name_eq_iff n m)

pub find-assign :
    (n m : Name) (v : ℕ) (c : Cache)
    → find m (assign n v c) ≡ (if name_eq n m then some v else find m c)
unfolding find assign
find-assign n m v [] = refl
find-assign n m v ((k, w) ∷ c) =
    ground (arith, find-assign n m v c, name_eq_iff k n, name_eq_iff k m, name_eq_iff n m)

-- The name is cached with an object that has been destroyed, or not at all.
unfoldable pub Stale : Name → Devices → Type 0
Stale name d = (a : ℕ) → find name d.m_near_object_device_cache ≡ some a → lock d.heap a ≡ false

-- A device of a name and the agent that knows it: the name leads to the device, which lives, and
-- the other names lead where they led. Either it was known, and the agent is as it was, or it is new.
pub record Added (name : Name) (d : Devices) (after : Devices) (address : ℕ) : Type 0 where
  pub leads :
      (m : Name)
      → find m after.m_near_object_device_cache
        ≡ (if name_eq name m then some address else find m d.m_near_object_device_cache)
  pub alive : lock after.heap address ≡ true
  pub others_live : (b : ℕ) → lock d.heap b ≡ true → lock after.heap b ≡ true
  pub known_or_new :
      ((find name d.m_near_object_device_cache ≡ some address) × (after ≡ d))
      ⊎ (Stale name d × (address ≡ d.heap.next) × (after.heap.next ≡ suc d.heap.next))

leads_known :
    (name m : Name) (c : Cache) (a : ℕ)
    → find name c ≡ some a
    → find m c ≡ (if name_eq name m then some a else find m c)
leads_known name m c a h = elim (Bool-cases (name_eq name m)) [
  | inl same ↦ rw same (rw (sym (name_eq_sound name m same)) h)
  | inr other ↦ rw other
]

leads_replaced :
    (name m : Name) (c : Cache) (a : ℕ)
    → find m (assign name a (erase name c)) ≡ (if name_eq name m then some a else find m c)
leads_replaced name m c a = ground (arith, find-assign name m a (erase name c), find-erase name m c)

module _ (name : Name) (d : Devices) where
  Added-new :
      find name d.m_near_object_device_cache ≡ none
      → Added name d (add_new name d).0 (add_new name d).1
  unfolding add_new allocate create_near_object_uwb_device Stale
  Added-new h = record {
    leads = λ m. find-assign name m d.heap.next d.m_near_object_device_cache;
    alive = ground (arith, ==_self d.heap.next);
    others_live = λ b old. ground arith;
    known_or_new = inr ((λ a found. absurd (ground arith)), refl, refl);
  }

  Added-found :
      (o : Option ℕ)
      → find name d.m_near_object_device_cache ≡ o
      → Added name d (add_found name o d).0 (add_found name o d).1
  unfolding add_found Stale add_new allocate create_near_object_uwb_device
  Added-found none h = Added-new h
  Added-found (some a) h = elim (Bool-cases (lock d.heap a)) [
    | inl lives ↦ rw lives (record {
      leads = λ m. leads_known name m d.m_near_object_device_cache a h;
      alive = lives;
      others_live = λ b old. old;
      known_or_new = inl (h, refl);
    })
    | inr dead ↦ rw dead (record {
      leads = λ m. leads_replaced name m d.m_near_object_device_cache d.heap.next;
      alive = ground (arith, ==_self d.heap.next);
      others_live = λ b old. ground arith;
      known_or_new = inr ((λ b found. ground arith), refl, refl);
    })
  ]

  -- AddCachedUwbNearObjectDevice gives the device that the cache has for the name, if it still
  -- lives, and changes nothing then; otherwise it gives a new device. Afterwards the device lives,
  -- the name leads to it, the other names lead where they led, and all devices that lived live.
  pub add_cached_lem : let r = add_cached_uwb_near_object_device name d in Added name d r.0 r.1
  unfolding add_cached_uwb_near_object_device
  add_cached_lem = Added-found (find name d.m_near_object_device_cache) refl
