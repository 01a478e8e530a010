-- ===== src/Manager/Devices.antt =====
-- The devices of the manager after arrivals and departures, counted by their ids.
use near_object_framework.Common.{
  ℕ, suc, ◌+◌, ◌-◌, ◌≡◌, refl, ◌⊎◌, inl, inr, false, List, [], ◌∷◌, ◌++◌, arith, ◌==◌, ==_iff,
  if◌then◌else◌, Bool-cases, any_of, ap, ◌≢◌, Every, map,
}
use near_object_framework.Controller.{
  NearObjectDeviceController, controller_eq, id, make_uwb_controller, make_controller,
}
use near_object_framework.DiscoveryAgent.{NearObjectDevicePresence, arrived, departed}
use near_object_framework.Manager.{
  NearObjectDeviceControllerManager, erase_first, add_device, remove_device,
  on_device_presence_changed, get_all_devices,
}

abbrev pub Presence : Type 0
Presence = NearObjectDevicePresence × NearObjectDeviceController

-- The events of an agent, one after another.
unfoldable pub present :
    ℕ → List Presence → NearObjectDeviceControllerManager → NearObjectDeviceControllerManager
present agent [] m = m
present agent ((presence, device) ∷ events) m =
    present agent events (on_device_presence_changed agent presence device m)

abbrev pub count_id : ℕ → List NearObjectDeviceController → ℕ
count_id k [] = 0
count_id k (d ∷ ds) = if id d == k then suc (count_id k ds) else count_id k ds

-- How many devices with an id there are, by the events alone: an arrival is one more, a departure
-- one less, but not below none.
abbrev pub tally : ℕ → List Presence → ℕ → ℕ
tally k [] n = n
tally k ((arrived, d) ∷ events) n = tally k events (if id d == k then n + 1 else n)
tally k ((departed, d) ∷ events) n = tally k events (if id d == k then n - 1 else n)

count_id-append :
    (k : ℕ) (ds : List NearObjectDeviceController) (d : NearObjectDeviceController)
    → count_id k (ds ++ d ∷ []) ≡ (if id d == k then count_id k ds + 1 else count_id k ds)
count_id-append k [] d = ground arith
count_id-append k (x ∷ ds) d = ground (arith, count_id-append k ds d)

count_id-erase_first :
    (k : ℕ) (ds : List NearObjectDeviceController) (d : NearObjectDeviceController)
    → count_id k (erase_first (λ existing. controller_eq existing d) ds)
      ≡ (if id d == k then count_id k ds - 1 else count_id k ds)
count_id-erase_first k [] d = ground arith
count_id-erase_first k (x ∷ ds) d = ground (arith, count_id-erase_first k ds d)

any_of-false : (ds : List NearObjectDeviceController) → any_of (λ existing. false) ds ≡ false
any_of-false [] = refl
any_of-false (d ∷ ds) = any_of-false ds

pub devices-add_device :
    (d : NearObjectDeviceController) (m : NearObjectDeviceControllerManager)
    → add_device d m ≡ record m { m_near_object_devices = m.m_near_object_devices ++ d ∷ [] }
unfolding add_device
devices-add_device d m = rw (any_of-false m.m_near_object_devices)

-- For every id, after any arrivals and departures the manager holds as many devices with that id as
-- the events say, from those that it held before.
pub count_id-present :
    (agent k : ℕ) (events : List Presence) (m : NearObjectDeviceControllerManager)
    → count_id k (present agent events m).m_near_object_devices
      ≡ tally k events (count_id k m.m_near_object_devices)
unfolding present on_device_presence_changed
count_id-present agent k [] m = refl
count_id-present agent k ((arrived, d) ∷ events) m =
    let added = devices-add_device d m in
    let counted = count_id-append k m.m_near_object_devices d in
    ground (arith, added, counted, count_id-present agent k events (add_device d m))
count_id-present agent k ((departed, d) ∷ events) m =
    let counted = count_id-erase_first k m.m_near_object_devices d in
    ground (arith, counted, count_id-present agent k events (remove_device d m))

-- A device list with one device of an id taken out, the first.
pub record FirstRemoved (k : ℕ) (before after : List NearObjectDeviceController) : Type 0 where
  pub front : List NearObjectDeviceController
  pub removed : NearObjectDeviceController
  pub rest : List NearObjectDeviceController
  pub before_split : before ≡ front ++ removed ∷ rest
  pub after_split : after ≡ front ++ rest
  pub id-removed : id removed ≡ k
  pub others : Every (λ d. id d ≢ k) front

erase_first_lem :
    (d : NearObjectDeviceController) (ds : List NearObjectDeviceController)
    → FirstRemoved (id d) ds (erase_first (λ existing. controller_eq existing d) ds)
      ⊎ (Every (λ x. id x ≢ id d) ds × (erase_first (λ existing. controller_eq existing d) ds ≡ ds))
erase_first_lem d [] = inr (tt, refl)
erase_first_lem d (x ∷ ds) = elim (Bool-cases (id x == id d)) [
  | inl same ↦ inl (record {
    front = [];
    removed = x;
    rest = ds;
    before_split = refl;
    after_split = rw same;
    id-removed = (==_iff (id x) (id d)).0 same;
    others = tt;
  })
  | inr other ↦
      let differs : id x ≢ id d = λ e. ground (arith, ==_iff (id x) (id d)) in
      elim (erase_first_lem d ds) [
        | inl r ↦ inl (record {
          front = x ∷ r.front;
          removed = r.removed;
          rest = r.rest;
          before_split = ap (λ l. x ∷ l) r.before_split;
          after_split = rw other (ap (λ l. x ∷ l) r.after_split);
          id-removed = r.id-removed;
          others = (differs, r.others);
        })
        | inr r ↦ inr ((differs, r.0), rw other (ap (λ l. x ∷ l) r.1))
      ]
]

-- RemoveDevice takes the first device with the id of the device that it is given out of the list,
-- and changes nothing else; if there is none with that id, it changes nothing.
pub remove_device_lem :
    (d : NearObjectDeviceController) (m : NearObjectDeviceControllerManager)
    → (FirstRemoved (id d) m.m_near_object_devices (remove_device d m).m_near_object_devices
        × ((remove_device d m).m_discovery_agents ≡ m.m_discovery_agents))
      ⊎ (Every (λ x. id x ≢ id d) m.m_near_object_devices × (remove_device d m ≡ m))
unfolding remove_device
remove_device_lem d m = elim (erase_first_lem d m.m_near_object_devices) [
  | inl r ↦ inl (r, refl)
  | inr r ↦ inr (r.0, ap (λ ds. record m { m_near_object_devices = ds }) r.1)
]

addresses-uwb : (xs : List ℕ) → map (λ d. d.address) (map make_uwb_controller xs) ≡ xs
unfolding make_uwb_controller make_controller
addresses-uwb [] = refl
addresses-uwb (x ∷ xs) = ap (λ l. x ∷ l) (addresses-uwb xs)

-- All UWB controllers have the same id, so with UWB controllers at any addresses the departure of
-- one removes the oldest, whichever it is.
pub uwb_departure_removes_oldest :
    (agent a b : ℕ) (younger : List ℕ) (m : NearObjectDeviceControllerManager)
    → m.m_near_object_devices ≡ map make_uwb_controller (a ∷ younger)
    → get_all_devices (on_device_presence_changed agent departed (make_uwb_controller b) m)
      ≡ younger
unfolding on_device_presence_changed remove_device get_all_devices make_uwb_controller
    make_controller
uwb_departure_removes_oldest agent a b younger m h = rw h (addresses-uwb younger)
