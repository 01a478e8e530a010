-- ===== src/UwbDevice/Handles.antt =====
-- The handles of a device.
use near_object_framework.Common.{
  ℕ, ◌≡◌, refl, true, false, not, List, [], ◌∷◌, Option, none, some, ◌==◌, ==_self, arith, ap, ◌∙◌,
  copy_if_of_Every, Every,
}
use near_object_framework.DeviceEnumerator.{Name}
use near_object_framework.UwbDevice.{
  UwbDevice, CreateFile, make_uwb_device, opened, closed, initialize, initialize_all, destroy,
}

abbrev pub Closed : Option ℕ → List ℕ → Type 0
Closed none handles = Unit
Closed (some h) handles = Every (λ other. (not (other == h)) ≡ true) handles

-- CreateFile does not give a handle that is open.
abbrev pub Fresh : Name → List ℕ → Option ℕ → List CreateFile → Type 0
Fresh name others held [] = Unit
Fresh name others held (create_file ∷ files) =
    Closed (create_file name) (opened held others) × Fresh name others (create_file name) files

-- The device has one handle at most, on top of the others.
abbrev pub Holding : Name → List ℕ → Option ℕ → UwbDevice → Type 0
Holding name others held d =
    (d.m_device_name ≡ name) × (d.m_handle_driver ≡ held) × (d.open_handles ≡ opened held others)

-- The last handle, by the calls alone.
pub last_handle : Name → Option ℕ → List CreateFile → Option ℕ
last_handle name held [] = held
last_handle name held (create_file ∷ files) = last_handle name (create_file name) files

closed-opened :
    (held next : Option ℕ) (others : List ℕ)
    → Closed held others
    → Closed next (opened held others)
    → closed held (opened next (opened held others)) ≡ opened next others
closed-opened none next others h f = refl
closed-opened (some a) none others h f =
    rw (==_self a) (copy_if_of_Every (λ x. not (x == a)) others h)
closed-opened (some a) (some b) others h f =
    let differs : (b == a) ≡ false = ground arith in
    rw differs (rw (==_self a) (ap (λ l. b ∷ l) (copy_if_of_Every (λ x. not (x == a)) others h)))

initialized :
    (name : Name) (others : List ℕ) (held : Option ℕ) (create_file : CreateFile) (d : UwbDevice)
    → Holding name others held d
    → Closed held others
    → Closed (create_file name) (opened held others)
    → Holding name others (create_file name) (initialize create_file d)
unfolding initialize
initialized name others held create_file d h c f =
    let handle = ap create_file h.0 in
    (
      h.0,
      handle,
      ap (λ now. closed d.m_handle_driver (opened now d.open_handles)) handle
          ∙ (ap (λ l. closed d.m_handle_driver (opened (create_file name) l)) h.2
              ∙ (ap (λ old. closed old (opened (create_file name) (opened held others))) h.1
                  ∙ closed-opened held (create_file name) others c f)),
    )

Closed-fewer :
    (held next : Option ℕ) (others : List ℕ) → Closed next (opened held others) → Closed next others
Closed-fewer none next others f = f
Closed-fewer (some a) none others f = f
Closed-fewer (some a) (some b) others f = f.1

Holding-initialize_all :
    (name : Name) (others : List ℕ) (held : Option ℕ) (files : List CreateFile) (d : UwbDevice)
    → Holding name others held d
    → Closed held others
    → Fresh name others held files
    → Holding name others (last_handle name held files) (initialize_all files d)
      × Closed (last_handle name held files) others
unfolding initialize_all last_handle
Holding-initialize_all name others held [] d h c f = (h, c)
Holding-initialize_all name others held (create_file ∷ files) d h c f =
    let next = create_file name in
    Holding-initialize_all name others next files (initialize create_file d)
      (initialized name others held create_file d h c f.0) (Closed-fewer held next others f.0) f.1

closed_alone :
    (held : Option ℕ) (others : List ℕ)
    → Closed held others
    → closed held (opened held others) ≡ others
closed_alone none others h = refl
closed_alone (some a) others h = rw (==_self a) (copy_if_of_Every (λ x. not (x == a)) others h)

-- A new device and any calls of Initialize, where CreateFile gives no handle that is open already: the
-- device is open by the handle of the last call, and by none if that call failed; every handle that an
-- earlier call gave is closed, and the other handles of the process are as they were. After the device
-- has been destroyed, only those are open.
pub handles_closed :
    (name : Name) (others : List ℕ) (files : List CreateFile)
    → Fresh name others none files
    → let d = initialize_all files (make_uwb_device name others) in
      (d.m_handle_driver ≡ last_handle name none files)
      × (d.open_handles ≡ opened (last_handle name none files) others)
      × (destroy d ≡ others)
unfolding make_uwb_device destroy
handles_closed name others files f =
    let device = make_uwb_device name others in
    let over = Holding-initialize_all name others none files device (refl, refl, refl) tt f in
    let last = last_handle name none files in
    let d = initialize_all files device in
    (
      over.0.1,
      over.0.2,
      ap (λ old. closed old d.open_handles) over.0.1
          ∙ (ap (λ l. closed last l) over.0.2 ∙ closed_alone last others over.1),
    )
