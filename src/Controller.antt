-- ===== src/Controller.antt =====
-- lib/nearobject/service: NearObjectDeviceController.{hxx,cxx} and NearObjectDeviceControllerUwb.{hxx,
-- cxx}. A controller stands behind a std::shared_ptr and has an address; a pointer to a session is
-- its address.
mod Sessions
mod Tests
use near_object_framework.Common.{ℕ, Bool, List, [], ◌∷◌, ◌++◌, Option, none, some, ◌==◌}

-- NearObjectDeviceController. `m_sessions` are weak pointers.
pub record NearObjectDeviceController : Type 0 where
  pub address : ℕ
  pub m_device_id : ℕ
  pub m_sessions : List ℕ

-- NearObjectDeviceController::StartSessionResult.
pub record StartSessionResult : Type 0 where
  pub session : Option ℕ

-- The constructor, at the address that the allocation gives.
unfoldable pub make_controller : ℕ → ℕ → NearObjectDeviceController
make_controller address device_id = record {
  address = address;
  m_device_id = device_id;
  m_sessions = [];
}

-- NearObjectDeviceController::Id.
abbrev pub id : NearObjectDeviceController → ℕ
id c = c.m_device_id

-- operator== of NearObjectDeviceController.
abbrev pub controller_eq : NearObjectDeviceController → NearObjectDeviceController → Bool
controller_eq a b = id a == id b

-- The profile and the callbacks that a caller passes, as types; StartSessionImpl is pure virtual.
pub record StartSessionImpl (Profile Callbacks : Type 0) : Type 0 where
  pub start_session_impl : Profile → Callbacks → StartSessionResult

-- A session that was started is appended.
abbrev pub track : Option ℕ → NearObjectDeviceController → NearObjectDeviceController
track none c = c
track (some session) c = record c { m_sessions = c.m_sessions ++ session ∷ [] }

module _ {Profile Callbacks : Type 0} where
  -- NearObjectDeviceController::StartSession.
  pub start_session :
      StartSessionImpl Profile Callbacks
      → Profile
      → Callbacks
      → NearObjectDeviceController
      → NearObjectDeviceController × StartSessionResult
  start_session impl profile callbacks c =
      let result = impl.start_session_impl profile callbacks in (track result.session c, result)

  -- Calls of StartSession one after another, with their results.
  pub start_sessions :
      StartSessionImpl Profile Callbacks
      → List (Profile × Callbacks)
      → NearObjectDeviceController
      → NearObjectDeviceController × List StartSessionResult
  start_sessions impl [] c = (c, [])
  start_sessions impl ((p, k) ∷ calls) c =
      let (c', r) = start_session impl p k c in
      let (c'', rs) = start_sessions impl calls c' in (c'', r ∷ rs)

  -- NearObjectDeviceControllerUwb::StartSessionImpl.
  pub uwb_start_session : StartSessionImpl Profile Callbacks
  uwb_start_session = record { start_session_impl = λ _ _. record { session = none } }

abbrev pub device_id_fallback : ℕ
device_id_fallback = 0x1234

-- The base of a NearObjectDeviceControllerUwb: every one has the same id.
unfoldable pub make_uwb_controller : ℕ → NearObjectDeviceController
unfolding make_controller
make_uwb_controller address = make_controller address device_id_fallback

-- NearObjectDeviceControllerUwb with the device that it owns.
pub record NearObjectDeviceControllerUwb (D : Type 0) : Type 0 where
  pub controller : NearObjectDeviceController
  pub m_uwb_device : D

-- NearObjectDeviceControllerUwb::NearObjectDeviceControllerUwb.
unfoldable pub make_controller_of : {D : Type 0} → ℕ → D → NearObjectDeviceControllerUwb D
unfolding make_uwb_controller
make_controller_of address uwb_device = record {
  controller = make_uwb_controller address;
  m_uwb_device = uwb_device;
}
