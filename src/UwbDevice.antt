-- ===== src/UwbDevice.antt =====
-- windows/devices/uwb: UwbDevice.{hxx,cxx}. A file handle is a number, and the handles that are open in the
-- process are listed. CreateFile of Windows is an argument of each call. wil::unique_hfile closes the handle
-- that it has when it is given another or destroyed.
mod Handles
mod Tests
use near_object_framework.Common.{ℕ, not, List, [], ◌∷◌, Option, none, some, ◌==◌, copy_if}
use near_object_framework.DeviceEnumerator.{Name}

-- What CreateFile returns for a name: a handle, or INVALID_HANDLE_VALUE.
abbrev pub CreateFile : Type 0
CreateFile = Name → Option ℕ

-- UwbDevice, with the handles that are open.
pub record UwbDevice : Type 0 where
  pub m_device_name : Name
  pub m_handle_driver : Option ℕ
  pub open_handles : List ℕ

-- UwbDevice::UwbDevice.
unfoldable pub make_uwb_device : Name → List ℕ → UwbDevice
make_uwb_device device_name open_handles = record {
  m_device_name = device_name;
  m_handle_driver = none;
  open_handles = open_handles;
}

-- UwbDevice::DeviceName.
unfoldable pub device_name_of : UwbDevice → Name
device_name_of d = d.m_device_name

abbrev pub opened : Option ℕ → List ℕ → List ℕ
opened none handles = handles
opened (some h) handles = h ∷ handles

-- CloseHandle, for a handle that is valid.
abbrev pub closed : Option ℕ → List ℕ → List ℕ
closed none handles = handles
closed (some h) handles = copy_if (λ other. not (other == h)) handles

-- UwbDevice::Initialize.
pub initialize : CreateFile → UwbDevice → UwbDevice
initialize create_file d =
    let handle_driver = create_file d.m_device_name in
    record d {
      m_handle_driver = handle_driver;
      open_handles = closed d.m_handle_driver (opened handle_driver d.open_handles);
    }

-- Calls of Initialize one after another.
pub initialize_all : List CreateFile → UwbDevice → UwbDevice
unfolding initialize
initialize_all [] d = d
initialize_all (create_file ∷ files) d = initialize_all files (initialize create_file d)

-- The implicit destructor: the handles that are open then.
pub destroy : UwbDevice → List ℕ
destroy d = closed d.m_handle_driver d.open_handles
