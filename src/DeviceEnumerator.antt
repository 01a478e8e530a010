-- ===== src/DeviceEnumerator.antt =====
-- windows/devices/util: DeviceEnumerator.cxx. A wchar_t is a number, and `none` is a read outside
-- the buffer. The two functions of the configuration manager are parameters.
mod Names
mod Tests
use near_object_framework.Common.{
  ℕ, zero, suc, Bool, List, [], ◌∷◌, Option, none, some, ◌==◌, if◌then◌else◌, ◌>>=◌, length, drop,
}

-- The name of a device interface, a std::wstring.
abbrev pub Name : Type 0
Name = List ℕ

-- CM_Get_Device_Interface_List_Size and CM_Get_Device_Interface_List for the class: what they write,
-- or `none` where they do not return CR_SUCCESS.
pub record ConfigurationManager : Type 0 where
  pub get_device_interface_list_size : Option ℕ
  pub get_device_interface_list : ℕ → Option (List ℕ)

-- A std::wstring constructed from a pointer: the characters before the first NUL.
abbrev pub c_string : List ℕ → Option Name
c_string [] = none
c_string (c ∷ cs) = if c == 0 then some [] else (c_string cs >>= λ name. some (c ∷ name))

-- The loop over the list of names that ends in an empty one; the pointer is what is left of the
-- buffer from it.
pub split_names : ℕ → List ℕ → Option (List Name)
split_names fuel [] = none
split_names zero (c ∷ cs) = none
split_names (suc fuel) (c ∷ cs) =
    if c == 0
    then some []
    else (c_string (c ∷ cs) >>= λ name.
        split_names fuel (drop (suc (length name)) (c ∷ cs)) >>= λ names. some (name ∷ names))

-- The names in a buffer: every turn of the loop moves the pointer on.
unfoldable pub buffer_names : List ℕ → Option (List Name)
unfolding split_names
buffer_names buffer = split_names (length buffer) buffer

abbrev listed_names : Option (List ℕ) → Option (List Name)
unfolding buffer_names
listed_names none = some []
listed_names (some buffer) = buffer_names buffer

abbrev sized_names : ConfigurationManager → Option ℕ → Option (List Name)
unfolding listed_names
sized_names cm none = some []
sized_names cm (some size) =
    if size == 0 then some [] else listed_names (cm.get_device_interface_list size)

-- DeviceEnumerator::GetDeviceInterfaceClassInstanceNames.
unfoldable pub get_device_interface_class_instance_names : ConfigurationManager → Option (List Name)
unfolding sized_names
get_device_interface_class_instance_names cm = sized_names cm cm.get_device_interface_list_size
