-- ===== src/DeviceEnumerator/Tests.antt =====
-- Buffers with the names `ab` and `c`, and one without an end.
use near_object_framework.Common.{◌≡◌, ◌↔◌, refl, ℕ, List, [], ◌∷◌, none, some, Option}
use near_object_framework.DeviceEnumerator.{
  Name, ConfigurationManager, split_names, buffer_names, get_device_interface_class_instance_names,
}
use near_object_framework.DeviceEnumerator.Names.{Listed, buffer_names_iff}

abbrev buffer : List ℕ
buffer = 97 ∷ 98 ∷ 0 ∷ 99 ∷ 0 ∷ 0 ∷ 5 ∷ []

abbrev two_names : List Name
two_names = (97 ∷ 98 ∷ []) ∷ (99 ∷ []) ∷ []

abbrev manager : Option ℕ → Option (List ℕ) → ConfigurationManager
manager size list = record {
  get_device_interface_list_size = size;
  get_device_interface_list = λ n. list;
}

manager_runs :
    (get_device_interface_class_instance_names (manager (some 7) (some buffer)) ≡ some two_names)
    × (get_device_interface_class_instance_names (manager (some 7) none) ≡ some [])
    × (get_device_interface_class_instance_names (manager (some 0) none) ≡ some [])
    × (get_device_interface_class_instance_names (manager none none) ≡ some [])
unfolding get_device_interface_class_instance_names buffer_names split_names
manager_runs = (refl, refl, refl, refl)

endless_runs : buffer_names (97 ∷ 0 ∷ []) ≡ none
unfolding buffer_names split_names
endless_runs = refl

buffer_names_iff_example : (buffer_names buffer ≡ some two_names) ↔ Listed buffer two_names
buffer_names_iff_example = buffer_names_iff buffer two_names
