-- ===== src/UwbDevice/Tests.antt =====
-- A device that is initialized three times, the second time without success.
use near_object_framework.Common.{◌≡◌, refl, List, [], ◌∷◌, none, some}
use near_object_framework.UwbDevice.{CreateFile, make_uwb_device, opened, initialize_all, destroy}
use near_object_framework.UwbDevice.Handles.{last_handle, handles_closed}

abbrev files : List CreateFile
files = (λ name. some 5) ∷ (λ name. none) ∷ (λ name. some 6) ∷ []

handles_closed_example :
    ((initialize_all files (make_uwb_device (b'u' ∷ []) (3 ∷ []))).m_handle_driver
      ≡ last_handle (b'u' ∷ []) none files)
    × ((initialize_all files (make_uwb_device (b'u' ∷ []) (3 ∷ []))).open_handles
        ≡ opened (last_handle (b'u' ∷ []) none files) (3 ∷ []))
    × (destroy (initialize_all files (make_uwb_device (b'u' ∷ []) (3 ∷ []))) ≡ 3 ∷ [])
handles_closed_example =
    handles_closed (b'u' ∷ []) (3 ∷ []) files ((refl, tt), (tt, ((refl, tt), tt)))
