-- ===== src/Guid/Tests.antt =====
-- Three GUIDs.
use near_object_framework.Common.{ℕ, ◌<◌, ◌≡◌, refl, true, false, [], ◌∷◌, arith}
use near_object_framework.Guid.{Guid, IsGuid, memory, memcmp, less, interface_class_uwb}
use near_object_framework.Guid.Order.{Compared, less-Compared, less_trans}

abbrev make_guid : ℕ → Guid
make_guid x = record {
  data1 = x;
  data2 = 0x11D2;
  data3 = 0x86B1;
  data4 = 0 ∷ 192 ∷ 79 ∷ 184 ∷ 55 ∷ 127 ∷ 0 ∷ 1 ∷ [];
}

-- The bytes are compared from the lowest of data1 on, so 256 comes before 1.
low_byte_first :
    (less (make_guid 256) (make_guid 1) ≡ true) × (less (make_guid 1) (make_guid 256) ≡ false)
unfolding less memory memcmp
low_byte_first = (refl, refl)

make_guid-IsGuid : (x : ℕ) → x < 4294967296 → IsGuid (make_guid x)
make_guid-IsGuid x h = record {
  fits1 = omega arith;
  fits2 = omega arith;
  fits3 = omega arith;
  eight = refl;
  fits4 = ground arith;
}

low_bytes_compared : Compared (make_guid 256) (make_guid 1)
low_bytes_compared =
    less-Compared (make_guid 256) (make_guid 1) (make_guid-IsGuid 256 (omega arith))
      (make_guid-IsGuid 1 (omega arith))

one_two : less (make_guid 1) (make_guid 2) ≡ true
unfolding less memory memcmp
one_two = refl

less_trans_example : less (make_guid 256) (make_guid 2) ≡ true
less_trans_example =
    less_trans (make_guid 256) (make_guid 1) (make_guid 2) (make_guid-IsGuid 256 (omega arith))
      (make_guid-IsGuid 1 (omega arith)) (make_guid-IsGuid 2 (omega arith)) low_byte_first.0 one_two

interface_class_uwb-IsGuid : IsGuid interface_class_uwb
unfolding interface_class_uwb
interface_class_uwb-IsGuid = record {
  fits1 = omega arith;
  fits2 = omega arith;
  fits3 = omega arith;
  eight = refl;
  fits4 = ground arith;
}
