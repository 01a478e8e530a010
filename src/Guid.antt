-- ===== src/Guid.antt =====
-- windows/shared/notstd/guid.hxx: std::equal_to, std::less and std::hash of a GUID. A GUID is sixteen
-- bytes without padding, the numbers in little endian; std::memcmp is defined on bytes. UuidHash of
-- Windows is a parameter.
mod Order
mod Tests
use near_object_framework.Common.{
  ℕ, ◌/◌, ◌%◌, ◌<◌, ◌^◌, ◌≡◌, Bool, true, false, List, [], ◌∷◌, ◌++◌, ltb, if◌then◌else◌, length,
  Every,
}

-- GUID of Windows.
pub record Guid : Type 0 where
  pub data1 : ℕ
  pub data2 : ℕ
  pub data3 : ℕ
  pub data4 : List ℕ

-- The sizes of its members.
pub record IsGuid (g : Guid) : Type 0 where
  pub fits1 : g.data1 < 2 ^ 32
  pub fits2 : g.data2 < 2 ^ 16
  pub fits3 : g.data3 < 2 ^ 16
  pub eight : length g.data4 ≡ 8
  pub fits4 : Every (λ b. b < 256) g.data4

abbrev pub bytes_of_16 : ℕ → List ℕ
bytes_of_16 x = x % 256 ∷ x / 256 % 256 ∷ []

abbrev pub bytes_of_32 : ℕ → List ℕ
bytes_of_32 x = x % 256 ∷ x / 256 % 256 ∷ x / 65536 % 256 ∷ x / 16777216 % 256 ∷ []

-- The memory of a GUID.
pub memory : Guid → List ℕ
memory g = bytes_of_32 g.data1 ++ (bytes_of_16 g.data2 ++ (bytes_of_16 g.data3 ++ g.data4))

-- The sign of what std::memcmp returns.
pub data Sign : Type 0 where
  negative null positive : Sign

-- std::memcmp of as many bytes as there are in both.
pub memcmp : List ℕ → List ℕ → Sign
memcmp [] [] = null
memcmp [] (b ∷ bs) = null
memcmp (a ∷ l) [] = null
memcmp (a ∷ l) (b ∷ k) =
    let rest = memcmp l k in if ltb a b then negative else if ltb b a then positive else rest

abbrev pub is_null : Sign → Bool
is_null negative = false
is_null null = true
is_null positive = false

abbrev pub is_negative : Sign → Bool
is_negative negative = true
is_negative null = false
is_negative positive = false

-- std::equal_to<GUID>.
pub equal_to : Guid → Guid → Bool
unfolding memcmp memory
equal_to lhs rhs = is_null (memcmp (memory lhs) (memory rhs))

-- std::less<GUID>.
pub less : Guid → Guid → Bool
unfolding memcmp memory
less lhs rhs = is_negative (memcmp (memory lhs) (memory rhs))

-- std::hash<GUID>: what UuidHash gives for the bytes.
pub hash : (List ℕ → ℕ) → Guid → ℕ
unfolding memory
hash uuid_hash guid = uuid_hash (memory guid)

-- The interface class of UWB devices, in windows/devices/uwb/include/windows/uwb/UwbDeviceDriver.hxx.
unfoldable pub interface_class_uwb : Guid
interface_class_uwb = record {
  data1 = 0x1f49c35a;
  data2 = 0xf284;
  data3 = 0x4f81;
  data4 = 0x87 ∷ 0xd7 ∷ 0x47 ∷ 0x25 ∷ 0xa6 ∷ 0xee ∷ 0xc3 ∷ 0xe8 ∷ [];
}
