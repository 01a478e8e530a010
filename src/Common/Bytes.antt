-- ===== src/Common/Bytes.antt =====
-- Bytes as numbers below 256, and the bit operations on them by tables.
use Prim.Native.Nat.{ℕ, zero, suc, ◌+◌, ◌*◌, ◌%◌, ◌<◌, bit_or}
use mathlib.Core.Path.{◌≡◌, refl}
use mathlib.Core.Bool.{Bool, true, false}
use mathlib.Core.List.{List, [], ◌∷◌}
use native.Mathlib.Omega.{arith}
use near_object_framework.Common.Tests.{◌==◌, ==_iff}

-- Every element of a std::byte buffer is below 256.
abbrev pub AreBytes : List ℕ → Type 0
AreBytes [] = Unit {0}
AreBytes (x ∷ xs) = (x < 256) × AreBytes xs

-- A test passes at every number below a limit.
passes_below : (ℕ → Bool) → ℕ → Bool
passes_below test zero = true
passes_below test (suc k) = elim (test k) [ true ↦ passes_below test k | false ↦ false ]

passes_below-at :
    (test : ℕ → Bool) (limit i : ℕ) → i < limit → passes_below test limit ≡ true → test i ≡ true
unfolding passes_below
passes_below-at test zero i below table = absurd (omega arith)
passes_below-at test (suc k) i below table = ground (arith, passes_below-at test k i)

-- Whether the shift and the bit_or of two bytes give the number that they write.
abbrev joins : ℕ → ℕ → Bool
joins hi lo = bit_or (hi * 256 % 65536) lo == hi * 256 + lo

joins_table : passes_below (λ hi. passes_below (joins hi) 256) 256 ≡ true
unfolding passes_below
joins_table = refl

-- `x <<= 8; x |= y` on a uint16_t joins two bytes.
pub bit_or_bytes : (hi lo : ℕ) → hi < 256 → lo < 256 → bit_or (hi * 256 % 65536) lo ≡ hi * 256 + lo
bit_or_bytes hi lo h l =
    let row = passes_below-at (λ a. passes_below (joins a) 256) 256 hi h joins_table in
    (==_iff _ (hi * 256 + lo)).0 (passes_below-at (joins hi) 256 lo l row)
