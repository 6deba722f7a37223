-- ===== src/Base/Ints.antt =====
-- Integers over the native numbers, for signed machine words.
use Prim.Native.Nat.{ℕ, ◌-◌, ◌^◌}
use riskr_rs.Base.Tests.{ltb, if◌then◌else◌}

-- `negsuc n` is -(n + 1).
pub data ℤ : Type 0 where
  pos : ℕ → ℤ
  negsuc : ℕ → ℤ

-- `n as i32` of a `u32`.
unfoldable pub as_i32 : ℕ → ℤ
as_i32 n = if ltb n (2 ^ 31) then pos n else negsuc (2 ^ 32 - n - 1)
