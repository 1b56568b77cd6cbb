-- ===== src/Common/Int.antt =====
-- Signed 64-bit values as integers over the native numbers: `negsuc n` is -(n + 1).
use Prim.Native.Nat.{ℕ, suc, ◌-◌, ◌^◌}
use Prim.Native.String.{String}
use workflow_automation_go_z.Common.Tests.{ltb, if◌then◌else◌}
use workflow_automation_go_z.Common.Text.{◌<>◌, decimal}

pub data ℤ : Type 0 where
  pos : ℕ → ℤ
  negsuc : ℕ → ℤ

-- `int64(n)` of a uint, and `uint(n)` of an int64: 64 bits read with and without a sign.
unfoldable pub to_int64 : ℕ → ℤ
to_int64 n = if ltb n (2 ^ 63) then pos n else negsuc (2 ^ 64 - suc n)

unfoldable pub to_uint : ℤ → ℕ
to_uint (pos n) = n
to_uint (negsuc n) = 2 ^ 64 - suc n

-- `%d` of an int64.
unfoldable pub decimal_int : ℤ → String
unfolding decimal
decimal_int (pos n) = decimal n
decimal_int (negsuc n) = "-" <> decimal (suc n)
