-- ===== src/Prelude/Word.antt =====
-- Go's int64 as its bit pattern: a number below 2 ^ 64, negative from 2 ^ 63 on.
use Prim.Native.Nat.{ℕ, ◌+◌, ◌%◌, ◌^◌, ◌<◌}
use mathlib.Core.Logic.{◌≢◌}
use mathlib.Core.Bool.{Bool, ◌&&◌}
use native.Mathlib.Omega.{arith}
use xgoal.Prelude.Tests.{ltb}

abbrev pub Int64 : Type 0
Int64 = ℕ

abbrev pub IsInt64 : Int64 → Type 0
IsInt64 n = n < 2 ^ 64

-- n > 0
unfoldable pub is_positive : Int64 → Bool
is_positive n = ltb 0 n && ltb n (2 ^ 63)

-- n++
unfoldable pub incr : Int64 → Int64
incr n = (n + 1) % 2 ^ 64

pub incr-IsInt64 : (n : Int64) → IsInt64 (incr n)
unfolding incr
incr-IsInt64 n = omega arith

pub incr-ne_self : (n : Int64) → IsInt64 n → n ≢ incr n
unfolding incr
incr-ne_self n h = omega arith
