-- ===== src/Prelude/Word.antt =====
-- Go's int64: the integer that a 64-bit pattern stands for, and sums that wrap around.
use Prim.Native.Nat.{ℕ, ◌-◌, ◌%◌, ◌^◌, ◌≤◌, ◌<◌}
use mathlib.Core.Path.{◌≡◌}
use native.Mathlib.Omega.{arith}
use weave_server.Prelude.Tests.{ltb, if◌then◌else◌}
use weave_server.Prelude.Int.{ℤ, pos, negsuc, pos_part, neg_part}

-- The bit pattern of an integer in two's complement.
abbrev to_word : ℤ → ℕ
to_word (pos n) = n % 2 ^ 64
to_word (negsuc n) = 2 ^ 64 - 1 - n % 2 ^ 64

abbrev of_word : ℕ → ℤ
of_word u = if ltb u (2 ^ 63) then pos u else negsuc (2 ^ 64 - 1 - u)

-- What is left of an integer in an int64.
unfoldable pub wrap : ℤ → ℤ
wrap z = of_word (to_word z)

abbrev pub IsInt64 : ℤ → Type 0
IsInt64 z = (pos_part z < 2 ^ 63) × (neg_part z ≤ 2 ^ 63)

pub wrap_id : (z : ℤ) → IsInt64 z → wrap z ≡ z
unfolding wrap
wrap_id (pos n) h = ground arith
wrap_id (negsuc n) h = ground arith

pub wrap-IsInt64 : (z : ℤ) → IsInt64 (wrap z)
unfolding wrap
wrap-IsInt64 (pos n) = ground arith
wrap-IsInt64 (negsuc n) = ground arith
