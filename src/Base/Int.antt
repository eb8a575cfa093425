-- ===== src/Base/Int.antt =====
-- Signed machine integers: their values as integers, and the value that a 64-bit pattern stands for.
use business2api.Base.Tests.{ltb, leb, if◌then◌else◌}
use Prim.Native.Nat.{ℕ, suc, ◌+◌, ◌-◌, ◌^◌, ◌%◌}

-- `negsuc n` is -(n + 1).
pub data ℤ : Type 0 where
  pos : ℕ → ℤ
  negsuc : ℕ → ℤ

-- An `int64` by its bit pattern, a number below 2 ^ 64.
unfoldable pub int64 : ℕ → ℤ
int64 w = if ltb w (2 ^ 63) then pos w else negsuc (2 ^ 64 - 1 - w)

-- A time moved by a signed duration.
unfoldable pub add_duration : ℕ → ℤ → ℕ
add_duration t (pos d) = t + d
add_duration t (negsuc d) = t - suc d

-- An `int32` by its bit pattern, a number below 2 ^ 32.
unfoldable pub int32 : ℕ → ℤ
int32 w = if ltb w (2 ^ 31) then pos w else negsuc (2 ^ 32 - 1 - w)

-- The pattern after `n` is added, with the wrap-around.
unfoldable pub add_int32 : ℕ → ℕ → ℕ
add_int32 w n = (w + n) % 2 ^ 32

-- The pattern after 1 is taken away.
unfoldable pub decrement_int32 : ℕ → ℕ
decrement_int32 w = (w + (2 ^ 32 - 1)) % 2 ^ 32

-- The difference of two numbers.
unfoldable pub difference : ℕ → ℕ → ℤ
difference a b = if leb b a then pos (a - b) else negsuc (b - a - 1)
