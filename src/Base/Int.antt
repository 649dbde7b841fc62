-- ===== src/Base/Int.antt =====
-- Signed integers: `negsuc n` is -(n + 1). An `int64` or `int16` field is such a value in range.
use Prim.Native.Nat.{ℕ, ◌+◌, ◌-◌, ◌%◌, ◌^◌, ◌<◌}
use mathlib.Core.Path.{◌≡◌}
use mathlib.Core.Bool.{Bool, true, false, not}
use mathlib.Core.Option.{Option, none, some}
use native.Mathlib.Omega.{arith}
use dmarcparser.Base.Tests.{ltb, if◌then◌else◌}

pub data ℤ : Type 0 where
  pos : ℕ → ℤ
  negsuc : ℕ → ℤ

-- `a < b`
unfoldable pub lt_int : ℤ → ℤ → Bool
lt_int (pos a) (pos b) = ltb a b
lt_int (pos a) (negsuc b) = false
lt_int (negsuc a) (pos b) = true
lt_int (negsuc a) (negsuc b) = ltb b a

-- a + b, of any size
unfoldable pub add_int : ℤ → ℤ → ℤ
add_int (pos a) (pos b) = pos (a + b)
add_int (pos a) (negsuc b) = if ltb b a then pos (a - b - 1) else negsuc (b - a)
add_int (negsuc a) (pos b) = if ltb a b then pos (b - a - 1) else negsuc (a - b)
add_int (negsuc a) (negsuc b) = negsuc (a + b + 1)

-- The value that an int64 holds after an addition that left its range.
unfoldable pub wrap64 : ℤ → ℤ
wrap64 (pos n) =
    if ltb (n % 2 ^ 64) (2 ^ 63) then pos (n % 2 ^ 64) else negsuc (2 ^ 64 - n % 2 ^ 64 - 1)
wrap64 (negsuc n) =
    if ltb (n % 2 ^ 64) (2 ^ 63) then negsuc (n % 2 ^ 64) else pos (2 ^ 64 - n % 2 ^ 64 - 1)

-- `a + b` on int64
unfoldable pub add64 : ℤ → ℤ → ℤ
unfolding add_int wrap64
add64 a b = wrap64 (add_int a b)

-- No wrap where the sum of two counts fits.
pub add64_pos : (a b : ℕ) → a + b < 2 ^ 63 → add64 (pos a) (pos b) ≡ pos (a + b)
unfolding add64
add64_pos a b h = ground arith

-- the range of an int64, and of a bigint column
abbrev pub is_bigint : ℤ → Bool
is_bigint (pos n) = ltb n (2 ^ 63)
is_bigint (negsuc n) = ltb n (2 ^ 63)

-- `a + b` of two bigint values: an error if it is out of range
unfoldable pub add_bigint : ℤ → ℤ → Option ℤ
unfolding add_int
add_bigint a b = let s = add_int a b in if is_bigint s then some s else none

-- `a ≤ b`
abbrev pub le_int : ℤ → ℤ → Bool
le_int a b = not (lt_int b a)
