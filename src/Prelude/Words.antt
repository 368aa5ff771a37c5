-- ===== src/Prelude/Words.antt =====
-- C's integers as native numbers: an unsigned w-bit value is a number below 2 ^ w, a signed one
-- is its two's complement pattern, and every operation that may wrap says so.
use Prim.Native.Nat.{ℕ, ◌+◌, ◌-◌, ◌*◌, ◌/◌, ◌%◌, ◌^◌, ◌<◌}
use mathlib.Core.Path.{◌≡◌}
use mathlib.Core.Bool.{Bool}
use native.Mathlib.Omega.{arith}
use c_language.Prelude.Tests.{ltb, if◌then◌else◌}

abbrev pub u8 : ℕ → ℕ
u8 n = n % 2 ^ 8

abbrev pub u32 : ℕ → ℕ
u32 n = n % 2 ^ 32

abbrev pub u64 : ℕ → ℕ
u64 n = n % 2 ^ 64

infixl 75 ◌<<<◌ ◌>>>◌
abbrev pub ◌<<<◌ : ℕ → ℕ → ℕ
x <<< k = x * 2 ^ k

abbrev pub ◌>>>◌ : ℕ → ℕ → ℕ
x >>> k = x / 2 ^ k

-- Is the `int` with this pattern negative?
abbrev pub is_negative : ℕ → Bool
is_negative w = ltb (2 ^ 31 - 1) w

-- `x >> 24` of an `int`: the sign bit is copied.
abbrev pub sar24 : ℕ → ℕ
sar24 w = if is_negative w then w / 2 ^ 24 + (2 ^ 32 - 2 ^ 8) else w / 2 ^ 24

-- A `char`, widened to `int`: the pattern of the byte with its sign copied.
abbrev pub sign_extend : ℕ → ℕ
sign_extend b = if ltb b 128 then b else b + (2 ^ 32 - 2 ^ 8)

-- The byte that `putchar (x >> 24)` writes does not depend on the sign that `>>` copies.
pub sar24_byte : (w : ℕ) → w < 2 ^ 32 → u8 (sar24 w) ≡ w / 2 ^ 24
sar24_byte w h = ground arith
