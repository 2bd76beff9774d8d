-- ===== src/Prelude/Words.antt =====
-- Unsigned 64-bit and 32-bit arithmetic with its wrap-around, and C++ `int`s as integers.
use Prim.Native.Nat.{ℕ, ◌+◌, ◌-◌, ◌%◌, ◌^◌}
use mathlib.Core.Bool.{Bool, true}
use mini_lsm.Prelude.Tests.{leb}

abbrev pub u64 : ℕ
u64 = 2 ^ 64

abbrev pub u32 : ℕ
u32 = 2 ^ 32

abbrev pub add64 : ℕ → ℕ → ℕ
add64 a b = (a + b) % u64

abbrev pub sub64 : ℕ → ℕ → ℕ
sub64 a b = (a + u64 - b) % u64

-- `negsuc n` is -(n + 1).
pub data ℤ : Type 0 where
  pos : ℕ → ℤ
  negsuc : ℕ → ℤ

-- `n >= t` for a counter `n` that is not negative and any `int t`.
abbrev pub reached : ℕ → ℤ → Bool
reached n (pos t) = leb t n
reached n (negsuc t) = true
