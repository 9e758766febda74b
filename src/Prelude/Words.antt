-- ===== src/Prelude/Words.antt =====
-- `uint32_t` as native numbers below 2 ^ 32, with the wrap-around written out.
use Prim.Native.Nat.{ℕ, ◌+◌, ◌-◌, ◌%◌, ◌^◌}

abbrev pub u32_mod : ℕ
u32_mod = 2 ^ 32

-- UINT32_MAX
abbrev pub uint32_max : ℕ
uint32_max = 2 ^ 32 - 1

abbrev pub add32 : ℕ → ℕ → ℕ
add32 m n = (m + n) % u32_mod

abbrev pub sub32 : ℕ → ℕ → ℕ
sub32 m n = (m + u32_mod - n) % u32_mod
