-- ===== src/Prelude/Words.antt =====
-- Unsigned machine words. The release build of the program has no overflow checks, so `+` wraps.
use Prim.Native.Nat.{ℕ, ◌+◌, ◌%◌}

abbrev pub u8_mod : ℕ
u8_mod = 256

abbrev pub u16_mod : ℕ
u16_mod = 65536

abbrev pub u32_mod : ℕ
u32_mod = 4294967296

-- `a + b` at type `u32`, and at type `u16`.
abbrev pub add_u32 : ℕ → ℕ → ℕ
add_u32 a b = (a + b) % u32_mod

abbrev pub add_u16 : ℕ → ℕ → ℕ
add_u16 a b = (a + b) % u16_mod
