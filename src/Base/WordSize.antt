-- ===== src/Base/WordSize.antt =====
-- The moduli of the fixed-width integers of core/common.hh. `usize` is `unsigned int`.
use Prim.Native.Nat.{ℕ, ◌^◌}

abbrev pub u8_mod : ℕ
u8_mod = 2 ^ 8

abbrev pub u16_mod : ℕ
u16_mod = 2 ^ 16

abbrev pub u32_mod : ℕ
u32_mod = 2 ^ 32

abbrev pub u64_mod : ℕ
u64_mod = 2 ^ 64
