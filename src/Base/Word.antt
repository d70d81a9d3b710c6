-- ===== src/Base/Word.antt =====
-- Unsigned machine words: a value is a plain number, and each operation wraps at its width.
use Prim.Native.Nat.{ℕ, ◌+◌, ◌-◌, ◌%◌, ◌<◌}
use mathlib.Core.Path.{◌≡◌}
use native.Mathlib.Omega.{arith}

abbrev pub u8_mod : ℕ
u8_mod = 256

abbrev pub u16_mod : ℕ
u16_mod = 65536

abbrev pub u32_mod : ℕ
u32_mod = 4294967296

-- `static_cast<uint8_t>`, and the same at the other widths.
abbrev pub u8 : ℕ → ℕ
u8 n = n % u8_mod

abbrev pub u16 : ℕ → ℕ
u16 n = n % u16_mod

abbrev pub u32 : ℕ → ℕ
u32 n = n % u32_mod

-- Unsigned subtraction wraps: the modulus is added first, since `-` on ℕ stops at 0.
abbrev pub sub_u8 : ℕ → ℕ → ℕ
sub_u8 a b = (a + u8_mod - b) % u8_mod

abbrev pub sub_u16 : ℕ → ℕ → ℕ
sub_u16 a b = (a + u16_mod - b) % u16_mod

abbrev pub sub_u32 : ℕ → ℕ → ℕ
sub_u32 a b = (a + u32_mod - b) % u32_mod

-- Elapsed time on a wrapping 32-bit counter.
pub sub_u32-add : (t d : ℕ) → t < u32_mod → d < u32_mod → sub_u32 (u32 (t + d)) t ≡ d
sub_u32-add t d ht hd = omega arith
