-- ===== src/Base/Word.antt =====
-- 32-bit words as native numbers below 2 ^ 32. The library is built with -m32, so that `int`,
-- `unsigned int`, `long`, `unsigned long` and pointers all have 32 bits.
use Prim.Native.Nat.{ℕ, ◌+◌, ◌-◌, ◌*◌, ◌/◌, ◌%◌, ◌^◌, bit_and}
use mathlib.Core.Bool.{Bool}
use anycore_pisa.Base.Tests.{◌==◌, ltb, if◌then◌else◌}

abbrev pub word_size : ℕ
word_size = 2 ^ 32

abbrev pub sign_bit : ℕ
sign_bit = 2 ^ 31

-- A word as C makes it from a value that is too large: reduction modulo 2 ^ 32.
abbrev pub u32 : ℕ → ℕ
u32 a = a % 2 ^ 32

abbrev pub add32 : ℕ → ℕ → ℕ
add32 a b = (a + b) % 2 ^ 32

-- `-` on ℕ stops at 0, hence the modulus.
abbrev pub sub32 : ℕ → ℕ → ℕ
sub32 a b = (a + 2 ^ 32 - b) % 2 ^ 32

abbrev pub not32 : ℕ → ℕ
not32 a = 2 ^ 32 - 1 - a

infixl 75 ◌<<<◌ ◌>>>◌
abbrev pub ◌<<<◌ : ℕ → ℕ → ℕ
a <<< k = a * 2 ^ k % 2 ^ 32

abbrev pub ◌>>>◌ : ℕ → ℕ → ℕ
a >>> k = a / 2 ^ k

-- common.h: MOD(a,b) is `(a) & (b-1)` and IsPow2(a) is `!((a) & ((a) - 1))`.
unfoldable pub mod_mask : ℕ → ℕ → ℕ
mod_mask a b = bit_and a (sub32 b 1)

unfoldable pub is_pow2 : ℕ → Bool
is_pow2 a = bit_and a (sub32 a 1) == 0

-- A 16-bit or an 8-bit value, extended with its sign to a word.
abbrev pub sext16 : ℕ → ℕ
sext16 h = if ltb h (2 ^ 15) then h else h + (2 ^ 32 - 2 ^ 16)

abbrev pub sext8 : ℕ → ℕ
sext8 b = if ltb b (2 ^ 7) then b else b + (2 ^ 32 - 2 ^ 8)
