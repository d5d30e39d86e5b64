-- ===== src/Word.antt =====
-- C's unsigned arithmetic: casts to the fixed widths, shifts, alignment, and masks.
pub mod Align
pub mod Bits
pub mod Byte
pub mod Power
mod Tests
use nokernel.Prelude.{ℕ, ◌+◌, ◌-◌, ◌*◌, ◌/◌, ◌%◌, ◌^◌, bit_and, bit_xor}

abbrev pub u8 : ℕ → ℕ
u8 n = n % 2 ^ 8

abbrev pub u16 : ℕ → ℕ
u16 n = n % 2 ^ 16

abbrev pub u32 : ℕ → ℕ
u32 n = n % 2 ^ 32

abbrev pub u64 : ℕ → ℕ
u64 n = n % 2 ^ 64

-- `a - b` in 64 and in 32 bits.
abbrev pub sub64 : ℕ → ℕ → ℕ
sub64 a b = (a + 2 ^ 64 - b) % 2 ^ 64

abbrev pub sub32 : ℕ → ℕ → ℕ
sub32 a b = (a + 2 ^ 32 - b) % 2 ^ 32

infixl 75 ◌<<◌ ◌>>◌
abbrev pub ◌<<◌ : ℕ → ℕ → ℕ
x << k = x * 2 ^ k

abbrev pub ◌>>◌ : ℕ → ℕ → ℕ
x >> k = x / 2 ^ k

-- `~x` in 64 and in 8 bits.
abbrev pub not64 : ℕ → ℕ
not64 x = bit_xor x 0xffff_ffff_ffff_ffff

abbrev pub not8 : ℕ → ℕ
not8 x = bit_xor x 0xff

-- ALIGN_UP and ALIGN_DOWN of lib/common/include/math.h, on 64-bit operands.
unfoldable pub align_up : ℕ → ℕ → ℕ
align_up x a = bit_and (sub64 (u64 (x + a)) 1) (not64 (sub64 a 1))

unfoldable pub align_down : ℕ → ℕ → ℕ
align_down x a = bit_and x (not64 (sub64 a 1))
