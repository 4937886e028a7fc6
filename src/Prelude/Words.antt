-- ===== src/Prelude/Words.antt =====
-- Machine words as native numbers. An unsigned word wraps by `%`; a signed word is kept as the bit
-- pattern of its two's complement, and the tests that read its sign are written out.
use Prim.Native.Nat.{ℕ, ◌+◌, ◌-◌, ◌%◌}
use mathlib.Core.Bool.{Bool, ◌&&◌}
use stin_g.Prelude.Tests.{ltb, leb, if◌then◌else◌}

abbrev pub u8 : ℕ → ℕ
u8 n = n % 0x100

abbrev pub u16 : ℕ → ℕ
u16 n = n % 0x10000

abbrev pub u32 : ℕ → ℕ
u32 n = n % 0x100000000

-- `a - b` as an unsigned word of 16 or of 32 bits; both arguments are such words.
abbrev pub sub16 : ℕ → ℕ → ℕ
sub16 a b = (a + 0x10000 - b) % 0x10000

abbrev pub sub32 : ℕ → ℕ → ℕ
sub32 a b = (a + 0x100000000 - b) % 0x100000000

-- The signs of a word read as `int16` or `int32`.
abbrev pub is_neg16 : ℕ → Bool
is_neg16 a = leb 0x8000 a

abbrev pub is_neg32 : ℕ → Bool
is_neg32 a = leb 0x80000000 a

abbrev pub is_pos16 : ℕ → Bool
is_pos16 a = ltb 0 a && ltb a 0x8000

abbrev pub is_pos32 : ℕ → Bool
is_pos32 a = ltb 0 a && ltb a 0x80000000

-- The conversion of an `int16` to a word of 32 bits.
abbrev pub extend : ℕ → ℕ
extend a = if is_neg16 a then a + 0xffff0000 else a
