-- ===== src/Prelude/CInt.antt =====
-- The machine's integers. An `int` or a `long` (32 bits on the ARM target) is an integer of the
-- mathematics; the casts to a narrower or an unsigned type are written out.
use Prim.Native.Nat.{ℕ, ◌-◌, ◌%◌, ◌<◌}
use mathlib.Core.Path.{◌≡◌}
use mathlib.Core.Bool.{Bool, true, false}
use native.Mathlib.Omega.{arith}
use edgebox.Prelude.Tests.{ltb, ◌==◌, if◌then◌else◌}

-- `negsuc n` is -(n + 1).
pub data ℤ : Type 0 where
  pos : ℕ → ℤ
  negsuc : ℕ → ℤ

-- The value of the low 8, 16 and 32 bits in two's complement.
abbrev pub u8 : ℤ → ℕ
u8 (pos n) = n % 256
u8 (negsuc n) = 255 - n % 256

abbrev pub u16 : ℤ → ℕ
u16 (pos n) = n % 65536
u16 (negsuc n) = 65535 - n % 65536

abbrev pub u32 : ℤ → ℕ
u32 (pos n) = n % 4294967296
u32 (negsuc n) = 4294967295 - n % 4294967296

-- A sixteen-bit pattern read as a `short`, a thirty-two-bit one as an `int`.
abbrev pub s16 : ℕ → ℤ
s16 n = if ltb n 32768 then pos n else negsuc (65535 - n)

abbrev pub s32 : ℕ → ℤ
s32 n = if ltb n 2147483648 then pos n else negsuc (4294967295 - n)

abbrev pub is_negative : ℤ → Bool
is_negative (pos n) = false
is_negative (negsuc n) = true

abbrev pub eq_int : ℤ → ℤ → Bool
eq_int (pos a) (pos b) = a == b
eq_int (pos a) (negsuc b) = false
eq_int (negsuc a) (pos b) = false
eq_int (negsuc a) (negsuc b) = a == b

pub eq_int→eq : (a b : ℤ) → eq_int a b ≡ true → a ≡ b
eq_int→eq (pos a) (pos b) h = ground arith
eq_int→eq (pos a) (negsuc b) h = ground arith
eq_int→eq (negsuc a) (pos b) h = ground arith
eq_int→eq (negsuc a) (negsuc b) h = ground arith

pub eq_int_self : (a : ℤ) → eq_int a a ≡ true
eq_int_self (pos a) = ground arith
eq_int_self (negsuc a) = ground arith

-- The pattern of a `short` is the number that was stored in it.
pub u16-s16 : (n : ℕ) → n < 65536 → u16 (s16 n) ≡ n
u16-s16 n h = ground arith

pub u8-lt : (z : ℤ) → u8 z < 256
u8-lt (pos n) = omega arith
u8-lt (negsuc n) = omega arith

pub u16-lt : (z : ℤ) → u16 z < 65536
u16-lt (pos n) = omega arith
u16-lt (negsuc n) = omega arith

-- The low byte of the pattern is the low byte of the number.
pub u16-mod : (z : ℤ) → u16 z % 256 ≡ u8 z
u16-mod (pos n) = omega arith
u16-mod (negsuc n) = omega arith
