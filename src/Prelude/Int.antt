-- ===== src/Prelude/Int.antt =====
-- Signed integers, and the 32-bit words that hold them.
use Prim.Native.Nat.{ℕ, ◌+◌, ◌-◌, ◌/◌, ◌%◌, ◌^◌, ◌<◌, ◌≤◌}
use mathlib.Core.Path.{◌≡◌}
use mathlib.Core.Bool.{Bool, true, false, ◌||◌}
use native.Mathlib.Omega.{arith}
use open_vrrp.Prelude.Tests.{ltb, ◌==◌, if◌then◌else◌}
use open_vrrp.Prelude.Words.{u32}

-- `negsuc n` is -(n + 1).
pub data ℤ : Type 0 where
  pos : ℕ → ℤ
  negsuc : ℕ → ℤ

-- `a < b`
abbrev pub less_int : ℤ → ℤ → Bool
less_int (pos a) (pos b) = ltb a b
less_int (pos a) (negsuc b) = false
less_int (negsuc a) (pos b) = true
less_int (negsuc a) (negsuc b) = ltb b a

abbrev pub eq_int : ℤ → ℤ → Bool
eq_int (pos a) (pos b) = a == b
eq_int (negsuc a) (negsuc b) = a == b
eq_int _ _ = false

-- The quotient by 10, which C++ cuts off towards zero, and whether the rest is zero.
abbrev pub tenth : ℤ → ℤ
tenth (pos a) = pos (a / 10)
tenth (negsuc a) = if (a + 1) / 10 == 0 then pos 0 else negsuc ((a + 1) / 10 - 1)

abbrev pub is_tens : ℤ → Bool
is_tens (pos a) = a % 10 == 0
is_tens (negsuc a) = (a + 1) % 10 == 0

-- The conversion of an int to a `uint32_t`, and back.
abbrev pub word_of : ℤ → ℕ
word_of (pos a) = u32 a
word_of (negsuc a) = 2 ^ 32 - 1 - a % 2 ^ 32

-- The conversion of an int to a `uint_fast16_t`, which has 64 bits.
abbrev pub fast16_of : ℤ → ℕ
fast16_of (pos a) = a
fast16_of (negsuc a) = 2 ^ 64 - 1 - a

abbrev pub int_of : ℕ → ℤ
int_of w = if ltb w (2 ^ 31) then pos w else negsuc (2 ^ 32 - 1 - w)

-- The values of an int.
abbrev pub IsInt : ℤ → Type 0
IsInt (pos a) = a < 2 ^ 31
IsInt (negsuc a) = a < 2 ^ 31

pub int_of-word_of : (z : ℤ) → IsInt z → int_of (word_of z) ≡ z
int_of-word_of (pos a) h = ground arith
int_of-word_of (negsuc a) h = ground arith

pub word_of-int_of : (w : ℕ) → w < 2 ^ 32 → word_of (int_of w) ≡ w
word_of-int_of w h = ground arith

pub int_of-IsInt : (w : ℕ) → w < 2 ^ 32 → IsInt (int_of w)
int_of-IsInt w h = ground arith

-- A number that passes the test for a byte other than 0.
pub word_of_byte : (z : ℤ) → (less_int z (pos 1) || less_int (pos 255) z) ≡ false → word_of z ≤ 255
word_of_byte (pos n) e = ground arith
word_of_byte (negsuc n) e = cc
