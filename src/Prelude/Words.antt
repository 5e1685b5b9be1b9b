-- ===== src/Prelude/Words.antt =====
-- The widths of the machine integers that the program uses.
use Prim.Native.Nat.{ℕ, ◌%◌, ◌^◌, ◌<◌}

-- `unsigned int` and `uint32_t`.
abbrev pub u32 : ℕ → ℕ
u32 n = n % 2 ^ 32

-- `uint_fast64_t`, and `uint_fast32_t` where it has 64 bits.
abbrev pub u64 : ℕ → ℕ
u64 n = n % 2 ^ 64

abbrev pub IsByte : ℕ → Type 0
IsByte b = b < 256
