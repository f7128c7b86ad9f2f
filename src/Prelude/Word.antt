-- ===== src/Prelude/Word.antt =====
-- The widths of types.h: unsigned words are numbers below 2 ^ w, and a cast is a remainder.
use Prim.Native.Nat.{ℕ, ◌+◌, ◌-◌, ◌*◌, ◌/◌, ◌%◌, ◌^◌}
use mathlib.Core.Bool.{Bool}
use linux_based_os.Prelude.Tests.{leb}

abbrev pub u8 : ℕ → ℕ
u8 n = n % 2 ^ 8

abbrev pub u16 : ℕ → ℕ
u16 n = n % 2 ^ 16

abbrev pub u32 : ℕ → ℕ
u32 n = n % 2 ^ 32

-- `n - 1` of a 32-bit word: below 0 it is -1, all bits set.
abbrev pub decrement : ℕ → ℕ
decrement n = (n + (2 ^ 32 - 1)) % 2 ^ 32

-- `a - b` of 32-bit words.
abbrev pub subtract : ℕ → ℕ → ℕ
subtract a b = (a + (2 ^ 32 - b)) % 2 ^ 32

-- The sign of a 32-bit word that is read as an int.
abbrev pub is_negative : ℕ → Bool
is_negative n = leb (2 ^ 31) n

infixl 75 ◌<<<◌ ◌>>>◌
abbrev pub ◌<<<◌ : ℕ → ℕ → ℕ
x <<< k = x * 2 ^ k

abbrev pub ◌>>>◌ : ℕ → ℕ → ℕ
x >>> k = x / 2 ^ k
