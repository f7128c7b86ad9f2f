-- ===== src/User.antt =====
-- syscalls/: the user programs, over the system calls as an interface. A call acts on what is outside
-- the program, `W`; a program's own memory is the buffers it passes, functions from an offset to
-- the byte there. Loops that the input ends run on fuel, `none` when it is used up.
pub mod Support
pub mod Numbers
pub mod Programs
pub mod Errors
pub mod Shell
pub mod Grep
pub use linux_based_os.Strings.{text}
use linux_based_os.Prelude.{
  ℕ, zero, suc, ◌+◌, ◌-◌, ◌==◌, ltb, if◌then◌else◌, ◌&&◌, ◌||◌, not, Option, none, some, ◌>>=◌, ℤ,
  pos, minus_one, store, ◌-ℤ◌,
}
use linux_based_os.Strings.{Str}
use linux_based_os.Strings.Digits.{lookup}

-- `read` and `getargs` give back the buffer they filled.
pub record Calls (W : Type 0) : Type 0 where
  pub sys_open : Str → W → ℤ × W
  pub sys_read : ℤ → Str → (nbytes : ℕ) → W → ℤ × Str × W
  pub sys_write : ℤ → Str → (nbytes : ℕ) → W → ℤ × W
  pub sys_close : ℤ → W → ℤ × W
  pub sys_getargs : Str → (nbytes : ℕ) → W → ℤ × Str × W
  pub sys_execute : Str → W → ℤ × W
  pub sys_vidmap : (screen_start : ℕ) → W → ℤ × W
  -- `int $0x80` with a number in `eax`
  pub sys_call : (num : ℤ) → W → ℤ × W

-- `s + k`
abbrev pub from : ℕ → Str → Str
from k s i = s (i + k)

-- `for (len = 0; '\0' != *s; s++, len++)`
ece391_strlen_from : (fuel : ℕ) → Str → (len : ℕ) → Option ℕ
ece391_strlen_from zero s len = none
ece391_strlen_from (suc fuel) s len =
    let rest = ece391_strlen_from fuel (from 1 s) (len + 1) in if 0 == s 0 then some len else rest

unfoldable pub ece391_strlen : (fuel : ℕ) → Str → Option ℕ
unfolding ece391_strlen_from
ece391_strlen fuel s = ece391_strlen_from fuel s 0

-- `while ('\0' != (*dst++ = *src++))`, at offset `i` of both
ece391_strcpy_from : (fuel i : ℕ) → (dst src : Str) → Option Str
ece391_strcpy_from zero i dst src = none
ece391_strcpy_from (suc fuel) i dst src =
    let rest = ece391_strcpy_from fuel (i + 1) (store dst i (src i)) src in
    if 0 == src i then some (store dst i (src i)) else rest

unfoldable pub ece391_strcpy : (fuel : ℕ) → (dst src : Str) → Option Str
unfolding ece391_strcpy_from
ece391_strcpy fuel dst src = ece391_strcpy_from fuel 0 dst src

unfoldable pub ece391_strcmp : (fuel : ℕ) → (s1 s2 : Str) → Option ℤ
unfolding ◌-ℤ◌
ece391_strcmp zero s1 s2 = none
ece391_strcmp (suc fuel) s1 s2 =
    let rest = ece391_strcmp fuel (from 1 s1) (from 1 s2) in
    if not (s1 0 == s2 0)
    then some (pos (s1 0) -ℤ pos (s2 0))
    else if s1 0 == 0
    then some (pos 0)
    else rest

-- The loop of `ece391_strncmp`, with `n` more characters to compare, `n` not 0.
ece391_strncmp_loop : (s1 s2 : Str) → (n : ℕ) → ℤ
unfolding ◌-ℤ◌
ece391_strncmp_loop s1 s2 zero = pos 0
ece391_strncmp_loop s1 s2 (suc n) =
    let rest = ece391_strncmp_loop (from 1 s1) (from 1 s2) n in
    if not (s1 0 == s2 0)
    then pos (s1 0) -ℤ pos (s2 0)
    else if (s1 0 == 0) || (n == 0)
    then pos 0
    else rest

unfoldable pub ece391_strncmp : (s1 s2 : Str) → (n : ℕ) → ℤ
unfolding ece391_strncmp_loop
ece391_strncmp s1 s2 n = if 0 == n then pos 0 else ece391_strncmp_loop s1 s2 n

module _ {W : Type 0} (sys : Calls W) (fuel : ℕ) where
  unfoldable pub ece391_fdputs : (fd : ℤ) → Str → W → Option W
  ece391_fdputs fd s w = do len ← ece391_strlen fuel s; some (sys.sys_write fd s len w).1
