-- ===== src/Strings.antt =====
-- student-distrib/lib.c: the string functions. A string is the memory behind its pointer, a
-- function from an offset to the byte there (an `int8_t` by its bit pattern, below 256).
-- Source and destination are taken not to overlap, as their callers have it. A loop that only the
-- terminating NUL ends runs on fuel, `none` when the fuel is used up.
pub mod Compare
pub mod Digits
pub mod Copy
pub mod Length
use Prim.Native.Char.{code}
use Prim.Native.String.{String}
use linux_based_os.Prelude.{
  ℕ, zero, suc, ◌+◌, ◌-◌, ◌==◌, ltb, if◌then◌else◌, Bool, true, false, ◌&&◌, ◌||◌, not, Option,
  none, some, ℤ, pos, ◌-ℤ◌, signed8, store, for_range,
}

abbrev pub Str : Type 0
Str = ℕ → ℕ

-- A string constant and its NUL.
abbrev pub text : String → Str
text String.[] i = 0
text (String.◌∷◌ c s) zero = code c
text (String.◌∷◌ c s) (suc i) = text s i

-- `while (s[len] != '\0') len++;` from index `len`
unfoldable pub strlen_from : ℕ → Str → ℕ → Option ℕ
strlen_from zero s len = none
strlen_from (suc fuel) s len =
    let rest = strlen_from fuel s (len + 1) in if s len == 0 then some len else rest

unfoldable pub strlen : ℕ → Str → Option ℕ
unfolding strlen_from
strlen fuel s = strlen_from fuel s 0

-- The loop of `strncmp` with `left` rounds to go, at index `i`.
strncmp_from : ℕ → ℕ → Str → Str → ℤ
strncmp_from zero i s1 s2 = pos 0
strncmp_from (suc left) i s1 s2 =
    let rest = strncmp_from left (i + 1) s1 s2 in
    if not (s1 i == s2 i) || (s1 i == 0) then signed8 (s1 i) -ℤ signed8 (s2 i) else rest

unfoldable pub strncmp : Str → Str → ℕ → ℤ
unfolding strncmp_from ◌-ℤ◌
strncmp s1 s2 n = strncmp_from n 0 s1 s2

-- The second loop of `strncpy`: zeros from `i` on.
pad_from : ℕ → ℕ → Str → Str
pad_from left i dest = for_range left i (λ j d. store d j 0) dest

-- The first loop of `strncpy`, and the second behind it.
strncpy_from : ℕ → ℕ → Str → Str → Str
unfolding pad_from for_range
strncpy_from zero i dest src = dest
strncpy_from (suc left) i dest src =
    let rest = strncpy_from left (i + 1) (store dest i (src i)) src in
    if src i == 0 then pad_from (suc left) i dest else rest

unfoldable pub strncpy : Str → Str → ℕ → Str
unfolding strncpy_from
strncpy dest src n = strncpy_from n 0 dest src

-- The loop of `strcpy` from index `i`.
unfoldable pub strcpy_from : ℕ → ℕ → Str → Str → Option Str
strcpy_from zero i dest src = none
strcpy_from (suc fuel) i dest src =
    let rest = strcpy_from fuel (i + 1) (store dest i (src i)) src in
    if src i == 0 then some (store dest i 0) else rest

unfoldable pub strcpy : ℕ → Str → Str → Option Str
unfolding strcpy_from
strcpy fuel dest src = strcpy_from fuel 0 dest src
