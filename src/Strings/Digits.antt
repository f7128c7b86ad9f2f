-- ===== src/Strings/Digits.antt =====
-- student-distrib/lib.c: `itoa` and `strrev`. A loop that the value or the NUL ends runs on fuel.
pub mod Reverse
pub mod RoundTrip
use linux_based_os.Prelude.{
  ℕ, zero, suc, ◌+◌, ◌-◌, ◌/◌, ◌%◌, ◌==◌, ltb, if◌then◌else◌, Option, none, some, store,
}
use linux_based_os.Strings.{Str, strlen}

-- The digits of `"0123456789ABCDEFGHIJKLMNOPQRSTUVWXYZ"`, and its NUL.
abbrev pub lookup : Str
lookup i = if ltb i 10 then b'0' + i else if ltb i 36 then b'A' + (i - 10) else 0

-- `while (newval > 0)`: `newbuf` is the offset of the next digit. The result is the last `newbuf`.
unfoldable pub put_digits : (fuel newval radix newbuf : ℕ) → Str → Option (ℕ × Str)
put_digits zero newval radix newbuf buf = none
put_digits (suc fuel) newval radix newbuf buf =
    let buf1 = store buf newbuf (lookup (newval % radix)) in
    let rest = put_digits fuel (newval / radix) radix (newbuf + 1) buf1 in
    if newval == 0 then some (newbuf, buf) else rest

-- `while (beg < end)`
unfoldable pub swap_ends : (fuel beg end : ℕ) → Str → Option Str
swap_ends zero beg end s = none
swap_ends (suc fuel) beg end s =
    let rest = swap_ends fuel (beg + 1) (end - 1) (store (store s end (s beg)) beg (s end)) in
    if ltb beg end then rest else some s

-- For the empty string `end` starts at -1, and there is nothing to swap.
unfoldable pub reverse_length : (fuel : ℕ) → (len : Option ℕ) → Str → Option Str
unfolding swap_ends
reverse_length fuel none s = none
reverse_length fuel (some len) s = if len == 0 then some s else swap_ends fuel 0 (len - 1) s

unfoldable pub strrev : (fuel : ℕ) → Str → Option Str
unfolding reverse_length
strrev fuel s = reverse_length fuel (strlen fuel s) s

-- The terminating NUL, and `strrev`.
unfoldable pub finish : (fuel : ℕ) → Option (ℕ × Str) → Option Str
finish fuel none = none
finish fuel (some (newbuf, buf)) = strrev fuel (store buf newbuf 0)

unfoldable pub itoa : (fuel value : ℕ) → (buf : Str) → (radix : ℕ) → Option Str
unfolding put_digits finish
itoa fuel value buf radix =
    if value == 0
    then some (store (store buf 0 b'0') 1 0)
    else finish fuel (put_digits fuel value radix 0 buf)
