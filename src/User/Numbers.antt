-- ===== src/User/Numbers.antt =====
-- syscalls/ece391support.c: `ece391_itoa` and `ece391_strrev`, and that they are the kernel's functions.
use linux_based_os.Prelude.{
  ℕ, zero, suc, ◌+◌, ◌-◌, ◌/◌, ◌%◌, ◌≡◌, refl, ◌==◌, ltb, leb, if◌then◌else◌, Option, none, some,
  ◌>>=◌, ◌≢◌, store, arith,
}
use linux_based_os.Strings.{Str, strlen}
use linux_based_os.Strings.Digits.{
  lookup, itoa, strrev, put_digits, swap_ends, reverse_length, finish,
}
use linux_based_os.User.{ece391_strlen}
use linux_based_os.User.Support.{ece391_strlen-strlen}

-- `while (beg < end)`
user_swap_ends : (fuel beg end : ℕ) → Str → Option Str
user_swap_ends zero beg end s = none
user_swap_ends (suc fuel) beg end s =
    let rest = user_swap_ends fuel (beg + 1) (end - 1) (store (store s end (s beg)) beg (s end)) in
    if ltb beg end then rest else some s

-- `end` is one less than the length: it is 0 or less for a length of 0 or 1.
unfoldable pub ece391_strrev : (fuel : ℕ) → Str → Option Str
unfolding user_swap_ends
ece391_strrev fuel s = do
  len ← ece391_strlen fuel s
  if leb len 1 then some s else user_swap_ends fuel 0 (len - 1) s

-- `while (newval > 0)`
user_put_digits : (fuel newval radix newbuf : ℕ) → Str → Option (ℕ × Str)
user_put_digits zero newval radix newbuf buf = none
user_put_digits (suc fuel) newval radix newbuf buf =
    let buf1 = store buf newbuf (lookup (newval % radix)) in
    let rest = user_put_digits fuel (newval / radix) radix (newbuf + 1) buf1 in
    if newval == 0 then some (newbuf, buf) else rest

-- The terminating NUL, and `ece391_strrev`.
user_finish : (fuel : ℕ) → Option (ℕ × Str) → Option Str
user_finish fuel none = none
user_finish fuel (some (newbuf, buf)) = ece391_strrev fuel (store buf newbuf 0)

unfoldable pub ece391_itoa : (fuel value : ℕ) → (buf : Str) → (radix : ℕ) → Option Str
unfolding user_put_digits user_finish
ece391_itoa fuel value buf radix =
    if value == 0
    then some (store (store buf 0 b'0') 1 0)
    else user_finish fuel (user_put_digits fuel value radix 0 buf)

user_put_digits-put_digits :
    (fuel newval radix newbuf : ℕ) (buf : Str)
    → user_put_digits fuel newval radix newbuf buf ≡ put_digits fuel newval radix newbuf buf
unfolding user_put_digits put_digits
user_put_digits-put_digits zero newval radix newbuf buf = refl
user_put_digits-put_digits (suc fuel) newval radix newbuf buf =
    rw
      (user_put_digits-put_digits fuel (newval / radix) radix (newbuf + 1)
        (store buf newbuf (lookup (newval % radix))))
      refl

user_swap_ends-swap_ends :
    (fuel beg end : ℕ) (s : Str) → user_swap_ends fuel beg end s ≡ swap_ends fuel beg end s
unfolding user_swap_ends swap_ends
user_swap_ends-swap_ends zero beg end s = refl
user_swap_ends-swap_ends (suc fuel) beg end s =
    rw (user_swap_ends-swap_ends fuel (beg + 1) (end - 1) (store (store s end (s beg)) beg (s end)))
      refl

-- The early return for one character agrees with the loop that has nothing to do.
reverse_one : (fuel len : ℕ) (s : Str) → len ≡ 1 → fuel ≢ 0 → swap_ends fuel 0 (len - 1) s ≡ some s
unfolding swap_ends
reverse_one zero len s e f = absurd (f refl)
reverse_one (suc fuel) len s e f = rw e refl

reversed_same :
    (fuel len : ℕ) (s : Str)
    → fuel ≢ 0
    → (if leb len 1 then some s else user_swap_ends fuel 0 (len - 1) s)
      ≡ reverse_length fuel (some len) s
unfolding reverse_length
reversed_same fuel len s f =
    ground (arith, user_swap_ends-swap_ends fuel 0 (len - 1) s, reverse_one fuel len s)

strrev_cases :
    (fuel : ℕ) (s : Str) (len : Option ℕ)
    → fuel ≢ 0
    → (len >>= λ len. if leb len 1 then some s else user_swap_ends fuel 0 (len - 1) s)
      ≡ reverse_length fuel len s
unfolding reverse_length
strrev_cases fuel s none f = refl
strrev_cases fuel s (some len) f = reversed_same fuel len s f

ece391_strrev-strrev : (fuel : ℕ) (s : Str) → ece391_strrev fuel s ≡ strrev fuel s
unfolding ece391_strrev strrev ece391_strlen strlen
ece391_strrev-strrev zero s = refl
ece391_strrev-strrev (suc fuel) s =
    rw ((ece391_strlen-strlen (suc fuel) s s).0)
      (strrev_cases (suc fuel) s (strlen (suc fuel) s) (omega arith))

finish_same : (fuel : ℕ) (r : Option (ℕ × Str)) → user_finish fuel r ≡ finish fuel r
unfolding user_finish finish
finish_same fuel none = refl
finish_same fuel (some (newbuf, buf)) = ece391_strrev-strrev fuel (store buf newbuf 0)

-- On the same fuel, `ece391_strrev` and `ece391_itoa` return what the kernel's `strrev` and `itoa` do.
pub ece391_itoa-itoa :
    (fuel value : ℕ) (buf : Str) (radix : ℕ)
    → (ece391_itoa fuel value buf radix ≡ itoa fuel value buf radix)
      × (ece391_strrev fuel buf ≡ strrev fuel buf)
unfolding ece391_itoa itoa
ece391_itoa-itoa fuel value buf radix = (
  rw
      (
        user_put_digits-put_digits fuel value radix 0 buf,
        finish_same fuel (put_digits fuel value radix 0 buf),
      )
      refl,
  ece391_strrev-strrev fuel buf,
)
