-- ===== src/User/Programs.antt =====
-- syscalls/: `main` of cat and ls, and what the programs share. The result is what `main` returns.
-- A local array starts with what the stack had, a parameter.
use linux_based_os.Prelude.{
  ℕ, zero, suc, ◌+◌, ◌==◌, if◌then◌else◌, not, Option, none, some, ◌>>=◌, ℤ, pos, negsuc, store,
  is_zero, word32, Bool, false,
}
use linux_based_os.Strings.{Str}
use linux_based_os.User.{Calls, text, ece391_fdputs}

abbrev pub is_minus_one : ℤ → Bool
is_minus_one (pos n) = false
is_minus_one (negsuc n) = n == 0

module _ {W : Type 0} (sys : Calls W) (fuel : ℕ) where
  -- `ece391_fdputs(1, s)` and the return of `result`
  unfoldable pub say : (s : Str) → (result : ℤ) → W → Option (ℤ × W)
  say s result w = do w1 ← ece391_fdputs sys fuel (pos 1) s w; some (result, w1)

  -- `cat`: the loop over the blocks of the file
  unfoldable pub cat_loop : (rounds : ℕ) → (fd : ℤ) → (buf : Str) → W → Option (ℤ × W)
  unfolding say
  cat_loop zero fd buf w = none
  cat_loop (suc rounds) fd buf w =
      let (cnt, buf1, w1) = sys.sys_read fd buf 1024 w in
      let (written, w2) = sys.sys_write (pos 1) buf1 (word32 cnt) w1 in
      let rest = cat_loop rounds fd buf1 w2 in
      if is_zero cnt
      then some (pos 0, w1)
      else if is_minus_one cnt
      then say (text "file read failed\n") (pos 3) w1
      else if is_minus_one written
      then some (pos 3, w2)
      else rest

  unfoldable pub cat_main : (rounds : ℕ) → (buf : Str) → W → Option (ℤ × W)
  unfolding cat_loop say
  cat_main rounds buf w =
      let (got, buf1, w1) = sys.sys_getargs buf 1024 w in
      let (fd, w2) = sys.sys_open buf1 w1 in
      if not (is_zero got)
      then say (text "could not read arguments\n") (pos 3) w1
      else if is_minus_one fd
      then say (text "file not found\n") (pos 2) w2
      else cat_loop rounds fd buf1 w2

  -- `ls`: `buf[cnt] = '\n'` and the write of one character more
  unfoldable pub ls_loop : (rounds : ℕ) → (fd : ℤ) → (buf : Str) → W → Option (ℤ × W)
  unfolding say
  ls_loop zero fd buf w = none
  ls_loop (suc rounds) fd buf w =
      let (cnt, buf1, w1) = sys.sys_read fd buf 32 w in
      let buf2 = store buf1 (word32 cnt) 10 in
      let (written, w2) = sys.sys_write (pos 1) buf2 (word32 cnt + 1) w1 in
      let rest = ls_loop rounds fd buf2 w2 in
      if is_zero cnt
      then some (pos 0, w1)
      else if is_minus_one cnt
      then say (text "directory entry read failed\n") (pos 3) w1
      else if is_minus_one written
      then some (pos 3, w2)
      else rest

  unfoldable pub ls_main : (rounds : ℕ) → (buf : Str) → W → Option (ℤ × W)
  unfolding ls_loop say
  ls_main rounds buf w =
      let (fd, w1) = sys.sys_open (text ".") w in
      if is_minus_one fd
      then say (text "directory open failed\n") (pos 2) w1
      else ls_loop rounds fd buf w1
