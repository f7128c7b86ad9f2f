-- ===== src/User/Grep.antt =====
-- syscalls/ece391grep.c. `bytes` is its buffer `data`, with what the stack had at first. A count that is negative
-- but not -1, which no read returns, is taken as 0. The overlapping `ece391_strcpy` copies to lower
-- addresses, upwards, so it reads no byte that it wrote.
pub mod Search
use linux_based_os.Prelude.{
  ℕ, zero, suc, ◌+◌, ◌-◌, ◌==◌, ltb, leb, if◌then◌else◌, ◌&&◌, ◌||◌, not, Option, none, some, ◌>>=◌,
  ℤ, pos, minus_one, store, is_zero, pos_part, Bool, true, false,
}
use linux_based_os.Strings.{Str}
use linux_based_os.User.{
  Calls, text, from, ece391_strlen, ece391_strcpy, ece391_strncmp, ece391_fdputs,
}
use linux_based_os.User.Programs.{is_minus_one, say}

-- `while (line_end < last && '\n' != bytes[line_end])`, with `left` characters up to `last`
pub find_end : (left line_end : ℕ) → Str → ℕ
find_end zero line_end bytes = line_end
find_end (suc left) line_end bytes =
    let rest = find_end left (line_end + 1) bytes in if bytes line_end == 10 then line_end else rest

-- The `for` loop over a line: whether some `check` satisfies the test.
pub search : (s : Str) → (s_len left check : ℕ) → Str → Bool
search s s_len zero check bytes = false
search s s_len (suc left) check bytes =
    let rest = search s s_len left (check + 1) bytes in
    if (s 0 == bytes check) && is_zero (ece391_strncmp (from check bytes) s s_len)
    then true
    else rest

-- The line from `line_start` on is cut at its end and searched.
pub found_in_line : (s : Str) → (s_len line_start last : ℕ) → Str → Bool
unfolding find_end search
found_in_line s s_len line_start last bytes =
    let line_end = find_end (last - line_start) line_start bytes in
    search s s_len (line_end - line_start) line_start (store bytes line_end 0)

module _ {W : Type 0} (sys : Calls W) (fuel : ℕ) (s fname : Str) where
  -- What is printed for a line in which the search string is found.
  print_match : (line_start : ℕ) → (bytes : Str) → W → Option W
  print_match line_start bytes w = do
    w1 ← ece391_fdputs sys fuel (pos 1) fname w
    w2 ← ece391_fdputs sys fuel (pos 1) (text ":") w1
    w3 ← ece391_fdputs sys fuel (pos 1) (from line_start bytes) w2
    ece391_fdputs sys fuel (pos 1) (text "\n") w3

  -- The loop over the lines of the buffer: the buffer, the new `last`, and the outside.
  each_line : (rounds s_len cnt last line_start : ℕ) → (bytes : Str) → W → Option (Str × ℕ × W)
  unfolding find_end found_in_line print_match
  each_line zero s_len cnt last line_start bytes w = none
  each_line (suc rounds) s_len cnt last line_start bytes w =
      let line_end = find_end (last - line_start) line_start bytes in
      let data1 = store bytes line_end 0 in
      let moved = do
        data2 ← ece391_strcpy fuel data1 (from line_start data1)
        some (data2, last - line_start, w)
      in let printed =
          if found_in_line s s_len line_start last bytes
          then print_match line_start data1 w
          else some w in
        let next = do w1 ← printed; each_line rounds s_len cnt last (line_end + 1) data1 w1
        in let stop = do w1 ← printed; some (data1, 0, w1)
          in if not (bytes line_end == 10) && not (cnt == 0) && not (line_start == 0)
            then moved
            else if leb last (line_end + 1)
            then stop
            else next

  close_file : (fd : ℤ) → W → Option (ℤ × W)
  close_file fd w =
      let (closed, w1) = sys.sys_close fd w in
      if is_minus_one closed
      then say sys fuel (text "file close failed\n") minus_one w1
      else some (pos 0, w1)

  -- The outer loop of `do_one_file`
  read_file : (rounds : ℕ) → (fd : ℤ) → (s_len last : ℕ) → (bytes : Str) → W → Option (ℤ × W)
  unfolding each_line close_file
  read_file zero fd s_len last bytes w = none
  read_file (suc rounds) fd s_len last bytes w =
      let (cnt, block, w1) = sys.sys_read fd (from last bytes) (1024 - last) w in
      let data1 = λ (i : ℕ). if ltb i last then bytes i else block (i - last) in
      let next = do
        (data2, last2, w2) ← each_line fuel s_len (pos_part cnt) (last + pos_part cnt) 0 data1 w1
        if is_zero cnt then close_file fd w2 else read_file rounds fd s_len last2 data2 w2
      in if is_minus_one cnt then say sys fuel (text "file read failed\n") minus_one w1 else next

  do_one_file : (rounds : ℕ) → (bytes : Str) → W → Option (ℤ × W)
  unfolding read_file
  do_one_file rounds bytes w =
      let (fd, w1) = sys.sys_open fname w in
      let opened = do s_len ← ece391_strlen fuel s; read_file rounds fd s_len 0 bytes w1
      in if is_minus_one fd then say sys fuel (text "file open failed\n") minus_one w1 else opened

module _ {W : Type 0} (sys : Calls W) (fuel : ℕ) (search_for bytes : Str) where
  -- `while (0 != (cnt = ece391_read(fd, buf, SBUFSIZE-1)))`
  each_file : (rounds : ℕ) → (fd : ℤ) → (buf : Str) → W → Option (ℤ × W)
  unfolding do_one_file
  each_file zero fd buf w = none
  each_file (suc rounds) fd buf w =
      let (cnt, buf1, w1) = sys.sys_read fd buf 32 w in
      let skip = each_file rounds fd buf1 w1 in
      let name = store buf1 (pos_part cnt) 0 in
      let search_file = do
        (result, w2) ← do_one_file sys fuel search_for name fuel bytes w1
        if is_zero result then each_file rounds fd name w2 else some (pos 3, w2)
      in if is_zero cnt
        then some (pos 0, w1)
        else if is_minus_one cnt
        then say sys fuel (text "directory entry read failed\n") (pos 3) w1
        else if buf1 0 == b'.'
        then skip
        else search_file

unfoldable pub grep_main :
    {W : Type 0} → Calls W → (fuel : ℕ) → (search_for bytes buf : Str) → W → Option (ℤ × W)
unfolding each_file
grep_main sys fuel search_for bytes buf w =
    let (got, args, w1) = sys.sys_getargs search_for 1024 w in
    let (fd, w2) = sys.sys_open (text ".") w1 in
    if not (is_zero got)
    then say sys fuel (text "could not read argument\n") (pos 3) w1
    else if is_minus_one fd
    then say sys fuel (text "directory open failed\n") (pos 2) w2
    else each_file sys fuel args bytes fuel fd buf w2
