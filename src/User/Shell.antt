-- ===== src/User/Shell.antt =====
-- syscalls/: `main` of the shell, and of hello, testprint and counter. A local array starts with what
-- the stack had, a parameter. A count that is negative but not -1, which no read returns, is taken
-- as 0.
use linux_based_os.Prelude.{
  ℕ, zero, suc, ◌+◌, ◌-◌, ◌==◌, ltb, if◌then◌else◌, ◌&&◌, ◌||◌, Option, none, some, ◌>>=◌, ℤ, pos,
  store, is_zero, pos_part, word32,
}
use linux_based_os.Strings.{Str}
use linux_based_os.User.{Calls, text, ece391_strlen, ece391_strcmp, ece391_fdputs}
use linux_based_os.User.Numbers.{ece391_itoa}
use linux_based_os.User.Programs.{is_minus_one, say}

-- The command line once its line break is cut off.
unfoldable pub cut_line : (cnt : ℕ) → Str → Str
cut_line cnt buf =
    if ltb 0 cnt && (buf (cnt - 1) == 10) then store buf (cnt - 1) 0 else store buf cnt 0

module _ {W : Type 0} (sys : Calls W) (fuel : ℕ) where
  -- What the shell prints of a command's result.
  unfoldable pub print_status : (rval : ℤ) → (bufme : Str) → W → Option W
  print_status rval bufme w =
      let abnormal = do
        digits ← ece391_itoa fuel (word32 rval) bufme 10
        w1 ← ece391_fdputs sys fuel (pos 1) digits w
        ece391_fdputs sys fuel (pos 1) (text "program terminated abnormally\n") w1
      in if is_minus_one rval
        then ece391_fdputs sys fuel (pos 1) (text "no such command\n") w
        else if (pos_part rval == 256)
        then ece391_fdputs sys fuel (pos 1) (text "program terminated by exception\n") w
        else if is_zero rval
        then some w
        else abnormal

  -- One command, by the result of comparing it with `exit`; `next` is the loop's next round.
  run_line :
      (next : Str → W → Option (ℤ × W)) → (buf bufme : Str) → (compared : ℤ) → W → Option (ℤ × W)
  unfolding print_status
  run_line next buf bufme compared w =
      let (rval, w1) = sys.sys_execute buf w in
      let go_on = do w2 ← print_status rval bufme w1; next buf w2
      in if is_zero compared then some (pos 0, w) else if buf 0 == 0 then next buf w else go_on

  -- The rest of a round, once the line is read.
  obey :
      (next : Str → W → Option (ℤ × W))
      → (bufme : Str) → (cnt : ℤ) → (buf : Str) → W
      → Option (ℤ × W)
  unfolding run_line cut_line
  obey next bufme cnt buf w =
      let line = cut_line (pos_part cnt) buf in
      let command = do
        compared ← ece391_strcmp fuel line (text "exit")
        run_line next line bufme compared w
      in if is_minus_one cnt
        then say sys fuel (text "read from keyboard failed\n") (pos 3) w
        else command

  shell_loop : (rounds : ℕ) → (buf bufme : Str) → W → Option (ℤ × W)
  unfolding obey
  shell_loop zero buf bufme w = none
  shell_loop (suc rounds) buf bufme w = do
    w1 ← ece391_fdputs sys fuel (pos 1) (text "391OS> ") w
    let (cnt, buf1, w2) = sys.sys_read (pos 0) buf 1023 w1
    obey (λ line. shell_loop rounds line bufme) bufme cnt buf1 w2

  unfoldable pub shell_main : (rounds : ℕ) → (buf bufme : Str) → W → Option (ℤ × W)
  unfolding shell_loop
  shell_main rounds buf bufme w = do
    w1 ← ece391_fdputs sys fuel (pos 1) (text "Starting 391 Shell\n") w
    shell_loop rounds buf bufme w1

  -- `hello`, once the name is read
  greet : (cnt : ℤ) → (buf : Str) → W → Option (ℤ × W)
  greet cnt buf w =
      let answer = do
        w1 ← ece391_fdputs sys fuel (pos 1) (text "Hello, ") w
        say sys fuel (store buf (pos_part cnt) 0) (pos 0) w1
      in if is_minus_one cnt
        then say sys fuel (text "Can't read name from keyboard.\n") (pos 3) w
        else answer

  unfoldable pub hello_main : (buf : Str) → W → Option (ℤ × W)
  unfolding greet
  hello_main buf w = do
    w1 ← ece391_fdputs sys fuel (pos 1) (text "Hi, what's your name? ") w
    let (cnt, buf1, w2) = sys.sys_read (pos 0) buf 1023 w1
    greet cnt buf1 w2

  unfoldable pub testprint_main : W → Option (ℤ × W)
  testprint_main w =
      say sys fuel (text "Hello, if this ran, the program was correct. Yay!\n") (pos 0) w

  -- `for (i = 0; i < max; i++)`
  count_lines : (rounds i : ℕ) → (buf : Str) → W → Option (ℤ × W)
  count_lines zero i buf w = some (pos 0, w)
  count_lines (suc rounds) i buf w = do
    buf1 ← ece391_itoa fuel (i + 1) buf 10
    w1 ← ece391_fdputs sys fuel (pos 1) buf1 w
    w2 ← ece391_fdputs sys fuel (pos 1) (text "\n") w1
    count_lines rounds (i + 1) buf1 w2

  -- The number of lines for a choice; any other leaves `max` at 0.
  abbrev pub count_of : ℕ → ℕ
  count_of c =
      if c == b'0' then 100 else if c == b'1' then 10000 else if c == b'2' then 100000 else 0

  -- `counter`, once the length of the line is known
  count_to : (line : Str) → (len : ℕ) → W → Option (ℤ × W)
  unfolding count_lines
  count_to line len w =
      if ltb 2 len || ((len == 2) && (ltb (line 0) b'0' || ltb b'2' (line 0)))
      then say sys fuel (text "Wrong Choice!\n") (pos 0) w
      else count_lines (count_of (line 0)) 0 line w

  -- `counter`, once the line is read
  choose : (cnt : ℤ) → (buf : Str) → W → Option (ℤ × W)
  unfolding count_to
  choose cnt buf w =
      let line = store buf (pos_part cnt) 0 in
      let counted = do len ← ece391_strlen fuel line; count_to line len w
      in if is_minus_one cnt
        then say sys fuel (text "Can't read the number from keyboard.\n") (pos 3) w
        else counted

  unfoldable pub counter_main : (buf : Str) → W → Option (ℤ × W)
  unfolding choose
  counter_main buf w = do
    w1 ←
        ece391_fdputs sys fuel (pos 1)
          (text "Enter the Test Number: (0): 100, (1): 10000, (2): 100000\n") w
    let (cnt, buf1, w2) = sys.sys_read (pos 0) buf 1023 w1
    choose cnt buf1 w2
