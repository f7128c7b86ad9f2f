-- ===== src/User/Errors.antt =====
-- syscalls/ece391syserr.c: the tests of the system calls' refusals. The buffers of the tests are the
-- parameter `buf`; no test uses what stands in them.
use Prim.Native.String.{String}
use linux_based_os.Prelude.{
  ℕ, zero, suc, ◌+◌, ◌==◌, if◌then◌else◌, Option, some, ◌>>=◌, ℤ, pos, negsuc,
}
use linux_based_os.Strings.{Str}
use linux_based_os.User.{Calls, text, ece391_fdputs}
use linux_based_os.User.Programs.{is_minus_one}

-- -1073741823 and 1073741823, for descriptors and for numbers
abbrev pub neg_fd : ℤ
neg_fd = negsuc 1073741822

abbrev pub big_fd : ℤ
big_fd = pos 1073741823

module _ {W : Type 0} (sys : Calls W) (fuel : ℕ) (buf : Str) where
  -- What a test has come to: `fail` and the outside.
  abbrev pub Progress : Type 0
  Progress = Option (ℕ × W)

  -- `if (-1 != result) { fail = 2; ece391_fdputs(1, message); }`
  expect : (message : String) → (fail : ℕ) → (result : ℤ) → W → Progress
  expect message fail result w =
      let complain = do w1 ← ece391_fdputs sys fuel (pos 1) (text message) w; some (2, w1)
      in if is_minus_one result then some (fail, w) else complain

  expect_read : (fd : ℤ) → (message : String) → (fail : ℕ) → W → Progress
  expect_read fd message fail w =
      let (result, filled, w1) = sys.sys_read fd buf 31 w in expect message fail result w1

  expect_write : (fd : ℤ) → (message : String) → (fail : ℕ) → W → Progress
  expect_write fd message fail w =
      let (result, w1) = sys.sys_write fd buf 31 w in expect message fail result w1

  expect_close : (fd : ℤ) → (message : String) → (fail : ℕ) → W → Progress
  expect_close fd message fail w =
      let (result, w1) = sys.sys_close fd w in expect message fail result w1

  expect_open : (name : String) → (message : String) → (fail : ℕ) → W → Progress
  expect_open name message fail w =
      let (result, w1) = sys.sys_open (text name) w in expect message fail result w1

  expect_vidmap : (address : ℕ) → (message : String) → (fail : ℕ) → W → Progress
  expect_vidmap address message fail w =
      let (result, w1) = sys.sys_vidmap address w in expect message fail result w1

  expect_call : (num : ℤ) → (message : String) → (fail : ℕ) → W → Progress
  expect_call num message fail w =
      let (result, w1) = sys.sys_call num w in expect message fail result w1

  -- The last lines of a test: what it prints and returns.
  verdict : (passed failed : String) → (fail : ℕ) → W → Progress
  verdict passed failed fail w = do
    w1 ← ece391_fdputs sys fuel (pos 1) (text (if fail == 0 then passed else failed)) w
    some (fail, w1)

  err_neg_fd : W → Progress
  err_neg_fd w = do
    (f1, w1) ← expect_read neg_fd "read fail\n" 0 w
    (f2, w2) ← expect_write neg_fd "write fail\n" f1 w1
    (f3, w3) ← expect_close neg_fd "close fail\n" f2 w2
    verdict "err_neg_fd: PASS\n" "err_neg_fd: FAIL\n" f3 w3

  err_big_fd : W → Progress
  err_big_fd w = do
    (f1, w1) ← expect_read big_fd "read fail\n" 0 w
    (f2, w2) ← expect_write big_fd "write fail\n" f1 w1
    (f3, w3) ← expect_close big_fd "close fail\n" f2 w2
    verdict "err_big_fd: PASS\n" "err_big_fd: FAIL\n" f3 w3

  -- Seven times `open(".")`: how often it fails.
  count_refused : (rounds cnt : ℕ) → W → ℕ × W
  count_refused zero cnt w = (cnt, w)
  count_refused (suc rounds) cnt w =
      let (result, w1) = sys.sys_open (text ".") w in
      count_refused rounds (if is_minus_one result then cnt + 1 else cnt) w1

  close_from : (rounds fd : ℕ) → W → W
  close_from zero fd w = w
  close_from (suc rounds) fd w = close_from rounds (fd + 1) (sys.sys_close (pos fd) w).1

  err_open_lots : W → Progress
  err_open_lots w =
      let (cnt, w1) = count_refused 7 0 w in
      verdict "err_open_lots: PASS\n" "err_open_lots: FAIL\n" (if cnt == 1 then 0 else 2)
        (close_from 6 2 w1)

  err_open : W → Progress
  err_open w = do
    (f1, w1) ← expect_open "helloo" "'helloo' fail\n" 0 w
    (f2, w2) ← expect_open "shel" "'shel' fail\n" f1 w1
    (f3, w3) ← expect_open "" "empty string fail\n" f2 w2
    verdict "err_open: PASS\n" "err_open: FAIL\n" f3 w3

  -- A loop over descriptors from `fd` on.
  each_fd : (test : (fd : ℤ) → (fail : ℕ) → W → Progress) → (rounds fd fail : ℕ) → W → Progress
  each_fd test zero fd fail w = some (fail, w)
  each_fd test (suc rounds) fd fail w = do
    (f1, w1) ← test (pos fd) fail w
    each_fd test rounds (fd + 1) f1 w1

  err_unopened : W → Progress
  err_unopened w = do
    (f1, w1) ← each_fd (λ fd. expect_close fd "close unopened or invalid fd fail\n") 8 0 0 w
    (f2, w2) ← each_fd (λ fd. expect_read fd "read from unopened fd fail\n") 6 2 f1 w1
    (f3, w3) ← each_fd (λ fd. expect_write fd "write to unopened fd fail\n") 6 2 f2 w2
    verdict "err_unopened: PASS\n" "err_unopened: FAIL\n" f3 w3

  err_vidmap : W → Progress
  err_vidmap w = do
    (f1, w1) ← expect_vidmap 0 "Null pointer fail\n" 0 w
    (f2, w2) ← expect_vidmap 0x400000 "Kernel pointer fail fail\n" f1 w1
    verdict "err_vidmap: PASS\n" "err_vidmap: FAIL\n" f2 w2

  err_stdin_out : W → Progress
  err_stdin_out w = do
    (f1, w1) ← expect_write (pos 0) "write to stdin fail\n" 0 w
    (f2, w2) ← expect_read (pos 1) "read from stdout fail\n" f1 w1
    verdict "err_stdin_out: PASS\n" "err_stdin_out: FAIL\n" f2 w2

  err_syscall_num : W → Progress
  err_syscall_num w = do
    (f1, w1) ← expect_call big_fd "syscall 0 fail\n" 0 w
    (f2, w2) ← expect_call neg_fd "big num syscall fail\n" f1 w1
    (f3, w3) ← expect_call (pos 0) "neg num syscall fail\n" f2 w2
    verdict "err_syscall_num: PASS\n" "err_syscall_num: FAIL\n" f3 w3

  -- Choice 0 of `main`: the sum of the results.
  pub all_tests : W → Progress
  all_tests w = do
    (f1, w1) ← err_neg_fd w
    (f2, w2) ← err_big_fd w1
    (f3, w3) ← err_open_lots w2
    (f4, w4) ← err_open w3
    (f5, w5) ← err_unopened w4
    (f6, w6) ← err_vidmap w5
    (f7, w7) ← err_stdin_out w6
    (f8, w8) ← err_syscall_num w7
    verdict "\nOverall Tests: PASS\n" "\nOverall Tests: FAIL\n"
        (f1 + f2 + f3 + f4 + f5 + f6 + f7 + f8) w8

  -- `switch(select)`, by the first character that was typed
  choose_test : (c : ℕ) → W → Progress
  choose_test c w =
      let invalid = do
        w1 ←
            ece391_fdputs sys fuel (pos 1) (text "Invalid test number. Choose from tests 1-8 or 0")
              w
        some (0, w1)
      in if c == b'0'
        then all_tests w
        else if c == b'1'
        then err_neg_fd w
        else if c == b'2'
        then err_big_fd w
        else if c == b'3'
        then err_open_lots w
        else if c == b'4'
        then err_open w
        else if c == b'5'
        then err_unopened w
        else if c == b'6'
        then err_vidmap w
        else if c == b'7'
        then err_stdin_out w
        else if c == b'8'
        then err_syscall_num w
        else invalid

  -- `main`, once the line is read
  chosen : (cnt : ℤ) → (line : Str) → W → Progress
  unfolding choose_test
  chosen cnt line w =
      let unread = do
        w1 ← ece391_fdputs sys fuel (pos 1) (text "Can't read test #\n") w
        some (2, w1)
      in if is_minus_one cnt then unread else choose_test (line 0) w

  pub syserr_main : (line : Str) → W → Progress
  unfolding chosen
  syserr_main line w = do
    w1 ← ece391_fdputs sys fuel (pos 1) (text "Choose from tests 1-8. 0 to run all: ") w
    let (cnt, line1, w2) = sys.sys_read (pos 0) line 127 w1
    chosen cnt line1 w2
