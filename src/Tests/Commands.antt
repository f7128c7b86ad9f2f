-- ===== src/Tests/Commands.antt =====
-- Command lines that are executed.
use linux_based_os.Prelude.{
  inr, ℕ, zero, suc, ◌+◌, ◌<◌, ◌≡◌, ◌≢◌, refl, arith, Option, some, none, [], ◌∷◌, get_or, false,
}
use linux_based_os.Strings.{Str, strlen, strcpy, strncmp}
use linux_based_os.Strings.Length.{HasLength}
use linux_based_os.Memory.{memcpy}
use linux_based_os.Filesystem.{read_dentry_by_name, read_data, read_blocks, clamp_length}
use linux_based_os.Filesystem.Program.{is_executable}
use linux_based_os.Execute.{Kernel, Control, manage_arguments, scan_word, copy_args, is_stop}
use linux_based_os.Execute.Launch.{execute}
use linux_based_os.Execute.Arguments.{IsWord, IsPrefix, IsPart}
use linux_based_os.Execute.Line.{runs, execute_line}
use linux_based_os.Execute.Fails.{execute_fails}
use linux_based_os.Tests.Launch.{locals}
use linux_based_os.Tests.Reach.{programs, booted}

-- "a bc"
abbrev command : Str
command j = get_or (97 ∷ 32 ∷ 98 ∷ 99 ∷ []) j 0

command-HasLength : HasLength command 4
command-HasLength = record { nul = refl; before = in_command }
  where
    in_command : (j : ℕ) → j < 4 → command j ≢ 0
    in_command zero h = omega arith
    in_command (suc zero) h = omega arith
    in_command (suc (suc zero)) h = omega arith
    in_command (suc (suc (suc zero))) h = omega arith
    in_command (suc (suc (suc (suc j)))) h = absurd (omega arith)

name-IsWord : IsWord command 0 1
name-IsWord = record { inside = in_name; ends = refl }
  where
    in_name : (j : ℕ) → j < 1 → is_stop (command (0 + j)) ≡ false
    in_name zero h = refl
    in_name (suc j) h = absurd (omega arith)

argument-IsWord : IsWord command 2 2
argument-IsWord = record { inside = in_argument; ends = refl }
  where
    in_argument : (j : ℕ) → j < 2 → is_stop (command (2 + j)) ≡ false
    in_argument zero h = refl
    in_argument (suc zero) h = refl
    in_argument (suc (suc j)) h = absurd (omega arith)

execute_line_example :
    (name args : Str) × IsPrefix command name 1
    × IsPart command args 2 2
    × (execute 9 programs locals 0x7FF000 0 command booted
        ≡ runs 9 programs locals 0x7FF000 0 name args booted)
unfolding booted
execute_line_example =
    execute_line 9 4 1 2 programs locals 0x7FF000 0 command booted command-HasLength (omega arith)
      (omega arith) (omega arith) name-IsWord (inr (omega arith, argument-IsWord, omega arith))
      (omega arith) (omega arith)

-- "q bc": no file has this name.
abbrev unknown : Str
unknown j = get_or (113 ∷ 32 ∷ 98 ∷ 99 ∷ []) j 0

abbrev left : Option (Control × Kernel) → Kernel
left none = booted
left (some (c, k)) = k

unfoldable run_unknown : Option (Control × Kernel)
unfolding execute strlen strcpy manage_arguments scan_word copy_args is_executable
    read_dentry_by_name strncmp read_data read_blocks clamp_length memcpy
run_unknown = execute 9 programs locals 0x7FF000 0 unknown booted

execute_fails_example : left run_unknown ≡ booted
unfolding run_unknown booted copy_args
execute_fails_example =
    execute_fails 9 programs locals 0x7FF000 0 unknown booted (left run_unknown) refl
