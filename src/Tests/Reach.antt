-- ===== src/Tests/Reach.antt =====
-- The start of the three shells, and a switch between them.
use linux_based_os.Prelude.{
  ℕ, ◌≡◌, refl, Option, some, none, [], ◌∷◌, inl, inr, replicate, arith, ◌-◌, get_or,
}
use linux_based_os.Strings.{strlen, strncmp, strcpy}
use linux_based_os.Schedule.{scheduler_init, start_shell, next_task}
use linux_based_os.Execute.{
  Kernel, fails, current_pcb, manage_arguments, scan_word, find_pid, find_base, page_allocate,
}
use linux_based_os.Memory.{memcpy}
use linux_based_os.Execute.Init.{pcb_init}
use linux_based_os.Filesystem.{
  Image, read_dentry_by_name, read_data, read_blocks, clamp_length, get_filesize_by_name,
}
use linux_based_os.Filesystem.Program.{is_executable, load_process}
use linux_based_os.Execute.Alive.{Alive, IsKernel}
use linux_based_os.Execute.Launch.{execute}
use linux_based_os.Execute.Switch.{Switch, to_task, to_shell, switch_tasks}
use linux_based_os.Execute.Reach.{
  Orderly, IsShort, ticks, still, after, IsBooted, booted_stays_IsKernel,
}
use linux_based_os.Execute.Resume.{GoesOnWith, switch_tasks-Alive}
use linux_based_os.Tests.Files.{zeros, letter, files}
use linux_based_os.Tests.Calls.{process}
use linux_based_os.Tests.Texts.{letter-HasLength}
use linux_based_os.Tests.Launch.{locals}

-- The first file is a program.
abbrev pub programs : Image
programs = record files { blocks = λ a. get_or (0x7F ∷ 0x45 ∷ 0x4C ∷ 0x46 ∷ []) (a - 4096) 0 }

unfoldable pub booted : Kernel
unfolding scheduler_init
booted = record {
  queue = scheduler_init;
  total_tasks = 1;
  pid_bitpattern = replicate 7 0;
  current_task = 0;
  terminal_current_pid = λ t. 0;
  user_page = 0;
  user = λ p. zeros;
  esp0 = 0;
  exception_halt = 0;
  pcbs = λ a. process 0;
}

booted-IsBooted : IsBooted booted
unfolding booted
booted-IsBooted = record { queue = refl; pids = refl; blank = λ a. refl }

abbrev switch_of : Option (Switch × Kernel) → Switch
switch_of none = to_shell fails
switch_of (some (s, k)) = s

abbrev kernel_of : Option (Switch × Kernel) → Kernel
kernel_of none = booted
kernel_of (some (s, k)) = k

-- A tick while the stack pointer is `esp`.
unfoldable tick : (esp : ℕ) → Kernel → Option (Switch × Kernel)
unfolding switch_tasks start_shell execute strlen strcpy manage_arguments scan_word is_executable
    read_dentry_by_name strncmp read_data read_blocks clamp_length memcpy current_pcb find_pid
    load_process pcb_init find_base next_task get_filesize_by_name page_allocate
tick esp k = switch_tasks 9 programs locals (current_pcb esp) esp 0 (letter 97) k

abbrev k1 : Kernel
k1 = kernel_of (tick 0x7FF000 booted)

first_tick : tick 0x7FF000 booted ≡ some (switch_of (tick 0x7FF000 booted), k1)
unfolding booted tick
first_tick = refl

one-Alive : Alive k1.pcbs 1
unfolding booted tick
one-Alive = record { least = omega arith; most = omega arith; own = refl }

abbrev k2 : Kernel
k2 = kernel_of (tick 0x7FD123 k1)

second_tick : tick 0x7FD123 k1 ≡ some (switch_of (tick 0x7FD123 k1), k2)
unfolding booted tick
second_tick = refl

two-Alive : Alive k2.pcbs 2
unfolding booted tick
two-Alive = record { least = omega arith; most = omega arith; own = refl }

abbrev k3 : Kernel
k3 = kernel_of (tick 0x7FB123 k2)

third_tick : tick 0x7FB123 k2 ≡ some (switch_of (tick 0x7FB123 k2), k3)
unfolding booted tick
third_tick = refl

-- The fourth tick, in the third shell, goes to the first.
fourth_tick : tick 0x7F9123 k3 ≡ some (to_task 0x7FD123 0 0, kernel_of (tick 0x7F9123 k3))
unfolding booted tick
fourth_tick = refl

letter-IsShort : IsShort (letter 97)
letter-IsShort = (1, letter-HasLength, omega arith)

-- On the stack of the start, and on those of the first two shells.
started : Orderly programs booted k3
unfolding booted tick
started =
    after
      (after
        (after still
          (ticks 9 locals 0x7FF000 0 (letter 97) (switch_of (tick 0x7FF000 booted)) (inr refl)
            first_tick)
          (letter-IsShort, inr (0, refl)))
        (ticks 9 locals 0x7FD123 0 (letter 97) (switch_of (tick 0x7FD123 k1))
          (inl (1, one-Alive, refl)) second_tick)
        (letter-IsShort, inr (1, refl)))
      (ticks 9 locals 0x7FB123 0 (letter 97) (switch_of (tick 0x7FB123 k2))
        (inl (2, two-Alive, refl)) third_tick)
      (letter-IsShort, inr (2, refl))

booted_stays_IsKernel_example : IsKernel k3
booted_stays_IsKernel_example = booted_stays_IsKernel programs booted k3 booted-IsBooted started

switch_tasks-Alive_example : (p : ℕ) × GoesOnWith (kernel_of (tick 0x7F9123 k3)) 0x7FD123 p
unfolding booted tick
switch_tasks-Alive_example =
    switch_tasks-Alive 9 programs locals (current_pcb 0x7F9123) 0x7F9123 0 (letter 97) booted k3
      (kernel_of (tick 0x7F9123 k3)) 0x7FD123 0 0 booted-IsBooted started fourth_tick
