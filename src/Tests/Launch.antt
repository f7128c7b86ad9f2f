-- ===== src/Tests/Launch.antt =====
-- A run of `execute` and `halt`.
use linux_based_os.Prelude.{
  ℕ, zero, suc, ◌+◌, ◌*◌, ◌≡◌, ◌≢◌, arith, refl, some, [], ◌∷◌, store, ◌^◌, word32,
}
use linux_based_os.Memory.{Memory}
use linux_based_os.Strings.{strcpy, strlen}
use linux_based_os.Schedule.{slot}
use linux_based_os.Filesystem.Data.Chunks.{filled}
use linux_based_os.Filesystem.Program.{load_process}
use linux_based_os.Filesystem.Program.Load.{load_process_lem}
use linux_based_os.Execute.{Kernel, Locals, enters, resumes, find_pid, pcb_addr, current_pcb}
use linux_based_os.Execute.Addresses.{current_pcb_lem}
use linux_based_os.Execute.Slots.{Absent}
use linux_based_os.Execute.Launch.{launch}
use linux_based_os.Execute.Halt.{halt}
use linux_based_os.Execute.Return.{Caller}
use linux_based_os.Execute.RoundTrip.{Loads, GivenBack, halt-launch}
use linux_based_os.Tests.Tasks.{queue}
use linux_based_os.Tests.Files.{zeros, a-IsProgram, letter, named_entry, files}
use linux_based_os.Tests.Calls.{process}

-- The shell with pid 1 is in the kernel and starts program "a", whose pid is 4.
abbrev kernel : Kernel
kernel = record {
  queue = queue;
  total_tasks = 4;
  pid_bitpattern = 1 ∷ 1 ∷ 1 ∷ 0 ∷ 0 ∷ 0 ∷ 0 ∷ [];
  current_task = 1;
  terminal_current_pid = λ t. 0;
  user_page = 0x800087;
  user = λ p. zeros;
  esp0 = 0x7FE000;
  exception_halt = 0;
  pcbs = λ a. process 1;
}

abbrev pub locals : Locals
locals = record {
  pid = 77;
  new_pcb = process 0;
  k_command = letter 0;
  dentry = named_entry 5;
  file = named_entry 6;
  exec_buffer = zeros;
  entry_buff = zeros;
}

-- Slot 2 is the shell's, and no slot is that of pid 4.
only_2 : (p : ℕ) → p ≡ 1 → (m : ℕ) → m ≢ 2 → word32 (slot queue.priority_list_pid m) ≢ p
only_2 p e zero n = omega arith
only_2 p e (suc zero) n = omega arith
only_2 p e (suc (suc zero)) n = absurd (n refl)
only_2 p e (suc (suc (suc zero))) n = omega arith
only_2 p e (suc (suc (suc (suc zero)))) n = omega arith
only_2 p e (suc (suc (suc (suc (suc zero))))) n = omega arith
only_2 p e (suc (suc (suc (suc (suc (suc zero)))))) n = omega arith
only_2 p e (suc (suc (suc (suc (suc (suc (suc m))))))) n = omega arith

Absent-4 : Absent queue.priority_list_pid 4
Absent-4 zero = omega arith
Absent-4 (suc zero) = omega arith
Absent-4 (suc (suc zero)) = omega arith
Absent-4 (suc (suc (suc zero))) = omega arith
Absent-4 (suc (suc (suc (suc zero)))) = omega arith
Absent-4 (suc (suc (suc (suc (suc zero))))) = omega arith
Absent-4 (suc (suc (suc (suc (suc (suc zero)))))) = omega arith
Absent-4 (suc (suc (suc (suc (suc (suc (suc m))))))) = omega arith

shell_Caller : Caller kernel 0x7FD123 2
shell_Caller = record {
  slot_of = record { at = refl; only = only_2 1 (omega arith) };
  seven = refl;
  bound = omega arith;
  stack = refl;
  task = refl;
  counts = omega arith;
}

program :
    (out : Memory) × (load_process files
        (letter 97)
        0x8048000
        (named_entry 5)
        (named_entry 6)
        zeros
        zeros
      ≡ some (24 + 25 * 2 ^ 8 + 26 * 2 ^ 16 + 27 * 2 ^ 24, out))
    × ((a : ℕ) → out a ≡ filled files (files.inode 1) 0x8048000 0 50 zeros a)
program =
    load_process_lem files (letter 97) 0 a-IsProgram 0x8048000 (named_entry 5) (named_entry 6) zeros
      zeros (λ i. omega arith)

program-Loads :
    Loads 9 files locals (letter 97) (letter 0) (store (letter 0) 0 0) 0x1B1A1918 3 program.0 kernel
unfolding find_pid strcpy strlen
program-Loads = record {
  free_pid = refl;
  child = omega arith;
  program = program.1;
  length = 0;
  is_length = refl;
  short = omega arith;
  arguments = refl;
}

apart : current_pcb 0x7FD123 ≢ pcb_addr 4
apart e =
    let at : current_pcb 0x7FD123 ≡ pcb_addr 1 =
      current_pcb_lem 1 0x7FD123 (omega arith) (omega arith) (omega arith, omega arith) in
    absurd (omega (arith, at, e))

halt-launch_example :
    (k' : Kernel) × (r : Kernel) × (launch 9 files locals
        (letter 97)
        (letter 0)
        0x7FD123
        0x7FD200
        kernel
      ≡ some (enters 0x1B1A1918, k'))
    × (halt 9 files locals (pcb_addr 4) 0x7F7123 0x7F7200 (letter 97) 0 k'
        ≡ some (resumes 0x7FD200 0x7FD200 0, r))
    × GivenBack kernel r 4
halt-launch_example =
    halt-launch 9 files locals (letter 97) (letter 0) (store (letter 0) 0 0) 0x7FD123 0x7FD200
      0x1B1A1918 3 2 program.0 kernel (letter 97) locals 0x7F7123 0x7F7200 0 shell_Caller
      program-Loads Absent-4 apart refl
