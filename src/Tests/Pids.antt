-- ===== src/Tests/Pids.antt =====
-- A child that halts.
use linux_based_os.Prelude.{Option, some, none, [], ◌∷◌, ◌==◌, if◌then◌else◌}
use linux_based_os.Execute.{
  Kernel, Control, fails, pcb_addr, current_pcb, find_parent, page_allocate,
}
use linux_based_os.Execute.Alive.{Alive}
use linux_based_os.Execute.Halt.{halt}
use linux_based_os.Execute.Reach.{Reach}
use linux_based_os.Tests.Files.{letter}
use linux_based_os.Tests.Calls.{process}
use linux_based_os.Tests.Tasks.{queue}
use linux_based_os.Tests.Launch.{locals}
use linux_based_os.Tests.Reach.{programs, booted}

-- Process 4, which the shell with pid 1 has started.
unfoldable with_child : Kernel
unfolding booted
with_child = record booted {
  queue = queue;
  total_tasks = 5;
  pid_bitpattern = 1 ∷ 1 ∷ 1 ∷ 1 ∷ 0 ∷ 0 ∷ 0 ∷ [];
  current_task = 4;
  pcbs =
      λ a. if a == pcb_addr 4 then record (process 4) { parent_addr = pcb_addr 1 } else process 1;
}

abbrev result : Option (Control × Kernel) → Control × Kernel
result none = (fails, booted)
result (some a) = a

unfoldable halted : Option (Control × Kernel)
unfolding halt find_parent page_allocate current_pcb with_child
halted = halt 9 programs locals (current_pcb 0x7F7123) 0x7F7123 0 (letter 97) 0 with_child
