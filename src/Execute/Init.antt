-- ===== src/Execute/Init.antt =====
-- `PCB_init`.
use linux_based_os.Prelude.{
  ◌>>=◌, ℕ, ◌-◌, ◌^◌, ltb, if◌then◌else◌, Option, none, some, ℤ, pos, minus_one, set, for_range,
}
use linux_based_os.Strings.{Str, strlen, strcpy}
use linux_based_os.Descriptor.{Descriptor, Driver, keyboard, terminal}
use linux_based_os.Process.{Pcb, started, free_descriptor, in_use}
use linux_based_os.Schedule.{Queue}
use linux_based_os.Execute.{Kernel, find_parent, find_base}

abbrev pub device : Driver → Descriptor
device d = record { fd_jumptable = some d; inode_indx = 0; file_position = 0; flags = in_use }

-- The first assignments: every descriptor from 2 on is freed.
unfoldable pub pcb_fresh : Pcb → (pid terminal_id : ℕ) → Pcb
pcb_fresh p pid terminal_id = record p {
  pid = pid;
  process_state = started;
  terminal_id = terminal_id;
  parent_addr = 2 ^ 32 - 1;
  file_array = for_range 6 2 (λ i a. set a i free_descriptor) p.file_array;
}

-- The last ones, from the slot `i` on: the arguments, the keyboard and the terminal. Behind the 128
-- bytes of `args` stand the descriptors and the parent, which longer arguments would overwrite: `none`.
unfoldable pub pcb_finish : ℕ → (i : ℕ) → (args : Str) → Pcb → Queue → Option (ℤ × Pcb × Queue)
pcb_finish fuel i args p q = do
  len ← strlen fuel args
  copied ← if ltb len 128 then strcpy fuel p.args args else none
  some (
    pos 0,
    record p {
      args = copied;
      file_array = set (set p.file_array 0 (device keyboard)) 1 (device terminal);
    },
    record q {
      priority_list_pid = set q.priority_list_pid i (pos p.pid);
      current_schedule = pos i;
    },
  )

-- Pids from 4 on are children of a shell. For a shell without a parent the search for a slot may
-- fail, and the rest is left out.
unfoldable pub pcb_init :
    ℕ → Pcb → (pid : ℕ) → (args : Str) → (parent_pcb : ℕ) → Kernel → Option (ℤ × Pcb × Queue)
unfolding pcb_fresh pcb_finish
pcb_init fuel new_pcb pid args parent_pcb k =
    let p = pcb_fresh new_pcb pid k.queue.active_terminal in
    let parent = k.pcbs parent_pcb in
    let child = record p { terminal_id = parent.terminal_id; parent_addr = parent_pcb } in
    if ltb 3 pid
    then pcb_finish fuel (find_parent 7 0 parent.pid k.queue.priority_list_pid) args child k.queue
    else elim (find_base 7 0 k.queue.priority_list_pid) [
      | none ↦ some (minus_one, p, k.queue)
      | some i ↦ pcb_finish fuel i args p k.queue
    ]
