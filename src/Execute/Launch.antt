-- ===== src/Execute/Launch.antt =====
-- `execute`.
use linux_based_os.Prelude.{
  ◌>>=◌, ℕ, ◌+◌, u32, ltb, leb, if◌then◌else◌, Option, none, some, List, is_zero, set, store,
}
use linux_based_os.Strings.{Str, strlen, strcpy}
use linux_based_os.Process.{Pcb, running}
use linux_based_os.Filesystem.{Image}
use linux_based_os.Filesystem.Program.{is_executable, load_process}
use linux_based_os.Execute.{
  Kernel, Locals, Control, fails, enters, manage_arguments, find_pid, page_allocate,
  physical_page_addr, kernel_stack_addr, pcb_addr, current_pcb, cp_vaddr,
}
use linux_based_os.Execute.Init.{pcb_init}

-- The new process: its stack, the stack of the caller to return to, and its state.
abbrev pub launched : Pcb → (pid esp ebp : ℕ) → Pcb
launched p pid esp ebp = record p {
  kernel_stack = kernel_stack_addr pid;
  kernel_ss = 0x18;
  kesp = esp;
  kebp = ebp;
  process_state = running;
}

-- The new pid: that of the entry found, or what stood in the variable.
abbrev pub new_pid : Option ℕ → (pid : ℕ) → ℕ
new_pid none pid = pid
new_pid (some i) pid = i + 1

-- `pid_bitpattern[i] = 1`
abbrev pub take_pid : Option ℕ → List ℕ → List ℕ
take_pid none l = l
take_pid (some i) l = set l i 1

-- The task count and the bit of the new pid.
abbrev pub counted : Option ℕ → Kernel → Kernel
counted found k = record k {
  total_tasks = u32 (k.total_tasks + 1);
  pid_bitpattern = take_pid found k.pid_bitpattern;
}

-- From the program in memory on: the control block, the task state and the jump to user mode.
unfoldable pub enter_program :
    ℕ → Locals → (pid : ℕ) → (args : Str) → (esp ebp eip : ℕ) → Kernel → Option (Control × Kernel)
enter_program fuel l pid args esp ebp eip k = do
  (_, p, q) ← pcb_init fuel l.new_pcb pid args (current_pcb esp) k
  some (
    enters eip,
    record k {
      queue = q;
      pcbs = store k.pcbs (pcb_addr pid) (launched p pid esp ebp);
      esp0 = kernel_stack_addr pid;
      current_task = pid;
      terminal_current_pid = store k.terminal_current_pid q.active_terminal pid;
    },
  )

-- Behind the checks: a pid, its page, the program.
unfoldable pub launch :
    ℕ → Image → Locals → (name args : Str) → (esp ebp : ℕ) → Kernel → Option (Control × Kernel)
unfolding enter_program
launch fuel im l name args esp ebp k =
    let found = find_pid 7 0 k.pid_bitpattern in
    let pid = new_pid found l.pid in
    let k1 = page_allocate (physical_page_addr pid) (counted found k) in
    do
      (eip, m) ← load_process im name cp_vaddr l.dentry l.file l.entry_buff (k1.user k1.user_page)
      enter_program fuel l pid args esp ebp eip (record k1 { user = store k1.user k1.user_page m })

-- From the copy of the command on.
unfoldable pub execute_command :
    ℕ → Image → Locals → (esp ebp : ℕ) → (command : Str) → Kernel → Option (Control × Kernel)
unfolding launch
execute_command fuel im l esp ebp command k = do
  copied ← strcpy fuel l.k_command command
  (name, args) ← manage_arguments fuel copied
  found ← is_executable im (some name) l.dentry l.exec_buffer
  if is_zero found then some (fails, k) else launch fuel im l name args esp ebp k

-- The stack pointer and the frame pointer are those of the call.
unfoldable pub execute :
    ℕ → Image → Locals → (esp ebp : ℕ) → (command : Str) → Kernel → Option (Control × Kernel)
unfolding execute_command
execute fuel im l esp ebp command k = do
  len ← strlen fuel command
  if ltb len 1
      then some (fails, k)
      else if leb 7 k.total_tasks
      then some (fails, k)
      else execute_command fuel im l esp ebp command k
