-- ===== src/Execute/Halt.antt =====
-- `halt`.
use linux_based_os.Prelude.{
  decrement, ℕ, ◌-◌, ◌==◌, ltb, if◌then◌else◌, Option, none, some, pos, set, store, for_range,
}
use linux_based_os.Strings.{Str}
use linux_based_os.Process.{Pcb, free_descriptor}
use linux_based_os.Filesystem.{Image}
use linux_based_os.Execute.{
  Kernel, Locals, Control, fails, enters, resumes, page_allocate, physical_page_addr, find_parent,
}
use linux_based_os.Execute.Launch.{execute}

-- The task count and the descriptors of the process at address `cur`.
unfoldable pub release : (cur : ℕ) → Kernel → Kernel
release cur k =
    let p = k.pcbs cur in
    record k {
      total_tasks = decrement k.total_tasks;
      pcbs =
          store k.pcbs cur
            (record p { file_array = for_range 8 0 (λ i a. set a i free_descriptor) p.file_array });
    }

-- The parent gets the task state and the page back.
unfoldable pub to_parent : Pcb → Kernel → Kernel
unfolding page_allocate
to_parent parent k = record (page_allocate (physical_page_addr parent.pid) k) {
  esp0 = parent.kernel_stack;
  current_task = parent.pid;
}

-- The slot of the process goes to the current task, if it has one.
unfoldable pub hand_over : (pid : ℕ) → Kernel → Kernel
hand_over pid k =
    let l = k.queue.priority_list_pid in
    record k {
      queue = record k.queue {
        priority_list_pid = set l (find_parent 7 0 pid l) (pos k.current_task);
      };
    }

-- The stack of the `execute` call is restored, with 256 or the status as its result.
unfoldable pub leave : (current : Pcb) → (status : ℕ) → Kernel → Control × Kernel
leave current status k =
    if k.exception_halt == 1
    then (resumes current.kesp current.kebp 256, record k { exception_halt = 0 })
    else (resumes current.kebp current.kebp status, k)

-- A shell without a parent is started again; only if that fails does `halt` go on.
unfoldable pub halt :
    ℕ
    → Image
    → Locals
    → (cur esp ebp : ℕ) → (shell : Str) → (status : ℕ) → Kernel
    → Option (Control × Kernel)
unfolding release to_parent hand_over leave
halt fuel im l cur esp ebp shell status k =
    let k1 = release cur k in
    let current = k1.pcbs cur in
    let k2 = record k1 { pid_bitpattern = set k1.pid_bitpattern (current.pid - 1) 0 } in
    if ltb 3 current.pid
    then some
        (leave current status (hand_over current.pid (to_parent (k1.pcbs current.parent_addr) k1)))
    else elim (execute fuel im l esp ebp shell k2) [
      | none ↦ none
      | some (enters eip, k3) ↦ some (enters eip, k3)
      | some (resumes a b c, k3) ↦ some (resumes a b c, k3)
      | some (fails, k3) ↦ some (leave current status (hand_over current.pid k3))
    ]
