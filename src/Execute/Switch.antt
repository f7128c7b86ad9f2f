-- ===== src/Execute/Switch.antt =====
-- student-distrib/schedule.c: `switch_tasks` on the whole kernel state, and `schedule`, which is all of
-- the timer's interrupt.
use linux_based_os.Prelude.{
  ◌>>=◌, ℕ, ◌==◌, ◌≡◌, refl, ==_refl, ==_false, sym, ◌≢◌, false, if◌then◌else◌, Option, some, pos,
  word32, store,
}
use linux_based_os.Strings.{Str}
use linux_based_os.Process.{Pcb, running, waiting}
use linux_based_os.Schedule.{slot, next_task, start_shell}
use linux_based_os.Filesystem.{Image}
use linux_based_os.Execute.{
  Kernel, Locals, Control, page_allocate, physical_page_addr, kernel_stack_addr, pcb_addr,
}
use linux_based_os.Execute.Launch.{execute}
use linux_based_os.Pic.{Pic, send_eoi}

-- The stack that the processor goes on with and the terminal of `pcb_terminal`, or the end of the
-- `execute` call for one more shell.
pub data Switch : Type 0 where
  to_task : (esp ebp pcb_terminal : ℕ) → Switch
  to_shell : Control → Switch

-- The stack of the current process is kept in its control block.
unfoldable pub save_context : (cur esp ebp : ℕ) → Kernel → Kernel
save_context cur esp ebp k = record k {
  pcbs = store k.pcbs cur (record (k.pcbs cur) { sesp = esp; sebp = ebp });
}

abbrev pub with_state : ℕ → Pcb → (ℕ → Pcb) → ℕ → Pcb
with_state addr p pcbs = store pcbs addr p

-- The page, the task state and the two process states; the terminal is the one of the process left.
unfoldable pub switch_context : (cur i : ℕ) → Kernel → Switch × Kernel
switch_context cur i k =
    let pid = word32 (slot k.queue.priority_list_pid i) in
    let next = pcb_addr pid in
    let k1 = page_allocate (physical_page_addr pid) k in
    let left = with_state cur (record (k1.pcbs cur) { process_state = waiting }) k1.pcbs in
    let entered = with_state next (record (left next) { process_state = running }) left in
    (
      to_task (entered next).sesp (entered next).sebp (entered cur).terminal_id,
      record k1 {
        queue = record k1.queue { current_schedule = pos i };
        esp0 = kernel_stack_addr pid;
        pcbs = entered;
      },
    )

unfoldable pub switch_tasks :
    ℕ → Image → Locals → (cur esp ebp : ℕ) → (shell : Str) → Kernel → Option (Switch × Kernel)
unfolding save_context switch_context
switch_tasks fuel im l cur esp ebp shell k =
    let k1 = save_context cur esp ebp k in
    if k1.queue.schedule_started == 1
    then (do i ← next_task fuel k1.queue; some (switch_context cur i k1))
    else (do
      (c, k2) ← execute fuel im l esp ebp shell (record k1 { queue = start_shell k1.queue })
      some (to_shell c, k2))

-- `schedule`: `switch_tasks`, which acknowledges the interrupt in both branches. Its `cli` and `sti`
-- have no effect here: a tick is one step.
unfoldable pub schedule :
    ℕ
    → Image
    → Locals
    → (cur esp ebp : ℕ) → (shell : Str) → Kernel
    → Pic
    → Option (Switch × Kernel × Pic)
unfolding switch_tasks
schedule fuel im l cur esp ebp shell k pic = do
  (s, r) ← switch_tasks fuel im l cur esp ebp shell k
  some (s, r, send_eoi 0 pic)

-- A process that was switched away from and is switched to again, from another process, goes on
-- with the stack that it left; the current terminal becomes that of the other process.
pub switch_context-save_context :
    (cur other i esp ebp : ℕ) (k : Kernel)
    → pcb_addr (word32 (slot k.queue.priority_list_pid i)) ≡ cur
    → cur ≢ other
    → (switch_context other i (save_context cur esp ebp k)).0
      ≡ to_task esp ebp (k.pcbs other).terminal_id
unfolding switch_context save_context page_allocate
switch_context-save_context cur other i esp ebp k e n =
    let back : (other == cur) ≡ false = ==_false other cur (λ d. n (sym d)) in
    rw (e, ==_refl cur, ==_false cur other n, back, ==_refl other) refl
