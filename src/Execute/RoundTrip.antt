-- ===== src/Execute/RoundTrip.antt =====
-- A child that is started and halts gives everything back to its parent, but for its pid.
use linux_based_os.Prelude.{
  ◌<◌, subst, ℕ, ◌+◌, ◌-◌, ◌≤◌, ◌≡◌, ◌≢◌, refl, arith, ap, sym, ◌∙◌, pos, some, set, store, set-set,
  set-get_or, minus_one, bit_or, ==_refl, ==_false,
}
use linux_based_os.Strings.{Str, strlen, strcpy}
use linux_based_os.Process.{Pcb}
use linux_based_os.Filesystem.{Image}
use linux_based_os.Execute.{
  Kernel, Locals, enters, resumes, current_pcb, pcb_addr, page_allocate, find_pid, cp_vaddr,
  fourmb_user_page, physical_page_addr,
}
use linux_based_os.Execute.Slots.{Holds, Absent, set-Holds}
use linux_based_os.Filesystem.Program.{load_process}
use linux_based_os.Memory.{Memory}
use linux_based_os.Execute.Init.{pcb_fresh}
use linux_based_os.Execute.Launch.{counted, launch}
use linux_based_os.Execute.Halt.{halt}
use linux_based_os.Execute.Return.{
  Caller, child_kernel, child_pcb, enter_child, halted, closed_pcb, halt_child,
}

-- The caller's view of a program that was started and has halted.
pub record GivenBack (k r : Kernel) (pid : ℕ) : Type 0 where
  pub slots : r.queue.priority_list_pid ≡ k.queue.priority_list_pid
  pub stack : r.esp0 ≡ k.esp0
  pub task : r.current_task ≡ k.current_task
  pub count : r.total_tasks ≡ k.total_tasks
  pub blocks : (a : ℕ) → a ≢ pcb_addr pid → r.pcbs a ≡ k.pcbs a
  pub pids : r.pid_bitpattern ≡ set k.pid_bitpattern (pid - 1) 1

-- What `launch` finds: pid `n + 1` is free and not a shell's, the program loads, the arguments fit.
pub record Loads (fuel : ℕ) (im : Image) (l : Locals) (name args copied : Str) (eip n : ℕ)
    (m : Memory) (k : Kernel) : Type 0 where
  pub free_pid : find_pid 7 0 k.pid_bitpattern ≡ some n
  pub child : 3 ≤ n
  pub program :
      load_process im name cp_vaddr l.dentry l.file l.entry_buff
        (k.user (bit_or (physical_page_addr (n + 1)) fourmb_user_page))
      ≡ some (eip, m)
  pub length : ℕ
  pub is_length : strlen fuel args ≡ some length
  pub short : length < 128
  pub arguments : strcpy fuel l.new_pcb.args args ≡ some copied

module _ (fuel : ℕ) (im : Image) (l : Locals) (name args copied : Str) (esp ebp eip n i : ℕ)
    (m : Memory) (k : Kernel) where
  loaded : Kernel
  loaded =
      let k1 = page_allocate (physical_page_addr (n + 1)) (counted (some n) k) in
      record k1 { user = store k1.user k1.user_page m }

  launch-enters :
      Caller k esp i
      → Loads fuel im l name args copied eip n m k
      → launch fuel im l name args esp ebp k
        ≡ some (enters eip, child_kernel fuel l (n + 1) args copied esp ebp eip i loaded)
  unfolding launch loaded page_allocate
  launch-enters c w =
      rw (w.free_pid, w.program)
        (enter_child fuel l (n + 1) args copied esp ebp eip i loaded (omega (arith, w.child))
          (record {
            slot_of = c.slot_of;
            seven = c.seven;
            bound = c.bound;
            stack = c.stack;
            task = c.task;
            counts = ground arith;
          })
          w.is_length w.short w.arguments)

  cur : ℕ
  cur = pcb_addr (n + 1)

  started : Kernel
  started = child_kernel fuel l (n + 1) args copied esp ebp eip i loaded

  child : Pcb
  child = child_pcb fuel l (n + 1) args copied esp ebp eip i loaded

  started-child : started.pcbs cur ≡ child
  unfolding started child cur child_kernel
  started-child = rw (==_refl (pcb_addr (n + 1))) refl

  started-parent : current_pcb esp ≢ cur → started.pcbs (current_pcb esp) ≡ k.pcbs (current_pcb esp)
  unfolding started child_kernel loaded cur page_allocate
  started-parent d = rw (==_false (current_pcb esp) (pcb_addr (n + 1)) d) refl

  started-Holds :
      Caller k esp i
      → Absent k.queue.priority_list_pid (n + 1)
      → Holds started.queue.priority_list_pid i (n + 1)
  unfolding started child_kernel loaded page_allocate
  started-Holds c a = set-Holds i (n + 1) k.queue.priority_list_pid a (rw c.seven c.bound)

  started-pending : k.exception_halt ≡ 0 → started.exception_halt ≡ 0
  unfolding started child_kernel loaded page_allocate
  started-pending x = x

  started_halts :
      (shell : Str) (l2 : Locals) (esp2 ebp2 status : ℕ)
      → Caller k esp i
      → Loads fuel im l name args copied eip n m k
      → Absent k.queue.priority_list_pid (n + 1)
      → current_pcb esp ≢ cur
      → k.exception_halt ≡ 0
      → halt fuel im l2 cur esp2 ebp2 shell status started
        ≡ some (resumes ebp ebp status, halted started cur i)
  unfolding child child_pcb pcb_fresh
  started_halts shell l2 esp2 ebp2 status c w a d x =
      subst
        (λ p.
          halt fuel im l2 cur esp2 ebp2 shell status started
          ≡ some (resumes p.kebp p.kebp status, halted started cur i))
        started-child
        (halt_child started cur i fuel im l2 esp2 ebp2 shell status
          (rw started-child (omega (arith, w.child))) (rw started-child d)
          (rw started-child (started-Holds c a)) c.bound (started-pending x))

  started_back :
      Caller k esp i
      → Loads fuel im l name args copied eip n m k
      → current_pcb esp ≢ cur
      → GivenBack k (halted started cur i) (n + 1)
  unfolding halted closed_pcb started child_kernel loaded page_allocate child child_pcb pcb_fresh
      cur
  started_back c w d =
      let l = k.queue.priority_list_pid in
      let parent_of : (started.pcbs (started.pcbs cur).parent_addr) ≡ k.pcbs (current_pcb esp) =
        ap (λ p. started.pcbs p.parent_addr) started-child ∙ started-parent d in
      record {
        slots =
            set-set l i (pos (n + 1)) (pos (started.pcbs (started.pcbs cur).parent_addr).pid)
            ∙ ap (λ p. set l i (pos p.pid)) parent_of
            ∙ ap (λ v. set l i v) (sym c.slot_of.at)
            ∙ set-get_or l i minus_one;
        stack = ap (λ p. p.kernel_stack) parent_of ∙ sym c.stack;
        task = ap (λ p. p.pid) parent_of ∙ sym c.task;
        count = omega (arith, c.counts);
        blocks = λ a e. rw (==_false a (pcb_addr (n + 1)) e) refl;
        pids = ap (λ j. set k.pid_bitpattern j 1) (omega arith);
      }

  -- When the caller's state is in order, a pid above 3 is free, the program loads, the arguments
  -- have fewer than 128 characters, the pid is in no slot and no exception is pending: `launch`
  -- enters the program; if it halts at once, the `execute` call returns the status, and the caller
  -- finds the run queue, its stack and current task, the number of tasks and every other control
  -- block as they were. The bit of the pid stays set.
  pub halt-launch :
      (shell : Str) (l2 : Locals) (esp2 ebp2 status : ℕ)
      → Caller k esp i
      → Loads fuel im l name args copied eip n m k
      → Absent k.queue.priority_list_pid (n + 1)
      → current_pcb esp ≢ pcb_addr (n + 1)
      → k.exception_halt ≡ 0
      → (k' : Kernel) × (r : Kernel) × (launch fuel im l name args esp ebp k
          ≡ some (enters eip, k'))
        × (halt fuel im l2 (pcb_addr (n + 1)) esp2 ebp2 shell status k'
            ≡ some (resumes ebp ebp status, r))
        × GivenBack k r (n + 1)
  unfolding started cur
  halt-launch shell l2 esp2 ebp2 status c w a d x = (
    started,
    halted started cur i,
    launch-enters c w,
    started_halts shell l2 esp2 ebp2 status c w a d x,
    started_back c w d,
  )
