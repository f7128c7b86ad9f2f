-- ===== src/Execute/Return.antt =====
-- A child that is started and halts gives everything back to its parent.
use linux_based_os.Prelude.{
  decrement, ◌^◌, ℕ, zero, suc, ◌<◌, ◌≡◌, ◌≢◌, refl, arith, ◌∙◌, pos, some, List, set, length,
  store, lt→ltb, bit_or, get_or, get_or-set_ne, for_range, for_range_inv, Bool-cases, inl, inr,
  ==_iff, ◌==◌, [], ◌∷◌, ==_refl, ==_false,
}
use linux_based_os.Strings.{Str, strlen, strcpy}
use linux_based_os.Process.{Pcb, free_descriptor}
use linux_based_os.Descriptor.{Descriptor, keyboard, terminal}
use linux_based_os.Filesystem.{Image}
use linux_based_os.Execute.{
  Kernel, Locals, enters, resumes, current_pcb, pcb_addr, kernel_stack_addr, page_allocate,
  fourmb_user_page, physical_page_addr,
}
use linux_based_os.Execute.Slots.{Holds, find_parent_lem}
use linux_based_os.Execute.Init.{device, pcb_init, pcb_finish, pcb_fresh}
use linux_based_os.Execute.Launch.{enter_program, launched}
use linux_based_os.Execute.Halt.{halt, release, to_parent, hand_over, leave}

-- The caller of `execute`, at the time of the call, and its slot.
pub record Caller (k : Kernel) (esp i : ℕ) : Type 0 where
  pub slot_of : Holds k.queue.priority_list_pid i (k.pcbs (current_pcb esp)).pid
  pub seven : length k.queue.priority_list_pid ≡ 7
  pub bound : i < 7
  pub stack : k.esp0 ≡ (k.pcbs (current_pcb esp)).kernel_stack
  pub task : k.current_task ≡ (k.pcbs (current_pcb esp)).pid
  pub counts : k.total_tasks < 2 ^ 32

module _ (fuel : ℕ) (l : Locals) (pid : ℕ) (args copied : Str) (esp ebp eip i : ℕ)
    (k : Kernel) where
  unfoldable pub parent : Pcb
  parent = k.pcbs (current_pcb esp)

  -- The control block of the child.
  unfoldable pub child_pcb : Pcb
  unfolding pcb_fresh parent
  child_pcb =
      launched
        (record (pcb_fresh l.new_pcb pid parent.terminal_id) {
          parent_addr = current_pcb esp;
          args = copied;
          file_array =
              set (set (pcb_fresh l.new_pcb pid parent.terminal_id).file_array 0 (device keyboard))
                1 (device terminal);
        })
        pid esp ebp

  -- The state at its first instruction.
  unfoldable pub child_kernel : Kernel
  child_kernel = record k {
    queue = record k.queue {
      priority_list_pid = set k.queue.priority_list_pid i (pos pid);
      current_schedule = pos i;
    };
    pcbs = store k.pcbs (pcb_addr pid) child_pcb;
    esp0 = kernel_stack_addr pid;
    current_task = pid;
    terminal_current_pid = store k.terminal_current_pid k.queue.active_terminal pid;
  }

  pub enter_child :
      {len : ℕ}
      → 3 < pid
      → Caller k esp i
      → strlen fuel args ≡ some len
      → len < 128
      → strcpy fuel l.new_pcb.args args ≡ some copied
      → enter_program fuel l pid args esp ebp eip k ≡ some (enters eip, child_kernel)
  unfolding enter_program pcb_init pcb_finish pcb_fresh child_kernel child_pcb parent
  enter_child {len} h c n short s =
      rw
        (
          lt→ltb 3 pid h,
          find_parent_lem i (k.pcbs (current_pcb esp)).pid k.queue.priority_list_pid c.slot_of
              c.bound,
          n,
          lt→ltb len 128 short,
          s,
        )
        refl

module _ (k : Kernel) (cur j : ℕ) where
  unfoldable pub closed_pcb : Pcb
  closed_pcb = record (k.pcbs cur) {
    file_array = for_range 8 0 (λ i a. set a i free_descriptor) (k.pcbs cur).file_array;
  }

  unfoldable pub halted : Kernel
  unfolding closed_pcb
  halted =
      let parent = k.pcbs (k.pcbs cur).parent_addr in
      record k {
        queue = record k.queue {
          priority_list_pid = set k.queue.priority_list_pid j (pos parent.pid);
        };
        total_tasks = decrement k.total_tasks;
        pcbs = store k.pcbs cur closed_pcb;
        user_page = bit_or (physical_page_addr parent.pid) fourmb_user_page;
        esp0 = parent.kernel_stack;
        current_task = parent.pid;
      }

  pub halt_child :
      (fuel : ℕ) (im : Image) (l : Locals) (esp ebp : ℕ) (shell : Str) (status : ℕ)
      → 3 < (k.pcbs cur).pid
      → (k.pcbs cur).parent_addr ≢ cur
      → Holds k.queue.priority_list_pid j (k.pcbs cur).pid
      → j < 7
      → k.exception_halt ≡ 0
      → halt fuel im l cur esp ebp shell status k
        ≡ some (resumes (k.pcbs cur).kebp (k.pcbs cur).kebp status, halted)
  unfolding halt release to_parent hand_over leave page_allocate halted closed_pcb for_range
  halt_child fuel im l esp ebp shell status h n s b x =
      rw
        (
          ==_refl cur,
          lt→ltb 3 (k.pcbs cur).pid h,
          ==_false (k.pcbs cur).parent_addr cur n,
          find_parent_lem j (k.pcbs cur).pid k.queue.priority_list_pid s b,
          x,
        )
        refl

-- The state in which the caller of `execute` goes on, after `halt` in state `k` of the process with
-- control block `cur`: its task state, its page and its slot in the run queue, one task less, all
-- eight descriptors of the process free, and the pids as they were.
pub record Returned (k r : Kernel) (cur j : ℕ) : Type 0 where
  pub slots :
      r.queue.priority_list_pid
      ≡ set k.queue.priority_list_pid j (pos (k.pcbs (k.pcbs cur).parent_addr).pid)
  pub stack : r.esp0 ≡ (k.pcbs (k.pcbs cur).parent_addr).kernel_stack
  pub task : r.current_task ≡ (k.pcbs (k.pcbs cur).parent_addr).pid
  pub page :
      r.user_page
      ≡ bit_or (physical_page_addr (k.pcbs (k.pcbs cur).parent_addr).pid) fourmb_user_page
  pub count : r.total_tasks ≡ decrement k.total_tasks
  pub closed :
      (fd : ℕ) → fd < 8 → get_or (r.pcbs cur).file_array fd free_descriptor ≡ free_descriptor
  pub others : (a : ℕ) → a ≢ cur → r.pcbs a ≡ k.pcbs a
  pub pids : r.pid_bitpattern ≡ k.pid_bitpattern

set-default {ℓ} : {A : Type ℓ} (xs : List A) (i : ℕ) (d : A) → get_or (set xs i d) i d ≡ d
set-default [] i d = refl
set-default (x ∷ xs) zero d = refl
set-default (x ∷ xs) (suc i) d = set-default xs i d

all_free :
    (a : List Descriptor) (fd : ℕ)
    → fd < 8
    → get_or (for_range 8 0 (λ i b. set b i free_descriptor) a) fd free_descriptor ≡ free_descriptor
all_free a =
    for_range_inv (λ n b. (fd : ℕ) → fd < n → get_or b fd free_descriptor ≡ free_descriptor)
      (λ i b. set b i free_descriptor)
      (λ i b h fd l. elim (Bool-cases (fd == i)) [
        | inl e ↦ let e' : fd ≡ i = (==_iff fd i).0 e in rw e' (set-default b i free_descriptor)
        | inr e ↦
            get_or-set_ne b i fd free_descriptor free_descriptor (ground arith)
            ∙ h fd (ground arith)
      ])
      8 0 8 a refl (λ fd l. absurd (omega arith))

pub halted-Returned : (k : Kernel) (cur j : ℕ) → Returned k (halted k cur j) cur j
unfolding halted closed_pcb
halted-Returned k cur j = record {
  slots = refl;
  stack = refl;
  task = refl;
  page = refl;
  count = refl;
  closed = λ fd l. rw (==_refl cur) (all_free (k.pcbs cur).file_array fd l);
  others = λ a n. rw (==_false a cur n) refl;
  pids = refl;
}

-- When a child of another process halts with no exception pending, the `execute` call that started it
-- returns the status, in the state `Returned` describes.
pub halt_lem :
    (k : Kernel) (cur j fuel : ℕ) (im : Image) (l : Locals) (esp ebp : ℕ) (shell : Str) (status : ℕ)
    → 3 < (k.pcbs cur).pid
    → (k.pcbs cur).parent_addr ≢ cur
    → Holds k.queue.priority_list_pid j (k.pcbs cur).pid
    → j < 7
    → k.exception_halt ≡ 0
    → (r : Kernel) × (halt fuel im l cur esp ebp shell status k
        ≡ some (resumes (k.pcbs cur).kebp (k.pcbs cur).kebp status, r))
      × Returned k r cur j
halt_lem k cur j fuel im l esp ebp shell status h n s b x = (
  halted k cur j,
  halt_child k cur j fuel im l esp ebp shell status h n s b x,
  halted-Returned k cur j,
)
