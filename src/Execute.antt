-- ===== src/Execute.antt =====
-- student-distrib/system_calls.c: `execute`, `halt`, `PCB_init`, `current_PCB`, `getargs`, and what
-- they share with the scheduler. Control that leaves by `iret` or by restoring a saved stack is a
-- value of `Control`. `ss0` of the task state is always the kernel's and is left out, and so are
-- `cli` and the flush of the TLB.
pub mod Addresses
pub mod Alive
pub mod Arguments
pub mod Cases
pub mod Fails
pub mod Init
pub mod Invariant
pub mod Pids
pub mod Reach
pub mod Resume
pub mod Keeps
pub mod Launch
pub mod Line
pub mod Services
pub mod Switch
pub mod Slots
pub mod Return
pub mod RoundTrip
pub mod Halt
use linux_based_os.Prelude.{
  ◌>>=◌, ℕ, zero, suc, ◌+◌, ◌-◌, ◌*◌, ◌^◌, ◌%◌, ◌==◌, if◌then◌else◌, ◌||◌, ltb, leb, Bool, Option,
  none, some, ℤ, pos, minus_one, is_zero, word32, ltb_ℤ, List, get_or, set, store, for_range, u32,
  subtract, decrement, bit_and, bit_or,
}
use linux_based_os.Strings.{Str, strlen, strcpy}
use linux_based_os.Memory.{Memory}
use linux_based_os.Descriptor.{Descriptor, Driver, keyboard, terminal}
use linux_based_os.Process.{
  Pcb, ProcessState, started, running, free_descriptor, in_use, max_fd, min_fd,
}
use linux_based_os.Schedule.{Queue, slot, next_slot}
use linux_based_os.Filesystem.{Dentry}

abbrev pub four_mb : ℕ
four_mb = 0x400000

abbrev pub eight_mb : ℕ
eight_mb = 0x800000

abbrev pub eight_kb : ℕ
eight_kb = 0x2000

-- The address at which every program is loaded.
abbrev pub cp_vaddr : ℕ
cp_vaddr = 0x8048000

-- The flags of the page of a program.
abbrev pub fourmb_user_page : ℕ
fourmb_user_page = 0x87

abbrev pub kernel_stack_addr : ℕ → ℕ
kernel_stack_addr pid = subtract eight_mb (u32 (pid * eight_kb))

abbrev pub pcb_addr : ℕ → ℕ
pcb_addr pid = subtract (kernel_stack_addr pid) eight_kb

-- `((pid-1) * FOURMB) + EIGHTMB`
abbrev pub physical_page_addr : ℕ → ℕ
physical_page_addr pid = u32 (decrement pid * four_mb + eight_mb)

-- `andl $0xFFFFE000` on the stack pointer
unfoldable pub current_pcb : (esp : ℕ) → ℕ
current_pcb esp = bit_and esp 0xFFFFE000

-- `user_page` is the entry `CP_INDEX` of the page directory, and `user` the memory behind each
-- value of it. `pcbs` are the control blocks by their address.
pub record Kernel : Type 0 where
  pub queue : Queue
  pub total_tasks : ℕ
  pub pid_bitpattern : List ℕ
  pub current_task : ℕ
  pub terminal_current_pid : ℕ → ℕ
  pub user_page : ℕ
  pub user : ℕ → Memory
  pub esp0 : ℕ
  pub exception_halt : ℕ
  pub pcbs : ℕ → Pcb

-- Local variables that are not initialised.
pub record Locals : Type 0 where
  pub pid : ℕ
  pub new_pcb : Pcb
  pub k_command : Str
  pub dentry : Dentry
  pub file : Dentry
  pub exec_buffer : Memory
  pub entry_buff : Memory

-- How a call ends: with -1, with the entry to a program, or with the return of the `execute` call
-- whose stack `halt` restores, and the value in `eax`.
pub data Control : Type 0 where
  fails : Control
  enters : (eip : ℕ) → Control
  resumes : (esp ebp eax : ℕ) → Control

abbrev pub is_stop : ℕ → Bool
is_stop c = (c == 0) || ((c == 32) || (c == 10))

-- `for (scan = k_command; ...; scan++);`: the first NUL, blank or line break from `scan` on.
unfoldable pub scan_word : ℕ → Str → ℕ → Option ℕ
scan_word zero k scan = none
scan_word (suc fuel) k scan =
    let rest = scan_word fuel k (scan + 1) in if is_stop (k scan) then some scan else rest

-- `for (; ...; scan++, i++) args[i] = *scan;`: the arguments, and where it stops.
unfoldable pub copy_args : ℕ → Str → (scan i : ℕ) → Str → Option (Str × ℕ)
copy_args zero k scan i args = none
copy_args (suc fuel) k scan i args =
    let rest = copy_args fuel k (scan + 1) (i + 1) (store args i (k scan)) in
    if is_stop (k scan) then some (args, scan) else rest

-- The command cut behind the name and behind the arguments, and the arguments.
unfoldable pub manage_arguments : ℕ → Str → Option (Str × Str)
manage_arguments fuel k = do
  scan ← scan_word fuel k 0
  if k scan == 0 then some (k, λ _. 0) else do
    (args, end) ← copy_args fuel (store k scan 0) (scan + 1) 0 (λ _. 0)
    some (if k end == 0 then store k scan 0 else store (store k scan 0) end 0, args)

-- `page_allocate(physical_page_addr, CP_INDEX, FOURMB_USER_PAGE)`
unfoldable pub page_allocate : ℕ → Kernel → Kernel
page_allocate addr k = record k { user_page = bit_or addr fourmb_user_page }

-- The first free entry of `pid_bitpattern`; without one the loop sets nothing.
unfoldable pub find_pid : ℕ → ℕ → List ℕ → Option ℕ
find_pid zero i l = none
find_pid (suc left) i l =
    let rest = find_pid left (i + 1) l in if get_or l i 1 == 0 then some i else rest

-- The slot of the parent, 7 if it has none.
unfoldable pub find_parent : ℕ → ℕ → (pid : ℕ) → List ℤ → ℕ
find_parent zero i pid l = i
find_parent (suc left) i pid l =
    let rest = find_parent left (i + 1) pid l in if word32 (slot l i) == pid then i else rest

-- The first slot that holds no task for a shell without a parent, in seven rounds.
unfoldable pub find_base : ℕ → ℕ → List ℤ → Option ℕ
find_base zero i l = none
find_base (suc left) i l =
    let rest = find_base left (next_slot i) l in if ltb_ℤ (pos 0) (slot l i) then rest else some i
