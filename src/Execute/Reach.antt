-- ===== src/Execute/Reach.antt =====
-- The processes as a system: the calls of `execute` and `halt` and the switches of the scheduler, in
-- whatever order and with whatever programs. A launch that finds no free pid is a step as well; the
-- sequences in which each finds one are `Orderly`.
use linux_based_os.Prelude.{
  false, ◌⊎◌, ◌<◌, ℕ, zero, suc, minus_one, replicate, length, word32, ◌≡◌, inl, inr, refl, subst,
  ap, arith, Bool-cases, some, >>=-eq-some, ◌==◌,
}
use mathlib.Core.Option.{some-injective}
use linux_based_os.Strings.{Str}
use linux_based_os.Schedule.{Queue, slot, scheduler_init, next_task, start_shell}
use linux_based_os.Filesystem.{Image}
use linux_based_os.Execute.{fails, Kernel, Locals, Control, current_pcb, pcb_addr, page_allocate}
use linux_based_os.Execute.Alive.{
  Alive, IsKernel, SameBlocks, Took-same, IsKernel-same, store-SameBlocks, Alive-to,
}
use linux_based_os.Strings.Length.{HasLength}
use linux_based_os.Execute.Invariant.{HasPid, CanCall, execute-IsKernel, halt-IsKernel}
use linux_based_os.Execute.Launch.{execute}
use linux_based_os.Execute.Halt.{halt}
use linux_based_os.Execute.Switch.{Switch, save_context, switch_context, switch_tasks}

-- The stack pointer is that of a process that was started.
abbrev pub OnProcess : Kernel → (esp : ℕ) → Type 0
OnProcess k esp = (p : ℕ) × Alive k.pcbs p × (current_pcb esp ≡ pcb_addr p)

-- One step: a process calls `execute` or `halt`, or the timer ticks. The first tick comes on the stack
-- of the start, when no pid is taken.
pub data Step (im : Image) (k r : Kernel) : Type 0 where
  executes :
      (fuel : ℕ) (l : Locals) (esp ebp : ℕ) (command : Str) (c : Control)
      → OnProcess k esp
      → execute fuel im l esp ebp command k ≡ some (c, r)
      → Step im k r
  halts :
      (fuel : ℕ) (l : Locals) (esp ebp : ℕ) (shell : Str) (status : ℕ) (c : Control)
      → OnProcess k esp
      → halt fuel im l (current_pcb esp) esp ebp shell status k ≡ some (c, r)
      → Step im k r
  ticks :
      (fuel : ℕ) (l : Locals) (esp ebp : ℕ) (shell : Str) (s : Switch)
      → CanCall k esp
      → switch_tasks fuel im l (current_pcb esp) esp ebp shell k ≡ some (s, r)
      → Step im k r

pub data Reach (im : Image) (k : Kernel) : Kernel → Type 0 where
  here : Reach im k k
  next : {r r' : Kernel} → Reach im k r → Step im r r' → Reach im k r'

pub save_context-IsKernel :
    (cur esp ebp : ℕ) (k : Kernel) → IsKernel k → IsKernel (save_context cur esp ebp k)
unfolding save_context
save_context-IsKernel cur esp ebp k v =
    IsKernel-same v (store-SameBlocks k.pcbs k.pcbs cur _ (λ a. (refl, refl)) refl refl)
      (Took-same k.queue.priority_list_pid) v.bits (inl refl)

save_context-CanCall :
    (cur esp ebp : ℕ) (k : Kernel) → CanCall k esp → CanCall (save_context cur esp ebp k) esp
unfolding save_context
save_context-CanCall cur esp ebp k (inl (q, a, at)) =
    inl (q, Alive-to (store-SameBlocks k.pcbs k.pcbs cur _ (λ a. (refl, refl)) refl refl) a, at)
save_context-CanCall cur esp ebp k (inr free) = inr free

pub switch_context-SameBlocks :
    (cur i : ℕ) (k : Kernel) → SameBlocks k.pcbs (switch_context cur i k).1.pcbs
unfolding switch_context page_allocate
switch_context-SameBlocks cur i k =
    let next = pcb_addr (word32 (slot k.queue.priority_list_pid i)) in
    let first = store-SameBlocks k.pcbs k.pcbs cur _ (λ a. (refl, refl)) refl refl in
    store-SameBlocks k.pcbs _ next _ first (first next).0 (first next).1

switch_context-IsKernel :
    (cur i : ℕ) (k : Kernel) → IsKernel k → IsKernel (switch_context cur i k).1
unfolding switch_context page_allocate
switch_context-IsKernel cur i k v =
    IsKernel-same v (switch_context-SameBlocks cur i k) (Took-same k.queue.priority_list_pid) v.bits
      (inl refl)

-- The tick that starts one more shell.
shell_started :
    (fuel : ℕ) (im : Image) (l : Locals) (esp ebp : ℕ) (shell : Str) (k r : Kernel) (c : Control)
    → execute fuel im l esp ebp shell (record k { queue = start_shell k.queue }) ≡ some (c, r)
    → CanCall k esp
    → HasPid k
    → IsKernel k
    → IsKernel r
unfolding start_shell
shell_started fuel im l esp ebp shell k r c e call free v =
    execute-IsKernel fuel im l esp ebp shell (record k { queue = start_shell k.queue }) r c e call
      (inl free)
      (IsKernel-same v (λ a. (refl, refl)) (Took-same k.queue.priority_list_pid) v.bits (inl refl))

pid_left :
    (k : Kernel)
    → (k.queue.schedule_started ≡ 1) ⊎ HasPid k
    → (k.queue.schedule_started == 1) ≡ false
    → HasPid k
pid_left k (inl started) t = absurd (ground (arith, started, t))
pid_left k (inr free) t = free

switch_tasks-IsKernel :
    (fuel : ℕ) (im : Image) (l : Locals) (cur esp ebp : ℕ) (shell : Str) (k r : Kernel) (s : Switch)
    → switch_tasks fuel im l cur esp ebp shell k ≡ some (s, r)
    → CanCall k esp
    → (k.queue.schedule_started ≡ 1) ⊎ HasPid k
    → IsKernel k
    → IsKernel r
unfolding switch_tasks save_context
switch_tasks-IsKernel fuel im l cur esp ebp shell k r s e call free v =
    let k1 = save_context cur esp ebp k in
    let w = save_context-IsKernel cur esp ebp k v in
    elim (Bool-cases (k1.queue.schedule_started == 1)) [
      | inl t ↦
          let (i, found, done) = >>=-eq-some (next_task fuel k1.queue) _ (rw t at e) in
          let same : (switch_context cur i k1).1 ≡ r =
            ap (λ (a : Switch × Kernel). a.1) (some-injective _ (s, r) done) in
          subst IsKernel same (switch_context-IsKernel cur i k1 w)
      | inr t ↦
          let ((c, k2), run, done) =
            >>=-eq-some
              (execute fuel im l esp ebp shell (record k1 { queue = start_shell k1.queue })) _
              (rw t at e) in
          let same : k2 ≡ r = ap (λ (a : Switch × Kernel). a.1) (some-injective _ (s, r) done) in
          subst IsKernel same (
            shell_started fuel im l esp ebp shell k1 k2 c run
              (save_context-CanCall cur esp ebp k call) (pid_left k free t) w)
    ]

-- A string of fewer than 128 characters.
abbrev pub IsShort : Str → Type 0
IsShort s = (n : ℕ) × HasLength s n × (n < 128)

-- The command is short, and a launch finds a free pid. A base shell that halts has freed its own.
abbrev pub Fits : {im : Image} {k r : Kernel} → Step im k r → Type 0
Fits {im} {k} {r} (executes fuel l esp ebp command c on run) =
    IsShort command × (HasPid k ⊎ (c ≡ fails))
Fits {im} {k} {r} (halts fuel l esp ebp shell status c on run) = IsShort shell
Fits {im} {k} {r} (ticks fuel l esp ebp shell s call run) =
    IsShort shell × ((k.queue.schedule_started ≡ 1) ⊎ HasPid k)

-- Steps that all fit.
pub data Orderly (im : Image) (k : Kernel) : Kernel → Type 0 where
  still : Orderly im k k
  after : {r r' : Kernel} → Orderly im k r → (step : Step im r r') → Fits step → Orderly im k r'

Step-IsKernel :
    (im : Image) (k r : Kernel) (step : Step im k r) → Fits step → IsKernel k → IsKernel r
Step-IsKernel im k r (executes fuel l esp ebp command c on run) (short, free) v =
    execute-IsKernel fuel im l esp ebp command k r c run (inl on) free v
Step-IsKernel im k r (halts fuel l esp ebp shell status c (p, a, at) run) short v =
    halt-IsKernel fuel im l (current_pcb esp) esp ebp shell status p k r c a at v refl run
Step-IsKernel im k r (ticks fuel l esp ebp shell s call run) (short, free) v =
    switch_tasks-IsKernel fuel im l (current_pcb esp) esp ebp shell k r s run call free v

Orderly-IsKernel : (im : Image) (k r : Kernel) → Orderly im k r → IsKernel k → IsKernel r
Orderly-IsKernel im k r still v = v
Orderly-IsKernel im k r (after {r = r0} before step fits) v =
    Step-IsKernel im r0 r step fits (Orderly-IsKernel im k r0 before v)

-- The kernel behind its start: an empty run queue, seven free pids, and no control block.
pub record IsBooted (k : Kernel) : Type 0 where
  pub queue : k.queue ≡ scheduler_init
  pub pids : k.pid_bitpattern ≡ replicate 7 0
  pub blank : (a : ℕ) → (k.pcbs a).pid ≡ 0

empty_slot : (n i : ℕ) → slot (replicate n minus_one) i ≡ minus_one
empty_slot zero i = refl
empty_slot (suc n) zero = refl
empty_slot (suc n) (suc i) = empty_slot n i

booted-IsKernel : (k : Kernel) → IsBooted k → IsKernel k
unfolding scheduler_init
booted-IsKernel k b =
    let slots : k.queue.priority_list_pid ≡ replicate 7 minus_one =
      ap (λ (q : Queue). q.priority_list_pid) b.queue in
    record {
      slots = ap length slots;
      bits = ap length b.pids;
      held = λ i. rw (slots, empty_slot 7 i) tt;
      parents = λ p a above. absurd (omega (arith, b.blank (pcb_addr p), a.own, a.least));
      task = inr (λ p a. omega (arith, b.blank (pcb_addr p), a.own, a.least));
    }

-- Let the kernel start with an empty run queue, seven free pids and no control block. Let processes
-- then call `execute` and `halt` on their stacks, and ticks come on these or while pid 1 is free,
-- in whatever order, as long as every command has fewer than 128 characters, and every launch by
-- `execute` or by the start of a shell finds a free pid: the run queue has seven slots, and each is
-- empty or holds a process that was started, with a pid from 1 to 7 that its control block has; the
-- control block of each with a pid above 3 points to that of a parent that was started; and the
-- current task is one of them once there is any.
pub booted_stays_IsKernel : (im : Image) (k r : Kernel) → IsBooted k → Orderly im k r → IsKernel r
booted_stays_IsKernel im k r b reach = Orderly-IsKernel im k r reach (booted-IsKernel k b)
