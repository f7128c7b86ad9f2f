-- ===== src/Execute/Resume.antt =====
-- Which process a switch of the scheduler goes on with.
use linux_based_os.Prelude.{
  ℕ, zero, suc, ◌≡◌, ◌≢◌, inl, inr, refl, subst, arith, pos, Bool-cases, some, Option, >>=-eq-some,
  ◌==◌, List, ℤ, negsuc, ltb_ℤ, false, bit_or,
}
use mathlib.Core.Option.{some-injective}
use linux_based_os.Strings.{Str}
use linux_based_os.Process.{Pcb}
use linux_based_os.Schedule.{slot, next_task, find_task, next_slot, planned, start_shell}
use linux_based_os.Filesystem.{Image}
use linux_based_os.Execute.{
  Kernel, Locals, Control, pcb_addr, kernel_stack_addr, physical_page_addr, page_allocate,
  fourmb_user_page,
}
use linux_based_os.Execute.Alive.{Alive, Held, IsKernel, Alive-to}
use linux_based_os.Execute.Launch.{execute}
use linux_based_os.Execute.Switch.{
  Switch, to_task, to_shell, save_context, switch_context, switch_tasks,
}
use linux_based_os.Execute.Reach.{
  Orderly, IsBooted, booted_stays_IsKernel, save_context-IsKernel, switch_context-SameBlocks,
}

found_task :
    (fuel i j : ℕ) (l : List ℤ) → find_task fuel l i ≡ some j → ltb_ℤ (slot l j) (pos 0) ≡ false
unfolding find_task
found_task zero i j l e = cc
found_task (suc fuel) i j l e = elim (Bool-cases (ltb_ℤ (slot l i) (pos 0))) [
  | inl t ↦ found_task fuel (next_slot i) j l (rw t at e)
  | inr t ↦ subst (λ m. ltb_ℤ (slot l m) (pos 0) ≡ false) (some-injective i j (rw t at e)) t
]

in_slot :
    (f : ℕ → Pcb) (v : ℤ) → Held f v → ltb_ℤ v (pos 0) ≡ false → (p : ℕ) × Alive f p × (v ≡ pos p)
in_slot f (pos p) a t = (p, a, refl)
in_slot f (negsuc n) a t = absurd (ground arith)

abbrev esp_of : Switch → ℕ
esp_of (to_task esp ebp t) = esp
esp_of (to_shell c) = 0

-- The processor goes on with process `p`: on its saved stack, with its page, and with its kernel stack
-- in the task state.
pub record GoesOnWith (r : Kernel) (esp p : ℕ) : Type 0 where
  pub alive : Alive r.pcbs p
  pub stack : esp ≡ (r.pcbs (pcb_addr p)).sesp
  pub page : r.user_page ≡ bit_or (physical_page_addr p) fourmb_user_page
  pub kernel_stack : r.esp0 ≡ kernel_stack_addr p

switched_to :
    (cur i p : ℕ) (k : Kernel)
    → slot k.queue.priority_list_pid i ≡ pos p
    → Alive k.pcbs p
    → GoesOnWith (switch_context cur i k).1 (esp_of (switch_context cur i k).0) p
unfolding switch_context page_allocate
switched_to cur i p k at a = record {
  alive = Alive-to (switch_context-SameBlocks cur i k) a;
  stack = rw at refl;
  page = rw at refl;
  kernel_stack = rw at refl;
}

chosen :
    (fuel i : ℕ) (k : Kernel)
    → next_task fuel k.queue ≡ some i
    → IsKernel k
    → (p : ℕ) × Alive k.pcbs p × (slot k.queue.priority_list_pid i ≡ pos p)
unfolding next_task
chosen fuel i k found v =
    in_slot k.pcbs (slot k.queue.priority_list_pid i) (v.held i)
      (found_task fuel (planned k.queue.current_schedule) i k.queue.priority_list_pid found)

to_shell-ne-to_task :
    (c : Control) (k r : Kernel) (esp ebp t : ℕ)
    → ◌≢◌ {A = Option (Switch × Kernel)} (some (to_shell c, k)) (some (to_task esp ebp t, r))
to_shell-ne-to_task c k r esp ebp t e = cc

-- Let the kernel have started, and then calls of `execute` and `halt` and ticks of the timer have
-- come in whatever order, every command with fewer than 128 characters and every launch with a free
-- pid. A tick that switches tasks then goes on with a process that was started: on the stack
-- pointer that its control block keeps, in its page, and with its kernel stack.
pub switch_tasks-Alive :
    (fuel : ℕ) (im : Image) (l : Locals) (cur esp ebp : ℕ) (shell : Str) (k r r' : Kernel)
    (esp' ebp' t : ℕ)
    → IsBooted k
    → Orderly im k r
    → switch_tasks fuel im l cur esp ebp shell r ≡ some (to_task esp' ebp' t, r')
    → (p : ℕ) × GoesOnWith r' esp' p
unfolding switch_tasks
switch_tasks-Alive fuel im l cur esp ebp shell k r r' esp' ebp' t b reach e =
    let k1 = save_context cur esp ebp r in
    let v = save_context-IsKernel cur esp ebp r (booted_stays_IsKernel im k r b reach) in
    elim (Bool-cases (k1.queue.schedule_started == 1)) [
      | inl s ↦
          let (i, found, done) = >>=-eq-some (next_task fuel k1.queue) _ (rw s at e) in
          let (p, alive, at) = chosen fuel i k1 found v in
          (
            p,
            subst (λ (a : Switch × Kernel). GoesOnWith a.1 (esp_of a.0) p)
                (some-injective _ (to_task esp' ebp' t, r') done) (switched_to cur i p k1 at alive),
          )
      | inr s ↦
          let ((c, k2), run, done) =
            >>=-eq-some
              (execute fuel im l esp ebp shell (record k1 { queue = start_shell k1.queue })) _
              (rw s at e) in
          absurd (to_shell-ne-to_task c k2 r' esp' ebp' t done)
    ]
