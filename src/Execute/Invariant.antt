-- ===== src/Execute/Invariant.antt =====
-- `execute` and `halt` keep the kernel's state in order.
use linux_based_os.Prelude.{
  zero, suc, ◌≤◌, ◌≢◌, get_or-set_self, ltb, false, ℕ, ◌+◌, ◌-◌, ltb→lt, ◌<◌, ◌≡◌, ◌⊎◌, inl, inr,
  refl, sym, subst, ap, ◌∙◌, arith, pos, List, set, length-set, store, Bool-cases, some,
  >>=-eq-some, get_or, ◌==◌,
}
use linux_based_os.Strings.{Str}
use linux_based_os.Process.{Pcb}
use linux_based_os.Filesystem.{Image}
use linux_based_os.Filesystem.Program.{load_process}
use linux_based_os.Execute.{
  Kernel, Locals, Control, fails, current_pcb, pcb_addr, find_pid, find_parent, page_allocate,
  physical_page_addr, cp_vaddr,
}
use linux_based_os.Execute.Alive.{
  Alive, Alive-to, IsKernel, Took-same, set-Took, IsKernel-same, store-SameBlocks,
}
use linux_based_os.Execute.Keeps.{find_pid_below, enter_program-IsKernel}
use linux_based_os.Execute.Fails.{execute_fails}
use linux_based_os.Execute.Cases.{execute_cases, halt_cases}
use linux_based_os.Execute.Launch.{counted, launch, execute}
use linux_based_os.Execute.Halt.{release, to_parent, hand_over, leave, halt}

-- The caller of `execute` is a process that was started, or the new pid is the first one.
abbrev pub CanCall : Kernel → (esp : ℕ) → Type 0
CanCall k esp =
    ((q : ℕ) × Alive k.pcbs q × (current_pcb esp ≡ pcb_addr q)) ⊎ (get_or k.pid_bitpattern 0 1 ≡ 0)

-- A pid is free.
abbrev pub HasPid : Kernel → Type 0
HasPid k = (i : ℕ) × (find_pid 7 0 k.pid_bitpattern ≡ some i)

find_pid_has :
    (left i j : ℕ) (l : List ℕ)
    → i ≤ j
    → j < i + left
    → get_or l j 1 ≡ 0
    → (r : ℕ) × (find_pid left i l ≡ some r)
unfolding find_pid
find_pid_has zero i j l lo hi free = absurd (omega arith)
find_pid_has (suc left) i j l lo hi free = elim (Bool-cases (get_or l i 1 == 0)) [
  | inl e ↦ (i, rw e refl)
  | inr e ↦
      let differs : i ≢ j = λ d. absurd (ground (arith, e, ap (λ n. get_or l n 1) d, free)) in
      let (r, found) = find_pid_has left (i + 1) j l (omega (arith, differs)) (omega arith) free in
      (r, rw e found)
]

first_pid : (l : List ℕ) {i : ℕ} → get_or l 0 1 ≡ 0 → find_pid 7 0 l ≡ some i → i ≡ 0
unfolding find_pid
first_pid l h e = ground (arith, h)

module _ (fuel : ℕ) (im : Image) (l : Locals) (esp ebp : ℕ) where
  launch-IsKernel :
      (name args : Str) (k r : Kernel) (c : Control)
      → launch fuel im l name args esp ebp k ≡ some (c, r)
      → CanCall k esp
      → HasPid k
      → IsKernel k
      → IsKernel r
  unfolding launch page_allocate
  launch-IsKernel name args k r c e call (i, found) v =
      let k1 = page_allocate (physical_page_addr (i + 1)) (counted (some i) k) in
      let ((eip, m), loaded, done) =
        >>=-eq-some
          (load_process im name cp_vaddr l.dentry l.file l.entry_buff (k1.user k1.user_page)) _
          (rw found at e) in
      enter_program-IsKernel fuel l (i + 1) args esp ebp eip
        (record k1 { user = store k1.user k1.user_page m }) r c done (omega arith)
        (omega (arith, find_pid_below 7 0 i k.pid_bitpattern found)) (caller i found call)
        (record {
          slots = v.slots;
          bits = length-set k.pid_bitpattern i 1 ∙ v.bits;
          held = v.held;
          parents = v.parents;
          task = v.task;
        })
    where
      caller :
          (i : ℕ)
          → find_pid 7 0 k.pid_bitpattern ≡ some i
          → CanCall k esp
          → 3 < i + 1
          → (a : ℕ) × Alive k.pcbs a × (current_pcb esp ≡ pcb_addr a)
      caller i found (inl a) above = a
      caller i found (inr h) above = absurd (omega (arith, first_pid k.pid_bitpattern h found))

  -- Whatever the command, a call of `execute` that returns or enters a program keeps the state in order.
  pub execute-IsKernel :
      (command : Str) (k r : Kernel) (c : Control)
      → execute fuel im l esp ebp command k ≡ some (c, r)
      → CanCall k esp
      → HasPid k ⊎ (c ≡ fails)
      → IsKernel k
      → IsKernel r
  execute-IsKernel command k r c e call (inr failed) v =
      let run = e ∙ ap (λ a. some (a, r)) failed in
      subst IsKernel (sym (execute_fails fuel im l esp ebp command k r run)) v
  execute-IsKernel command k r c e call (inl free) v =
      elim (execute_cases fuel im l esp ebp command k r c e) [
        | inl (_, same) ↦ subst IsKernel (sym same) v
        | inr (name, args, run) ↦ launch-IsKernel name args k r c run call free v
      ]

release-IsKernel : (cur : ℕ) (k : Kernel) → IsKernel k → IsKernel (release cur k)
unfolding release
release-IsKernel cur k v =
    IsKernel-same v (store-SameBlocks k.pcbs k.pcbs cur _ (λ a. (refl, refl)) refl refl)
      (Took-same k.queue.priority_list_pid) v.bits (inl refl)

to_parent-IsKernel :
    (parent : Pcb) (k : Kernel)
    → Alive k.pcbs parent.pid
    → IsKernel k
    → IsKernel (to_parent parent k)
unfolding to_parent page_allocate
to_parent-IsKernel parent k a v =
    IsKernel-same v (λ a. (refl, refl)) (Took-same k.queue.priority_list_pid) v.bits (inr a)

hand_over-IsKernel :
    (pid : ℕ) (k : Kernel) → Alive k.pcbs k.current_task → IsKernel k → IsKernel (hand_over pid k)
unfolding hand_over
hand_over-IsKernel pid k a v =
    IsKernel-same v (λ a. (refl, refl))
      (set-Took k.pcbs k.queue.priority_list_pid (find_parent 7 0 pid k.queue.priority_list_pid)
        (pos k.current_task) a)
      v.bits (inl refl)

leave-IsKernel :
    (current : Pcb) (status : ℕ) (k : Kernel) → IsKernel k → IsKernel (leave current status k).1
unfolding leave
leave-IsKernel current status k v = elim (Bool-cases (k.exception_halt == 1)) [
  | inl e ↦
      rw e (
        IsKernel-same v (λ a. (refl, refl)) (Took-same k.queue.priority_list_pid) v.bits (inl refl))
  | inr e ↦ rw e v
]

current_task-Alive :
    (k : Kernel) (p : ℕ) → IsKernel k → Alive k.pcbs p → Alive k.pcbs k.current_task
current_task-Alive k p v a = elim v.task [ inl t ↦ t | inr empty ↦ absurd (empty p a) ]

release-Alive : (cur p : ℕ) (k : Kernel) → Alive k.pcbs p → Alive (release cur k).pcbs p
unfolding release
release-Alive cur p k =
    Alive-to (store-SameBlocks k.pcbs k.pcbs cur _ (λ a. (refl, refl)) refl refl)

module _ (fuel : ℕ) (im : Image) (l : Locals) (cur esp ebp : ℕ) (shell : Str) (status p : ℕ)
    (k r : Kernel) (c : Control) (alive : Alive k.pcbs p) (here : cur ≡ pcb_addr p)
    (v : IsKernel k) where
  abbrev k1 : Kernel
  k1 = release cur k

  abbrev current : Pcb
  current = k1.pcbs cur

  current-own : current.pid ≡ p
  current-own = ap (λ a. (k1.pcbs a).pid) here ∙ (release-Alive cur p k alive).own

  child-IsKernel :
      3 < p
      → IsKernel
          (leave current status
            (hand_over current.pid (to_parent (k1.pcbs current.parent_addr) k1))).1
  unfolding to_parent page_allocate
  child-IsKernel above =
      let w = release-IsKernel cur k v in
      let own = w.parents p (release-Alive cur p k alive) above in
      let at : current.parent_addr ≡ pcb_addr own.parent =
        ap (λ a. (k1.pcbs a).parent_addr) here ∙ own.addr in
      let pid_of : (k1.pcbs current.parent_addr).pid ≡ own.parent =
        ap (λ a. (k1.pcbs a).pid) at ∙ own.alive.own in
      let up : Alive k1.pcbs (k1.pcbs current.parent_addr).pid = rw pid_of own.alive in
      leave-IsKernel current status _ (
        hand_over-IsKernel current.pid _ up
          (to_parent-IsKernel (k1.pcbs current.parent_addr) k1 up w))

  -- The state in which a base shell is started again.
  abbrev k2 : Kernel
  k2 = record k1 { pid_bitpattern = set k1.pid_bitpattern (current.pid - 1) 0 }

  k2-IsKernel : IsKernel k2
  k2-IsKernel =
      let w = release-IsKernel cur k v in
      IsKernel-same w (λ a. (refl, refl)) (Took-same k1.queue.priority_list_pid)
        (length-set k1.pid_bitpattern (current.pid - 1) 0 ∙ w.bits) (inl refl)

  -- The pid of a base shell is free again.
  k2-HasPid : ltb 3 current.pid ≡ false → HasPid k2
  k2-HasPid t =
      let w = release-IsKernel cur k v in
      find_pid_has 7 0 (current.pid - 1) k2.pid_bitpattern (omega arith) (ground (arith, t))
        (get_or-set_self k1.pid_bitpattern (current.pid - 1) 0 1 (ground (arith, t, w.bits)))

  shell_fails-IsKernel :
      (k3 : Kernel) → k3 ≡ k2 → IsKernel (leave current status (hand_over current.pid k3)).1
  shell_fails-IsKernel k3 e = rw e (
      leave-IsKernel current status _ (
        hand_over-IsKernel current.pid k2
          (current_task-Alive k2 p k2-IsKernel (release-Alive cur p k alive)) k2-IsKernel))

  -- Whatever process halts, with whatever status, on its own stack, the state is kept in order.
  pub halt-IsKernel :
      current_pcb esp ≡ cur → halt fuel im l cur esp ebp shell status k ≡ some (c, r) → IsKernel r
  halt-IsKernel stack e = elim (halt_cases fuel im l cur esp ebp shell status k r c e) [
    | inl (t, same) ↦
        subst IsKernel same (child-IsKernel (omega (arith, current-own, ltb→lt 3 current.pid t)))
    | inr (t, again) ↦ elim again.left [
      | inl same ↦ subst IsKernel same (
          execute-IsKernel fuel im l esp ebp shell k2 again.after again.control again.run
            (inl (p, release-Alive cur p k alive, stack ∙ here)) (inl (k2-HasPid t)) k2-IsKernel)
      | inr (failed, same) ↦
          let run : execute fuel im l esp ebp shell k2 ≡ some (fails, again.after) =
            again.run ∙ ap (λ a. some (a, again.after)) failed in
          subst IsKernel same (
            shell_fails-IsKernel again.after
              (execute_fails fuel im l esp ebp shell k2 again.after run))
    ]
  ]
