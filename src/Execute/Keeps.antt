-- ===== src/Execute/Keeps.antt =====
-- The entry to a program keeps the kernel's state in order.
use linux_based_os.Prelude.{
  ℕ, zero, suc, ◌+◌, ◌≤◌, ◌<◌, ◌≡◌, ◌⊎◌, inl, inr, refl, sym, subst, ap, ◌∙◌, arith, ℤ, pos, List,
  set, store, Bool-cases, Option-cases, some, none, if◌then◌else◌, ltb, >>=-eq-some, ◌==◌, false,
  ==_iff, ==_refl, ==_false,
}
use linux_based_os.Strings.{Str, strlen, strcpy}
use linux_based_os.Process.{Pcb}
use linux_based_os.Schedule.{Queue}
use linux_based_os.Execute.{
  Kernel, Locals, Control, kernel_stack_addr, current_pcb, pcb_addr, find_pid, find_parent,
  find_base,
}
use linux_based_os.Execute.Alive.{Alive, HasParent, IsKernel, Took, Took-Held, Took-same, set-Took}
use linux_based_os.Execute.Launch.{launched, enter_program}
use linux_based_os.Execute.Init.{pcb_init, pcb_finish, pcb_fresh}

-- The first free bit is one of the seven.
pub find_pid_below : (left i r : ℕ) (l : List ℕ) → find_pid left i l ≡ some r → r < i + left
unfolding find_pid
find_pid_below zero i r l e = cc
find_pid_below (suc left) i r l e = ground (arith, find_pid_below left (i + 1) r l)

-- What `PCB_init` does for a new process: its pid, its parent, and its slot if it takes one.
record Prepared (pid parent_pcb : ℕ) (k : Kernel) (p : Pcb) (q : Queue) : Type 0 where
  pid_of : p.pid ≡ pid
  parent_of : 3 < pid → p.parent_addr ≡ parent_pcb
  slots_of :
      (q.priority_list_pid ≡ k.queue.priority_list_pid)
      ⊎ ((i : ℕ) × (q.priority_list_pid ≡ set k.queue.priority_list_pid i (pos pid)))

finished :
    (fuel i : ℕ) (args : Str) (p : Pcb) (q : Queue) {r : ℤ} {p' : Pcb} {q' : Queue}
    → pcb_finish fuel i args p q ≡ some (r, p', q')
    → (p'.pid ≡ p.pid)
      × (p'.parent_addr ≡ p.parent_addr)
      × (q'.priority_list_pid ≡ set q.priority_list_pid i (pos p.pid))
unfolding pcb_finish
finished fuel i args p q e =
    let (len, s, e1) = >>=-eq-some (strlen fuel args) _ e in
    let (copied, s', done) =
      >>=-eq-some (if ltb len 128 then strcpy fuel p.args args else none) _ e1 in
    ground (arith, done)

prepared :
    (fuel pid parent_pcb : ℕ) (new : Pcb) (args : Str) (k : Kernel) {r : ℤ} {p : Pcb} {q : Queue}
    → pcb_init fuel new pid args parent_pcb k ≡ some (r, p, q)
    → Prepared pid parent_pcb k p q
unfolding pcb_init pcb_fresh
prepared fuel pid parent_pcb new args k {r} {p} {q} e = elim (Bool-cases (ltb 3 pid)) [
  | inl t ↦
      let i = find_parent 7 0 (k.pcbs parent_pcb).pid k.queue.priority_list_pid in
      let (a, b, c) = finished fuel i args _ k.queue (rw t at e) in
      record { pid_of = a; parent_of = λ above. b; slots_of = inr (i, c) }
  | inr t ↦ elim (Option-cases (find_base 7 0 k.queue.priority_list_pid)) [
    | inl n ↦
        let h = rw (t, n) at e in
        record {
          pid_of = ground arith;
          parent_of = λ above. ground arith;
          slots_of = inl (ground arith);
        }
    | inr (i, n) ↦
        let (a, b, c) =
          finished fuel i args (pcb_fresh new pid k.queue.active_terminal) k.queue
            (rw (t, n) at e) in
        record { pid_of = a; parent_of = λ above. ground arith; slots_of = inr (i, c) }
  ]
]

-- The block of a new process is stored.
module _ (f : ℕ → Pcb) (pid : ℕ) (p : Pcb) (lo : 1 ≤ pid) (hi : pid ≤ 7) (own : p.pid ≡ pid) where
  Alive-new : Alive (store f (pcb_addr pid) p) pid
  Alive-new = record { least = lo; most = hi; own = rw (==_refl (pcb_addr pid)) own }

  elsewhere :
      (q : ℕ)
      → 1 ≤ q
      → q ≤ 7
      → (q == pid) ≡ false
      → store f (pcb_addr pid) p (pcb_addr q) ≡ f (pcb_addr q)
  elsewhere q a b n = rw (==_false (pcb_addr q) (pcb_addr pid) (ground arith)) refl

  Alive-old : (q : ℕ) → Alive f q → Alive (store f (pcb_addr pid) p) q
  Alive-old q a = elim (Bool-cases (q == pid)) [
    | inl e ↦ rw ((==_iff q pid).0 e) Alive-new
    | inr n ↦ record {
      least = a.least;
      most = a.most;
      own = ap (λ (b : Pcb). b.pid) (elsewhere q a.least a.most n) ∙ a.own;
    }
  ]

  HasParent-new :
      ((q : ℕ) → Alive f q → 3 < q → HasParent f q)
      → (3 < pid → (q : ℕ) × Alive f q × (p.parent_addr ≡ pcb_addr q))
      → (q : ℕ) → Alive (store f (pcb_addr pid) p) q
      → 3 < q
      → HasParent (store f (pcb_addr pid) p) q
  HasParent-new old mine q a above = elim (Bool-cases (q == pid)) [
    | inl e ↦
        let same : q ≡ pid = (==_iff q pid).0 e in
        let (parent, alive, addr) = mine (omega arith) in
        record {
          parent = parent;
          alive = Alive-old parent alive;
          addr =
              ap (λ n. (store f (pcb_addr pid) p (pcb_addr n)).parent_addr) same
              ∙ (rw (==_refl (pcb_addr pid)) addr);
        }
    | inr n ↦
        let same = elsewhere q a.least a.most n in
        let before : Alive f q = record {
          least = a.least;
          most = a.most;
          own = ap (λ (b : Pcb). b.pid) (sym same) ∙ a.own;
        } in
        let own = old q before above in
        record {
          parent = own.parent;
          alive = Alive-old own.parent own.alive;
          addr = ap (λ (b : Pcb). b.parent_addr) same ∙ own.addr;
        }
  ]

-- The state at the first instruction of a program.
abbrev entered : (pid esp ebp : ℕ) → Pcb → Queue → Kernel → Kernel
entered pid esp ebp p q k = record k {
  queue = q;
  pcbs = store k.pcbs (pcb_addr pid) (launched p pid esp ebp);
  esp0 = kernel_stack_addr pid;
  current_task = pid;
  terminal_current_pid = store k.terminal_current_pid q.active_terminal pid;
}

module _ (pid esp ebp : ℕ) (p : Pcb) (q : Queue) (k : Kernel) (lo : 1 ≤ pid) (hi : pid ≤ 7)
    (made : Prepared pid (current_pcb esp) k p q) (v : IsKernel k)
    (caller : 3 < pid → (a : ℕ) × Alive k.pcbs a × (current_pcb esp ≡ pcb_addr a)) where
  abbrev block : Pcb
  block = launched p pid esp ebp

  entered-Took :
      Took (store k.pcbs (pcb_addr pid) block) k.queue.priority_list_pid q.priority_list_pid
  entered-Took = elim made.slots_of [
    | inl e ↦ rw e (Took-same k.queue.priority_list_pid)
    | inr (i, e) ↦ rw e (
        set-Took (store k.pcbs (pcb_addr pid) block) k.queue.priority_list_pid i (pos pid)
          (Alive-new k.pcbs pid block lo hi made.pid_of))
  ]

  entered-IsKernel : IsKernel (entered pid esp ebp p q k)
  entered-IsKernel = record {
    slots = entered-Took.same_length ∙ v.slots;
    bits = v.bits;
    held = Took-Held (Alive-old k.pcbs pid block lo hi made.pid_of) entered-Took v.held;
    parents =
        HasParent-new k.pcbs pid block lo hi made.pid_of v.parents
          (λ above. let (a, alive, addr) = caller above in (a, alive, made.parent_of above ∙ addr));
    task = inl (Alive-new k.pcbs pid block lo hi made.pid_of);
  }

pub enter_program-IsKernel :
    (fuel : ℕ) (l : Locals) (pid : ℕ) (args : Str) (esp ebp eip : ℕ) (k r : Kernel) (c : Control)
    → enter_program fuel l pid args esp ebp eip k ≡ some (c, r)
    → 1 ≤ pid
    → pid ≤ 7
    → (3 < pid → (a : ℕ) × Alive k.pcbs a × (current_pcb esp ≡ pcb_addr a))
    → IsKernel k
    → IsKernel r
unfolding enter_program
enter_program-IsKernel fuel l pid args esp ebp eip k r c e lo hi caller v =
    let ((z, p, q), run, done) =
      >>=-eq-some (pcb_init fuel l.new_pcb pid args (current_pcb esp) k) _ e in
    let made = prepared fuel pid (current_pcb esp) l.new_pcb args k run in
    let same : entered pid esp ebp p q k ≡ r = cc in
    subst IsKernel same (entered-IsKernel pid esp ebp p q k lo hi made v caller)
