-- ===== src/Execute/Alive.antt =====
-- Which processes have been started, by their control blocks, and what the run queue and the
-- parents say of them.
use linux_based_os.Prelude.{
  ℕ, zero, suc, ◌≤◌, ◌<◌, ◌≡◌, ◌⊎◌, inl, inr, refl, sym, ◌∙◌, arith, ℤ, pos, negsuc, minus_one,
  List, [], ◌∷◌, set, length, length-set, get_or-set_ne, store, ==_iff, ==_refl, ◌==◌, Bool-cases,
}
use linux_based_os.Process.{Pcb}
use linux_based_os.Schedule.{slot}
use linux_based_os.Execute.{Kernel, pcb_addr}

-- Process `p` has a control block with its pid.
pub record Alive (pcbs : ℕ → Pcb) (p : ℕ) : Type 0 where
  pub least : 1 ≤ p
  pub most : p ≤ 7
  pub own : (pcbs (pcb_addr p)).pid ≡ p

-- A slot is empty or holds a process that was started.
abbrev pub Held : (ℕ → Pcb) → ℤ → Type 0
Held pcbs (pos p) = Alive pcbs p
Held pcbs (negsuc n) = Unit {0}

-- The parent of `p` that its control block points to.
pub record HasParent (pcbs : ℕ → Pcb) (p : ℕ) : Type 0 where
  pub parent : ℕ
  pub alive : Alive pcbs parent
  pub addr : (pcbs (pcb_addr p)).parent_addr ≡ pcb_addr parent

-- What the scheduler, `execute` and `halt` rely on: seven slots and seven bits, every slot empty or
-- with a process that was started, a parent for every process with a pid above 3, and a current
-- task once there is a process.
pub record IsKernel (k : Kernel) : Type 0 where
  pub slots : length k.queue.priority_list_pid ≡ 7
  pub bits : length k.pid_bitpattern ≡ 7
  pub held : (i : ℕ) → Held k.pcbs (slot k.queue.priority_list_pid i)
  pub parents : (p : ℕ) → Alive k.pcbs p → 3 < p → HasParent k.pcbs p
  pub task : Alive k.pcbs k.current_task ⊎ ((p : ℕ) → ¬ Alive k.pcbs p)

-- No block got another pid or another parent.
abbrev pub SameBlocks : (f g : ℕ → Pcb) → Type 0
SameBlocks f g = (a : ℕ) → ((g a).pid ≡ (f a).pid) × ((g a).parent_addr ≡ (f a).parent_addr)

pub store-SameBlocks :
    (f g : ℕ → Pcb) (a : ℕ) (b : Pcb)
    → SameBlocks f g
    → b.pid ≡ (f a).pid
    → b.parent_addr ≡ (f a).parent_addr
    → SameBlocks f (store g a b)
store-SameBlocks f g a b h i j c = elim (Bool-cases (c == a)) [
  | inl e ↦ let e' : c ≡ a = (==_iff c a).0 e in rw (e', ==_refl a) (i, j)
  | inr e ↦ rw e (h c)
]

pub Alive-to : {f g : ℕ → Pcb} {p : ℕ} → SameBlocks f g → Alive f p → Alive g p
Alive-to {f} {g} {p} h a = record {
  least = a.least;
  most = a.most;
  own = (h (pcb_addr p)).0 ∙ a.own;
}

Alive-back : {f g : ℕ → Pcb} {p : ℕ} → SameBlocks f g → Alive g p → Alive f p
Alive-back {f} {g} {p} h a = record {
  least = a.least;
  most = a.most;
  own = sym (h (pcb_addr p)).0 ∙ a.own;
}

-- What is kept from `f` to `g` on processes that were started.
pub Held-mono : {f g : ℕ → Pcb} → ((p : ℕ) → Alive f p → Alive g p) → (v : ℤ) → Held f v → Held g v
Held-mono up (pos p) h = up p h
Held-mono up (negsuc n) h = tt

-- A slot keeps its value or takes that of a process that was started.
pub record Took (f : ℕ → Pcb) (l l' : List ℤ) : Type 0 where
  pub same_length : length l' ≡ length l
  pub value : (i : ℕ) → (slot l' i ≡ slot l i) ⊎ Held f (slot l' i)

pub Took-same : {f : ℕ → Pcb} (l : List ℤ) → Took f l l
Took-same l = record { same_length = refl; value = λ i. inl refl }

pub set-Took : (f : ℕ → Pcb) (l : List ℤ) (i : ℕ) (v : ℤ) → Held f v → Took f l (set l i v)
set-Took f l i v h = record {
  same_length = length-set l i v;
  value = λ j. elim (Bool-cases (j == i)) [
    | inl e ↦ let e' : j ≡ i = (==_iff j i).0 e in rw e' (set_slot l i v h)
    | inr e ↦ inl (get_or-set_ne l i j v minus_one (ground arith))
  ];
}
  where
    set_slot :
        (l : List ℤ) (i : ℕ) (v : ℤ)
        → Held f v
        → (slot (set l i v) i ≡ slot l i) ⊎ Held f (slot (set l i v) i)
    set_slot [] i v h = inl refl
    set_slot (x ∷ l) zero v h = inr h
    set_slot (x ∷ l) (suc i) v h = set_slot l i v h

pub Took-Held :
    {f g : ℕ → Pcb} {l l' : List ℤ}
    → ((p : ℕ) → Alive f p → Alive g p)
    → Took g l l'
    → ((i : ℕ) → Held f (slot l i))
    → (i : ℕ) → Held g (slot l' i)
Took-Held {f} {g} {l} {l'} up t h i = elim (t.value i) [
  | inl e ↦ rw e (Held-mono up (slot l i) (h i))
  | inr v ↦ v
]

-- A state in which no block got another pid or parent.
pub IsKernel-same :
    {k r : Kernel}
    → IsKernel k
    → SameBlocks k.pcbs r.pcbs
    → Took k.pcbs k.queue.priority_list_pid r.queue.priority_list_pid
    → length r.pid_bitpattern ≡ 7
    → (r.current_task ≡ k.current_task) ⊎ Alive k.pcbs r.current_task
    → IsKernel r
IsKernel-same {k} {r} v same took bits task = record {
  slots = took.same_length ∙ v.slots;
  bits = bits;
  held = Took-Held (λ p. Alive-to same) (Took-up took) v.held;
  parents = λ p a above.
      let own = v.parents p (Alive-back same a) above in
      record {
        parent = own.parent;
        alive = Alive-to same own.alive;
        addr = (same (pcb_addr p)).1 ∙ own.addr;
      };
  task = current task v.task;
}
  where
    Took-up :
        Took k.pcbs k.queue.priority_list_pid r.queue.priority_list_pid
        → Took r.pcbs k.queue.priority_list_pid r.queue.priority_list_pid
    Took-up t = record {
      same_length = t.same_length;
      value = λ i. elim (t.value i) [
        | inl e ↦ inl e
        | inr h ↦ inr (Held-mono (λ p. Alive-to same) (slot r.queue.priority_list_pid i) h)
      ];
    }

    current :
        (r.current_task ≡ k.current_task) ⊎ Alive k.pcbs r.current_task
        → Alive k.pcbs k.current_task ⊎ ((p : ℕ) → ¬ Alive k.pcbs p)
        → Alive r.pcbs r.current_task ⊎ ((p : ℕ) → ¬ Alive r.pcbs p)
    current (inr a) t = inl (Alive-to same a)
    current (inl e) (inl a) =
        inl (Alive-to {f = k.pcbs} {g = r.pcbs} {p = r.current_task} same (rw e a))
    current (inl e) (inr empty) = inr (λ p a. empty p (Alive-back same a))
