-- ===== src/Schedule/Fair.antt =====
-- The scheduler takes the next slot in use, going round, and leaves no slot out.
use linux_based_os.Prelude.{
  subst, ==_iff, ◌==◌, sym, ℕ, zero, suc, ◌+◌, ◌-◌, ◌%◌, ◌≤◌, ◌<◌, ◌≡◌, inl, inr, ◌∙◌, refl, ap,
  arith, Option, some, none, ℤ, pos, negsuc, ltb_ℤ, Bool-cases, true, false, List,
}
use linux_based_os.Schedule.{Queue, slot, next_slot, find_task, planned, next_task, switch_slot}

-- The slot holds a task.
abbrev pub InUse : List ℤ → ℕ → Type 0
InUse l i = ltb_ℤ (slot l i) (pos 0) ≡ false

abbrev pub Empty : List ℤ → ℕ → Type 0
Empty l i = ltb_ℤ (slot l i) (pos 0) ≡ true

-- `d` steps on from slot `i`.
abbrev pub around : ℕ → ℕ → ℕ
around i d = (i + d) % 7

-- `r` is the first slot in use from `i` on, `d` steps away.
pub record IsNext (l : List ℤ) (i d r : ℕ) : Type 0 where
  pub at : r ≡ around i d
  pub near : d < 7
  pub used : InUse l r
  pub skipped : (e : ℕ) → e < d → Empty l (around i e)

next_slot-around : (i e : ℕ) → i < 7 → around (next_slot i) e ≡ around i (suc e)
next_slot-around i e h = ground arith

next_slot-bound : (i : ℕ) → i < 7 → next_slot i < 7
next_slot-bound i h = ground arith

-- One empty slot further back.
IsNext-back :
    (i d r : ℕ) (l : List ℤ)
    → i < 7
    → suc d < 7
    → Empty l i
    → IsNext l (next_slot i) d r
    → IsNext l i (suc d) r
IsNext-back i d r l h n e next = record {
  at = next.at ∙ next_slot-around i d h;
  near = n;
  used = next.used;
  skipped = passed;
}
  where
    passed : (k : ℕ) → k < suc d → Empty l (around i k)
    passed zero p = subst (λ j. Empty l j) (omega arith) e
    passed (suc k) p =
        subst (λ j. Empty l j) (next_slot-around i k h) (next.skipped k (omega arith))

-- The search with that fuel from slot `i` on finds a slot at most `left` steps away.
abbrev pub Finds : (fuel i left : ℕ) → List ℤ → Type 0
Finds fuel i left l =
    (d : ℕ) × (r : ℕ) × (find_task fuel l i ≡ some r) × IsNext l i d r × (d ≤ left)

Finds-here : (fuel i left : ℕ) (l : List ℤ) → i < 7 → InUse l i → Finds (suc fuel) i left l
unfolding find_task
Finds-here fuel i left l h e = (
  0,
  i,
  rw e,
  record { at = omega arith; near = omega arith; used = e; skipped = λ j k. absurd (omega arith) },
  omega arith,
)

Finds-further :
    (fuel i left : ℕ) (l : List ℤ)
    → i < 7
    → suc left < 7
    → Empty l i
    → Finds fuel (next_slot i) left l
    → Finds (suc fuel) i (suc left) l
unfolding find_task
Finds-further fuel i left l h n e (d, r, found, next, near) =
    (suc d, r, rw e found, IsNext-back i d r l h (omega arith) e next, omega arith)

find_task_lem :
    (left fuel i : ℕ) (l : List ℤ)
    → i < 7
    → left < 7
    → InUse l (around i left)
    → left < fuel
    → Finds fuel i left l
find_task_lem left zero i l h n u f = absurd (omega arith)
find_task_lem zero (suc fuel) i l h n u f =
    Finds-here fuel i 0 l h (subst (λ j. InUse l j) (omega arith) u)
find_task_lem (suc k) (suc fuel) i l h n u f = elim (Bool-cases (ltb_ℤ (slot l i) (pos 0))) [
  | inl e ↦ Finds-further fuel i k l h n e (
      find_task_lem k fuel (next_slot i) l (next_slot-bound i h) (omega arith)
        (subst (λ j. InUse l j) (sym (next_slot-around i k h)) u) (omega arith))
  | inr e ↦ Finds-here fuel i (suc k) l h e
]

planned-bound : (c : ℤ) → planned c < 7
unfolding planned
planned-bound (pos c) = omega arith
planned-bound (negsuc c) = omega arith

around-back : (i k : ℕ) → i < 7 → k < 7 → around i ((k + 7 - i) % 7) ≡ k
around-back i k h j = omega arith

-- When some slot is in use, `switch_tasks` goes to the first slot in use after the current one,
-- going round behind the last slot, and it looks at seven slots at most.
next_task_lem :
    (q : Queue) (k : ℕ)
    → k < 7
    → InUse q.priority_list_pid k
    → (d : ℕ) × (r : ℕ) × (next_task 7 q ≡ some r)
      × IsNext q.priority_list_pid (planned q.current_schedule) d r
unfolding next_task
next_task_lem q k h u =
    let i = planned q.current_schedule in
    let b = planned-bound q.current_schedule in
    let (d, r, found, next, near) =
      find_task_lem ((k + 7 - i) % 7) 7 i q.priority_list_pid b (omega arith)
        (subst (λ j. InUse q.priority_list_pid j) (omega arith) u) (omega arith) in
    (d, r, found, next)

-- Every slot is empty.
abbrev pub AllEmpty : List ℤ → Type 0
AllEmpty l = (i : ℕ) → Empty l i

find_task_diverges : (fuel i : ℕ) (l : List ℤ) → AllEmpty l → find_task fuel l i ≡ none
unfolding find_task
find_task_diverges zero i l h = refl
find_task_diverges (suc fuel) i l h = rw (h i) (find_task_diverges fuel (next_slot i) l h)

-- When no slot is in use, the search of `switch_tasks` never ends, whatever the fuel.
pub next_task_diverges :
    (fuel : ℕ) (q : Queue) → AllEmpty q.priority_list_pid → next_task fuel q ≡ none
unfolding next_task
next_task_diverges fuel q = find_task_diverges fuel (planned q.current_schedule) q.priority_list_pid

-- `n` switches.
unfoldable pub switches : ℕ → Queue → Option Queue
unfolding switch_slot
switches zero q = some q
switches (suc n) q = elim (switch_slot 7 q) [ none ↦ none | some q' ↦ switches n q' ]

-- After one switch or more and at most `n`, slot `k` is the current one, and the slots hold what
-- they held.
pub record Reaches (n : ℕ) (q : Queue) (k : ℕ) : Type 0 where
  count : ℕ
  after : Queue
  run : switches count q ≡ some after
  current : after.current_schedule ≡ pos k
  slots : after.priority_list_pid ≡ q.priority_list_pid
  bounded : count ≤ n

-- One more switch in front.
Reaches-step :
    (n : ℕ) (q q' : Queue) (k : ℕ)
    → switch_slot 7 q ≡ some q'
    → q'.priority_list_pid ≡ q.priority_list_pid
    → Reaches n q' k
    → Reaches (suc n) q k
unfolding switches
Reaches-step n q q' k e same next = record {
  count = suc next.count;
  after = next.after;
  run = rw (e, switches) next.run;
  current = next.current;
  slots = next.slots ∙ same;
  bounded = omega arith;
}

switch_slot_lem :
    (q : Queue) (r : ℕ)
    → next_task 7 q ≡ some r
    → switch_slot 7 q ≡ some (record q { current_schedule = pos r })
unfolding switch_slot
switch_slot_lem q r e = rw (e, switch_slot) refl

-- From slot `r`, `d` steps on, the search starts at the next slot.
around-planned :
    (i d r left : ℕ)
    → r ≡ around i d
    → d < left
    → around (planned (pos r)) (left - suc d) ≡ around i left
unfolding planned
around-planned i d r left e h = omega arith

reached :
    (n : ℕ) (q : Queue) (k r : ℕ) → r ≡ k → Reaches n (record q { current_schedule = pos r }) k
unfolding switches
reached n q k r e = record {
  count = 0;
  after = record q { current_schedule = pos r };
  run = refl;
  current = ap pos e;
  slots = refl;
  bounded = omega arith;
}

not_there : (d left : ℕ) → d ≤ left → (d == left) ≡ false → d < left
not_there d left h e = ground arith

reaches :
    (n left : ℕ) (q : Queue)
    → left < n
    → left < 7
    → InUse q.priority_list_pid (around (planned q.current_schedule) left)
    → Reaches n q (around (planned q.current_schedule) left)
unfolding next_task
reaches zero left q a b u = absurd (omega arith)
reaches (suc n) left q a b u =
    let i = planned q.current_schedule in
    let l = q.priority_list_pid in
    let (d, r, found, next, near) =
      find_task_lem left 7 i l (planned-bound q.current_schedule) b u b in
    let q' = record q { current_schedule = pos r } in
    let more = λ (h : d < left).
      subst (λ k. Reaches n q' k) (around-planned i d r left next.at h)
        (reaches n (left - suc d) q' (omega arith) (omega arith)
          (subst (λ k. InUse l k) (sym (around-planned i d r left next.at h)) u)) in
    Reaches-step n q q' (around i left) (switch_slot_lem q r found) refl
      (elim (Bool-cases (d == left)) [
        | inl e ↦ reached n q (around i left) r (next.at ∙ ap (around i) ((==_iff d left).0 e))
        | inr e ↦ more (not_there d left near e)
      ])

-- From any queue, a slot below 7 that holds a task becomes the current one within seven switches,
-- which leave the slots as they are.
pub next_task_fair : (q : Queue) (k : ℕ) → k < 7 → InUse q.priority_list_pid k → Reaches 7 q k
next_task_fair q k h u =
    let i = planned q.current_schedule in
    let b = planned-bound q.current_schedule in
    let e = around-back i k b h in
    subst (λ j. Reaches 7 q j) e
      (reaches 7 ((k + 7 - i) % 7) q (omega arith) (omega arith)
        (subst (λ j. InUse q.priority_list_pid j) (sym e) u))
