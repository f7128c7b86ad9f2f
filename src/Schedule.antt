-- ===== src/Schedule.antt =====
-- student-distrib/schedule.c: the run queue of seven slots. A slot holds a pid, or a negative number
-- when it is empty.
pub mod Fair
use linux_based_os.Prelude.{
  ℕ, zero, suc, ◌+◌, ◌-◌, ◌^◌, ◌%◌, ◌==◌, ltb, if◌then◌else◌, Option, none, some, ℤ, pos, negsuc,
  minus_one, ltb_ℤ, get_or, List, replicate,
}

-- What the scheduler reads and writes.
pub record Queue : Type 0 where
  pub priority_list_pid : List ℤ
  pub current_schedule : ℤ
  pub schedule_started : ℕ
  pub active_terminal : ℕ

unfoldable pub scheduler_init : Queue
scheduler_init = record {
  priority_list_pid = replicate 7 minus_one;
  current_schedule = minus_one;
  schedule_started = 0;
  active_terminal = 3;
}

abbrev pub slot : List ℤ → ℕ → ℤ
slot l i = get_or l i minus_one

-- `planned_schedule++`, back to 0 behind the last slot
abbrev pub next_slot : ℕ → ℕ
next_slot i = if ltb 6 (i + 1) then 0 else i + 1

-- `while (priority_list_pid[planned_schedule] < 0)`; `none` when the fuel is used up.
unfoldable pub find_task : ℕ → List ℤ → ℕ → Option ℕ
find_task zero l i = none
find_task (suc fuel) l i =
    let rest = find_task fuel l (next_slot i) in if ltb_ℤ (slot l i) (pos 0) then rest else some i

-- `(current_schedule + 1) % 7`, from -1 on
unfoldable pub planned : ℤ → ℕ
planned (pos c) = (c + 1) % 7
planned (negsuc c) = 0

-- The slot that `switch_tasks` goes to once the three shells run.
unfoldable pub next_task : ℕ → Queue → Option ℕ
unfolding find_task planned
next_task fuel q = find_task fuel q.priority_list_pid (planned q.current_schedule)

-- The queue after such a switch.
unfoldable pub switch_slot : ℕ → Queue → Option Queue
switch_slot fuel q = elim (next_task fuel q) [
  | none ↦ none
  | some i ↦ some (record q { current_schedule = pos i })
]

-- Until then each tick starts one more shell: the counter of the terminals, a 32-bit word, and the
-- flag. `execute("shell")` follows.
unfoldable pub start_shell : Queue → Queue
start_shell q =
    let t = (q.active_terminal + (2 ^ 32 - 1)) % 2 ^ 32 in
    record q { active_terminal = t; schedule_started = if t == 0 then 1 else q.schedule_started }
