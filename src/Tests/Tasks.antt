-- ===== src/Tests/Tasks.antt =====
-- A run on the scheduler.
use linux_based_os.Prelude.{arith, pos, minus_one, [], ◌∷◌, refl}
use linux_based_os.Schedule.{Queue}
use linux_based_os.Schedule.Fair.{Reaches, next_task_fair}

-- Three shells, in slots 2 to 4; slot 4 is the current one.
abbrev pub queue : Queue
queue = record {
  priority_list_pid = minus_one ∷ minus_one ∷ pos 1 ∷ pos 2 ∷ pos 3 ∷ minus_one ∷ minus_one ∷ [];
  current_schedule = pos 4;
  schedule_started = 1;
  active_terminal = 0;
}

next_task_fair_example : Reaches 7 queue 3
next_task_fair_example = next_task_fair queue 3 (omega arith) refl
