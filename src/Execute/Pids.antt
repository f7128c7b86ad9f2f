-- ===== src/Execute/Pids.antt =====
-- The pids of children: the bits of `pid_bitpattern` from the fourth on.
use linux_based_os.Prelude.{ℕ, ◌≡◌, get_or, Option}
use linux_based_os.Execute.{Kernel}
use linux_based_os.Execute.Switch.{Switch}
use linux_based_os.Execute.Reach.{Reach}

-- The pid `i + 1` is taken.
abbrev pub Taken : (i : ℕ) → Kernel → Type 0
Taken i k = get_or k.pid_bitpattern i 0 ≡ 1
