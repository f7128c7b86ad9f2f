-- ===== src/Execute/Fails.antt =====
-- When `execute` returns -1.
use linux_based_os.Prelude.{ℕ, ◌≡◌, ◌≢◌, inl, inr, some, >>=-eq-some}
use linux_based_os.Strings.{Str}
use linux_based_os.Filesystem.{Image}
use linux_based_os.Filesystem.Program.{load_process}
use linux_based_os.Execute.{
  Kernel, Locals, fails, current_pcb, find_pid, page_allocate, physical_page_addr, cp_vaddr,
}
use linux_based_os.Execute.Init.{pcb_init}
use linux_based_os.Execute.Cases.{execute_cases}
use linux_based_os.Execute.Launch.{counted, new_pid, enter_program, launch, execute}

module _ (fuel : ℕ) (im : Image) (l : Locals) (esp ebp : ℕ) where
  enter_program-ne-fails :
      (pid : ℕ) (args : Str) (eip : ℕ) (k r : Kernel)
      → enter_program fuel l pid args esp ebp eip k ≢ some (fails, r)
  unfolding enter_program
  enter_program-ne-fails pid args eip k r e =
      let (made, run, done) =
        >>=-eq-some (pcb_init fuel l.new_pcb pid args (current_pcb esp) k) _ e in
      cc

  launch-ne-fails :
      (name args : Str) (k r : Kernel) → launch fuel im l name args esp ebp k ≢ some (fails, r)
  unfolding launch page_allocate
  launch-ne-fails name args k r e =
      let free = find_pid 7 0 k.pid_bitpattern in
      let pid = new_pid free l.pid in
      let k1 = page_allocate (physical_page_addr pid) (counted free k) in
      let ((eip, m), loaded, done) =
        >>=-eq-some
          (load_process im name cp_vaddr l.dentry l.file l.entry_buff (k1.user k1.user_page)) _ e in
      enter_program-ne-fails pid args eip _ r done

  -- An `execute` that returns -1 has left the whole kernel state as it was.
  pub execute_fails :
      (command : Str) (k r : Kernel) → execute fuel im l esp ebp command k ≡ some (fails, r) → r ≡ k
  execute_fails command k r e = elim (execute_cases fuel im l esp ebp command k r fails e) [
    | inl (_, same) ↦ same
    | inr (name, args, run) ↦ absurd (launch-ne-fails name args k r run)
  ]
