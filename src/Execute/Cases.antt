-- ===== src/Execute/Cases.antt =====
-- The ways that `execute` and `halt` come to a result.
use linux_based_os.Prelude.{
  ℕ, ◌-◌, ◌≡◌, ◌⊎◌, inl, inr, refl, ap, ltb, leb, set, Bool-cases, Option-cases, Option, some,
  is_zero, >>=-eq-some, true, false,
}
use mathlib.Core.Option.{some-injective}
use linux_based_os.Strings.{Str, strcpy, strlen}
use linux_based_os.Filesystem.{Image}
use linux_based_os.Filesystem.Program.{is_executable}
use linux_based_os.Execute.{Kernel, Locals, Control, fails, enters, resumes, manage_arguments}
use linux_based_os.Execute.Launch.{launch, execute_command, execute}
use linux_based_os.Execute.Halt.{release, to_parent, hand_over, leave, halt}

-- -1 and no change, or what the launch of a program gives.
abbrev pub Outcome : ℕ → Image → Locals → (esp ebp : ℕ) → (k r : Kernel) → Control → Type 0
Outcome fuel im l esp ebp k r c =
    ((c ≡ fails) × (r ≡ k))
    ⊎ ((name : Str) × (args : Str) × (launch fuel im l name args esp ebp k ≡ some (c, r)))

refused :
    (k r : Kernel) (c : Control)
    → ◌≡◌ {A = Option (Control × Kernel)} (some (fails, k)) (some (c, r))
    → (c ≡ fails) × (r ≡ k)
refused k r c e = (cc, cc)

module _ (fuel : ℕ) (im : Image) (l : Locals) (esp ebp : ℕ) (command : Str) (k r : Kernel)
    (c : Control) where
  execute_command_cases :
      execute_command fuel im l esp ebp command k ≡ some (c, r) → Outcome fuel im l esp ebp k r c
  unfolding execute_command
  execute_command_cases e =
      let (copied, a, e1) = >>=-eq-some (strcpy fuel l.k_command command) _ e in
      let ((name, args), b, e2) = >>=-eq-some (manage_arguments fuel copied) _ e1 in
      let (found, d, e3) = >>=-eq-some (is_executable im (some name) l.dentry l.exec_buffer) _ e2 in
      elim (Bool-cases (is_zero found)) [
        | inl t ↦ inl (refused k r c (rw t at e3))
        | inr t ↦ inr (name, args, rw t at e3)
      ]

  pub execute_cases :
      execute fuel im l esp ebp command k ≡ some (c, r) → Outcome fuel im l esp ebp k r c
  unfolding execute
  execute_cases e =
      let (len, a, e1) = >>=-eq-some (strlen fuel command) _ e in
      elim (Bool-cases (ltb len 1)) [
        | inl t ↦ inl (refused k r c (rw t at e1))
        | inr t ↦ elim (Bool-cases (leb 7 k.total_tasks)) [
          | inl u ↦ inl (refused k r c (rw (t, u) at e1))
          | inr u ↦ execute_command_cases (rw (t, u) at e1)
        ]
      ]

module _ (fuel : ℕ) (im : Image) (l : Locals) (cur esp ebp : ℕ) (shell : Str) (status : ℕ)
    (k r : Kernel) (c : Control) where
  abbrev k1 : Kernel
  k1 = release cur k

  state_of : {a : Control × Kernel} → some a ≡ some (c, r) → a.1 ≡ r
  state_of {a} e = ap (λ (b : Control × Kernel). b.1) (some-injective a (c, r) e)

  -- What a child leaves.
  abbrev pub child_left : Kernel
  child_left =
      let current = k1.pcbs cur in
      (leave current status (hand_over current.pid (to_parent (k1.pcbs current.parent_addr) k1))).1

  -- The state in which a base shell is started again.
  abbrev pub to_restart : Kernel
  to_restart = record k1 { pid_bitpattern = set k1.pid_bitpattern ((k1.pcbs cur).pid - 1) 0 }

  -- A base shell: the start of the new one, and, if it fails, what comes behind it.
  pub record Restart : Type 0 where
    pub control : Control
    pub after : Kernel
    pub run : execute fuel im l esp ebp shell to_restart ≡ some (control, after)
    pub left :
        (after ≡ r)
        ⊎ ((control ≡ fails)
            × ((leave (k1.pcbs cur) status (hand_over (k1.pcbs cur).pid after)).1 ≡ r))

  restart_cases :
      (c' : Control) (k3 : Kernel)
      → ltb 3 (k1.pcbs cur).pid ≡ false
      → execute fuel im l esp ebp shell to_restart ≡ some (c', k3)
      → halt fuel im l cur esp ebp shell status k ≡ some (c, r)
      → Restart
  unfolding halt
  restart_cases fails k3 t run e = record {
    control = fails;
    after = k3;
    run = run;
    left = inr (refl, state_of (rw (t, run) at e));
  }
  restart_cases (enters eip) k3 t run e = record {
    control = enters eip;
    after = k3;
    run = run;
    left = inl (state_of (rw (t, run) at e));
  }
  restart_cases (resumes x y z) k3 t run e = record {
    control = resumes x y z;
    after = k3;
    run = run;
    left = inl (state_of (rw (t, run) at e));
  }

  pub halt_cases :
      halt fuel im l cur esp ebp shell status k ≡ some (c, r)
      → ((ltb 3 (k1.pcbs cur).pid ≡ true) × (child_left ≡ r))
        ⊎ ((ltb 3 (k1.pcbs cur).pid ≡ false) × Restart)
  unfolding halt
  halt_cases e = elim (Bool-cases (ltb 3 (k1.pcbs cur).pid)) [
    | inl t ↦ inl (t, state_of (rw t at e))
    | inr t ↦ elim (Option-cases (execute fuel im l esp ebp shell to_restart)) [
      | inl n ↦ absurd (cc (rw (t, n) at e))
      | inr ((c', k3), run) ↦ inr (t, restart_cases c' k3 t run e)
    ]
  ]
