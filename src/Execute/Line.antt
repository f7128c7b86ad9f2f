-- ===== src/Execute/Line.antt =====
-- `execute` of a command line.
use linux_based_os.Prelude.{
  ◌⊎◌, inl, inr, ap, ℕ, ◌+◌, ◌<◌, ◌≤◌, ◌≡◌, ◌≢◌, refl, sym, ◌∙◌, arith, some, Option, ltb-false,
  leb-false, is_zero, if◌then◌else◌, ◌>>=◌,
}
use linux_based_os.Strings.{Str}
use linux_based_os.Strings.Length.{HasLength, strlen_lem}
use linux_based_os.Strings.Copy.{strcpy_lem}
use linux_based_os.Filesystem.{Image}
use linux_based_os.Filesystem.Program.{is_executable}
use linux_based_os.Execute.{manage_arguments, Kernel, Locals, Control, fails}
use linux_based_os.Execute.Arguments.{
  IsWord, IsPrefix, IsPart, manage_arguments_lem, manage_arguments_name,
}
use linux_based_os.Execute.Launch.{launch, execute_command, execute}

-- What the copy of the command has from the command.
module _ (len : ℕ) (command copied : Str) (same : (j : ℕ) → j ≤ len → copied j ≡ command j) where
  copied-IsWord : (at n : ℕ) → at + n ≤ len → IsWord command at n → IsWord copied at n
  copied-IsWord at n h w = record {
    inside = λ j l. rw (same (at + j) (omega arith)) (w.inside j l);
    ends = rw (same (at + n) h) w.ends;
  }

  of_copied : (out : Str) (n : ℕ) → n ≤ len → IsPrefix copied out n → IsPrefix command out n
  of_copied out n h p = record {
    length = p.length;
    same = λ j l. p.same j l ∙ same j (omega arith);
  }

  kept_word :
      (args : Str) (at n : ℕ)
      → at + n ≤ len + 1
      → IsPart copied args at n
      → IsPart command args at n
  kept_word args at n h p = record {
    same = λ j l. p.same j l ∙ same (at + j) (omega arith);
    blank = p.blank;
  }

-- What `execute` does with a program's name and its arguments.
abbrev pub runs :
    ℕ → Image → Locals → (esp ebp : ℕ) → (name args : Str) → Kernel → Option (Control × Kernel)
runs fuel im l esp ebp name args k =
    is_executable im (some name) l.dentry l.exec_buffer >>= λ found.
    if is_zero found then some (fails, k) else launch fuel im l name args esp ebp k

-- Behind a name of `n` characters the command ends, and `m` is 0, or there are a blank or a line break
-- and a word of `m` characters.
abbrev pub Behind : Str → (len n m : ℕ) → Type 0
Behind command len n m =
    ((n ≡ len) × (m ≡ 0)) ⊎ ((command n ≢ 0) × IsWord command (n + 1) m × (n + 1 + m ≤ len))

fits_command : (command : Str) (len n m : ℕ) → Behind command len n m → n + 1 + m ≤ len + 1
fits_command command len n m (inl (e, none_left)) = omega arith
fits_command command len n m (inr (more, argument, fits)) = omega arith

-- What the parser gives for the copy of such a command.
parsed :
    (fuel len n m : ℕ) (copied : Str)
    → copied len ≡ 0
    → n < fuel
    → m < fuel
    → IsWord copied 0 n
    → Behind copied len n m
    → (name args : Str) × (manage_arguments fuel copied ≡ some (name, args))
      × IsPrefix copied name n
      × IsPart copied args (n + 1) m
parsed fuel len n m copied nul h short word (inl (e, none_left)) =
    let (args, run, prefix, part) =
      manage_arguments_name fuel n copied word (ap copied e ∙ nul) h in
    (
      copied,
      args,
      run,
      prefix,
      record {
        same = λ j l. absurd (omega (arith, none_left));
        blank = λ j l. part.blank j (omega arith);
      },
    )
parsed fuel len n m copied nul h short word (inr (more, argument, fits)) =
    manage_arguments_lem fuel n m copied word more argument h short

copied-Behind :
    (len n m : ℕ) (command copied : Str)
    → ((j : ℕ) → j ≤ len → copied j ≡ command j)
    → Behind command len n m
    → Behind copied len n m
copied-Behind len n m command copied same (inl ends) = inl ends
copied-Behind len n m command copied same (inr (more, argument, fits)) = inr (
  λ e. more (sym (same n (omega (arith, fits))) ∙ e),
  copied-IsWord len command copied same (n + 1) m fits argument,
  fits,
)

-- For a command of `len` characters, at least one and fewer than 1024 and than the fuel, that is a
-- name of `n` characters, with `m` 0, or that starts with one, a blank or a line break, and a word
-- of `m` characters, fewer than 128, and with fewer than seven tasks, `execute` is the check of the
-- program with this name, and then -1 or the launch of it with the word as its arguments, which are
-- empty when there is none.
pub execute_line :
    (fuel len n m : ℕ) (im : Image) (l : Locals) (esp ebp : ℕ) (command : Str) (k : Kernel)
    → HasLength command len
    → 1 ≤ len
    → len < fuel
    → len < 1024
    → IsWord command 0 n
    → Behind command len n m
    → m < 128
    → k.total_tasks < 7
    → (name args : Str) × IsPrefix command name n
      × IsPart command args (n + 1) m
      × (execute fuel im l esp ebp command k ≡ runs fuel im l esp ebp name args k)
unfolding execute execute_command
execute_line fuel len n m im l esp ebp command k length some_left enough small word behind short
      room =
    let fits = fits_command command len n m behind in
    let (copied, copy, all) = strcpy_lem fuel len l.k_command command length enough in
    let same : (j : ℕ) → j ≤ len → copied j ≡ command j = λ j h. ground (arith, all j) in
    let (name, args, run, prefix, part) =
      parsed fuel len n m copied (same len (omega arith) ∙ length.nul) (omega arith) (omega arith)
        (copied-IsWord len command copied same 0 n (omega arith) word)
        (copied-Behind len n m command copied same behind) in
    (
      name,
      args,
      of_copied len command copied same name n (omega arith) prefix,
      kept_word len command copied same args (n + 1) m fits part,
      rw
          (
            strlen_lem fuel command len length enough,
            ltb-false len 1 (omega arith),
            leb-false 7 k.total_tasks (omega arith),
            copy,
            run,
          )
          refl,
    )
