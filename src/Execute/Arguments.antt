-- ===== src/Execute/Arguments.antt =====
-- The command line that `execute` is given: the name of the program and its arguments.
use linux_based_os.Prelude.{
  ℕ, zero, suc, ◌+◌, ◌<◌, ◌≤◌, ◌≡◌, ◌≢◌, ◌⊎◌, inl, inr, refl, sym, ap, ◌∙◌, subst, arith, true,
  false, ◌==◌, some, store, ==_false, ==_refl, Bool-cases, if◌then◌else◌,
}
use linux_based_os.Strings.{Str}
use linux_based_os.Strings.Length.{HasLength}
use linux_based_os.Execute.{is_stop, scan_word, copy_args, manage_arguments}

-- From `at` on a word of `n` characters, with no NUL, blank or line break.
pub record IsWord (k : Str) (at n : ℕ) : Type 0 where
  pub inside : (j : ℕ) → j < n → is_stop (k (at + j)) ≡ false
  pub ends : is_stop (k (at + n)) ≡ true

IsWord-tail : (k : Str) (at n : ℕ) → IsWord k at (suc n) → IsWord k (at + 1) n
IsWord-tail k at n w = record {
  inside = λ j h.
      let e : at + suc j ≡ at + 1 + j = omega arith in
      subst (λ i. is_stop (k i) ≡ false) e (w.inside (suc j) (omega arith));
  ends =
      let e : at + suc n ≡ at + 1 + n = omega arith in subst (λ i. is_stop (k i) ≡ true) e w.ends;
}

first_inside : (k : Str) (at n : ℕ) → IsWord k at (suc n) → is_stop (k at) ≡ false
first_inside k at n w =
    let e : at + 0 ≡ at = omega arith in
    subst (λ i. is_stop (k i) ≡ false) e (w.inside 0 (omega arith))

ends_here : (k : Str) (at : ℕ) → IsWord k at 0 → is_stop (k at) ≡ true
ends_here k at w = let e : at + 0 ≡ at = omega arith in subst (λ i. is_stop (k i) ≡ true) e w.ends

scan_word_lem :
    (fuel at n : ℕ) (k : Str) → IsWord k at n → n < fuel → scan_word fuel k at ≡ some (at + n)
unfolding scan_word
scan_word_lem zero at n k w h = absurd (omega arith)
scan_word_lem (suc fuel) at zero k w h =
    let e : at ≡ at + 0 = omega arith in rw (ends_here k at w) (ap some e)
scan_word_lem (suc fuel) at (suc n) k w h =
    let e : at + 1 + n ≡ at + suc n = omega arith in
    rw (first_inside k at n w)
      (scan_word_lem fuel (at + 1) n k (IsWord-tail k at n w) (omega arith) ∙ ap some e)

-- `out` is `args` with `n` characters from `at` on at index `i`.
record Copied (n : ℕ) (k : Str) (at i : ℕ) (args out : Str) : Type 0 where
  inside : (m : ℕ) → m < n → out (i + m) ≡ k (at + m)
  others : (j : ℕ) → (j < i) ⊎ (i + n ≤ j) → out j ≡ args j

module _ (n : ℕ) (k : Str) (at i : ℕ) (args out : Str)
    (c : Copied n k (at + 1) (i + 1) (store args i (k at)) out) where
  inside_first : (m : ℕ) → m < suc n → out (i + m) ≡ k (at + m)
  inside_first zero h =
      let here : i + 0 ≡ i = omega arith in
      let there : at ≡ at + 0 = omega arith in
      rw here (c.others i (inl (omega arith)) ∙ (rw (==_refl i) refl) ∙ ap k there)
  inside_first (suc m) h =
      let here : i + suc m ≡ i + 1 + m = omega arith in
      let there : at + 1 + m ≡ at + suc m = omega arith in
      rw here (c.inside m (omega arith) ∙ ap k there)

  Copied-suc : Copied (suc n) k at i args out
  Copied-suc = record {
    inside = inside_first;
    others = λ j o. c.others j (outside j o) ∙ (rw (==_false j i (differs j o)) refl);
  }
    where
      outside : (j : ℕ) → (j < i) ⊎ (i + suc n ≤ j) → (j < i + 1) ⊎ (i + 1 + n ≤ j)
      outside j (inl a) = inl (omega arith)
      outside j (inr a) = inr (omega arith)

      differs : (j : ℕ) → (j < i) ⊎ (i + suc n ≤ j) → j ≢ i
      differs j (inl a) = omega arith
      differs j (inr a) = omega arith

copy_args_lem :
    (fuel at n i : ℕ) (k args : Str)
    → IsWord k at n
    → n < fuel
    → (out : Str) × (copy_args fuel k at i args ≡ some (out, at + n)) × Copied n k at i args out
unfolding copy_args
copy_args_lem zero at n i k args w h = absurd (omega arith)
copy_args_lem (suc fuel) at zero i k args w h =
    let e : at ≡ at + 0 = omega arith in
    (
      args,
      rw (ends_here k at w) (ap (λ (p : ℕ). some (args, p)) e),
      record { inside = λ m l. absurd (omega arith); others = λ j o. refl },
    )
copy_args_lem (suc fuel) at (suc n) i k args w h =
    let e : at + 1 + n ≡ at + suc n = omega arith in
    let (out, run, c) =
      copy_args_lem fuel (at + 1) n (i + 1) k (store args i (k at)) (IsWord-tail k at n w)
        (omega arith) in
    (
      out,
      rw (first_inside k at n w) (run ∙ ap (λ (p : ℕ). some (out, p)) e),
      Copied-suc n k at i args out c,
    )

-- The first `n` characters of `k`, as a string.
pub record IsPrefix (k name : Str) (n : ℕ) : Type 0 where
  pub length : HasLength name n
  pub same : (j : ℕ) → j < n → name j ≡ k j

-- `n` characters of `k` from `at` on, and NULs.
pub record IsPart (k args : Str) (at n : ℕ) : Type 0 where
  pub same : (j : ℕ) → j < n → args j ≡ k (at + j)
  pub blank : (j : ℕ) → n ≤ j → args j ≡ 0

not_nul : (c : ℕ) → is_stop c ≡ false → c ≢ 0
not_nul c h = ground arith

-- A name alone: it is the whole command, and there are no arguments.
pub manage_arguments_name :
    (fuel n : ℕ) (k : Str)
    → IsWord k 0 n
    → k n ≡ 0
    → n < fuel
    → (args : Str) × (manage_arguments fuel k ≡ some (k, args)) × IsPrefix k k n × IsPart k args n 0
unfolding manage_arguments
manage_arguments_name fuel n k w nul h =
    let e : 0 + n ≡ n = omega arith in
    (
      λ i. 0,
      rw (scan_word_lem fuel 0 n k w h, e, nul) refl,
      record {
        length = record { nul = nul; before = λ i l. not_nul (k i) (word_at i l) };
        same = λ j l. refl;
      },
      record { same = λ j l. absurd (omega arith); blank = λ j l. refl },
    )
  where
    word_at : (i : ℕ) → i < n → is_stop (k i) ≡ false
    word_at i l =
        let e : 0 + i ≡ i = omega arith in subst (λ j. is_stop (k j) ≡ false) e (w.inside i l)

-- A name and one word of arguments, with a blank or a line break between them.
module _ (fuel n m : ℕ) (k : Str) (name : IsWord k 0 n) (nul : k n ≢ 0)
    (word : IsWord k (n + 1) m) where
  abbrev cut : Str
  cut = store k n 0

  cut_elsewhere : (j : ℕ) → j ≢ n → cut j ≡ k j
  cut_elsewhere j h = rw (==_false j n h) refl

  IsWord-cut : IsWord cut (n + 1) m
  IsWord-cut = record {
    inside = λ j l. rw (cut_elsewhere (n + 1 + j) (omega arith)) (word.inside j l);
    ends = rw (cut_elsewhere (n + 1 + m) (omega arith)) word.ends;
  }

  abbrev named : Str
  named = if k (n + 1 + m) == 0 then cut else store cut (n + 1 + m) 0

  named_before : (j : ℕ) → j ≤ n → named j ≡ cut j
  named_before j h = elim (Bool-cases (k (n + 1 + m) == 0)) [
    | inl e ↦ rw e refl
    | inr e ↦ rw (e, ==_false j (n + 1 + m) (omega arith)) refl
  ]

  named_text : (j : ℕ) → j < n → named j ≡ k j
  named_text j h = named_before j (omega arith) ∙ cut_elsewhere j (omega arith)

  named-IsPrefix : IsPrefix k named n
  named-IsPrefix = record {
    length = record {
      nul = named_before n (omega arith) ∙ (rw (==_refl n) refl);
      before = λ j l e.
          let here : 0 + j ≡ j = omega arith in
          not_nul (k j) (subst (λ i. is_stop (k i) ≡ false) here (name.inside j l))
            (sym (named_text j l) ∙ e);
    };
    same = named_text;
  }

  -- A command line: behind the name of `n` characters a blank or a line break, and a word of `m`
  -- characters, both with no NUL, blank or line break. With more fuel than the words are long, the
  -- parser returns the name as a string and the word as the arguments, whatever follows.
  pub manage_arguments_lem :
      n < fuel
      → m < fuel
      → (out args : Str) × (manage_arguments fuel k ≡ some (out, args))
        × IsPrefix k out n
        × IsPart k args (n + 1) m
  unfolding manage_arguments
  manage_arguments_lem h l =
      let e : 0 + n ≡ n = omega arith in
      let (args, run, c) = copy_args_lem fuel (n + 1) m 0 cut (λ j. 0) IsWord-cut l in
      (
        named,
        args,
        rw (scan_word_lem fuel 0 n k name h, e, ==_false (k n) 0 nul, run) refl,
        named-IsPrefix,
        record {
          same = λ j b.
              let here : 0 + j ≡ j = omega arith in
              subst (λ i. args i ≡ cut (n + 1 + j)) here (c.inside j b)
              ∙ cut_elsewhere (n + 1 + j) (omega arith);
          blank = λ j b. c.others j (inr (omega arith));
        },
      )
