-- ===== src/Syscall/Open.antt =====
-- `open`: which descriptor it takes, and what stands in it.
use linux_based_os.Prelude.{
  ℕ, zero, suc, ◌+◌, ◌≤◌, ◌<◌, ◌≡◌, ◌≢◌, ◌⊎◌, inl, inr, refl, arith, Option, some, ℤ, pos,
  minus_one, ◌==◌, Bool-cases, ==_iff, is_zero, is_zero_iff, ==_false, ◌∙◌, true, false,
}
use linux_based_os.Strings.{Str, strncmp}
use linux_based_os.Strings.Compare.{IsBytes, strncmp_iff}
use linux_based_os.Strings.Length.{HasLength, strlen_lem}
use linux_based_os.Descriptor.{Driver, rtc, filesystem_dir, filesystem_reg, keyboard, terminal}
use linux_based_os.Process.{Pcb, max_fd, min_fd}
use linux_based_os.Filesystem.{Image, Dentry, read_dentry_by_name}
use linux_based_os.Filesystem.Lookup.{SameName, HasBytes, read_dentry_by_name_missing}
use linux_based_os.Syscall.{
  Machine, FileOps, with_descriptor, descriptor, find_fd, opened, fop_tables, open_fd, open_named,
  through, returns_fd,
}

-- No entry that the lookup looks at has the name: those of the directory, and the one behind them.
abbrev pub InNoEntry : Image → Str → Type 0
InNoEntry im name = (j : ℕ) → j ≤ im.num_dir → ¬ SameName name (im.dentry j).filename

-- Descriptor `fd` is the first from `from` on that is not in use.
pub record IsFirstFree (p : Pcb) (from fd : ℕ) : Type 0 where
  pub above : from ≤ fd
  pub free : (descriptor p fd).flags ≡ 0
  pub taken : (j : ℕ) → from ≤ j → j < fd → (descriptor p j).flags ≢ 0

-- No descriptor from `from` to below `end` is free.
abbrev pub AllTaken : Pcb → ℕ → ℕ → Type 0
AllTaken p from end = (j : ℕ) → from ≤ j → j < end → (descriptor p j).flags ≢ 0

AllTaken-extend :
    (p : Pcb) (from end : ℕ)
    → (descriptor p from).flags ≢ 0
    → AllTaken p (from + 1) end
    → AllTaken p from end
AllTaken-extend p from end first rest j h k = elim (Bool-cases (j == from)) [
  | inl e ↦ let e' : j ≡ from = (==_iff j from).0 e in rw e' first
  | inr e ↦ rest j (ground arith) k
]

-- The search stops at the first free descriptor, or at the end.
abbrev Found : ℕ → ℕ → Pcb → ℕ → Type 0
Found from end p fd = (IsFirstFree p from fd × (fd < end)) ⊎ ((fd ≡ end) × AllTaken p from end)

find_fd_cases : (left fd end : ℕ) (p : Pcb) → fd + left ≡ end → Found fd end p (find_fd left fd p)
unfolding find_fd
find_fd_cases zero fd end p h = inr (omega arith, λ j k l. absurd (omega arith))
find_fd_cases (suc left) fd end p h = elim (Bool-cases ((descriptor p fd).flags == 0)) [
  | inl e ↦ rw e (
      inl (
        record { above = omega arith; free = ground arith; taken = λ j k l. absurd (omega arith) },
        omega arith,
      ))
  | inr e ↦ rw e (Found-next (ground arith) (find_fd_cases left (fd + 1) end p (omega arith)))
]
  where
    Found-next : (descriptor p fd).flags ≢ 0 → {r : ℕ} → Found (fd + 1) end p r → Found fd end p r
    Found-next first (inl (f, k)) = inl (
      record {
        above = omega (arith, f.above);
        free = f.free;
        taken = AllTaken-extend p fd _ first f.taken;
      },
      k,
    )
    Found-next first (inr (k, f)) = inr (k, AllTaken-extend p fd end first f)

find_fd_first :
    (left from fd : ℕ) (p : Pcb)
    → IsFirstFree p from fd
    → fd < from + left
    → find_fd left from p ≡ fd
find_fd_first left from fd p f h = elim (find_fd_cases left from (from + left) p refl) [
  | inl (g, _) ↦
      ground (arith, g.taken fd f.above, f.taken (find_fd left from p) g.above, f.free, g.free)
  | inr (_, g) ↦ absurd (g fd f.above h f.free)
]

find_fd_full :
    (left from : ℕ) (p : Pcb) → AllTaken p from (from + left) → find_fd left from p ≡ from + left
find_fd_full left from p h = elim (find_fd_cases left from (from + left) p refl) [
  | inl (g, k) ↦ absurd (h (find_fd left from p) g.above k g.free)
  | inr (e, _) ↦ e
]

-- The drivers' `open` entries return, and leave the caller's control block alone.
pub record OpensQuietly {W : Type 0} (ops : Driver → FileOps W) : Type 0 where
  pub runs :
      (dr : Driver) (name : Str) (m : Machine W)
      → (r : ℤ) × (m' : Machine W) × ((ops dr).open_op name m ≡ some (r, m')) × (m'.pcb ≡ m.pcb)

-- A name that is not empty differs from the empty string.
nonempty_test :
    (s : Str) (n : ℕ) → IsBytes s → HasLength s n → n ≢ 0 → is_zero (strncmp s (λ _. 0) n) ≡ false
nonempty_test s zero hb h ne = absurd (ne refl)
nonempty_test s (suc n) hb h ne = elim (Bool-cases (is_zero (strncmp s (λ _. 0) (suc n)))) [
  | inl e ↦
      let same =
        (strncmp_iff s (λ _. 0) (suc n) hb (λ i. omega arith)).0
          ((is_zero_iff (strncmp s (λ _. 0) (suc n))).0 e) in
      absurd (h.before 0 (omega arith) same.0)
  | inr e ↦ e
]

strncmp_nothing : (s : Str) (n : ℕ) → IsBytes s → n ≡ 0 → is_zero (strncmp s (λ _. 0) n) ≡ true
strncmp_nothing s zero hb e =
    (is_zero_iff (strncmp s (λ _. 0) 0)).1 ((strncmp_iff s (λ _. 0) 0 hb (λ i. omega arith)).1 tt)
strncmp_nothing s (suc n) hb e = absurd (omega arith)

pub driver_of : (t : ℕ) → t < 5 → (dr : Driver) × (fop_tables t ≡ some dr)
unfolding fop_tables
driver_of zero h = (rtc, refl)
driver_of (suc zero) h = (filesystem_dir, refl)
driver_of (suc (suc zero)) h = (filesystem_reg, refl)
driver_of (suc (suc (suc zero))) h = (keyboard, refl)
driver_of (suc (suc (suc (suc zero)))) h = (terminal, refl)
driver_of (suc (suc (suc (suc (suc t))))) h = absurd (omega arith)

-- A name, not empty, of a file that the lookup finds, with `fd` the first free descriptor.
pub record CanOpen (im : Image) (fuel n : ℕ) (name : Str) (file entry : Dentry) (fd : ℕ) (p : Pcb)
    : Type 0 where
  pub bytes : IsBytes name
  pub length : HasLength name n
  pub nonempty : n ≢ 0
  pub enough : n < fuel
  pub found : read_dentry_by_name im name file ≡ (pos 0, entry)
  pub type : entry.filetype < 5
  pub free : IsFirstFree p min_fd fd
  pub room : fd < max_fd

through-some :
    {W : Type 0} (ops : Driver → FileOps W) (o : Option Driver) (dr : Driver)
    (f : FileOps W → Option (ℤ × Machine W))
    → o ≡ some dr
    → through ops o f ≡ f (ops dr)
unfolding through
through-some ops o dr f e = rw e

module _ {W : Type 0} (ops : Driver → FileOps W) (quiet : OpensQuietly ops) (im : Image) where
  open_fd-open_named :
      (fuel n : ℕ) (name : Str) (file : Dentry) (m : Machine W)
      → HasLength name n
      → n < fuel
      → open_fd ops fuel im (some name) file m ≡ open_named ops im name n file m
  unfolding open_fd
  open_fd-open_named fuel n name file m hl hf = rw (strlen_lem fuel name n hl hf, open_fd)

  module _ (fuel n : ℕ) (name : Str) (file entry : Dentry) (fd : ℕ) (m : Machine W)
      (c : CanOpen im fuel n name file entry fd m.pcb) where
    -- `open` as the call of the driver's `open`.
    pub open_fd_runs :
        (dr : Driver) (r : ℤ) (m' : Machine W)
        → fop_tables entry.filetype ≡ some dr
        → (ops dr).open_op name (with_descriptor m fd (opened entry)) ≡ some (r, m')
        → open_fd ops fuel im (some name) file m ≡ some (pos fd, m')
    open_fd_runs dr r m' table run = open_fd-open_named fuel n name file m c.length c.enough ∙ named
      where
        jumptable : (opened entry).fd_jumptable ≡ some dr
        jumptable = unfold opened in table

        named : open_named ops im name n file m ≡ some (pos fd, m')
        named =
            unfold open_named returns_fd in
            rw (
              nonempty_test name n c.bytes c.length c.nonempty,
              c.found,
              find_fd_first 6 2 fd m.pcb c.free c.room,
              ==_false fd 8 (omega (arith, c.room)),
              through-some ops (opened entry).fd_jumptable dr
                  (λ o. o.open_op name (with_descriptor m fd (opened entry))) jumptable,
              run,
            )

    -- A name of an entry is opened at the first free descriptor: it is returned, it holds a fresh
    -- descriptor for the entry, and no other descriptor is touched.
    pub open_fd_success :
        (m' : Machine W) × (open_fd ops fuel im (some name) file m ≡ some (pos fd, m'))
        × (m'.pcb ≡ (with_descriptor m fd (opened entry)).pcb)
    open_fd_success =
        let (dr, table) = driver_of entry.filetype c.type in
        let (r, m', run, kept) = quiet.runs dr name (with_descriptor m fd (opened entry)) in
        (m', open_fd_runs dr r m' table run, kept)

  -- With fuel for the name, `open` returns -1 and changes nothing for an empty name, for a name
  -- that differs within 31 characters from that of every entry the lookup looks at, which are those
  -- of the directory and the one behind its last, and when no descriptor is free.
  pub open_fd_refuses :
      (fuel n : ℕ) (name : Str) (file : Dentry) (m : Machine W)
      → HasBytes im
      → IsBytes name
      → HasLength name n
      → n < fuel
      → (n ≡ 0) ⊎ InNoEntry im name ⊎ AllTaken m.pcb min_fd max_fd
      → open_fd ops fuel im (some name) file m ≡ some (minus_one, m)
  open_fd_refuses fuel n name file m entries hb hl hf why =
      open_fd-open_named fuel n name file m hl hf ∙ named why
    where
      named :
          (n ≡ 0) ⊎ InNoEntry im name ⊎ AllTaken m.pcb min_fd max_fd
          → open_named ops im name n file m ≡ some (minus_one, m)
      named (inl e) = unfold open_named in rw (strncmp_nothing name n hb e)
      named (inr (inl e)) =
          let lost = read_dentry_by_name_missing im entries name hb file e in
          unfold open_named in ground (arith, lost)
      named (inr (inr e)) = unfold open_named in ground (arith, find_fd_full 6 2 m.pcb e)
