-- ===== src/Syscall/Table.antt =====
-- The descriptor table of a process: its invariant, and that the system calls keep it.
use linux_based_os.Prelude.{
  ℕ, ◌≤◌, ◌<◌, ◌≡◌, ◌≢◌, ◌⊎◌, inl, inr, refl, arith, some, ℤ, pos, length, length-set,
  get_or-set_self, get_or-set_ne, minus_one, ◌==◌, ==_iff, Bool-cases, negsuc,
}
use linux_based_os.Descriptor.{Driver, Descriptor, keyboard, terminal}
use linux_based_os.Process.{Pcb, max_fd, min_fd, in_use, free_descriptor}
use linux_based_os.Syscall.{Machine, with_descriptor, descriptor, close, fd_index}

-- A descriptor in use has a driver, and one that is not is all zero.
abbrev pub IsSound : Descriptor → Type 0
IsSound d =
    ((d.flags ≡ in_use) × ((dr : Driver) × (d.fd_jumptable ≡ some dr))) ⊎ (d ≡ free_descriptor)

-- Eight descriptors, each of them sound; the first is the keyboard and the second the terminal.
pub record IsTable (p : Pcb) : Type 0 where
  pub eight : length p.file_array ≡ max_fd
  pub sound : (fd : ℕ) → fd < max_fd → IsSound (descriptor p fd)
  pub stdin : (descriptor p 0).fd_jumptable ≡ some keyboard
  pub stdout : (descriptor p 1).fd_jumptable ≡ some terminal
  pub stdin_in_use : (descriptor p 0).flags ≡ in_use
  pub stdout_in_use : (descriptor p 1).flags ≡ in_use

-- A sound descriptor from the third on may be stored.
pub set-IsTable :
    {W : Type 0} (m : Machine W) (fd : ℕ) (d : Descriptor)
    → IsTable m.pcb
    → min_fd ≤ fd
    → fd < max_fd
    → IsSound d
    → IsTable (with_descriptor m fd d).pcb
set-IsTable m fd d t lo hi s = record {
  eight = rw length-set t.eight;
  sound = λ j h. elim (Bool-cases (j == fd)) [
    | inl e ↦
        let e' : j ≡ fd = (==_iff j fd).0 e in
        rw (e', get_or-set_self m.pcb.file_array fd d free_descriptor (rw t.eight hi)) s
    | inr e ↦
        rw (get_or-set_ne m.pcb.file_array fd j d free_descriptor (ground arith)) (t.sound j h)
  ];
  stdin = rw (get_or-set_ne m.pcb.file_array fd 0 d free_descriptor (omega arith)) t.stdin;
  stdout = rw (get_or-set_ne m.pcb.file_array fd 1 d free_descriptor (omega arith)) t.stdout;
  stdin_in_use =
      rw (get_or-set_ne m.pcb.file_array fd 0 d free_descriptor (omega arith)) t.stdin_in_use;
  stdout_in_use =
      rw (get_or-set_ne m.pcb.file_array fd 1 d free_descriptor (omega arith)) t.stdout_in_use;
}

-- The two outcomes of `close`: a descriptor from 2 to 7 in use is freed, all else is refused.
pub close_cases :
    {W : Type 0} (fd : ℤ) (m : Machine W)
    → (close fd m ≡ (minus_one, m))
      ⊎ ((min_fd ≤ fd_index fd)
          × (fd_index fd < max_fd)
          × ((descriptor m.pcb (fd_index fd)).flags ≢ 0)
          × (close fd m ≡ (pos 0, with_descriptor m (fd_index fd) free_descriptor)))
unfolding close
close_cases (negsuc n) m = inl (ground arith)
close_cases (pos n) m = ground arith

-- `close` of any number keeps a well-formed descriptor table well formed.
pub close-IsTable :
    {W : Type 0} (fd : ℤ) (m : Machine W) → IsTable m.pcb → IsTable (close fd m).1.pcb
close-IsTable fd m t = elim (close_cases fd m) [
  | inl e ↦ rw e t
  | inr (lo, hi, _, e) ↦ rw e (set-IsTable m (fd_index fd) free_descriptor t lo hi (inr refl))
]

-- A sound descriptor whose flags are 0 is all zero.
pub free_of_flags : (d : Descriptor) → IsSound d → d.flags ≡ 0 → d ≡ free_descriptor
free_of_flags d (inl (u, _)) e = absurd (omega arith)
free_of_flags d (inr f) e = f
