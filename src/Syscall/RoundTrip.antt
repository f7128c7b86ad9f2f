-- ===== src/Syscall/RoundTrip.antt =====
-- `close` undoes `open`, and `open` keeps the table in order.
use linux_based_os.Prelude.{
  ℕ, ◌≤◌, ◌<◌, ◌≡◌, ◌≢◌, ◌∙◌, inl, refl, sym, ap, arith, some, pos, set, List, ℤ, get_or-set_self,
  set-set, set-get_or,
}
use linux_based_os.Strings.{Str}
use linux_based_os.Descriptor.{Driver, Descriptor}
use linux_based_os.Process.{Pcb, max_fd, min_fd, in_use, free_descriptor}
use linux_based_os.Filesystem.{Image, Dentry}
use linux_based_os.Syscall.{Machine, FileOps, with_descriptor, descriptor, opened, open_fd, close}
use linux_based_os.Syscall.Table.{IsTable, IsSound, set-IsTable, free_of_flags}
use linux_based_os.Syscall.Open.{CanOpen, OpensQuietly, open_fd_success, driver_of}

opened-IsSound : (entry : Dentry) → entry.filetype < 5 → IsSound (opened entry)
unfolding opened
opened-IsSound entry h = inl (refl, driver_of entry.filetype h)

flags-opened : (entry : Dentry) → (opened entry).flags ≡ in_use
unfolding opened
flags-opened entry = refl

close_in_use :
    {W : Type 0} (m : Machine W) (fd : ℕ)
    → min_fd ≤ fd
    → fd < max_fd
    → (descriptor m.pcb fd).flags ≢ 0
    → close (pos fd) m ≡ (pos 0, with_descriptor m fd free_descriptor)
unfolding close
close_in_use m fd lo hi u = ground arith

-- Closing the descriptor that was just filled gives the table back.
close-with_descriptor :
    {W : Type 0} (m m' : Machine W) (fd : ℕ) (entry : Dentry)
    → IsTable m.pcb
    → min_fd ≤ fd
    → fd < max_fd
    → (descriptor m.pcb fd).flags ≡ 0
    → m'.pcb ≡ (with_descriptor m fd (opened entry)).pcb
    → close (pos fd) m' ≡ (pos 0, record m' { pcb = m.pcb })
close-with_descriptor {W} m m' fd entry t lo hi free same =
    close_in_use m' fd lo hi used
    ∙ ap (λ (p : Pcb). answer (record p { file_array = set p.file_array fd free_descriptor })) same
    ∙ ap (λ (xs : List Descriptor). answer (record m.pcb { file_array = xs })) restored
  where
    answer : Pcb → ℤ × Machine W
    answer p = (pos 0, record m' { pcb = p })

    filled : descriptor m'.pcb fd ≡ opened entry
    filled =
        ap (λ (p : Pcb). descriptor p fd) same
        ∙ get_or-set_self m.pcb.file_array fd (opened entry) free_descriptor (rw t.eight hi)

    used : (descriptor m'.pcb fd).flags ≢ 0
    used = omega (arith, ap (λ (d : Descriptor). d.flags) filled, flags-opened entry)

    restored : set (set m.pcb.file_array fd (opened entry)) fd free_descriptor ≡ m.pcb.file_array
    restored =
        set-set m.pcb.file_array fd (opened entry) free_descriptor
        ∙ ap (set m.pcb.file_array fd)
            (sym (free_of_flags (descriptor m.pcb fd) (t.sound fd hi) free))
        ∙ set-get_or m.pcb.file_array fd free_descriptor

module _ {W : Type 0} (ops : Driver → FileOps W) (quiet : OpensQuietly ops) (im : Image) where
  -- With a well-formed table, drivers whose `open` leaves the control block alone, and a name that
  -- can be opened at `fd`: `open` returns `fd`, and closing it succeeds and gives back the control
  -- block from before.
  pub close-open_fd :
      (fuel n : ℕ) (name : Str) (file entry : Dentry) (fd : ℕ) (m : Machine W)
      → IsTable m.pcb
      → CanOpen im fuel n name file entry fd m.pcb
      → (m' : Machine W) × (open_fd ops fuel im (some name) file m ≡ some (pos fd, m'))
        × (close (pos fd) m' ≡ (pos 0, record m' { pcb = m.pcb }))
  close-open_fd fuel n name file entry fd m t c =
      let (m', run, same) = open_fd_success ops quiet im fuel n name file entry fd m c in
      (m', run, close-with_descriptor m m' fd entry t c.free.above c.room c.free.free same)

  -- With drivers whose `open` leaves the control block alone, a successful `open` keeps a
  -- well-formed descriptor table well formed.
  pub open_fd-IsTable :
      (fuel n : ℕ) (name : Str) (file entry : Dentry) (fd : ℕ) (m : Machine W)
      → IsTable m.pcb
      → CanOpen im fuel n name file entry fd m.pcb
      → (m' : Machine W) × (open_fd ops fuel im (some name) file m ≡ some (pos fd, m'))
        × IsTable m'.pcb
  open_fd-IsTable fuel n name file entry fd m t c =
      let (m', run, same) = open_fd_success ops quiet im fuel n name file entry fd m c in
      (
        m',
        run,
        rw same
            (set-IsTable m fd (opened entry) t c.free.above c.room (opened-IsSound entry c.type)),
      )
