-- ===== src/Syscall/Guards.antt =====
-- `read` and `write`: what they refuse.
use linux_based_os.Prelude.{ℕ, ◌≤◌, ◌≡◌, ◌⊎◌, arith, Option, some, none, ℤ, pos, negsuc, minus_one}
use linux_based_os.Descriptor.{Driver}
use linux_based_os.Process.{Pcb, max_fd}
use linux_based_os.Syscall.{Machine, FileOps, descriptor, read, write}

-- Out of range, the one descriptor that may not be used so, not in use, or a null buffer.
abbrev pub Refused : Pcb → ℕ → ℤ → Option ℕ → Type 0
Refused p banned (negsuc n) buf = Unit {0}
Refused p banned (pos fd) buf =
    (max_fd ≤ fd) ⊎ (fd ≡ banned) ⊎ ((descriptor p fd).flags ≡ 0) ⊎ (buf ≡ none)

module _ {W : Type 0} (ops : Driver → FileOps W) where
  -- `read` of a descriptor out of range or not in use, of the terminal's descriptor 1, or into a
  -- null buffer returns -1 and changes nothing.
  pub read_refuses :
      (fd : ℤ) (buf : Option ℕ) (nbytes : ℤ) (m : Machine W)
      → Refused m.pcb 1 fd buf
      → read ops fd buf nbytes m ≡ some (minus_one, m)
  unfolding read
  read_refuses (negsuc n) buf nbytes m h = ground arith
  read_refuses (pos fd) buf nbytes m h = ground arith

  -- `write` of a descriptor out of range or not in use, of the keyboard's descriptor 0, or from a
  -- null buffer returns -1 and changes nothing.
  pub write_refuses :
      (fd : ℤ) (buf : Option ℕ) (nbytes : ℤ) (m : Machine W)
      → Refused m.pcb 0 fd buf
      → write ops fd buf nbytes m ≡ some (minus_one, m)
  unfolding write
  write_refuses (negsuc n) buf nbytes m h = ground arith
  write_refuses (pos fd) buf nbytes m h = ground arith
