-- ===== src/Tests/Calls.antt =====
-- Runs of the system calls on descriptors.
use linux_based_os.Prelude.{
  zero, suc, ℕ, zero, suc, ◌+◌, ◌<◌, ◌≡◌, ◌⊎◌, arith, pos, minus_one, refl, inl, inr, some, [], ◌∷◌,
}
use linux_based_os.Descriptor.{Driver, Descriptor, keyboard, terminal}
use linux_based_os.Process.{Pcb, running, free_descriptor}
use linux_based_os.Filesystem.{fill_dentry}
use linux_based_os.Filesystem.Lookup.{read_dentry_by_name_found}
use linux_based_os.Syscall.{Machine, FileOps, descriptor, close, open_fd}
use linux_based_os.Syscall.Table.{IsTable, close-IsTable}
use linux_based_os.Syscall.Open.{InNoEntry, OpensQuietly, CanOpen, open_fd_refuses}
use linux_based_os.Syscall.RoundTrip.{close-open_fd, open_fd-IsTable}
use linux_based_os.Tests.Files.{letter, named_entry, files, files-HasBytes, a_same}

abbrev in_use_by : Driver → Descriptor
in_use_by d = record { fd_jumptable = some d; inode_indx = 0; file_position = 0; flags = 1 }

-- The keyboard, the terminal, and six free descriptors.
abbrev pub process : ℕ → Pcb
process pid = record {
  pid = pid;
  process_state = running;
  terminal_id = 0;
  sesp = 0;
  sebp = 0;
  kernel_stack = 0x7FE000;
  kernel_ss = 24;
  kesp = 0;
  kebp = 0;
  args = letter 0;
  file_array =
      in_use_by keyboard
      ∷ in_use_by terminal
      ∷ free_descriptor
      ∷ free_descriptor
      ∷ free_descriptor
      ∷ free_descriptor
      ∷ free_descriptor
      ∷ free_descriptor
      ∷ [];
  parent_addr = 0;
}

abbrev machine : Machine ℕ
machine = record { pcb = process 1; world = 0 }

-- Drivers that count their calls.
abbrev ops : Driver → FileOps ℕ
ops d = record {
  open_op = λ s m. some (pos 0, record m { world = m.world + 1 });
  read_op = λ fd buf n m. some (n, record m { world = m.world + 1 });
  write_op = λ fd buf n m. some (n, record m { world = m.world + 1 });
}

quiet : OpensQuietly ops
quiet = record { runs = λ d name m. (pos 0, record m { world = m.world + 1 }, refl, refl) }

sound :
    (fd : ℕ)
    → fd < 8
    → ((descriptor (process 1) fd).flags ≡ 1)
        × ((dr : Driver) × ((descriptor (process 1) fd).fd_jumptable ≡ some dr))
      ⊎ (descriptor (process 1) fd ≡ free_descriptor)
sound zero p = inl (refl, (keyboard, refl))
sound (suc zero) p = inl (refl, (terminal, refl))
sound (suc (suc zero)) p = inr refl
sound (suc (suc (suc zero))) p = inr refl
sound (suc (suc (suc (suc zero)))) p = inr refl
sound (suc (suc (suc (suc (suc zero))))) p = inr refl
sound (suc (suc (suc (suc (suc (suc zero)))))) p = inr refl
sound (suc (suc (suc (suc (suc (suc (suc zero))))))) p = inr refl
sound (suc (suc (suc (suc (suc (suc (suc (suc fd)))))))) p = absurd (omega arith)

pub table : IsTable (process 1)
table = record {
  eight = refl;
  sound = sound;
  stdin = refl;
  stdout = refl;
  stdin_in_use = refl;
  stdout_in_use = refl;
}

pub a_found :
    CanOpen files 9 1
      (letter 97)
      (named_entry 5)
      (fill_dentry (named_entry 5) (named_entry 0))
      2
      (process 1)
unfolding fill_dentry
a_found = record {
  bytes = λ i. ground arith;
  length = record { nul = omega arith; before = λ i p. ground arith };
  nonempty = omega arith;
  enough = omega arith;
  found =
      read_dentry_by_name_found files files-HasBytes (letter 97) (λ i. ground arith) (named_entry 5)
        0 (omega arith) a_same (λ j p. absurd (omega arith));
  type = omega arith;
  free = record { above = omega arith; free = refl; taken = λ j p q. absurd (omega arith) };
  room = omega arith;
}

close-open_fd_example :
    (m' : Machine ℕ) × (open_fd ops 9 files (some (letter 97)) (named_entry 5) machine
      ≡ some (pos 2, m'))
    × (close (pos 2) m' ≡ (pos 0, record m' { pcb = process 1 }))
close-open_fd_example =
    close-open_fd ops quiet files 9 1 (letter 97) (named_entry 5)
      (fill_dentry (named_entry 5) (named_entry 0)) 2 machine table a_found

open_fd-IsTable_example :
    (m' : Machine ℕ) × (open_fd ops 9 files (some (letter 97)) (named_entry 5) machine
      ≡ some (pos 2, m'))
    × IsTable m'.pcb
open_fd-IsTable_example =
    open_fd-IsTable ops quiet files 9 1 (letter 97) (named_entry 5)
      (fill_dentry (named_entry 5) (named_entry 0)) 2 machine table a_found

-- No file has the name "z".
no_entry : InNoEntry files (letter 122)
no_entry zero h (same, rest) = absurd (omega (arith, same))
no_entry (suc zero) h (same, rest) = absurd (omega (arith, same))
no_entry (suc (suc zero)) h (same, rest) = absurd (omega (arith, same))
no_entry (suc (suc (suc j))) h same = absurd (omega arith)

open_fd_refuses_example :
    open_fd ops 9 files (some (letter 122)) (named_entry 5) machine ≡ some (minus_one, machine)
open_fd_refuses_example =
    open_fd_refuses ops quiet files 9 1 (letter 122) (named_entry 5) machine files-HasBytes
      (λ i. ground arith) (record { nul = omega arith; before = λ i p. ground arith }) (omega arith)
      (inr (inl no_entry))

close-IsTable_example : IsTable (close (pos 5) machine).1.pcb
close-IsTable_example = close-IsTable (pos 5) machine table
