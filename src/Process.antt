-- ===== src/Process.antt =====
-- student-distrib/system_calls.h: the process control block.
use linux_based_os.Prelude.{ℕ, List, none}
use linux_based_os.Strings.{Str}
use linux_based_os.Descriptor.{Descriptor}

abbrev pub max_fd : ℕ
max_fd = 8

abbrev pub min_fd : ℕ
min_fd = 2

abbrev pub not_in_use : ℕ
not_in_use = 0

abbrev pub in_use : ℕ
in_use = 1

pub data ProcessState : Type 0 where
  started ready running waiting terminated : ProcessState

-- Addresses and saved stack pointers are 32-bit words; `n_arg` is never used.
pub record Pcb : Type 0 where
  pub pid : ℕ
  pub process_state : ProcessState
  pub terminal_id : ℕ
  pub sesp : ℕ
  pub sebp : ℕ
  pub kernel_stack : ℕ
  pub kernel_ss : ℕ
  pub kesp : ℕ
  pub kebp : ℕ
  pub args : Str
  pub file_array : List Descriptor
  pub parent_addr : ℕ

-- What `halt`, `close` and `PCB_init` store into a descriptor that is not in use.
abbrev pub free_descriptor : Descriptor
free_descriptor = record {
  fd_jumptable = none;
  inode_indx = 0;
  file_position = 0;
  flags = not_in_use;
}
