-- ===== src/Descriptor.antt =====
-- student-distrib/system_calls.h: the file descriptor of a process, and the five driver tables of
-- system_calls.c by name (a null table is `none`).
use linux_based_os.Prelude.{ℕ, Option}

pub data Driver : Type 0 where
  rtc filesystem_dir filesystem_reg keyboard terminal : Driver

pub record Descriptor : Type 0 where
  pub fd_jumptable : Option Driver
  pub inode_indx : ℕ
  pub file_position : ℕ
  pub flags : ℕ
