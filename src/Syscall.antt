-- ===== src/Syscall.antt =====
-- student-distrib/system_calls.c: `open`, `close`, `read` and `write`, the calls on file
-- descriptors, over the process control block of the caller. The drivers behind a descriptor are an
-- interface; `none` is a call that does not return (a wait that nothing ends, or a fault).
pub mod Table
pub mod Open
pub mod Guards
pub mod RoundTrip
use linux_based_os.Prelude.{
  ℕ, zero, suc, ◌+◌, ◌-◌, ◌==◌, if◌then◌else◌, ◌||◌, not, Bool, Option, none, some, ℤ, pos, negsuc,
  minus_one, is_zero, ltb_ℤ, get_or, set, List,
}
use linux_based_os.Strings.{Str, strlen, strncmp}
use linux_based_os.Descriptor.{
  Driver, Descriptor, rtc, filesystem_dir, filesystem_reg, keyboard, terminal,
}
use linux_based_os.Process.{Pcb, max_fd, min_fd, in_use, not_in_use, free_descriptor}
use linux_based_os.Filesystem.{Image, Dentry, read_dentry_by_name, reg_file}

-- The caller's control block, and what else the drivers act on.
pub record Machine (W : Type 0) : Type 0 where
  pub pcb : Pcb
  pub world : W

-- One of the four-entry tables; no system call uses the `close` entry.
pub record FileOps (W : Type 0) : Type 0 where
  pub open_op : Str → Machine W → Option (ℤ × Machine W)
  pub read_op : ℤ → ℕ → ℤ → Machine W → Option (ℤ × Machine W)
  pub write_op : ℤ → ℕ → ℤ → Machine W → Option (ℤ × Machine W)

-- `fop_tables[filetype]`; behind the five entries there is no table.
unfoldable pub fop_tables : ℕ → Option Driver
fop_tables filetype =
    if filetype == 0
    then some rtc
    else if filetype == 1
    then some filesystem_dir
    else if filetype == 2
    then some filesystem_reg
    else if filetype == 3
    then some keyboard
    else if filetype == 4
    then some terminal
    else none

abbrev pub fd_index : ℤ → ℕ
fd_index (pos n) = n
fd_index (negsuc n) = 0

abbrev pub descriptor : Pcb → ℕ → Descriptor
descriptor p fd = get_or p.file_array fd free_descriptor

abbrev pub with_descriptor : {W : Type 0} → Machine W → ℕ → Descriptor → Machine W
with_descriptor m fd d = record m { pcb = record m.pcb { file_array = set m.pcb.file_array fd d } }

-- `for (fd = MIN_FD; fd < MAX_FD; fd++)` to the first descriptor that is not in use
unfoldable pub find_fd : ℕ → ℕ → Pcb → ℕ
find_fd zero fd p = fd
find_fd (suc left) fd p =
    let rest = find_fd left (fd + 1) p in if (descriptor p fd).flags == 0 then fd else rest

unfoldable pub opened : Dentry → Descriptor
unfolding fop_tables
opened file = record {
  fd_jumptable = fop_tables file.filetype;
  inode_indx = if file.filetype == reg_file then file.idx_inode else 0;
  file_position = 0;
  flags = in_use;
}

unfoldable pub close : {W : Type 0} → ℤ → Machine W → ℤ × Machine W
close fd m =
    if not (ltb_ℤ fd (pos max_fd)) || ltb_ℤ fd (pos min_fd)
    then (minus_one, m)
    else if (descriptor m.pcb (fd_index fd)).flags == 0
    then (minus_one, m)
    else (pos 0, with_descriptor m (fd_index fd) free_descriptor)

-- `return fd;` behind the call of the driver, whose result is dropped.
unfoldable pub returns_fd : {W : Type 0} → ℕ → Option (ℤ × Machine W) → Option (ℤ × Machine W)
returns_fd fd none = none
returns_fd fd (some (_, m)) = some (pos fd, m)

module _ {W : Type 0} (ops : Driver → FileOps W) where
  -- A call through `fd_jumptable`, a fault if that is null.
  unfoldable pub through :
      Option Driver → (FileOps W → Option (ℤ × Machine W)) → Option (ℤ × Machine W)
  through none f = none
  through (some dr) f = f (ops dr)

  -- A null `buf` is `none`.
  unfoldable pub read : ℤ → Option ℕ → ℤ → Machine W → Option (ℤ × Machine W)
  unfolding through
  read fd buf nbytes m =
      let d = descriptor m.pcb (fd_index fd) in
      if not (ltb_ℤ fd (pos max_fd)) || ltb_ℤ fd (pos 0)
      then some (minus_one, m)
      else if fd_index fd == 1
      then some (minus_one, m)
      else if d.flags == 0
      then some (minus_one, m)
      else elim buf [
        | none ↦ some (minus_one, m)
        | some b ↦ through d.fd_jumptable (λ o. o.read_op fd b nbytes m)
      ]

  unfoldable pub write : ℤ → Option ℕ → ℤ → Machine W → Option (ℤ × Machine W)
  unfolding through
  write fd buf nbytes m =
      let d = descriptor m.pcb (fd_index fd) in
      if not (ltb_ℤ fd (pos max_fd)) || ltb_ℤ fd (pos 0)
      then some (minus_one, m)
      else if fd_index fd == 0
      then some (minus_one, m)
      else if d.flags == 0
      then some (minus_one, m)
      else elim buf [
        | none ↦ some (minus_one, m)
        | some b ↦ through d.fd_jumptable (λ o. o.write_op fd b nbytes m)
      ]

  -- `open` once the length of the name is known. The result of the driver's `open` is not used.
  unfoldable pub open_named : Image → Str → ℕ → Dentry → Machine W → Option (ℤ × Machine W)
  open_named im filename len file m =
      let (found, entry) = read_dentry_by_name im filename file in
      let fd = find_fd (max_fd - min_fd) min_fd m.pcb in
      if is_zero (strncmp filename (λ _. 0) len)
      then some (minus_one, m)
      else if not (is_zero found)
      then some (minus_one, m)
      else if fd == max_fd
      then some (minus_one, m)
      else returns_fd fd (
          through (opened entry).fd_jumptable
            (λ o. o.open_op filename (with_descriptor m fd (opened entry))))

  -- `open`, a reserved word here. `strlen` comes before the test for null, so a null name is a fault. `file` is the local
  -- variable, and the fuel is for `strlen`.
  unfoldable pub open_fd : ℕ → Image → Option Str → Dentry → Machine W → Option (ℤ × Machine W)
  open_fd fuel im none file m = none
  open_fd fuel im (some filename) file m = elim (strlen fuel filename) [
    | none ↦ none
    | some len ↦ open_named im filename len file m
  ]
