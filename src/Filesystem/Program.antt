-- ===== src/Filesystem/Program.antt =====
-- `is_executable` and `loadProcess`: the reads of an executable.
pub mod Load
pub mod Check
use linux_based_os.Prelude.{
  ◌>>=◌, ℕ, ◌+◌, ◌-◌, ◌*◌, ◌==◌, if◌then◌else◌, not, ◌&&◌, Option, none, some, ℤ, pos, is_zero,
  word32, u32, bit_or, ◌<<<◌, for_range,
}
use linux_based_os.Strings.{Str}
use linux_based_os.Memory.{Memory}
use linux_based_os.Filesystem.Defs.{
  Image, Dentry, read_dentry_by_name, get_filesize_by_name, read_data, reg_file, elf_entry,
}

-- The ELF check on the first four bytes.
unfoldable pub elf_check : Memory → ℤ
elf_check b = if b 0 == 0x7F && (b 1 == 0x45 && (b 2 == 0x4C && b 3 == 0x46)) then pos 1 else pos 0

-- `file` and `buffer` are the local variables before the call; a null name is `none`.
unfoldable pub is_executable : Image → Option Str → Dentry → Memory → Option ℤ
unfolding elf_check
is_executable im none file buffer = some (pos 0)
is_executable im (some filename) file buffer =
    let (found, d) = read_dentry_by_name im filename file in
    if is_zero found && (d.filetype == reg_file && not (d.idx_inode == 0))
    then (do (_, b) ← read_data im d.idx_inode 0 0 4 buffer; some (elf_check b))
    else some (pos 0)

-- `e_entry |= (uint32_t)(entry_buff[ELF_ENTRY+i]) << i*8` for `i` from 0 to 3
unfoldable pub entry_point : Memory → ℕ
entry_point b = for_range 4 0 (λ i e. bit_or e (u32 (b (elf_entry + i) <<< (i * 8)))) 0

-- The memory is the one that the new page directory maps; the results of the two lookups and of
-- the two reads are not tested.
unfoldable pub load_process :
    Image
    → Str
    → (virtual_addr : ℕ) → Dentry
    → Dentry
    → (entry_buff m : Memory) → Option (ℕ × Memory)
unfolding entry_point
load_process im command virtual_addr process_dentry file entry_buff m =
    let (_, d) = read_dentry_by_name im command process_dentry in
    let len = get_filesize_by_name im command file in
    do
      (_, b) ← read_data im d.idx_inode 0 0 40 entry_buff
      (_, m') ← read_data im d.idx_inode 0 virtual_addr (word32 len) m
      some (entry_point b, m')
