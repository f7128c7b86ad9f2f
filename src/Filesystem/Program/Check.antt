-- ===== src/Filesystem/Program/Check.antt =====
-- `is_executable`: which files may be executed.
use linux_based_os.Prelude.{ℕ, ◌≤◌, ◌<◌, ◌≡◌, ◌≢◌, ◌∙◌, ◌↔◌, arith, some, pos, ℤ, ==_false}
use linux_based_os.Strings.{Str}
use linux_based_os.Strings.Compare.{IsBytes}
use linux_based_os.Memory.{Memory}
use linux_based_os.Filesystem.Defs.{Image, Dentry, fill_dentry, read_data}
use linux_based_os.Filesystem.Lookup.{
  SameName, HasBytes, read_dentry_by_name_found, read_dentry_by_name_missing,
}
use linux_based_os.Filesystem.Data.{read_data_lem, available}
use linux_based_os.Filesystem.Data.Chunks.{file_byte, filled}
use linux_based_os.Filesystem.Program.{is_executable, elf_check}
use linux_based_os.Filesystem.Program.Load.{IsProgram, IsReadable-prefix, node}

elf_check_iff :
    (b : Memory)
    → (elf_check b ≡ pos 1) ↔ ((b 0 ≡ 0x7F) × (b 1 ≡ 0x45) × (b 2 ≡ 0x4C) × (b 3 ≡ 0x46))
unfolding elf_check
elf_check_iff b = ground arith

module _ (im : Image) (command : Str) (k : ℕ) (p : IsProgram im command k) where
  is_executable_runs :
      (file : Dentry) (buffer : Memory) {r : ℤ} {b : Memory}
      → (im.dentry k).idx_inode ≢ 0
      → read_data im (im.dentry k).idx_inode 0 0 4 buffer ≡ some (r, b)
      → is_executable im (some command) file buffer ≡ some (elf_check b)
  unfolding is_executable fill_dentry
  is_executable_runs file buffer ne h = rw (
    read_dentry_by_name_found im p.bytes command p.name file k p.listed p.same p.first,
    p.regular,
    ==_false _ 0 ne,
    h,
  )

  magic_byte :
      (buffer b : Memory)
      → ((a : ℕ)
          → b a
            ≡ filled im (node im command k p) 0 0 (available (node im command k p) 0 4) buffer a)
      → (j : ℕ) → j < 4
      → b j ≡ file_byte im (node im command k p) j
  magic_byte buffer b at j h = at j ∙ ground (arith, p.header)

-- Let the first entry with the name, among those that the lookup looks at, be of a regular file of
-- at least 40 bytes that is readable from its start, with an inode other than 0. `is_executable`
-- then answers 1 exactly when the first four bytes of the file are the ELF magic.
pub is_executable_iff :
    (im : Image) (command : Str) (k : ℕ) (p : IsProgram im command k) (file : Dentry)
    (buffer : Memory)
    → (im.dentry k).idx_inode ≢ 0
    → let byte : ℕ → ℕ = file_byte im (im.inode (im.dentry k).idx_inode) in
      (is_executable im (some command) file buffer ≡ some (pos 1))
      ↔ ((byte 0 ≡ 0x7F) × (byte 1 ≡ 0x45) × (byte 2 ≡ 0x4C) × (byte 3 ≡ 0x46))
is_executable_iff im command k p file buffer ne =
    let (b, run, at) =
      read_data_lem im (im.dentry k).idx_inode 0 0 4 buffer
        (IsReadable-prefix im command k p 4 (omega (arith, p.header))) in
    let byte = magic_byte im command k p buffer b at in
    let runs = is_executable_runs im command k p file buffer ne run in
    ground (
      arith,
      runs,
      elf_check_iff b,
      byte 0 (omega arith),
      byte 1 (omega arith),
      byte 2 (omega arith),
      byte 3 (omega arith),
    )

-- A null name, and a name that is in no entry the search looks at, are not executable.
pub is_executable_missing :
    (im : Image) (hb : HasBytes im) (fname : Str) (hf : IsBytes fname) (file : Dentry)
    (buffer : Memory)
    → ((j : ℕ) → j ≤ im.num_dir → ¬ SameName fname (im.dentry j).filename)
    → is_executable im (some fname) file buffer ≡ some (pos 0)
unfolding is_executable
is_executable_missing im hb fname hf file buffer h =
    rw (read_dentry_by_name_missing im hb fname hf file h)
