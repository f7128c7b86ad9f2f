-- ===== src/Filesystem/Read.antt =====
-- `read_fs` and `read_fs_dir`: the reads behind the file descriptors.
pub mod File
pub mod Directory
pub mod Sequence
use linux_based_os.Prelude.{
  ◌>>=◌, ℕ, zero, suc, ◌+◌, ◌-◌, ◌==◌, leb, if◌then◌else◌, Option, none, some, ℤ, pos, minus_one,
  is_zero, word32, u32,
}
use linux_based_os.Strings.{Str, strncpy}
use linux_based_os.Memory.{Memory}
use linux_based_os.Descriptor.{Descriptor}
use linux_based_os.Filesystem.Defs.{
  Image, Dentry, read_dentry_by_index, read_data, reg_file, dir_file,
}

-- `strncpy` to an address.
unfoldable pub strncpy_to : Memory → ℕ → Str → ℕ → Memory
strncpy_to m buf src n a = if leb buf a then strncpy (λ j. m (buf + j)) src n (a - buf) else m a

-- `file_position++` happens whether or not there is an entry. `file` is the local variable.
unfoldable pub read_fs_dir :
    Image → Descriptor → (buf : ℕ) → (nbytes : ℤ) → Memory → Dentry → ℤ × Descriptor × Memory
unfolding strncpy_to
read_fs_dir im d buf nbytes m file =
    let (r, entry) = read_dentry_by_index im d.file_position file in
    let d' = record d { file_position = u32 (d.file_position + 1) } in
    if is_zero r
    then (nbytes, d', strncpy_to m buf entry.filename (word32 nbytes))
    else (pos 0, d', m)

module _ (im : Image) (idx_inode : ℕ) where
  -- `for (i = 0; bootblock_ptr->num_dir; i++)` with its `break`: the test does not name `i`.
  unfoldable pub search_inode : ℕ → ℕ → Dentry → Option (ℕ × Dentry)
  search_inode zero i file = none
  search_inode (suc fuel) i file =
      let entry = (read_dentry_by_index im i file).1 in
      let rest = search_inode fuel (i + 1) entry in
      if im.num_dir == 0
      then some (i, file)
      else if entry.idx_inode == idx_inode
      then some (i, entry)
      else rest

-- `read_bytes` holds `garbage` before it is assigned; `none`: the call does not return.
unfoldable pub read_fs :
    ℕ
    → Image
    → Descriptor
    → (buf : ℕ) → (nbytes : ℤ) → Memory
    → Dentry
    → Dentry
    → (garbage : ℤ) → Option (ℤ × Descriptor × Memory)
read_fs fuel im d buf nbytes m file dir_entry garbage = do
  (i, entry) ← search_inode im d.inode_indx fuel 0 file
  if i == im.num_dir then some (minus_one, d, m) else do
    (n, d', m') ←
        if entry.filetype == reg_file
        then (do
          (n, m') ← read_data im d.inode_indx d.file_position buf (word32 nbytes) m
          some (n, d, m'))
        else if entry.filetype == dir_file
        then some (read_fs_dir im d buf nbytes m dir_entry)
        else some (garbage, d, m)
    some (n, record d' { file_position = u32 (d'.file_position + word32 n) }, m')
