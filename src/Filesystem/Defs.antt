-- ===== src/Filesystem/Defs.antt =====
-- filesystem.h and the readers of filesystem.c.
use linux_based_os.Prelude.{
  ℕ, zero, suc, ◌+◌, ◌-◌, ◌*◌, ◌/◌, ◌%◌, ◌==◌, leb, if◌then◌else◌, not, Bool, ◌^◌, Option, none,
  some, ℤ, pos, minus_one, is_zero, ltb_ℤ, signed32, u16, u32,
}
use linux_based_os.Strings.{Str, strncmp, strncpy}
use linux_based_os.Memory.{Memory, memcpy}

abbrev pub filename_limit : ℕ
filename_limit = 32

abbrev pub fs_block : ℕ
fs_block = 4096

abbrev pub reg_file : ℕ
reg_file = 2

abbrev pub dir_file : ℕ
dir_file = 1

abbrev pub elf_entry : ℕ
elf_entry = 24

pub record Dentry : Type 0 where
  pub filename : Str
  pub filetype : ℕ
  pub idx_inode : ℕ

pub record Inode : Type 0 where
  pub length : ℕ
  pub dblocks : ℕ → ℕ

-- The boot block, the inodes, and the bytes behind `data_start_addr`.
pub record Image : Type 0 where
  pub num_dir : ℕ
  pub num_inode : ℕ
  pub num_data : ℕ
  pub dentry : ℕ → Dentry
  pub inode : ℕ → Inode
  pub blocks : Memory

-- What both lookups write through their `dentry` argument: the name by `strncpy` of 31 characters
-- over what stood there.
unfoldable pub fill_dentry : Dentry → Dentry → Dentry
fill_dentry out d = record {
  filename = strncpy out.filename d.filename (filename_limit - 1);
  filetype = d.filetype;
  idx_inode = d.idx_inode;
}

module _ (im : Image) where
  -- Index `i` of the search, with `left` rounds to go.
  unfoldable pub find_dentry : ℕ → ℕ → Str → Dentry → ℤ × Dentry
  find_dentry zero i fname out = (minus_one, out)
  find_dentry (suc left) i fname out =
      let rest = find_dentry left (i + 1) fname out in
      if is_zero (strncmp fname (im.dentry i).filename (filename_limit - 1))
      then (pos 0, fill_dentry out (im.dentry i))
      else rest

  -- The loop runs while `i <= num_dir`, hence one round more than there are entries.
  unfoldable pub read_dentry_by_name : Str → Dentry → ℤ × Dentry
  unfolding find_dentry fill_dentry
  read_dentry_by_name fname out = find_dentry (suc im.num_dir) 0 fname out

  unfoldable pub read_dentry_by_index : ℕ → Dentry → ℤ × Dentry
  unfolding fill_dentry
  read_dentry_by_index index out =
      if leb im.num_dir index then (minus_one, out) else (pos 0, fill_dentry out (im.dentry index))

  -- `file` is the local variable, which a failing lookup leaves as it was.
  unfoldable pub get_filesize_by_name : Str → Dentry → ℤ
  unfolding read_dentry_by_name
  get_filesize_by_name fname file =
      let (_, found) = read_dentry_by_name fname file in
      if found.filetype == reg_file then signed32 (im.inode found.idx_inode).length else pos 0

-- The local variables of `read_data` that its loop changes.
pub record Cursor : Type 0 where
  pub buf : ℕ
  pub offset : ℕ
  pub length : ℕ
  pub current_block : ℕ
  pub written_bytes : ℕ

-- `n`, the bytes to take from the current block.
unfoldable pub chunk : Cursor → ℕ
chunk c =
    let offset_block = u16 (c.offset % fs_block) in
    if leb (fs_block - offset_block) c.length then u16 (fs_block - offset_block) else u16 c.length

unfoldable pub advance : Cursor → Cursor
unfolding chunk
advance c = record {
  buf = c.buf + chunk c;
  offset = u32 (c.offset + chunk c);
  length = c.length - chunk c;
  current_block = u16 (c.current_block + 1);
  written_bytes = u16 (c.written_bytes + chunk c);
}

-- The block that the cursor is in: `idx_block` is a `uint16_t`.
unfoldable pub block_index : Inode → Cursor → ℕ
block_index nd c = u16 (nd.dblocks c.current_block)

-- `idx_block >= num_data` as `int`s.
unfoldable pub is_bad_block : Image → ℕ → Bool
is_bad_block im idx_block = not (ltb_ℤ (pos idx_block) (signed32 im.num_data))

unfoldable pub copy_chunk : Image → Inode → Cursor → Memory → Memory
unfolding chunk block_index
copy_chunk im nd c m =
    memcpy m c.buf im.blocks (block_index nd c * fs_block + u16 (c.offset % fs_block)) (chunk c)

-- The `do … while (current_block <= total_blocks)`; `none` when the fuel is used up.
unfoldable pub read_blocks :
    ℕ → Image → Inode → (total_blocks : ℕ) → Cursor → Memory → Option (ℤ × Memory)
unfolding advance is_bad_block block_index copy_chunk
read_blocks zero im nd total c m = none
read_blocks (suc fuel) im nd total c m =
    let rest = read_blocks fuel im nd total (advance c) (copy_chunk im nd c m) in
    if is_bad_block im (block_index nd c)
    then some (minus_one, m)
    else if leb (advance c).current_block total
    then rest
    else some (pos (advance c).written_bytes, copy_chunk im nd c m)

-- More rounds than a `uint16_t` has values.
abbrev pub block_fuel : ℕ
block_fuel = 2 ^ 16

-- The clamped length of the request.
unfoldable pub clamp_length : Inode → (offset length : ℕ) → ℕ
clamp_length nd offset length =
    if leb nd.length (u32 (offset + length)) then nd.length - offset else length

-- `none`: the call does not return.
unfoldable pub read_data :
    Image → (inode offset : ℕ) → (buf length : ℕ) → Memory → Option (ℤ × Memory)
read_data im inode offset buf length m =
    let nd = im.inode inode in
    let len = clamp_length nd offset length in
    if leb im.num_inode inode
    then some (minus_one, m)
    else if leb nd.length offset
    then some (pos 0, m)
    else read_blocks block_fuel im nd (u16 (u32 (offset + len) / fs_block))
        (record {
          buf = buf;
          offset = offset;
          length = len;
          current_block = u16 (offset / fs_block);
          written_bytes = 0;
        })
        m
