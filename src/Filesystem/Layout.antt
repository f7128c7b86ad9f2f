-- ===== src/Filesystem/Layout.antt =====
-- `filesystem_init` and the address arithmetic on the mounted image: the boot block, then the
-- inodes, then the data blocks, each a block of 4096 bytes.
use linux_based_os.Prelude.{ℕ, ◌+◌, ◌*◌, ◌^◌, ◌≤◌, ◌<◌, ◌≡◌, arith, u32}
use linux_based_os.Filesystem.Defs.{fs_block}

pub record Mount : Type 0 where
  pub bootblock : ℕ
  pub inode_start_addr : ℕ
  pub data_start_addr : ℕ

-- `num_inode` is the field of the boot block at `start_addr`.
pub filesystem_init : (start_addr num_inode : ℕ) → Mount
filesystem_init start_addr num_inode = record {
  bootblock = start_addr;
  inode_start_addr = u32 (start_addr + 1 * fs_block);
  data_start_addr = u32 (u32 (start_addr + 1 * fs_block) + num_inode * fs_block);
}

-- `inode_ptr`
pub inode_addr : Mount → ℕ → ℕ
inode_addr mt inode = u32 (mt.inode_start_addr + inode * fs_block)

-- `current_data_addr`
pub data_addr : Mount → (idx_block offset_block : ℕ) → ℕ
data_addr mt idx_block offset_block = u32 (mt.data_start_addr + idx_block * fs_block + offset_block)

-- An image of `num_inode` inodes and `num_data` blocks that fits below 4 GB.
abbrev pub Fits : ℕ → ℕ → ℕ → Type 0
Fits start num_inode num_data = start + (1 + num_inode + num_data) * fs_block < 2 ^ 32

-- The inodes lie behind the boot block and in front of the data, and an inode does not reach into
-- the next one: the three tables do not overlap.
pub inode_addr_bounds :
    (start num_inode num_data i j : ℕ)
    → Fits start num_inode num_data
    → i < j
    → j < num_inode
    → let mt = filesystem_init start num_inode in
      (start + fs_block ≤ inode_addr mt i)
      × (inode_addr mt i + fs_block ≤ inode_addr mt j)
      × (inode_addr mt j + fs_block ≤ mt.data_start_addr)
unfolding filesystem_init inode_addr
inode_addr_bounds start num_inode num_data i j fits h k = omega arith

-- A byte of a data block is that many bytes behind the start of the data, inside the image, and
-- different places have different addresses.
pub data_addr_lem :
    (start num_inode num_data b o : ℕ)
    → Fits start num_inode num_data
    → b < num_data
    → o < fs_block
    → let mt = filesystem_init start num_inode in
      (data_addr mt b o ≡ mt.data_start_addr + (b * fs_block + o))
      × (mt.data_start_addr ≤ data_addr mt b o)
      × (data_addr mt b o < start + (1 + num_inode + num_data) * fs_block)
unfolding filesystem_init data_addr
data_addr_lem start num_inode num_data b o fits h k = omega arith
