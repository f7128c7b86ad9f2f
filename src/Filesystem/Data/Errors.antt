-- ===== src/Filesystem/Data/Errors.antt =====
-- The other results of `read_data`: refusals, and the block behind the last one.
use linux_based_os.Prelude.{
  ℕ, zero, suc, ◌+◌, ◌*◌, ◌/◌, ◌^◌, ◌≤◌, ◌<◌, ◌≡◌, refl, arith, some, pos, minus_one, u16, u32,
  false, true, Bool-cases, inl, inr, leb, leb-false, ◌==◌,
}
use linux_based_os.Memory.{Memory}
use linux_based_os.Filesystem.Defs.{
  Image, Inode, Cursor, read_blocks, read_data, advance, copy_chunk, fs_block, block_fuel,
  clamp_length, is_bad_block, block_index,
}
use linux_based_os.Filesystem.Data.Chunks.{IsAt, IsAt-advance, advance_lem, chunk_cases, max_length}

-- An inode number out of range gives -1, an offset at or behind the end of the file gives 0, and
-- neither writes to memory.
pub read_data_refuses :
    (im : Image) (inode offset buf length : ℕ) (m : Memory)
    → (im.num_inode ≤ inode → read_data im inode offset buf length m ≡ some (minus_one, m))
      × (inode < im.num_inode
          → (im.inode inode).length ≤ offset
          → read_data im inode offset buf length m ≡ some (pos 0, m))
unfolding read_data
read_data_refuses im inode offset buf length m = (λ h. ground arith, λ h k. ground arith)

good_block :
    (im : Image) (nd : Inode) (c : Cursor)
    → im.num_data < 2 ^ 16
    → nd.dblocks c.current_block < im.num_data
    → is_bad_block im (block_index nd c) ≡ false
unfolding is_bad_block block_index
good_block im nd c s h = ground arith

bad_block :
    (im : Image) (nd : Inode) (c : Cursor)
    → im.num_data ≤ nd.dblocks c.current_block
    → nd.dblocks c.current_block < 2 ^ 16
    → is_bad_block im (block_index nd c) ≡ true
unfolding is_bad_block block_index
bad_block im nd c s h = ground arith

-- The blocks in front of number `total` are in order, and the number behind them is not.
pub record EndsAt (im : Image) (nd : Inode) (total : ℕ) : Type 0 where
  pub few : im.num_data < 2 ^ 16
  pub inside : (j : ℕ) → j < total → nd.dblocks j < im.num_data
  pub outside : im.num_data ≤ nd.dblocks total
  pub word : nd.dblocks total < 2 ^ 16

module _ (im : Image) (nd : Inode) (total : ℕ) (ends : EndsAt im nd total) where
  read_blocks_fails :
      (fuel : ℕ) (c : Cursor) (m : Memory)
      → IsAt total c
      → c.offset + c.length ≡ total * fs_block
      → total < fuel + c.current_block
      → (out : Memory) × (read_blocks fuel im nd total c m ≡ some (minus_one, out))
  unfolding read_blocks
  read_blocks_fails zero c m h e f = absurd (omega (arith, h.block, h.last))
  read_blocks_fails (suc fuel) c m h e f = elim (Bool-cases (c.current_block == total)) [
    | inl last ↦
        let here : total ≡ c.current_block = ground arith in
        let bad : is_bad_block im (block_index nd c) ≡ true =
          bad_block im nd c (rw here at ends.outside) (rw here at ends.word) in
        rw bad (m, refl)
    | inr more ↦
        let below : c.current_block < total = ground (arith, h.block) in
        let next = advance_lem total c h in
        let cut = chunk_cases total c h in
        let on : leb (advance c).current_block total ≡ true = ground (arith, next, below) in
        rw (good_block im nd c ends.few (ends.inside c.current_block below), on)
          (read_blocks_fails fuel (advance c) (copy_chunk im nd c m)
            (IsAt-advance total c h (omega (arith, next, below))) (omega (arith, next, e))
            (omega (arith, next)))
  ]

clamp_fits :
    (nd : Inode) (offset length : ℕ)
    → offset < nd.length
    → offset + length ≤ nd.length
    → nd.length ≤ max_length
    → clamp_length nd offset length ≡ length
unfolding clamp_length
clamp_fits nd offset length h k l = ground arith

-- A request inside the file that ends on a block boundary asks for the number of the block behind
-- the last one it needs: if this is no block of the image, `read_data` returns -1, though every
-- byte was there.
pub read_data_boundary :
    (im : Image) (inode offset buf length total : ℕ) (m : Memory)
    → inode < im.num_inode
    → offset < (im.inode inode).length
    → offset + length ≡ total * fs_block
    → offset + length ≤ (im.inode inode).length
    → (im.inode inode).length ≤ max_length
    → EndsAt im (im.inode inode) total
    → (out : Memory) × (read_data im inode offset buf length m ≡ some (minus_one, out))
unfolding read_data
read_data_boundary im inode offset buf length total m known within e fits long ends =
    let nd = im.inode inode in
    let last : u16 (u32 (offset + length) / fs_block) ≡ total = omega arith in
    let first : u16 (offset / fs_block) ≡ offset / fs_block = omega arith in
    rw
      (
        leb-false _ _ known,
        leb-false _ _ within,
        clamp_fits nd offset length within fits long,
        last,
        first,
      )
      (read_blocks_fails im nd total ends block_fuel
        (record {
          buf = buf;
          offset = offset;
          length = length;
          current_block = offset / fs_block;
          written_bytes = 0;
        })
        m (record { block = refl; last = omega arith; small = omega arith }) e (omega arith))
