-- ===== src/Filesystem/Data/Chunks.antt =====
-- One round of the loop of `read_data`.
use linux_based_os.Prelude.{
  ℕ, ◌+◌, ◌-◌, ◌*◌, ◌/◌, ◌%◌, ◌^◌, ◌≤◌, ◌<◌, ◌≡◌, arith, leb, ltb, ◌&&◌, if◌then◌else◌, ◌∙◌,
  Bool-cases, inl, inr, ◌⊎◌, u16, false, ap,
}
use linux_based_os.Memory.{Memory}
use linux_based_os.Memory.Transfer.{memcpy_lem}
use linux_based_os.Filesystem.Defs.{
  Image, Inode, Cursor, advance, copy_chunk, fs_block, chunk, is_bad_block, block_index,
}

-- What the 1023 block numbers of an inode can hold.
abbrev pub max_length : ℕ
max_length = 1023 * 4096

-- Byte `p` of a file: its block's number, and the place in the block.
abbrev pub file_byte : Image → Inode → ℕ → ℕ
file_byte im nd p = im.blocks (nd.dblocks (p / fs_block) * fs_block + p % fs_block)

-- Blocks 0 to `total` of the file are blocks of the image.
pub record GoodBlocks (im : Image) (nd : Inode) (total : ℕ) : Type 0 where
  pub few : im.num_data < 2 ^ 16
  pub inside : (j : ℕ) → j ≤ total → nd.dblocks j < im.num_data

-- The cursor's block is that of its offset, and `total` that of the end of the request.
pub record IsAt (total : ℕ) (c : Cursor) : Type 0 where
  pub block : c.current_block ≡ c.offset / fs_block
  pub last : total ≡ (c.offset + c.length) / fs_block
  pub small : c.offset + c.length ≤ max_length

-- `n` bytes of the file from `offset` on stand in memory from `buf` on.
abbrev pub filled : Image → Inode → ℕ → ℕ → ℕ → Memory → ℕ → ℕ
filled im nd buf offset n m a =
    if leb buf a && ltb a (buf + n) then file_byte im nd (offset + (a - buf)) else m a

-- A round takes the rest of the block, and there is a next one, or the rest of the request, and it
-- is the last.
pub chunk_cases :
    (total : ℕ) (c : Cursor)
    → IsAt total c
    → ((chunk c ≡ fs_block - c.offset % fs_block)
        × (chunk c ≤ c.length)
        × (c.current_block < total))
      ⊎ ((chunk c ≡ c.length)
          × (c.offset % fs_block + c.length < fs_block)
          × (c.current_block ≡ total))
unfolding chunk
chunk_cases total c h = ground (arith, h.block, h.last, h.small)

pub chunk-le : (total : ℕ) (c : Cursor) → IsAt total c → chunk c ≤ c.length
chunk-le total c h = ground (arith, chunk_cases total c h)

pub chunk_in_block :
    (total : ℕ) (c : Cursor) → IsAt total c → c.offset % fs_block + chunk c ≤ fs_block
chunk_in_block total c h = ground (arith, chunk_cases total c h)

-- The fields after a round: nothing wraps.
pub advance_lem :
    (total : ℕ) (c : Cursor)
    → IsAt total c
    → ((advance c).buf ≡ c.buf + chunk c)
      × ((advance c).offset ≡ c.offset + chunk c)
      × ((advance c).length + chunk c ≡ c.length)
      × ((advance c).current_block ≡ c.current_block + 1)
      × ((advance c).written_bytes ≡ u16 (c.written_bytes + chunk c))
unfolding advance
advance_lem total c h = omega (arith, chunk-le total c h, h.block, h.small)

pub IsAt-advance :
    (total : ℕ) (c : Cursor)
    → IsAt total c
    → (advance c).current_block ≤ total
    → IsAt total (advance c)
IsAt-advance total c h more =
    let next = advance_lem total c h in
    let cut = chunk_cases total c h in
    record {
      block = omega (arith, next, cut, h.block, h.last);
      last = h.last ∙ ap (λ (n : ℕ). n / fs_block) (omega (arith, next));
      small = omega (arith, next, h.small);
    }

module _ (im : Image) (nd : Inode) (total : ℕ) (good : GoodBlocks im nd total) (c : Cursor)
    (at : IsAt total c) where
  pub current-le : c.current_block ≤ total
  current-le = omega (arith, at.block, at.last)

  pub block_index_good : block_index nd c ≡ nd.dblocks c.current_block
  unfolding block_index
  block_index_good = omega (arith, good.few, good.inside c.current_block current-le)

  pub not_bad : is_bad_block im (block_index nd c) ≡ false
  unfolding is_bad_block
  not_bad = ground (arith, block_index_good, good.few, good.inside c.current_block current-le)

  byte_in_chunk :
      (k : ℕ)
      → k < chunk c
      → im.blocks (block_index nd c * fs_block + u16 (c.offset % fs_block) + k)
        ≡ file_byte im nd (c.offset + k)
  byte_in_chunk k h =
      let div : (c.offset + k) / fs_block ≡ c.current_block =
        omega (arith, at.block, chunk_in_block total c at) in
      let rem : (c.offset + k) % fs_block ≡ u16 (c.offset % fs_block) + k =
        omega (arith, at.block, chunk_in_block total c at) in
      ap im.blocks (omega (arith, block_index_good, ap nd.dblocks div, rem))

  pub copy_chunk_lem :
      (m : Memory) (a : ℕ) → copy_chunk im nd c m a ≡ filled im nd c.buf c.offset (chunk c) m a
  unfolding copy_chunk
  copy_chunk_lem m a =
      memcpy_lem m c.buf im.blocks _ (chunk c) a ∙ ground (arith, byte_in_chunk (a - c.buf))

-- Filling the first `k` bytes and then `n` more is filling all.
pub filled_split :
    (im : Image) (nd : Inode) (m m' : Memory) (buf offset k n a : ℕ)
    → m' a ≡ filled im nd buf offset k m a
    → filled im nd (buf + k) (offset + k) n m' a ≡ filled im nd buf offset (n + k) m a
filled_split im nd m m' buf offset k n a h = elim (Bool-cases (leb (buf + k) a)) [
  | inl e ↦
      let same : offset + k + (a - (buf + k)) ≡ offset + (a - buf) = ground arith in
      rw same (ground arith)
  | inr e ↦ ground arith
]
