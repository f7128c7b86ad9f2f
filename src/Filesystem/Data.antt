-- ===== src/Filesystem/Data.antt =====
-- `read_data`: the bytes that arrive in the caller's buffer, the returned count, and termination.
pub mod Chunks
pub mod Errors
use linux_based_os.Prelude.{
  ℕ, zero, suc, ◌+◌, ◌-◌, ◌*◌, ◌/◌, ◌%◌, ◌^◌, ◌≤◌, ◌<◌, ◌≡◌, refl, arith, leb, ltb, ◌&&◌,
  if◌then◌else◌, ◌∙◌, ap, Bool-cases, inl, inr, some, Option, ℤ, pos, u16, u32, leb-false, min,
  minus_one, true, false,
}
use linux_based_os.Memory.{Memory}
use linux_based_os.Filesystem.Defs.{
  Image, Inode, Cursor, read_blocks, read_data, advance, chunk, copy_chunk, fs_block, block_fuel,
  clamp_length, is_bad_block, block_index,
}
use Chunks.{
  GoodBlocks, IsAt, file_byte, filled, copy_chunk_lem, filled_split, chunk_cases, advance_lem,
  IsAt-advance, not_bad, max_length,
}

module _ (im : Image) (nd : Inode) (total : ℕ) (good : GoodBlocks im nd total) where
  -- The loop from a cursor on: it returns the count so far and the rest, as a `uint16_t`, and the
  -- rest of the request has been copied.
  abbrev Reads : Cursor → Memory → Option (ℤ × Memory) → Type 0
  Reads c m r =
      (out : Memory) × (r ≡ some (pos (u16 (c.written_bytes + c.length)), out))
      × ((a : ℕ) → out a ≡ filled im nd c.buf c.offset c.length m a)

  filled-advance :
      (c : Cursor) (m : Memory) (a : ℕ)
      → IsAt total c
      → filled im nd (advance c).buf (advance c).offset (advance c).length (copy_chunk im nd c m) a
        ≡ filled im nd c.buf c.offset c.length m a
  filled-advance c m a h =
      let next = advance_lem total c h in
      rw (next.0, next.1)
        (filled_split im nd m (copy_chunk im nd c m) c.buf c.offset (chunk c) (advance c).length a
            (copy_chunk_lem im nd total good c h m a)
          ∙ ap (λ (n : ℕ). filled im nd c.buf c.offset n m a) next.2)

  Reads-advance :
      (c : Cursor) (m : Memory) (r : Option (ℤ × Memory))
      → IsAt total c
      → Reads (advance c) (copy_chunk im nd c m) r
      → Reads c m r
  Reads-advance c m r h (out, run, at) =
      let next = advance_lem total c h in
      (
        out,
        run ∙ ap (λ (n : ℕ). some (pos n, out)) (omega (arith, next)),
        λ a. at a ∙ filled-advance c m a h,
      )

  read_blocks_lem :
      (fuel : ℕ) (c : Cursor) (m : Memory)
      → IsAt total c
      → total < fuel + c.current_block
      → Reads c m (read_blocks fuel im nd total c m)
  unfolding read_blocks
  read_blocks_lem zero c m h f = absurd (omega (arith, h.block, h.last))
  read_blocks_lem (suc fuel) c m h f =
      let next = advance_lem total c h in
      elim (Bool-cases (leb (advance c).current_block total)) [
        | inl more ↦
            rw (not_bad im nd total good c h, more)
              (Reads-advance c m _ h (
                read_blocks_lem fuel (advance c) (copy_chunk im nd c m)
                  (IsAt-advance total c h (ground arith)) (omega (arith, next))))
        | inr done ↦
            let all : chunk c ≡ c.length = ground (arith, chunk_cases total c h, next) in
            rw (not_bad im nd total good c h, done)
              (
                copy_chunk im nd c m,
                ap (λ (n : ℕ). some (pos n, copy_chunk im nd c m)) (omega (arith, next)),
                λ a.
                    copy_chunk_lem im nd total good c h m a
                    ∙ ap (λ (n : ℕ). filled im nd c.buf c.offset n m a) all,
              )
      ]

-- A file whose length and blocks are in order, and the part of it that is asked for.
pub record IsReadable (im : Image) (inode offset length : ℕ) : Type 0 where
  pub known : inode < im.num_inode
  pub within : offset < (im.inode inode).length
  pub long : (im.inode inode).length ≤ max_length
  pub no_wrap : offset + length < 2 ^ 32
  pub blocks : GoodBlocks im (im.inode inode) ((im.inode inode).length / fs_block)

-- The bytes that there are to read.
abbrev pub available : Inode → ℕ → ℕ → ℕ
available nd offset length = min length (nd.length - offset)

clamp_available :
    (nd : Inode) (offset length : ℕ)
    → offset < nd.length
    → offset + length < 2 ^ 32
    → clamp_length nd offset length ≡ available nd offset length
unfolding clamp_length
clamp_available nd offset length h w = ground arith

GoodBlocks-le :
    (im : Image) (nd : Inode) (t t' : ℕ) → t ≤ t' → GoodBlocks im nd t' → GoodBlocks im nd t
GoodBlocks-le im nd t t' h g = record { few = g.few; inside = λ j p. g.inside j (omega arith) }

-- If the inode is known, the offset is inside the file, the file has at most 1023 blocks, offset
-- plus length do not wrap and the block numbers are in order, `read_data` returns, copies the bytes
-- there are from the offset on, at most `length`, to the buffer, changes no other memory, and
-- returns their number as a `uint16_t`.
pub read_data_lem :
    (im : Image) (inode offset buf length : ℕ) (m : Memory)
    → IsReadable im inode offset length
    → let nd = im.inode inode in
      let n = available nd offset length in
      (out : Memory) × (read_data im inode offset buf length m ≡ some (pos (u16 n), out))
      × ((a : ℕ) → out a ≡ filled im nd buf offset n m a)
unfolding read_data
read_data_lem im inode offset buf length m h =
    let nd = im.inode inode in
    let n = available nd offset length in
    let total : ℕ = (offset + n) / fs_block in
    let last : u16 (u32 (offset + n) / fs_block) ≡ total = omega (arith, h.within, h.long) in
    let first : u16 (offset / fs_block) ≡ offset / fs_block = omega (arith, h.within, h.long) in
    let good : GoodBlocks im nd total =
      GoodBlocks-le im nd total (nd.length / fs_block) (omega (arith, h.within)) h.blocks in
    rw
      (
        leb-false _ _ h.known,
        leb-false _ _ h.within,
        clamp_available nd offset length h.within h.no_wrap,
        last,
        first,
      )
      (from_zero n (
        read_blocks_lem im nd total good block_fuel
          (record {
            buf = buf;
            offset = offset;
            length = n;
            current_block = offset / fs_block;
            written_bytes = 0;
          })
          m (record { block = refl; last = refl; small = omega (arith, h.within, h.long) })
          (omega (arith, h.within, h.long))))
  where
    from_zero :
        (n : ℕ) {r : Option (ℤ × Memory)} {g : ℕ → ℕ}
        → (out : Memory) × (r ≡ some (pos (u16 (0 + n)), out)) × ((a : ℕ) → out a ≡ g a)
        → (out : Memory) × (r ≡ some (pos (u16 n), out)) × ((a : ℕ) → out a ≡ g a)
    from_zero n (out, run, at) = (out, run ∙ ap (λ (k : ℕ). some (pos k, out)) (omega arith), at)
