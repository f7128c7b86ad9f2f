-- ===== src/Memory/Fill.antt =====
-- student-distrib/lib.c: memset, memset_word, memset_dword and memmove, the loops of their assembly.
-- An address does not wrap around at 2 ^ 32.
pub mod Set
pub mod Move
use linux_based_os.Prelude.{
  ℕ, zero, suc, ◌+◌, ◌-◌, ◌/◌, ◌%◌, ◌==◌, if◌then◌else◌, store, u8, ◌<<<◌, ◌>>>◌, bit_and, bit_or,
  ltb,
}
use linux_based_os.Memory.{Memory}

module _ (eax : ℕ) where
  -- `.memset_bottom`, and one `movb` each round
  fill_bytes : (edx edi : ℕ) → Memory → Memory
  fill_bytes zero edi m = m
  fill_bytes (suc edx) edi m = fill_bytes edx (edi + 1) (store m edi (u8 eax))

  -- `stosw`
  fill_word : (edi : ℕ) → Memory → Memory
  fill_word edi m = store (store m edi (u8 eax)) (edi + 1) (u8 (eax >>> 8))

  -- `stosl`
  fill_dword : (edi : ℕ) → Memory → Memory
  fill_dword edi m =
      store
        (store (store (store m edi (u8 eax)) (edi + 1) (u8 (eax >>> 8))) (edi + 2)
          (u8 (eax >>> 16)))
        (edi + 3) (u8 (eax >>> 24))

  -- `rep stosl`, then `.memset_bottom` with the `edx` bytes that are left
  fill_dwords : (ecx edx edi : ℕ) → Memory → Memory
  unfolding fill_bytes fill_dword
  fill_dwords zero edx edi m = fill_bytes edx edi m
  fill_dwords (suc ecx) edx edi m = fill_dwords ecx edx (edi + 4) (fill_dword edi m)

  -- `.memset_top`: bytes until `edi` is a multiple of 4, then `.memset_aligned`
  fill_top : (ecx edi : ℕ) → Memory → Memory
  unfolding fill_dwords
  fill_top zero edi m = m
  fill_top (suc ecx) edi m =
      let rest = fill_top ecx (edi + 1) (store m edi (u8 eax)) in
      if edi % 4 == 0 then fill_dwords (suc ecx / 4) (suc ecx % 4) edi m else rest

  -- `rep stosw`
  fill_words : (ecx edi : ℕ) → Memory → Memory
  unfolding fill_word
  fill_words zero edi m = m
  fill_words (suc ecx) edi m = fill_words ecx (edi + 2) (fill_word edi m)

-- `c << 24 | c << 16 | c << 8 | c`
abbrev pub spread : ℕ → ℕ
spread c = bit_or (bit_or (bit_or (c <<< 24) (c <<< 16)) (c <<< 8)) c

-- The memory after `memset(s, c, n)`.
unfoldable pub memset : Memory → (s c n : ℕ) → Memory
unfolding fill_top
memset m s c n = fill_top (spread (bit_and c 255)) n s m

unfoldable pub memset_word : Memory → (s c n : ℕ) → Memory
unfolding fill_words
memset_word m s c n = fill_words c n s m

unfoldable pub memset_dword : Memory → (s c n : ℕ) → Memory
unfolding fill_dwords
memset_dword m s c n = fill_dwords c n 0 s m

-- `rep movsb` with the direction flag clear
move_up : (ecx esi edi : ℕ) → Memory → Memory
move_up zero esi edi m = m
move_up (suc ecx) esi edi m = move_up ecx (esi + 1) (edi + 1) (store m edi (m esi))

-- `rep movsb` with the direction flag set
move_down : (ecx esi edi : ℕ) → Memory → Memory
move_down zero esi edi m = m
move_down (suc ecx) esi edi m = move_down ecx (esi - 1) (edi - 1) (store m edi (m esi))

-- The memory after `memmove(dest, src, n)`, with both in the same memory.
unfoldable pub memmove : Memory → (dest src n : ℕ) → Memory
unfolding move_up move_down
memmove m dest src n =
    if ltb src dest then move_down n (src + n - 1) (dest + n - 1) m else move_up n src dest m
