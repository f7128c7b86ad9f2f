-- ===== src/Memory.antt =====
-- student-distrib/lib.c: memcpy, the loops of its assembly. Memory is a function from an address
-- to the byte there. The source is a memory of its own: the callers never copy onto what they read.
pub mod Transfer
pub mod Fill
use linux_based_os.Prelude.{ℕ, zero, suc, ◌+◌, ◌/◌, ◌%◌, ◌==◌, if◌then◌else◌, store}

abbrev pub Memory : Type 0
Memory = ℕ → ℕ

module _ (src : Memory) where
  -- `.memcpy_bottom`, and one `movb` each round: `edx` bytes from `esi` to `edi`
  move_bytes : (edx esi edi : ℕ) → Memory → Memory
  move_bytes zero esi edi m = m
  move_bytes (suc edx) esi edi m = move_bytes edx (esi + 1) (edi + 1) (store m edi (src esi))

  -- `movsl`
  move_dword : (esi edi : ℕ) → Memory → Memory
  move_dword esi edi m =
      store
        (store (store (store m edi (src esi)) (edi + 1) (src (esi + 1))) (edi + 2) (src (esi + 2)))
        (edi + 3) (src (esi + 3))

  -- `rep movsl`, then `.memcpy_bottom` with the `edx` bytes that are left
  move_dwords : (ecx edx esi edi : ℕ) → Memory → Memory
  unfolding move_bytes move_dword
  move_dwords zero edx esi edi m = move_bytes edx esi edi m
  move_dwords (suc ecx) edx esi edi m =
      move_dwords ecx edx (esi + 4) (edi + 4) (move_dword esi edi m)

  -- `.memcpy_top`: bytes until `edi` is a multiple of 4, then `.memcpy_aligned`
  move_top : (ecx esi edi : ℕ) → Memory → Memory
  unfolding move_dwords
  move_top zero esi edi m = m
  move_top (suc ecx) esi edi m =
      let rest = move_top ecx (esi + 1) (edi + 1) (store m edi (src esi)) in
      if edi % 4 == 0 then move_dwords (suc ecx / 4) (suc ecx % 4) esi edi m else rest

-- The memory after `memcpy(dest, src, n)`.
unfoldable pub memcpy : Memory → (dest : ℕ) → Memory → (from n : ℕ) → Memory
unfolding move_top
memcpy m dest src from n = move_top src n from dest m
