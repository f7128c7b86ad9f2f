-- ===== src/Memory/Transfer.antt =====
-- `memcpy` copies: whatever the alignment, it is the byte by byte copy.
use linux_based_os.Prelude.{
  ℕ, zero, suc, ◌+◌, ◌-◌, ◌*◌, ◌/◌, ◌%◌, ◌≡◌, ◌==◌, ap, ◌∙◌, arith, ltb, leb, ◌&&◌, if◌then◌else◌,
  store, Bool-cases, inl, inr,
}
use linux_based_os.Memory.{Memory, memcpy, move_top, move_dwords, move_dword, move_bytes}

-- `n` bytes of `src` from `from` on stand in `m` from `dest` on.
abbrev pub transferred : Memory → ℕ → Memory → ℕ → ℕ → ℕ → ℕ
transferred m dest src from n a =
    if leb dest a && ltb a (dest + n) then src (from + (a - dest)) else m a

module _ (src : Memory) where
  -- Copying the first `k` bytes and then the rest is copying all.
  pub transferred_split :
      (m m' : Memory) (esi edi k n a : ℕ)
      → m' a ≡ transferred m edi src esi k a
      → transferred m' (edi + k) src (esi + k) n a ≡ transferred m edi src esi (k + n) a
  transferred_split m m' esi edi k n a h = ground arith

  store-transferred :
      (m : Memory) (esi edi a : ℕ) → store m edi (src esi) a ≡ transferred m edi src esi 1 a
  store-transferred m esi edi a = ground arith

  move_bytes_lem :
      (n esi edi : ℕ) (m : Memory) (a : ℕ)
      → move_bytes src n esi edi m a ≡ transferred m edi src esi n a
  unfolding move_bytes
  move_bytes_lem zero esi edi m a = ground arith
  move_bytes_lem (suc n) esi edi m a =
      move_bytes_lem n (esi + 1) (edi + 1) (store m edi (src esi)) a
      ∙ transferred_split m (store m edi (src esi)) esi edi 1 n a (store-transferred m esi edi a)
      ∙ ap (λ (c : ℕ). transferred m edi src esi c a) (omega arith)

  move_dword_lem :
      (esi edi : ℕ) (m : Memory) (a : ℕ)
      → move_dword src esi edi m a ≡ transferred m edi src esi 4 a
  unfolding move_dword
  move_dword_lem esi edi m a = ground arith

  move_dwords_lem :
      (ecx edx esi edi : ℕ) (m : Memory) (a : ℕ)
      → move_dwords src ecx edx esi edi m a ≡ transferred m edi src esi (4 * ecx + edx) a
  unfolding move_dwords
  move_dwords_lem zero edx esi edi m a =
      move_bytes_lem edx esi edi m a ∙ ap (λ (c : ℕ). transferred m edi src esi c a) (omega arith)
  move_dwords_lem (suc ecx) edx esi edi m a =
      move_dwords_lem ecx edx (esi + 4) (edi + 4) (move_dword src esi edi m) a
      ∙ transferred_split m (move_dword src esi edi m) esi edi 4 (4 * ecx + edx) a
          (move_dword_lem esi edi m a)
      ∙ ap (λ (c : ℕ). transferred m edi src esi c a) (omega arith)

  move_top_lem :
      (ecx esi edi : ℕ) (m : Memory) (a : ℕ)
      → move_top src ecx esi edi m a ≡ transferred m edi src esi ecx a
  unfolding move_top
  move_top_lem zero esi edi m a = ground arith
  move_top_lem (suc ecx) esi edi m a = elim (Bool-cases (edi % 4 == 0)) [
    | inl e ↦ rw e (
        move_dwords_lem (suc ecx / 4) (suc ecx % 4) esi edi m a
        ∙ ap (λ (c : ℕ). transferred m edi src esi c a) (omega arith))
    | inr e ↦ rw e (
        move_top_lem ecx (esi + 1) (edi + 1) (store m edi (src esi)) a
        ∙ transferred_split m (store m edi (src esi)) esi edi 1 ecx a
            (store-transferred m esi edi a)
        ∙ ap (λ (c : ℕ). transferred m edi src esi c a) (omega arith))
  ]

-- At every address, whatever the alignment of the destination, `memcpy` by bytes and dwords has put
-- the `n` bytes from `from` on at `dest`, and changed nothing else.
pub memcpy_lem :
    (m : Memory) (dest : ℕ) (src : Memory) (from n a : ℕ)
    → memcpy m dest src from n a ≡ transferred m dest src from n a
unfolding memcpy
memcpy_lem m dest src from n a = move_top_lem src n from dest m a
