-- ===== src/Memory/Fill/Set.antt =====
-- What `memset`, its word and dword forms and `memmove` leave at each address.
use linux_based_os.Prelude.{
  ℕ, zero, suc, ◌+◌, ◌*◌, ◌/◌, ◌%◌, ◌^◌, ◌<◌, ◌≡◌, ◌==◌, refl, ap, ◌∙◌, arith, ltb, leb, ◌&&◌,
  if◌then◌else◌, store, Bool-cases, inl, inr, u8, ◌>>>◌, bit_and, all_below, all_below_sound,
  bit_and_ones, ==_iff,
}
use linux_based_os.Memory.{Memory, move_top, move_dwords, move_dword, move_bytes, memcpy}
use linux_based_os.Memory.Transfer.{transferred, memcpy_lem}
use linux_based_os.Memory.Fill.{
  fill_bytes, fill_word, fill_dword, fill_dwords, fill_top, fill_words, spread, memset, memset_word,
  memset_dword,
}

spread_small : (c : ℕ) → c < 256 → spread c ≡ c * 16843009
unfolding all_below
spread_small c h = (==_iff _ _).0 (all_below_sound 256 (λ k. spread k == k * 16843009) c refl h)

-- One byte all over.
abbrev pub same : ℕ → Memory
same c a = c % 256

module _ (c eax : ℕ) (spreads : eax ≡ c % 256 * 16843009) where
  first : u8 eax ≡ c % 256
  first = omega (arith, spreads)

  fill_bytes-move_bytes :
      (n esi edi : ℕ) (m : Memory) → fill_bytes eax n edi m ≡ move_bytes (same c) n esi edi m
  unfolding fill_bytes move_bytes
  fill_bytes-move_bytes zero esi edi m = refl
  fill_bytes-move_bytes (suc n) esi edi m =
      rw first (fill_bytes-move_bytes n (esi + 1) (edi + 1) (store m edi (c % 256)))

  fill_dword-move_dword :
      (esi edi : ℕ) (m : Memory) → fill_dword eax edi m ≡ move_dword (same c) esi edi m
  unfolding fill_dword move_dword
  fill_dword-move_dword esi edi m =
      let second : u8 (eax >>> 8) ≡ c % 256 = omega (arith, spreads) in
      let third : u8 (eax >>> 16) ≡ c % 256 = omega (arith, spreads) in
      let fourth : u8 (eax >>> 24) ≡ c % 256 = omega (arith, spreads) in
      rw (first, second, third, fourth) refl

  fill_dwords-move_dwords :
      (ecx edx esi edi : ℕ) (m : Memory)
      → fill_dwords eax ecx edx edi m ≡ move_dwords (same c) ecx edx esi edi m
  unfolding fill_dwords move_dwords
  fill_dwords-move_dwords zero edx esi edi m = fill_bytes-move_bytes edx esi edi m
  fill_dwords-move_dwords (suc ecx) edx esi edi m =
      rw (fill_dword-move_dword esi edi m)
        (fill_dwords-move_dwords ecx edx (esi + 4) (edi + 4) (move_dword (same c) esi edi m))

  fill_top-move_top :
      (ecx esi edi : ℕ) (m : Memory) → fill_top eax ecx edi m ≡ move_top (same c) ecx esi edi m
  unfolding fill_top move_top
  fill_top-move_top zero esi edi m = refl
  fill_top-move_top (suc ecx) esi edi m = elim (Bool-cases (edi % 4 == 0)) [
    | inl e ↦ rw e (fill_dwords-move_dwords (suc ecx / 4) (suc ecx % 4) esi edi m)
    | inr e ↦ rw (e, first) (fill_top-move_top ecx (esi + 1) (edi + 1) (store m edi (c % 256)))
  ]

-- At every address, `memset` by bytes and dwords has put the low byte of `c` into the `n` bytes
-- from `s` on, whatever their alignment, and changed nothing else.
pub memset_lem :
    (m : Memory) (s c n a : ℕ)
    → memset m s c n a ≡ (if leb s a && ltb a (s + n) then c % 256 else m a)
unfolding memset memcpy
memset_lem m s c n a =
    let eax : spread (bit_and c 255) ≡ c % 256 * 16843009 =
      rw (bit_and_ones 8 c) (spread_small (c % 256) (omega arith)) in
    ap (λ (r : Memory). r a) (fill_top-move_top c _ eax n 0 s m) ∙ memcpy_lem m s (same c) 0 n a

-- The two bytes of a word, by turns.
abbrev pub word_bytes : ℕ → Memory
word_bytes c a = if a % 2 == 0 then c % 256 else c / 256 % 256

-- The four bytes of a dword, by turns.
abbrev pub dword_bytes : ℕ → Memory
dword_bytes c a =
    if a % 4 == 0
    then c % 256
    else if a % 4 == 1
    then c / 2 ^ 8 % 256
    else if a % 4 == 2
    then c / 2 ^ 16 % 256
    else c / 2 ^ 24 % 256

fill_word_lem :
    (c edi : ℕ) (m : Memory) (a : ℕ) → fill_word c edi m a ≡ transferred m edi (word_bytes c) 0 2 a
unfolding fill_word
fill_word_lem c edi m a = ground arith

fill_dword_lem :
    (c edi : ℕ) (m : Memory) (a : ℕ)
    → fill_dword c edi m a ≡ transferred m edi (dword_bytes c) 0 4 a
unfolding fill_dword
fill_dword_lem c edi m a = ground arith

-- Filling `n` more cells of a pattern that repeats every `w` cells.
fill_words_lem :
    (n c edi : ℕ) (m : Memory) (a : ℕ)
    → fill_words c n edi m a ≡ transferred m edi (word_bytes c) 0 (2 * n) a
unfolding fill_words
fill_words_lem zero c edi m a = ground arith
fill_words_lem (suc n) c edi m a =
    ground (arith, fill_words_lem n c (edi + 2) (fill_word c edi m) a, fill_word_lem c edi m a)

fill_dwords_lem :
    (n c edi : ℕ) (m : Memory) (a : ℕ)
    → fill_dwords c n 0 edi m a ≡ transferred m edi (dword_bytes c) 0 (4 * n) a
unfolding fill_dwords fill_bytes
fill_dwords_lem zero c edi m a = ground arith
fill_dwords_lem (suc n) c edi m a =
    ground (arith, fill_dwords_lem n c (edi + 4) (fill_dword c edi m) a, fill_dword_lem c edi m a)

-- `memset_word` puts the low 16 bits of `c`, low byte first, `n` times from `s` on, and
-- `memset_dword` the four bytes of `c`; neither changes anything else.
pub memset_word_lem :
    (m : Memory) (s c n a : ℕ)
    → (memset_word m s c n a ≡ transferred m s (word_bytes c) 0 (2 * n) a)
      × (memset_dword m s c n a ≡ transferred m s (dword_bytes c) 0 (4 * n) a)
unfolding memset_word memset_dword
memset_word_lem m s c n a = (fill_words_lem n c s m a, fill_dwords_lem n c s m a)
