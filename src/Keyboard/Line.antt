-- ===== src/Keyboard/Line.antt =====
-- Reading the line that was typed.
use linux_based_os.Prelude.{
  ℕ, ◌<◌, ◌≡◌, ◌≢◌, arith, ltb, if◌then◌else◌, refl, store, for_range, for_range_inv, min, some,
  pos, ==_false, ==_refl, ◌∙◌,
}
use linux_based_os.Keyboard.{Keyboard, keyboard_read, clear_keyboard_buffer, line_length}

-- The first `n` cells of `b`, filled from `line`; the others are those of `buf`.
abbrev pub taken : ℕ → (ℕ → ℕ) → (ℕ → ℕ) → ℕ → ℕ
taken n line buf j = if ltb j n then line j else buf j

copy_loop :
    (n : ℕ) (line buf : ℕ → ℕ) (j : ℕ)
    → for_range n 0 (λ i b. store b i (line i)) buf j ≡ taken n line buf j
copy_loop n line buf =
    for_range_inv (λ k b. (j : ℕ) → b j ≡ taken k line buf j) (λ i b. store b i (line i))
      (λ k b h j. ground (arith, h j)) n 0 n buf (omega arith) (λ j. ground arith)

-- The line was taken: `count` characters are in the buffer, and the terminal starts a new line.
pub record Taken (k r : Keyboard) (count : ℕ) (buf out : ℕ → ℕ) : Type 0 where
  pub chars : (j : ℕ) → out j ≡ taken count (k.buffer k.active_terminal) buf j
  pub empty : r.buffer_idx k.active_terminal ≡ 0
  pub blank : (j : ℕ) → j < 128 → r.buffer k.active_terminal j ≡ 0
  pub waits : r.enter_status ≡ 0
  pub others :
      (t : ℕ)
      → t ≢ k.active_terminal
      → (r.buffer_idx t ≡ k.buffer_idx t) × (r.buffer t ≡ k.buffer t)

-- After the enter key, a read on the active terminal returns as many characters as the line has, at
-- most `n`, puts them into the buffer and nothing else, and empties the line of this terminal only.
pub keyboard_read_lem :
    (n : ℕ) (buf : ℕ → ℕ) (k : Keyboard)
    → k.enter_status ≢ 0
    → (out : ℕ → ℕ) × (r : Keyboard) × (keyboard_read k.active_terminal buf (pos n) k
        ≡ some (pos (min (k.buffer_idx k.active_terminal) n), out, r))
      × Taken k r (min (k.buffer_idx k.active_terminal) n) buf out
unfolding keyboard_read clear_keyboard_buffer line_length
keyboard_read_lem n buf k h =
    let t = k.active_terminal in
    let count = min (k.buffer_idx t) n in
    let k0 = record k { enter_status = 0 } in
    (
      for_range count 0 (λ i b. store b i (k.buffer t i)) buf,
      clear_keyboard_buffer t k0,
      rw (==_false k.enter_status 0 h, ==_refl t) refl,
      record {
        chars = copy_loop count (k.buffer t) buf;
        empty = rw (==_refl t) refl;
        blank = λ j p. rw (==_refl t) (copy_loop 128 (λ i. 0) (k.buffer t) j ∙ ground arith);
        waits = refl;
        others = λ u d. (rw (==_false u t d) refl, rw (==_false u t d) refl);
      },
    )
