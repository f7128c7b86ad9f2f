-- ===== src/Screen/Cells.antt =====
-- What the screen operations do to video memory.
use linux_based_os.Prelude.{
  ℕ, zero, suc, ◌+◌, ◌-◌, ◌*◌, ◌<◌, ◌≤◌, ◌≡◌, ◌≢◌, ◌⊎◌, inl, inr, ◌∙◌, refl, ap, arith, store,
  for_range, for_range_inv, ==_false, ==_refl,
}
use linux_based_os.Screen.{
  Screen, cell, put_cell, clear_cell, scroll_cell, scroll_up, update_cursor_position,
}

-- An offset outside the cells of one terminal's screen.
abbrev pub Outside : ℕ → ℕ → Type 0
Outside t a = (a < cell t 0) ⊎ (cell t 2000 ≤ a)

pub store_at : (m : ℕ → ℕ) (i v : ℕ) → store m i v i ≡ v
store_at m i v = rw (==_refl i) refl

pub store_elsewhere : (m : ℕ → ℕ) (i v j : ℕ) → j ≢ i → store m i v j ≡ m j
store_elsewhere m i v j h = rw (==_false j i h) refl

pub put_cell-char : (t i c : ℕ) (v : ℕ → ℕ) → put_cell t i c v (cell t i) ≡ c
put_cell-char t i c v =
    store_elsewhere (store v (cell t i) c) (cell t i + 1) 7 (cell t i) (omega arith)
    ∙ store_at v (cell t i) c

pub put_cell-attrib : (t i c : ℕ) (v : ℕ → ℕ) → put_cell t i c v (cell t i + 1) ≡ 7
put_cell-attrib t i c v = store_at (store v (cell t i) c) (cell t i + 1) 7

pub put_cell-elsewhere :
    (t i c a : ℕ) (v : ℕ → ℕ) → a ≢ cell t i → a ≢ cell t i + 1 → put_cell t i c v a ≡ v a
put_cell-elsewhere t i c a v h k =
    store_elsewhere (store v (cell t i) c) (cell t i + 1) 7 a k ∙ store_elsewhere v (cell t i) c a h

-- One round of the first loop of `scroll_up` copies two bytes.
module _ (t i : ℕ) (v : ℕ → ℕ) (h : 80 ≤ i) (n : i < 2000) where
  scroll_cell-first : scroll_cell t i v (cell t (i - 80)) ≡ v (i * 2)
  unfolding scroll_cell
  scroll_cell-first =
      let q = cell t (i - 80) in
      let v1 = store v q (v (i * 2)) in
      store_elsewhere v1 (q + 1) (v1 (i * 2 + 1)) q (omega arith) ∙ store_at v q (v (i * 2))

  scroll_cell-second : scroll_cell t i v (cell t (i - 80) + 1) ≡ v (i * 2 + 1)
  unfolding scroll_cell
  scroll_cell-second =
      let q = cell t (i - 80) in
      let v1 = store v q (v (i * 2)) in
      store_at v1 (q + 1) (v1 (i * 2 + 1))
      ∙ store_elsewhere v q (v (i * 2)) (i * 2 + 1) (omega arith)

  scroll_cell-elsewhere :
      (a : ℕ) → a ≢ cell t (i - 80) → a ≢ cell t (i - 80) + 1 → scroll_cell t i v a ≡ v a
  unfolding scroll_cell
  scroll_cell-elsewhere a j k =
      let q = cell t (i - 80) in
      let v1 = store v q (v (i * 2)) in
      store_elsewhere v1 (q + 1) (v1 (i * 2 + 1)) a k ∙ store_elsewhere v q (v (i * 2)) a j

-- The state of that loop before round `i`.
pub record Scrolled (t : ℕ) (v0 : ℕ → ℕ) (i : ℕ) (v : ℕ → ℕ) : Type 0 where
  moved : (b : ℕ) → b < 2 * (i - 80) → v (cell t 0 + b) ≡ v0 (160 + b)
  rest : (a : ℕ) → (a < cell t 0) ⊎ (cell t 0 + 2 * (i - 80) ≤ a) → v a ≡ v0 a
  started : 80 ≤ i

at_or_next : (b d : ℕ) → b < d + 2 → (b < d) ⊎ ((b ≡ d) ⊎ (b ≡ d + 1))
at_or_next b d h = ground arith

-- What is copied has not been overwritten, on the first terminal or on another.
ahead :
    (t i a : ℕ)
    → i < 2000
    → i * 2 ≤ a
    → a < i * 2 + 2
    → (a < cell t 0) ⊎ (cell t 0 + 2 * (i - 80) ≤ a)
ahead zero i a n p q = inr (omega arith)
ahead (suc t) i a n p q = inl (omega arith)

module _ (t i : ℕ) (v0 v : ℕ → ℕ) (n : i < 2000) (h : Scrolled t v0 i v) where
  source : (a : ℕ) → i * 2 ≤ a → a < i * 2 + 2 → v a ≡ v0 a
  source a p q = h.rest a (ahead t i a n p q)

  scrolled_byte :
      (b : ℕ)
      → (b < 2 * (i - 80)) ⊎ ((b ≡ 2 * (i - 80)) ⊎ (b ≡ 2 * (i - 80) + 1))
      → scroll_cell t i v (cell t 0 + b) ≡ v0 (160 + b)
  scrolled_byte b (inl p) =
      scroll_cell-elsewhere t i v h.started n (cell t 0 + b) (omega arith) (omega arith)
      ∙ h.moved b p
  scrolled_byte b (inr (inl p)) =
      ap (scroll_cell t i v) at
      ∙ scroll_cell-first t i v h.started n
      ∙ source (i * 2) (omega arith) (omega arith)
      ∙ ap v0 from
    where
      at : cell t 0 + b ≡ cell t (i - 80)
      at = omega (arith, h.started)

      from : i * 2 ≡ 160 + b
      from = omega (arith, h.started)
  scrolled_byte b (inr (inr p)) =
      ap (scroll_cell t i v) at
      ∙ scroll_cell-second t i v h.started n
      ∙ source (i * 2 + 1) (omega arith) (omega arith)
      ∙ ap v0 from
    where
      at : cell t 0 + b ≡ cell t (i - 80) + 1
      at = omega (arith, h.started)

      from : i * 2 + 1 ≡ 160 + b
      from = omega (arith, h.started)

  scroll_cell_lem : Scrolled t v0 (i + 1) (scroll_cell t i v)
  scroll_cell_lem = record {
    moved = λ b p. scrolled_byte b (at_or_next b (2 * (i - 80)) (omega (arith, h.started)));
    rest = λ a p.
        scroll_cell-elsewhere t i v h.started n a (ground (arith, h.started))
          (ground (arith, h.started))
        ∙ h.rest a (ground (arith, h.started));
    started = omega (arith, h.started);
  }

scroll_rows : (t : ℕ) (v : ℕ → ℕ) → Scrolled t v 2000 (for_range 1920 80 (scroll_cell t) v)
scroll_rows t v =
    for_range_inv (λ i w. i ≤ 2000 → Scrolled t v i w) (scroll_cell t)
      (λ i w g m. scroll_cell_lem t i v w (omega arith) (g (omega arith))) 1920 80 2000 v refl
      (λ m. record {
        moved = λ b p. absurd (omega arith);
        rest = λ a p. refl;
        started = omega arith;
      })
      (omega arith)

-- Blank cells from `lo` to `i`, and the rest as before.
pub record Blank (t lo : ℕ) (v0 : ℕ → ℕ) (i : ℕ) (v : ℕ → ℕ) : Type 0 where
  pub char : (k : ℕ) → lo ≤ k → k < i → v (cell t k) ≡ 32
  pub attribute : (k : ℕ) → lo ≤ k → k < i → v (cell t k + 1) ≡ 7
  pub kept : (a : ℕ) → (a < cell t lo) ⊎ (cell t i ≤ a) → v a ≡ v0 a
  from : lo ≤ i

last_or_before : (k i : ℕ) → k < i + 1 → (k ≡ i) ⊎ (k < i)
last_or_before k i h = ground arith

module _ (t lo i : ℕ) (v0 v : ℕ → ℕ) (h : Blank t lo v0 i v) where
  blank_char : (k : ℕ) → lo ≤ k → (k ≡ i) ⊎ (k < i) → clear_cell t i v (cell t k) ≡ 32
  unfolding clear_cell
  blank_char k l (inl e) = rw e (put_cell-char t i 32 v)
  blank_char k l (inr p) =
      put_cell-elsewhere t i 32 (cell t k) v (omega arith) (omega arith) ∙ h.char k l p

  blank_attribute : (k : ℕ) → lo ≤ k → (k ≡ i) ⊎ (k < i) → clear_cell t i v (cell t k + 1) ≡ 7
  unfolding clear_cell
  blank_attribute k l (inl e) = rw e (put_cell-attrib t i 32 v)
  blank_attribute k l (inr p) =
      put_cell-elsewhere t i 32 (cell t k + 1) v (omega arith) (omega arith) ∙ h.attribute k l p

  clear_cell_lem : Blank t lo v0 (i + 1) (clear_cell t i v)
  unfolding clear_cell
  clear_cell_lem = record {
    char = λ k l p. blank_char k l (last_or_before k i p);
    attribute = λ k l p. blank_attribute k l (last_or_before k i p);
    kept = λ a p.
        put_cell-elsewhere t i 32 a v (ground (arith, h.from)) (ground (arith, h.from))
        ∙ h.kept a (ground (arith, h.from));
    from = omega (arith, h.from);
  }

clear_cells :
    (t n lo hi : ℕ) (v : ℕ → ℕ) → lo + n ≡ hi → Blank t lo v hi (for_range n lo (clear_cell t) v)
clear_cells t n lo hi v e =
    for_range_inv (λ i w. Blank t lo v i w) (clear_cell t) (λ i w g. clear_cell_lem t lo i v w g) n
      lo hi v e
      (record {
        char = λ k l p. absurd (omega arith);
        attribute = λ k l p. absurd (omega arith);
        kept = λ a p. refl;
        from = omega arith;
      })

-- The whole of `scroll_up`: video memory, and the cursor.
pub record ScrolledUp (t : ℕ) (s r : Screen) : Type 0 where
  up : (b : ℕ) → b < 3840 → r.video (cell t 0 + b) ≡ s.video (160 + b)
  last : (k : ℕ) → 1920 ≤ k → k < 2000 → (r.video (cell t k) ≡ 32) × (r.video (cell t k + 1) ≡ 7)
  kept : (a : ℕ) → Outside t a → r.video a ≡ s.video a
  cursor : (r.screen_x t ≡ 0) × (r.screen_y t ≡ 24)

-- `scroll_up(t)` fills rows 0 to 23 of screen `t` from rows 1 to 24 of the first terminal's screen
-- (the source address leaves `t` out), blanks row 24, leaves every other byte of video memory as it
-- is and puts the cursor at the start of row 24.
pub scroll_up_lem : (t : ℕ) (s : Screen) → ScrolledUp t s (scroll_up t s)
unfolding scroll_up update_cursor_position
scroll_up_lem t s =
    let v1 = for_range 1920 80 (scroll_cell t) s.video in
    let rows = scroll_rows t s.video in
    let blank = clear_cells t 80 1920 2000 v1 refl in
    record {
      up = λ b p. blank.kept (cell t 0 + b) (inl (omega arith)) ∙ rows.moved b p;
      last = λ k l p. (blank.char k l p, blank.attribute k l p);
      kept = λ a p. blank.kept a (ground arith) ∙ rows.rest a (ground arith);
      cursor = (store_at s.screen_x t 0, store_at s.screen_y t 24);
    }
