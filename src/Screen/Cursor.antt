-- ===== src/Screen/Cursor.antt =====
-- What a printed character and a backspace do to the cursor, the cells and the ports.
use linux_based_os.Prelude.{
  u32, decrement, is_negative, ℕ, ◌+◌, ◌-◌, ◌*◌, ◌/◌, ◌%◌, ◌<◌, ◌≡◌, ◌≢◌, inl, inr, ◌==◌, ◌∙◌, refl,
  sym, ap, ap₂, subst, true, false, arith, Bool-cases, ==_false, ◌&&◌, not, ◌++◌,
}
use linux_based_os.Screen.{
  Screen, cell, put_cell, put_visible, putc, backspace, update_cursor_position, cursor_ports,
  move_cursor,
}
use linux_based_os.Screen.Bounds.{InBounds, putc-InBounds}
use linux_based_os.Screen.Cells.{
  store_at, store_elsewhere, put_cell-char, put_cell-attrib, put_cell-elsewhere,
}

-- The cell that the cursor of terminal `t` is at, counted row by row.
abbrev pub at_cell : ℕ → Screen → ℕ
at_cell t s = 80 * s.screen_y t + s.screen_x t

-- Not a line break and not a tab.
abbrev pub Printable : ℕ → Type 0
Printable c = (c ≢ 10) × (c ≢ 13) × (c ≢ 9)

putc-visible : (c t : ℕ) (s : Screen) → Printable c → putc c t s ≡ put_visible c t s
unfolding putc
putc-visible c t s (a, b, d) =
    rw (==_false c 10 a) (rw (==_false c 13 b) (rw (==_false c 9 d) refl))

-- `r` has character `c` in the cell before its cursor, and is otherwise like `s`.
pub record Printed (c t : ℕ) (s r : Screen) : Type 0 where
  pub cursor : at_cell t r ≡ at_cell t s + 1
  pub char : r.video (cell t (at_cell t s)) ≡ c
  pub attribute : r.video (cell t (at_cell t s) + 1) ≡ 7
  pub kept :
      (a : ℕ) → a ≢ cell t (at_cell t s) → a ≢ cell t (at_cell t s) + 1 → r.video a ≡ s.video a
  pub others : (k : ℕ) → k ≢ t → at_cell k r ≡ at_cell k s
  told : r.ports ≡ s.ports ++ cursor_ports (r.screen_x t) (r.screen_y t)

not_last : (x y : ℕ) → 80 * y + x < 1999 → ((x == 79) && (y == 24)) ≡ false
not_last x y h = ground arith

-- What `put_visible` comes to off the last cell.
module _ (c t : ℕ) (s : Screen) (h : InBounds s) (n : at_cell t s < 1999) where
  put_visible_lem : Printed c t s (put_visible c t s)
  unfolding put_visible update_cursor_position
  put_visible_lem = rw (not_last (s.screen_x t) (s.screen_y t) n) (record {
    cursor = omega (
      arith,
      store_at s.screen_x t ((s.screen_x t + 1) % 80),
      store_at s.screen_y t ((s.screen_y t + (s.screen_x t + 1) / 80) % 25),
      h.column t,
      h.row t,
    );
    char = put_cell-char t (at_cell t s) c s.video;
    attribute = put_cell-attrib t (at_cell t s) c s.video;
    kept = λ a p q. put_cell-elsewhere t (at_cell t s) c a s.video p q;
    others = λ k d. omega (
      arith,
      store_elsewhere s.screen_x t ((s.screen_x t + 1) % 80) k d,
      store_elsewhere s.screen_y t ((s.screen_y t + (s.screen_x t + 1) / 80) % 25) k d,
    );
    told =
        ap₂ (λ x y. s.ports ++ cursor_ports x y)
          (sym (store_at s.screen_x t ((s.screen_x t + 1) % 80)))
          (sym (store_at s.screen_y t ((s.screen_y t + (s.screen_x t + 1) / 80) % 25)));
  })

-- Printing a character that is neither a line break nor a tab, off the last cell of the screen: it
-- stands with the attribute 7 in the cell the cursor was at, no other byte of video memory changes,
-- the cursor is one cell on, no other cursor moves, and the hardware is told.
pub putc_lem :
    (c t : ℕ) (s : Screen)
    → InBounds s
    → Printable c
    → at_cell t s < 1999
    → Printed c t s (putc c t s)
putc_lem c t s h p n = rw (putc-visible c t s p) (put_visible_lem c t s h n)

-- `r` is `s` with the cursor one cell back, on a blank.
pub record Erased (t : ℕ) (s r : Screen) : Type 0 where
  cursor : at_cell t r + 1 ≡ at_cell t s
  char : r.video (cell t (at_cell t r)) ≡ 32
  attribute : r.video (cell t (at_cell t r) + 1) ≡ 7
  kept : (a : ℕ) → a ≢ cell t (at_cell t r) → a ≢ cell t (at_cell t r) + 1 → r.video a ≡ s.video a
  others : (k : ℕ) → k ≢ t → at_cell k r ≡ at_cell k s
  told : r.ports ≡ s.ports ++ cursor_ports (r.screen_x t) (r.screen_y t)

-- The screen after a backspace that goes to column `x` of row `y`.
abbrev gone_back : (t x y : ℕ) → Screen → Screen
gone_back t x y s = update_cursor_position x y (
    move_cursor t x y
      (record s { video = put_cell t (s.screen_y t * 80 + s.screen_x t - 1) 32 s.video }))

module _ (t x y : ℕ) (s : Screen) (e : 80 * y + x + 1 ≡ at_cell t s) where
  gone_back-at_cell : at_cell t (gone_back t x y s) ≡ 80 * y + x
  unfolding update_cursor_position
  gone_back-at_cell = omega (arith, store_at s.screen_x t x, store_at s.screen_y t y)

  gone_back-cell : s.screen_y t * 80 + s.screen_x t - 1 ≡ at_cell t (gone_back t x y s)
  gone_back-cell = omega (arith, gone_back-at_cell)

  gone_back_lem : Erased t s (gone_back t x y s)
  unfolding update_cursor_position
  gone_back_lem =
      let k = s.screen_y t * 80 + s.screen_x t - 1 in
      let v = put_cell t k 32 s.video in
      record {
        cursor = omega (arith, gone_back-at_cell);
        char = ap (λ i. v (cell t i)) (sym gone_back-cell) ∙ put_cell-char t k 32 s.video;
        attribute =
            ap (λ i. v (cell t i + 1)) (sym gone_back-cell) ∙ put_cell-attrib t k 32 s.video;
        kept = λ a p q.
            put_cell-elsewhere t k 32 a s.video (omega (arith, gone_back-cell))
              (omega (arith, gone_back-cell));
        others = λ i d.
            omega (arith, store_elsewhere s.screen_x t x i d, store_elsewhere s.screen_y t y i d);
        told =
            ap₂ (λ x' y'. s.ports ++ cursor_ports x' y') (sym (store_at s.screen_x t x))
              (sym (store_at s.screen_y t y));
      }

-- Off the upper left corner no subtraction wraps around.
index_of :
    (x y : ℕ) → x < 80 → y < 25 → 0 < 80 * y + x → u32 (y * 80 + decrement x) ≡ y * 80 + x - 1
index_of x y a b h = omega arith

corner_false : (x y : ℕ) → x < 80 → y < 25 → is_negative (y * 80 + x - 1) ≡ false
corner_false x y a b = ground arith

decrement_lem : (n : ℕ) → 0 < n → n < 80 → decrement n ≡ n - 1
decrement_lem n h b = omega arith

row_end : (x y : ℕ) → (not (y == 0) && (x == 0)) ≡ true → (x ≡ 0) × (0 < y)
row_end x y h = ground arith

in_row : (x y : ℕ) → 0 < 80 * y + x → (not (y == 0) && (x == 0)) ≡ false → 0 < x
in_row x y n h = ground arith

-- A backspace anywhere but in the upper left corner takes the cursor one cell back, over row ends
-- too, and blanks the cell there; no other byte of video memory changes and no other cursor moves.
pub backspace_lem : (t : ℕ) (s : Screen) → InBounds s → 0 < at_cell t s → Erased t s (backspace t s)
unfolding backspace
backspace_lem t s h n =
    let x = s.screen_x t in
    let y = s.screen_y t in
    let a = h.column t in
    let b = h.row t in
    rw (index_of x y a b n, corner_false x y a b)
      (elim (Bool-cases (not (y == 0) && (x == 0))) [
        | inl e ↦
            let (first, below) = row_end x y e in
            rw (e, decrement_lem y below (omega arith)) (gone_back_lem t 79 (y - 1) s (omega arith))
        | inr e ↦
            let left = in_row x y n e in
            rw (e, decrement_lem x left a) (gone_back_lem t (x - 1) y s (omega arith))
      ])

-- A backspace behind a character that was printed off the last cell takes the cursor back to where
-- it was and leaves a blank there; every other byte of video memory is what it was before the two.
backspace-putc :
    (c t : ℕ) (s : Screen)
    → InBounds s
    → Printable c
    → at_cell t s < 1999
    → (at_cell t (backspace t (putc c t s)) ≡ at_cell t s)
      × ((backspace t (putc c t s)).video (cell t (at_cell t s)) ≡ 32)
      × ((a : ℕ)
          → a ≢ cell t (at_cell t s)
          → a ≢ cell t (at_cell t s) + 1
          → (backspace t (putc c t s)).video a ≡ s.video a)
backspace-putc c t s h p n =
    let s' = putc c t s in
    let there = putc_lem c t s h p n in
    let back = backspace_lem t s' (putc-InBounds c t s h) (omega (arith, there.cursor)) in
    let same : at_cell t (backspace t s') ≡ at_cell t s =
      omega (arith, there.cursor, back.cursor) in
    (
      same,
      subst (λ i. (backspace t s').video (cell t i) ≡ 32) same back.char,
      λ a j k. back.kept a (omega (arith, same)) (omega (arith, same)) ∙ there.kept a j k,
    )
