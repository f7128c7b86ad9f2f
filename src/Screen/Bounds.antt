-- ===== src/Screen/Bounds.antt =====
-- The cursor stays on the screen.
use linux_based_os.Prelude.{
  is_negative, u32, decrement, true, false, ◌≡◌, ◌⊎◌, ℕ, ◌+◌, ◌-◌, ◌*◌, ◌/◌, ◌%◌, ◌<◌, ◌==◌, ltb,
  if◌then◌else◌, arith, store, Bool-cases, inl, inr, for_range_inv, for_range, ◌&&◌, ◌||◌, not,
  refl,
}
use linux_based_os.Screen.{
  Screen, move_cursor, update_cursor_position, backspace, clear, scroll_up, put_newline,
  put_visible, tab, putc,
}

-- The cursor of every terminal is in the 25 rows of 80 columns.
pub record InBounds (s : Screen) : Type 0 where
  pub column : (t : ℕ) → s.screen_x t < 80
  pub row : (t : ℕ) → s.screen_y t < 25

store_below : (f : ℕ → ℕ) (t v n : ℕ) → ((k : ℕ) → f k < n) → v < n → (k : ℕ) → store f t v k < n
store_below f t v n h b k = ground (arith, h k)

moved :
    (v : ℕ → ℕ) (s : Screen) (t x y : ℕ)
    → InBounds s
    → x < 80
    → y < 25
    → InBounds (update_cursor_position x y (move_cursor t x y (record s { video = v })))
unfolding update_cursor_position
moved v s t x y h a b = record {
  column = store_below s.screen_x t x 80 h.column a;
  row = store_below s.screen_y t y 25 h.row b;
}

scroll_up-InBounds : (t : ℕ) (s : Screen) → InBounds s → InBounds (scroll_up t s)
unfolding scroll_up
scroll_up-InBounds t s h = moved _ s t 0 24 h (omega arith) (omega arith)

clear-InBounds : (a t : ℕ) (s : Screen) → InBounds s → InBounds (clear a t s)
unfolding clear
clear-InBounds a t s h = moved _ s a 0 0 h (omega arith) (omega arith)

put_newline-InBounds : (t : ℕ) (s : Screen) → InBounds s → InBounds (put_newline t s)
unfolding put_newline
put_newline-InBounds t s h = elim (Bool-cases (s.screen_y t == 24)) [
  | inl e ↦ rw e (scroll_up-InBounds t s h)
  | inr e ↦ rw e (moved _ s t 0 (s.screen_y t + 1) h (omega arith) (ground (arith, h.row t)))
]

pub put_visible-InBounds : (c t : ℕ) (s : Screen) → InBounds s → InBounds (put_visible c t s)
unfolding put_visible
put_visible-InBounds c t s h = elim (Bool-cases ((s.screen_x t == 79) && (s.screen_y t == 24))) [
  | inl e ↦ rw e (scroll_up-InBounds t s h)
  | inr e ↦
      let x = s.screen_x t in
      rw e (
        moved _ s t ((x + 1) % 80) ((s.screen_y t + (x + 1) / 80) % 25) h (omega arith)
          (omega arith))
]

for_range-InBounds :
    (n i : ℕ) (body : ℕ → Screen → Screen) (s : Screen)
    → ((k : ℕ) (r : Screen) → InBounds r → InBounds (body k r))
    → InBounds s
    → InBounds (for_range n i body s)
for_range-InBounds n i body s keep h =
    for_range_inv (λ k r. InBounds r) body keep n i (i + n) s refl h

tab-InBounds : (t : ℕ) (s : Screen) → InBounds s → InBounds (tab t s)
unfolding tab
tab-InBounds t s h =
    for_range-InBounds (if ltb 8 (80 - s.screen_x t) then 8 - s.screen_x t % 8 else 0) 0
      (λ i. put_visible 32 t) s (λ k r g. put_visible-InBounds 32 t r g) h

putc_cases :
    (c t : ℕ) (s : Screen)
    → (putc c t s ≡ put_newline t s) ⊎ ((putc c t s ≡ tab t s) ⊎ (putc c t s ≡ put_visible c t s))
unfolding putc
putc_cases c t s = elim (Bool-cases ((c == 10) || (c == 13))) [
  | inl e ↦ inl (rw e refl)
  | inr e ↦ elim (Bool-cases (c == 9)) [
    | inl f ↦ inr (inl (rw e (rw f refl)))
    | inr f ↦ inr (inr (rw e (rw f refl)))
  ]
]

pub putc-InBounds : (c t : ℕ) (s : Screen) → InBounds s → InBounds (putc c t s)
putc-InBounds c t s h = elim (putc_cases c t s) [
  | inl e ↦ rw e (put_newline-InBounds t s h)
  | inr (inl e) ↦ rw e (tab-InBounds t s h)
  | inr (inr e) ↦ rw e (put_visible-InBounds c t s h)
]

above_row : (y : ℕ) → y < 25 → (x : ℕ) → (not (y == 0) && (x == 0)) ≡ true → decrement y < 25
above_row y h x f = ground (arith, f)

-- The index is not negative, so the cursor was not in the upper left corner.
before_column :
    (x y : ℕ)
    → x < 80
    → is_negative (u32 (y * 80 + decrement x)) ≡ false
    → (not (y == 0) && (x == 0)) ≡ false
    → decrement x < 80
before_column x y h e f = ground (arith, e, f)

backspace-InBounds : (t : ℕ) (s : Screen) → InBounds s → InBounds (backspace t s)
unfolding backspace
backspace-InBounds t s h =
    let x = s.screen_x t in
    let y = s.screen_y t in
    elim (Bool-cases (is_negative (u32 (y * 80 + decrement x)))) [
      | inl e ↦ rw e h
      | inr e ↦ elim (Bool-cases (not (y == 0) && (x == 0))) [
        | inl f ↦
            rw (e, f) (moved _ s t 79 (decrement y) h (omega arith) (above_row y (h.row t) x f))
        | inr f ↦
            rw (e, f) (moved _ s t (decrement x) y h (before_column x y (h.column t) e f) (h.row t))
      ]
    ]

-- Whatever is printed, erased, tabbed or cleared on whichever terminal, cursors in the 25 rows of
-- 80 columns stay there.
pub screen_stays_InBounds :
    (c t a : ℕ) (s : Screen)
    → InBounds s
    → InBounds (putc c t s) × InBounds (backspace t s) × InBounds (tab t s) × InBounds (clear a t s)
screen_stays_InBounds c t a s h =
    (putc-InBounds c t s h, backspace-InBounds t s h, tab-InBounds t s h, clear-InBounds a t s h)
