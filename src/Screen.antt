-- ===== src/Screen.antt =====
-- student-distrib/lib.c: the text screens of the terminals, `update_cursor_position` to `clear`,
-- `scroll_up` and `putc`. Arrays over the terminals are functions, and video memory is a function
-- from the offset behind `video_mem` to the byte there.
pub mod Bounds
pub mod Cells
pub mod Cursor
pub mod Text
use linux_based_os.Prelude.{
  ℕ, ◌+◌, ◌-◌, ◌*◌, ◌/◌, ◌%◌, ◌==◌, ltb, if◌then◌else◌, ◌||◌, ◌&&◌, not, List, [], ◌∷◌, ◌++◌, store,
  for_range, u8, u16, u32, decrement, is_negative, ◌<<<◌, ◌>>>◌, bit_and, Option, none, some, zero,
  suc,
}
use linux_based_os.Strings.{Str}
use linux_based_os.Port.{Outb, outb}

abbrev pub num_cols : ℕ
num_cols = 80

abbrev pub num_rows : ℕ
num_rows = 25

abbrev pub attrib : ℕ
attrib = 7

abbrev pub space : ℕ
space = 32

-- The cursors are the 32-bit words of the ints.
pub record Screen : Type 0 where
  pub screen_x : ℕ → ℕ
  pub screen_y : ℕ → ℕ
  pub video : ℕ → ℕ
  pub ports : List Outb

-- `4096*2*terminal + (i << 1)`
abbrev pub cell : ℕ → ℕ → ℕ
cell terminal i = 4096 * 2 * terminal + (i <<< 1)

abbrev pub put_cell : ℕ → ℕ → ℕ → (ℕ → ℕ) → ℕ → ℕ
put_cell terminal i c v = store (store v (cell terminal i) c) (cell terminal i + 1) attrib

unfoldable pub cursor_ports : (x_coord y_coord : ℕ) → List Outb
cursor_ports x_coord y_coord =
    let p = u16 (y_coord * num_cols + x_coord) in
    outb 15 980
    ∷ outb (u8 (bit_and p 255)) 981
    ∷ outb 14 980
    ∷ outb (u8 (bit_and (p >>> 8) 255)) 981
    ∷ []

unfoldable pub update_cursor_position : (x_coord y_coord : ℕ) → Screen → Screen
unfolding cursor_ports
update_cursor_position x_coord y_coord s = record s {
  ports = s.ports ++ cursor_ports x_coord y_coord;
}

abbrev pub move_cursor : (terminal x y : ℕ) → Screen → Screen
move_cursor terminal x y s = record s {
  screen_x = store s.screen_x terminal x;
  screen_y = store s.screen_y terminal y;
}

-- The index is one less than the cursor's. Of a word that is negative as an int nothing is erased.
unfoldable pub backspace : (active_terminal : ℕ) → Screen → Screen
unfolding update_cursor_position
backspace active_terminal s =
    let x = s.screen_x active_terminal in
    let y = s.screen_y active_terminal in
    let i = u32 (y * num_cols + decrement x) in
    let s1 = record s { video = put_cell active_terminal i space s.video } in
    if is_negative i
    then s
    else if not (y == 0) && (x == 0)
    then update_cursor_position (num_cols - 1) (decrement y)
        (move_cursor active_terminal (num_cols - 1) (decrement y) s1)
    else update_cursor_position (decrement x) y (move_cursor active_terminal (decrement x) y s1)

unfoldable pub clear_cell : (terminal i : ℕ) → (ℕ → ℕ) → ℕ → ℕ
clear_cell terminal i v = put_cell terminal i space v

-- The terminal that is cleared and the one whose cursor is reset are two.
unfoldable pub clear : (active_terminal terminal : ℕ) → Screen → Screen
unfolding update_cursor_position clear_cell
clear active_terminal terminal s =
    let s1 = record s { video = for_range (num_rows * num_cols) 0 (clear_cell terminal) s.video } in
    update_cursor_position 0 0 (move_cursor active_terminal 0 0 s1)

-- The bytes of the characters of the first screen, each one up.
unfoldable pub test_interrupts : Screen → Screen
test_interrupts s = record s {
  video =
      for_range (num_rows * num_cols) 0 (λ i v. store v (i <<< 1) (u8 (v (i <<< 1) + 1))) s.video;
}

unfoldable pub scroll_cell : (terminal i : ℕ) → (ℕ → ℕ) → ℕ → ℕ
scroll_cell terminal i v =
    let v1 = store v (cell terminal (i - num_cols)) (v (i <<< 1)) in
    store v1 (cell terminal (i - num_cols) + 1) (v1 ((i <<< 1) + 1))

unfoldable pub scroll_up : (terminal : ℕ) → Screen → Screen
unfolding update_cursor_position scroll_cell clear_cell
scroll_up terminal s =
    let v1 = for_range (num_rows * num_cols - num_cols) num_cols (scroll_cell terminal) s.video in
    let v2 = for_range num_cols (num_cols * (num_rows - 1)) (clear_cell terminal) v1 in
    update_cursor_position 0 (num_rows - 1)
      (move_cursor terminal 0 (num_rows - 1) (record s { video = v2 }))

-- `putc`, the branch of a line break
unfoldable pub put_newline : (terminal : ℕ) → Screen → Screen
unfolding scroll_up update_cursor_position
put_newline terminal s =
    let y = s.screen_y terminal in
    if y == num_rows - 1
    then scroll_up terminal s
    else update_cursor_position 0 (y + 1) (move_cursor terminal 0 (y + 1) s)

-- `putc`, the branch of any other character but a tab
unfoldable pub put_visible : (c terminal : ℕ) → Screen → Screen
unfolding scroll_up update_cursor_position
put_visible c terminal s =
    let x = s.screen_x terminal in
    let y = s.screen_y terminal in
    let y' = (y + (x + 1) / num_cols) % num_rows in
    let x' = (x + 1) % num_cols in
    let s1 = record s { video = put_cell terminal (num_cols * y + x) c s.video } in
    if (x == num_cols - 1) && (y == num_rows - 1)
    then scroll_up terminal s
    else update_cursor_position x' y' (move_cursor terminal x' y' s1)

-- The tab calls `putc(' ')`, which takes the branch above.
unfoldable pub tab : (terminal : ℕ) → Screen → Screen
unfolding put_visible
tab terminal s =
    let x = s.screen_x terminal in
    let tabsize = if ltb 8 (num_cols - x) then 8 - x % 8 else 0 in
    for_range tabsize 0 (λ i. put_visible space terminal) s

unfoldable pub putc : (c terminal : ℕ) → Screen → Screen
unfolding put_newline tab put_visible
putc c terminal s =
    if (c == 10) || (c == 13)
    then put_newline terminal s
    else if c == 9
    then tab terminal s
    else put_visible c terminal s

-- `puts` from index `i` on, up to the first NUL: the number of characters and the screen.
unfoldable pub puts_from : ℕ → (active_terminal : ℕ) → Str → ℕ → Screen → Option (ℕ × Screen)
unfolding putc
puts_from zero active_terminal s index screen = none
puts_from (suc fuel) active_terminal s index screen =
    let rest =
      puts_from fuel active_terminal s (index + 1) (putc (s index) active_terminal screen) in
    if s index == 0 then some (index, screen) else rest

unfoldable pub puts : ℕ → (active_terminal : ℕ) → Str → Screen → Option (ℕ × Screen)
unfolding puts_from
puts fuel active_terminal s screen = puts_from fuel active_terminal s 0 screen
