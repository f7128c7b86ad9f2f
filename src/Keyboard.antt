-- ===== src/Keyboard.antt =====
-- student-distrib/keyboard.c and terminal.c: the key tables, the interrupt handler as a step on the
-- modifier keys and the line buffers, and the reads and writes of the two drivers. The two tables of
-- 128 entries end in zeros, which are left out of the lists. The scan code that `inb` reads is an
-- argument.
pub mod Letters
pub mod Invariant
pub mod Line
pub mod Write
pub mod Typing
pub mod Keys
pub mod Edited
pub mod Entered
use linux_based_os.Prelude.{
  ℕ, zero, suc, ◌+◌, ◌-◌, ◌/◌, ◌%◌, decrement, ◌==◌, ltb, leb, if◌then◌else◌, ◌||◌, ◌&&◌, not, List,
  [], ◌∷◌, get_or, store, for_range, bit_and, bit_xor, Option, some, none, ℤ, pos, negsuc,
  minus_one, is_zero, ltb_ℤ, min,
}
use linux_based_os.Screen.{Screen, backspace, tab, clear, putc}
use linux_based_os.Pic.{Pic, enable_irq, disable_irq, send_eoi}

abbrev pub keyboard_us : List ℕ
keyboard_us =
    0 ∷ 27 ∷ 49 ∷ 50 ∷ 51 ∷ 52 ∷ 53 ∷ 54 ∷ 55 ∷ 56 ∷ 57 ∷ 48 ∷ 45 ∷ 61 ∷ 0 ∷ 9 ∷ 113 ∷ 119 ∷ 101
    ∷ 114 ∷ 116 ∷ 121 ∷ 117 ∷ 105 ∷ 111 ∷ 112 ∷ 91 ∷ 93 ∷ 10 ∷ 0 ∷ 97 ∷ 115 ∷ 100 ∷ 102 ∷ 103 ∷ 104
    ∷ 106 ∷ 107 ∷ 108 ∷ 59 ∷ 39 ∷ 96 ∷ 0 ∷ 92 ∷ 122 ∷ 120 ∷ 99 ∷ 118 ∷ 98 ∷ 110 ∷ 109 ∷ 44 ∷ 46 ∷ 47
    ∷ 0 ∷ 42 ∷ 0 ∷ 32 ∷ 0 ∷ 0 ∷ 0 ∷ 0 ∷ 0 ∷ 0 ∷ 0 ∷ 0 ∷ 0 ∷ 0 ∷ 0 ∷ 0 ∷ 0 ∷ 0 ∷ 0 ∷ 0 ∷ 45 ∷ 0 ∷ 0
    ∷ 0 ∷ 43 ∷ []

abbrev pub keyboard_us_shift : List ℕ
keyboard_us_shift =
    0 ∷ 27 ∷ 33 ∷ 64 ∷ 35 ∷ 36 ∷ 37 ∷ 94 ∷ 38 ∷ 42 ∷ 40 ∷ 41 ∷ 95 ∷ 43 ∷ 0 ∷ 9 ∷ 81 ∷ 87 ∷ 69 ∷ 82
    ∷ 84 ∷ 89 ∷ 85 ∷ 73 ∷ 79 ∷ 80 ∷ 123 ∷ 125 ∷ 10 ∷ 0 ∷ 65 ∷ 83 ∷ 68 ∷ 70 ∷ 71 ∷ 72 ∷ 74 ∷ 75 ∷ 76
    ∷ 58 ∷ 34 ∷ 126 ∷ 0 ∷ 124 ∷ 90 ∷ 88 ∷ 67 ∷ 86 ∷ 66 ∷ 78 ∷ 77 ∷ 60 ∷ 62 ∷ 63 ∷ 0 ∷ 42 ∷ 0 ∷ 32
    ∷ 0 ∷ 0 ∷ 0 ∷ 0 ∷ 0 ∷ 0 ∷ 0 ∷ 0 ∷ 0 ∷ 0 ∷ 0 ∷ 0 ∷ 0 ∷ 0 ∷ 0 ∷ 0 ∷ 45 ∷ 0 ∷ 0 ∷ 0 ∷ 43 ∷ []

abbrev pub buffer_size : ℕ
buffer_size = 128

-- The static variables; the buffers and their indices are arrays over the terminals.
pub record Keyboard : Type 0 where
  pub alt_status : ℕ
  pub f1_status : ℕ
  pub f2_status : ℕ
  pub f3_status : ℕ
  pub ctrl_status : ℕ
  pub shift_status : ℕ
  pub caps_status : ℕ
  pub enter_status : ℕ
  pub active_terminal : ℕ
  pub buffer : ℕ → ℕ → ℕ
  pub buffer_idx : ℕ → ℕ
  pub screen : Screen
  pub pic : Pic

-- A key was released: its scan code without the top bit.
unfoldable pub key_up : ℕ → Keyboard → Keyboard
key_up code k = record k {
  shift_status = if (code == 42) || (code == 54) then 0 else k.shift_status;
  ctrl_status = if code == 29 then 0 else k.ctrl_status;
  alt_status = if code == 56 then 0 else k.alt_status;
  f1_status = if code == 59 then 0 else k.f1_status;
  f2_status = if code == 60 then 0 else k.f2_status;
  f3_status = if code == 61 then 0 else k.f3_status;
}

-- A key was pressed.
unfoldable pub key_down : ℕ → Keyboard → Keyboard
key_down code k = record k {
  shift_status = if (code == 42) || (code == 54) then 1 else k.shift_status;
  ctrl_status = if code == 29 then 1 else k.ctrl_status;
  alt_status = if code == 56 then 1 else k.alt_status;
  f1_status = if code == 59 then 1 else k.f1_status;
  f2_status = if code == 60 then 1 else k.f2_status;
  f3_status = if code == 61 then 1 else k.f3_status;
  caps_status = if code == 58 then if k.caps_status == 0 then 1 else 0 else k.caps_status;
  enter_status = if code == 28 then 1 else k.enter_status;
}

-- The character of a key: for a letter either shift or caps lock capitalises.
unfoldable pub return_char : ℕ → (shift caps : ℕ) → ℕ
return_char code shift caps =
    let plain = get_or keyboard_us code 0 in
    let shifted = get_or keyboard_us_shift code 0 in
    if leb 97 plain && leb plain 122
    then if bit_xor shift caps == 0 then plain else shifted
    else if shift == 0
    then plain
    else shifted

-- A row of the array starts where the one before it ends.
abbrev pub store_char : (t i c : ℕ) → (ℕ → ℕ → ℕ) → ℕ → ℕ → ℕ
store_char t i c b = store b t (store (b t) i c)

-- A backspace is taken only while the line has characters.
unfoldable pub erase : ℕ → Keyboard → Keyboard
erase code k =
    let t = k.active_terminal in
    let i = k.buffer_idx t in
    if (code == 14) && ltb 0 i
    then record k {
      screen = backspace t k.screen;
      buffer = store_char (t + i / buffer_size) (i % buffer_size) 0 k.buffer;
      buffer_idx = store k.buffer_idx t (decrement i);
    }
    else k

-- The tab key, and control with `l` or `L`: the character is used up.
unfoldable pub screen_keys : ℕ → ℕ × Keyboard → ℕ × Keyboard
screen_keys code (c, k) =
    let t = k.active_terminal in
    let c1 = if code == 15 then 0 else c in
    let k1 = if code == 15 then record k { screen = tab t k.screen } else k in
    if not (k1.ctrl_status == 0) && ((c1 == 108) || (c1 == 76))
    then (0, record k1 { screen = clear t t k1.screen })
    else (c1, k1)

-- Alt with F1, F2 or F3.
unfoldable pub switch_terminal : ℕ × Keyboard → ℕ × Keyboard
switch_terminal (c, k) =
    if not (k.alt_status == 0) && not (k.f1_status == 0)
    then (0, record k { active_terminal = 0 })
    else if not (k.alt_status == 0) && not (k.f2_status == 0)
    then (0, record k { active_terminal = 1 })
    else if not (k.alt_status == 0) && not (k.f3_status == 0)
    then (0, record k { active_terminal = 2 })
    else (c, k)

-- The character goes to the line buffer, while it has room, and to the screen.
unfoldable pub deliver : ℕ → ℕ × Keyboard → Keyboard
deliver code (c, k) =
    let t = k.active_terminal in
    let i = k.buffer_idx t in
    let k1 =
      if ltb i buffer_size
      then record k {
        buffer = store k.buffer t (store (k.buffer t) i c);
        buffer_idx = store k.buffer_idx t (i + 1);
      }
      else k in
    if not (c == 0) && (not (code == 1) && (k.ctrl_status == 0))
    then record k1 { screen = putc c t k1.screen }
    else k

-- Both branches on the top bit: the character, 0 for a release, and the keys.
unfoldable pub decode : ℕ → Keyboard → ℕ × Keyboard
decode scancode k =
    let down = key_down scancode k in
    if bit_and scancode 0x80 == 0
    then (return_char scancode down.shift_status down.caps_status, down)
    else (0, key_up (bit_and scancode 0x7F) k)

unfoldable pub handle_key : ℕ → Keyboard → Keyboard
handle_key scancode k =
    let (c, k1) = decode scancode k in
    deliver scancode (switch_terminal (screen_keys scancode (c, erase scancode k1)))

unfoldable pub keyboard_handler : ℕ → Keyboard → Keyboard
keyboard_handler scancode k =
    let k1 = handle_key scancode (record k { pic = disable_irq 1 k.pic }) in
    record k1 { pic = enable_irq 1 (send_eoi 1 k1.pic) }

unfoldable pub clear_keyboard_buffer : ℕ → Keyboard → Keyboard
clear_keyboard_buffer terminal k = record k {
  buffer_idx = store k.buffer_idx terminal 0;
  buffer =
      store k.buffer terminal (for_range buffer_size 0 (λ i b. store b i 0) (k.buffer terminal));
}

-- The number of characters that a read of `nbytes` takes.
unfoldable pub line_length : ℕ → ℤ → ℕ
line_length idx (pos n) = min idx n
line_length idx (negsuc n) = 0

-- `keyboard_read`: what stands behind the buffer's pointer and the state, `none` while the loop waits
-- for the enter key. The buffer is not null.
unfoldable pub keyboard_read :
    (pcb_terminal : ℕ) → (ℕ → ℕ) → ℤ → Keyboard → Option (ℤ × (ℕ → ℕ) × Keyboard)
unfolding line_length clear_keyboard_buffer
keyboard_read pcb_terminal buf nbytes k =
    let t = k.active_terminal in
    let n = line_length (k.buffer_idx t) nbytes in
    if (k.enter_status == 0) || not (pcb_terminal == t)
    then if ltb_ℤ nbytes (pos 0)
      then some (minus_one, buf, k)
      else if is_zero nbytes
      then some (pos 0, buf, k)
      else none
    else some (
      pos n,
      for_range n 0 (λ i b. store b i (k.buffer t i)) buf,
      clear_keyboard_buffer t (record k { enter_status = 0 }),
    )

-- `terminal_write` of a buffer that is not null: NULs are not printed.
unfoldable pub terminal_write : (pcb_terminal : ℕ) → (ℕ → ℕ) → ℤ → Keyboard → ℤ × Keyboard
terminal_write pcb_terminal buf (negsuc n) k = (minus_one, k)
terminal_write pcb_terminal buf (pos n) k = (
  pos n,
  record k {
    enter_status = 0;
    screen = for_range n 0 (λ i s. if buf i == 0 then s else putc (buf i) pcb_terminal s) k.screen;
  },
)

-- `clear` resets the cursor of the active terminal.
unfoldable pub terminal_open : (pcb_terminal : ℕ) → Keyboard → ℤ × Keyboard
unfolding clear_keyboard_buffer
terminal_open pcb_terminal k =
    let k1 = clear_keyboard_buffer pcb_terminal (record k { enter_status = 0 }) in
    (pos 0, record k1 { screen = clear k1.active_terminal pcb_terminal k1.screen })
