-- ===== src/Tests/Devices.antt =====
-- Runs on the screen, the interrupt controllers and the clock.
use linux_based_os.Prelude.{some, ℕ, ◌+◌, ◌≡◌, arith, pos, []}
use linux_based_os.Screen.{Screen, putc, backspace, tab, clear, scroll_up}
use linux_based_os.Screen.Bounds.{InBounds, screen_stays_InBounds}
use linux_based_os.Screen.Cells.{ScrolledUp, scroll_up_lem}
use linux_based_os.Pic.{Pic}
use linux_based_os.Keyboard.{Keyboard, keyboard_handler, keyboard_read}
use linux_based_os.Keyboard.Invariant.{IsKeyboard, keyboard_handler-IsKeyboard}
use linux_based_os.Keyboard.Line.{Taken, keyboard_read_lem}
use linux_based_os.Rtc.{rtc_write}
use linux_based_os.Rtc.Rate.{Fits, register_a_set, rtc_write_lem}

-- The cursor of each terminal in column 79 of row 3.
abbrev pub screen : Screen
screen = record { screen_x = λ t. 79; screen_y = λ t. 3; video = λ a. 46; ports = [] }

pub screen-InBounds : InBounds screen
screen-InBounds = record { column = λ t. omega arith; row = λ t. omega arith }

screen_stays_InBounds_example :
    InBounds (putc 10 1 screen)
    × InBounds (backspace 1 screen)
    × InBounds (tab 1 screen)
    × InBounds (clear 0 1 screen)
screen_stays_InBounds_example = screen_stays_InBounds 10 1 0 screen screen-InBounds

scroll_up_example : ScrolledUp 1 screen (scroll_up 1 screen)
scroll_up_example = scroll_up_lem 1 screen

-- Every request is held back.
abbrev pub pic : Pic
pic = record { master_mask = 255; slave_mask = 255; ports = [] }

rtc_write_example :
    (rate : ℕ) × (rtc_write 0x26 (pos 100) (pos 4) pic ≡ (pos 0, register_a_set (0x20 + rate) pic))
    × Fits 100 rate
rtc_write_example = rtc_write_lem 0x26 100 pic (omega arith) (omega arith) (omega arith)

-- The keys "a" and "b" have been typed on the second terminal, and enter.
abbrev pub two_keys : Keyboard
two_keys = record {
  alt_status = 0;
  f1_status = 0;
  f2_status = 0;
  f3_status = 0;
  ctrl_status = 0;
  shift_status = 0;
  caps_status = 1;
  enter_status = 1;
  active_terminal = 1;
  buffer = λ t i. 97 + i;
  buffer_idx = λ t. 2;
  screen = screen;
  pic = pic;
}

keyboard_handler_example : IsKeyboard (keyboard_handler 30 two_keys)
keyboard_handler_example =
    keyboard_handler-IsKeyboard 30 two_keys
      (record { cursors = screen-InBounds; lines = λ t. omega arith; terminal = omega arith })

keyboard_read_example :
    (out : ℕ → ℕ) × (r : Keyboard) × (keyboard_read 1 (λ j. 0) (pos 9) two_keys
      ≡ some (pos 2, out, r))
    × Taken two_keys r 2 (λ j. 0) out
keyboard_read_example = keyboard_read_lem 9 (λ j. 0) two_keys (omega arith)
