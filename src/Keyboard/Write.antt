-- ===== src/Keyboard/Write.antt =====
-- Writing a text to a terminal.
use linux_based_os.Prelude.{ℕ, ◌+◌, ◌<◌, ◌≤◌, ◌≡◌, ◌≢◌, refl, pos}
use linux_based_os.Screen.Bounds.{InBounds}
use linux_based_os.Screen.Cursor.{at_cell, Printable}
use linux_based_os.Screen.Text.{Shown, show_text}
use linux_based_os.Keyboard.{Keyboard, terminal_write}

-- From a cursor on the screen, `terminal_write` of `n` characters, none of them a NUL, a line break
-- or a tab, that end before the last cell returns `n`: they stand with the attribute 7 in the cells
-- from the cursor on, no other byte of video memory changes, the cursor of this terminal is `n`
-- cells on and no other moves. Besides the screen only the flag of the enter key changes, to 0.
pub terminal_write_lem :
    (t n : ℕ) (buf : ℕ → ℕ) (k : Keyboard)
    → InBounds k.screen
    → ((i : ℕ) → i < n → (buf i ≢ 0) × Printable (buf i))
    → at_cell t k.screen + n ≤ 1999
    → (r : Keyboard) × (terminal_write t buf (pos n) k ≡ (pos n, r))
      × Shown t buf k.screen n r.screen
      × (r ≡ record k { enter_status = 0; screen = r.screen })
unfolding terminal_write
terminal_write_lem t n buf k h visible room =
    ((terminal_write t buf (pos n) k).1, refl, show_text t buf k.screen n h visible room, refl)
