-- ===== src/Keyboard/Invariant.antt =====
-- The invariant of the keyboard driver: the cursors are on the screen, no line is longer than its
-- buffer, and the active terminal is one of the three.
use linux_based_os.Prelude.{
  decrement, ◌≡◌, true, ℕ, ◌+◌, ◌<◌, ◌≤◌, arith, ◌==◌, ltb, ◌&&◌, ◌||◌, not, Bool-cases,
  if◌then◌else◌, inl, inr, store, bit_and, ltb→lt,
}
use linux_based_os.Screen.{tab, clear}
use linux_based_os.Screen.Bounds.{InBounds, screen_stays_InBounds}
use linux_based_os.Pic.{disable_irq}
use linux_based_os.Keyboard.{
  Keyboard, key_up, key_down, erase, screen_keys, switch_terminal, deliver, decode, handle_key,
  keyboard_handler,
}

pub record IsKeyboard (k : Keyboard) : Type 0 where
  pub cursors : InBounds k.screen
  pub lines : (t : ℕ) → k.buffer_idx t ≤ 128
  pub terminal : k.active_terminal < 3

store_most : (f : ℕ → ℕ) (t v n : ℕ) → ((j : ℕ) → f j ≤ n) → v ≤ n → (j : ℕ) → store f t v j ≤ n
store_most f t v n h b j = ground (arith, h j)

decode-IsKeyboard : (code : ℕ) (k : Keyboard) → IsKeyboard k → IsKeyboard (decode code k).1
unfolding decode key_up key_down
decode-IsKeyboard code k h = elim (Bool-cases (bit_and code 0x80 == 0)) [
  | inl e ↦ rw e (record { cursors = h.cursors; lines = h.lines; terminal = h.terminal })
  | inr e ↦ rw e (record { cursors = h.cursors; lines = h.lines; terminal = h.terminal })
]

shorter_line : (code i : ℕ) → i ≤ 128 → ((code == 14) && ltb 0 i) ≡ true → decrement i ≤ 128
shorter_line code i h e = ground (arith, e)

erase-IsKeyboard : (code : ℕ) (k : Keyboard) → IsKeyboard k → IsKeyboard (erase code k)
unfolding erase
erase-IsKeyboard code k h =
    let t = k.active_terminal in
    elim (Bool-cases ((code == 14) && ltb 0 (k.buffer_idx t))) [
      | inl e ↦ rw e (record {
        cursors = (screen_stays_InBounds 0 t t k.screen h.cursors).1;
        lines =
            store_most k.buffer_idx t (decrement (k.buffer_idx t)) 128 h.lines
              (shorter_line code (k.buffer_idx t) (h.lines t) e);
        terminal = h.terminal;
      })
      | inr e ↦ rw e h
    ]

screen_keys-IsKeyboard :
    (code c : ℕ) (k : Keyboard) → IsKeyboard k → IsKeyboard (screen_keys code (c, k)).1
unfolding screen_keys
screen_keys-IsKeyboard code c k h =
    cleared (if code == 15 then 0 else c)
      (if code == 15 then record k { screen = tab k.active_terminal k.screen } else k) tabbed
  where
    tabbed :
        IsKeyboard (if code == 15 then record k { screen = tab k.active_terminal k.screen } else k)
    tabbed = elim (Bool-cases (code == 15)) [
      | inl e ↦ rw e (record {
        cursors = (screen_stays_InBounds 0 k.active_terminal 0 k.screen h.cursors).2;
        lines = h.lines;
        terminal = h.terminal;
      })
      | inr e ↦ rw e h
    ]

    cleared :
        (c1 : ℕ) (k1 : Keyboard)
        → IsKeyboard k1
        → IsKeyboard
            (if◌then◌else◌ {A = ℕ × Keyboard}
              (not (k1.ctrl_status == 0) && ((c1 == 108) || (c1 == 76)))
              (0, record k1 { screen = clear k.active_terminal k.active_terminal k1.screen })
              (c1, k1)).1
    cleared c1 k1 g = elim (Bool-cases (not (k1.ctrl_status == 0) && ((c1 == 108) || (c1 == 76)))) [
      | inl e ↦ rw e (record {
        cursors =
            (screen_stays_InBounds 0 k.active_terminal k.active_terminal k1.screen g.cursors).3;
        lines = g.lines;
        terminal = g.terminal;
      })
      | inr e ↦ rw e g
    ]

at_terminal :
    (t : ℕ) (k : Keyboard) → t < 3 → IsKeyboard k → IsKeyboard (record k { active_terminal = t })
at_terminal t k b h = record { cursors = h.cursors; lines = h.lines; terminal = b }

switch_terminal-IsKeyboard :
    (c : ℕ) (k : Keyboard) → IsKeyboard k → IsKeyboard (switch_terminal (c, k)).1
unfolding switch_terminal
switch_terminal-IsKeyboard c k h =
    elim (Bool-cases (not (k.alt_status == 0) && not (k.f1_status == 0))) [
      | inl e ↦ rw e (at_terminal 0 k (omega arith) h)
      | inr e ↦ elim (Bool-cases (not (k.alt_status == 0) && not (k.f2_status == 0))) [
        | inl f ↦ rw (e, f) (at_terminal 1 k (omega arith) h)
        | inr f ↦ elim (Bool-cases (not (k.alt_status == 0) && not (k.f3_status == 0))) [
          | inl g ↦ rw (e, f, g) (at_terminal 2 k (omega arith) h)
          | inr g ↦ rw (e, f, g) h
        ]
      ]
    ]

deliver-IsKeyboard : (code c : ℕ) (k : Keyboard) → IsKeyboard k → IsKeyboard (deliver code (c, k))
unfolding deliver
deliver-IsKeyboard code c k h =
    let t = k.active_terminal in
    elim (Bool-cases (not (c == 0) && (not (code == 1) && (k.ctrl_status == 0)))) [
      | inl e ↦ elim (Bool-cases (ltb (k.buffer_idx t) 128)) [
        | inl f ↦
            rw (e, f)
              (record {
                cursors = (screen_stays_InBounds c t t k.screen h.cursors).0;
                lines =
                    store_most k.buffer_idx t (k.buffer_idx t + 1) 128 h.lines
                      (omega (arith, ltb→lt (k.buffer_idx t) 128 f));
                terminal = h.terminal;
              })
        | inr f ↦
            rw (e, f)
              (record {
                cursors = (screen_stays_InBounds c t t k.screen h.cursors).0;
                lines = h.lines;
                terminal = h.terminal;
              })
      ]
      | inr e ↦ rw e h
    ]

handle_key-IsKeyboard : (code : ℕ) (k : Keyboard) → IsKeyboard k → IsKeyboard (handle_key code k)
unfolding handle_key
handle_key-IsKeyboard code k h =
    let (c1, k1) = decode code k in
    let k2 = erase code k1 in
    let (c3, k3) = screen_keys code (c1, k2) in
    let (c4, k4) = switch_terminal (c3, k3) in
    deliver-IsKeyboard code c4 k4 (
      switch_terminal-IsKeyboard c3 k3
        (screen_keys-IsKeyboard code c1 k2 (erase-IsKeyboard code k1 (decode-IsKeyboard code k h))))

-- Whatever key is pressed or released, the handler keeps every cursor on its screen, every line in
-- its buffer, and the active terminal one of the three.
pub keyboard_handler-IsKeyboard :
    (code : ℕ) (k : Keyboard) → IsKeyboard k → IsKeyboard (keyboard_handler code k)
unfolding keyboard_handler
keyboard_handler-IsKeyboard code k h =
    let masked = record k { pic = disable_irq 1 k.pic } in
    let g =
      handle_key-IsKeyboard code masked
        (record { cursors = h.cursors; lines = h.lines; terminal = h.terminal }) in
    record { cursors = g.cursors; lines = g.lines; terminal = g.terminal }
