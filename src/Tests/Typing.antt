-- ===== src/Tests/Typing.antt =====
-- A line that is typed on the second terminal: shift and A, a b that is taken back, and a c.
use linux_based_os.Prelude.{ℕ, ◌+◌, ◌<◌, ◌≡◌, refl, some, pos, arith, List, [], ◌∷◌}
use linux_based_os.Keyboard.{Keyboard, keyboard_handler, keyboard_read, return_char}
use linux_based_os.Keyboard.Typing.{
  IsPlain, Edits, over, pressed, erased, left_shift, released, keys, Line,
}
use linux_based_os.Keyboard.Entered.{keyboard_read-keys}
use linux_based_os.Tests.Devices.{two_keys}

abbrev fresh : Keyboard
fresh = record two_keys { caps_status = 0; enter_status = 0; buffer_idx = λ t. 0 }

abbrev codes : List ℕ
codes = 42 ∷ 30 ∷ (42 + 128) ∷ 48 ∷ (48 + 128) ∷ 14 ∷ 46 ∷ []

a-IsPlain : IsPlain 1 0 30
unfolding return_char
a-IsPlain = record {
  down = omega arith;
  not_escape = omega arith;
  not_tab = omega arith;
  not_enter = omega arith;
  visible = omega arith;
}

b-IsPlain : IsPlain 0 0 48
unfolding return_char
b-IsPlain = record {
  down = omega arith;
  not_escape = omega arith;
  not_tab = omega arith;
  not_enter = omega arith;
  visible = omega arith;
}

c-IsPlain : IsPlain 0 0 46
unfolding return_char
c-IsPlain = record {
  down = omega arith;
  not_escape = omega arith;
  not_tab = omega arith;
  not_enter = omega arith;
  visible = omega arith;
}

-- The last character first.
edits : Edits 0 0 codes [] (99 ∷ 65 ∷ [])
unfolding return_char
edits = left_shift (
    pressed 30 a-IsPlain (omega arith) (
      released 42 (omega arith) (
        pressed 48 b-IsPlain (omega arith)
          (released 48 (omega arith) (erased (pressed 46 c-IsPlain (omega arith) over))))))

keyboard_read-keys_example :
    (out : ℕ → ℕ) × (r : Keyboard) × (keyboard_read 1
        (λ j. 0)
        (pos 9)
        (keyboard_handler 28 (keys codes fresh))
      ≡ some (pos 3, out, r))
    × Line out (10 ∷ 99 ∷ 65 ∷ [])
    × ((j : ℕ) → 2 < j → out j ≡ 0)
    × (r.buffer_idx 1 ≡ 0)
keyboard_read-keys_example =
    keyboard_read-keys 9 (λ j. 0) fresh codes (99 ∷ 65 ∷ []) refl refl refl edits (omega arith)
