-- ===== src/Keyboard/Keys.antt =====
-- What the handler does with each kind of key, on a line that is shown.
use linux_based_os.Prelude.{
  decrement, ◌/◌, ◌%◌, ℕ, ◌+◌, ◌<◌, ◌≡◌, ◌≢◌, refl, sym, ap, ◌∙◌, subst, arith, List, [], ◌∷◌,
  length, get_or, store, lt→ltb, ltb-false, ==_false, ==_refl, ◌==◌, not, bit_and, all_below,
  all_below_sound, ==_iff, true, false,
}
use linux_based_os.Keyboard.{
  Keyboard, keyboard_us, keyboard_us_shift, handle_key, decode, key_down, return_char, erase,
  screen_keys, switch_terminal, deliver,
}
use linux_based_os.Keyboard.Typing.{IsPlain, shorter, Line, Shows, Line-store, Line-cons}
use linux_based_os.Pic.{Pic}

-- A key with no character in either table gives none.
pub silent :
    (code shift caps : ℕ)
    → get_or keyboard_us code 0 ≡ 0
    → get_or keyboard_us_shift code 0 ≡ 0
    → return_char code shift caps ≡ 0
unfolding return_char
silent code shift caps a b = rw (a, b) (ground arith)

plain_ne :
    (shift caps code d : ℕ)
    → IsPlain shift caps code
    → get_or keyboard_us d 0 ≡ 0
    → get_or keyboard_us_shift d 0 ≡ 0
    → (code == d) ≡ false
plain_ne shift caps code d p a b =
    ==_false code d
      (λ e. p.visible (ap (λ i. return_char i shift caps) e ∙ silent d shift caps a b))

pub key_down-plain :
    (shift caps code : ℕ) (k : Keyboard) → IsPlain shift caps code → key_down code k ≡ k
unfolding key_down
key_down-plain shift caps code k p =
    rw
      (
        plain_ne shift caps code 42 p refl refl,
        plain_ne shift caps code 54 p refl refl,
        plain_ne shift caps code 29 p refl refl,
        plain_ne shift caps code 56 p refl refl,
        plain_ne shift caps code 59 p refl refl,
        plain_ne shift caps code 60 p refl refl,
        plain_ne shift caps code 61 p refl refl,
        plain_ne shift caps code 58 p refl refl,
        ==_false code 28 p.not_enter,
      )
      refl

pub down_bit : (code : ℕ) → code < 128 → (bit_and code 0x80 == 0) ≡ true
unfolding all_below
down_bit code h = all_below_sound 128 (λ c. bit_and c 0x80 == 0) code refl h

pub up_bit : (code : ℕ) → code < 128 → (bit_and (code + 128) 0x80 == 0) ≡ false
unfolding all_below
up_bit code h =
    let t = all_below_sound 128 (λ c. not (bit_and (c + 128) 0x80 == 0)) code refl h in
    ground (arith, t)

pub key_of_release : (code : ℕ) → code < 128 → bit_and (code + 128) 0x7F ≡ code
unfolding all_below
key_of_release code h =
    let t = all_below_sound 128 (λ c. bit_and (c + 128) 0x7F == c) code refl h in
    (==_iff (bit_and (code + 128) 0x7F) code).0 t

pub erase_none : (code : ℕ) (k : Keyboard) → code ≢ 14 → erase code k ≡ k
unfolding erase
erase_none code k h = rw (==_false code 14 h) refl

pub screen_keys_none :
    (code c : ℕ) (k : Keyboard) → code ≢ 15 → k.ctrl_status ≡ 0 → screen_keys code (c, k) ≡ (c, k)
unfolding screen_keys
screen_keys_none code c k h e = rw (==_false code 15 h, e) refl

pub switch_terminal_none :
    (c : ℕ) (k : Keyboard) → k.alt_status ≡ 0 → switch_terminal (c, k) ≡ (c, k)
unfolding switch_terminal
switch_terminal_none c k e = rw e refl

deliver_none : (code : ℕ) (k : Keyboard) → deliver code (0, k) ≡ k
unfolding deliver
deliver_none code k = refl

pub store_at : {A : Type 0} (f : ℕ → A) (i : ℕ) (v : A) → store f i v i ≡ v
store_at f i v = rw (==_refl i) refl

-- A character that is delivered ends the line.
deliver_here :
    (shift caps code c : ℕ) (l : List ℕ) (k : Keyboard)
    → code ≢ 1
    → c ≢ 0
    → length l < 127
    → Shows k.active_terminal shift caps l k
    → Shows k.active_terminal shift caps (c ∷ l) (deliver code (c, k))
unfolding deliver
deliver_here shift caps code c l k e v short s =
    let t = k.active_terminal in
    let i = k.buffer_idx t in
    rw (==_false c 0 v, ==_false code 1 e, s.ctrl, lt→ltb i 128 (omega (arith, s.index)))
      (record {
        terminal = refl;
        shift_is = s.shift_is;
        caps_is = s.caps_is;
        ctrl = refl;
        alt = s.alt;
        index = store_at k.buffer_idx t (i + 1) ∙ omega (arith, s.index);
        room = omega arith;
        line =
            subst (λ b. Line b (c ∷ l)) (sym (store_at k.buffer t (store (k.buffer t) i c)))
              (Line-cons (k.buffer t) i c l s.index s.line);
      })

-- The backspace key takes the last character away.
erase_here :
    (shift caps : ℕ) (l : List ℕ) (k : Keyboard)
    → Shows k.active_terminal shift caps l k
    → Shows k.active_terminal shift caps (shorter l) (erase 14 k)
unfolding erase
erase_here shift caps [] k s =
    let t = k.active_terminal in rw (ltb-false 0 (k.buffer_idx t) (omega (arith, s.index))) s
erase_here shift caps (c ∷ l) k s =
    let t = k.active_terminal in
    let i = k.buffer_idx t in
    let row : t + i / 128 ≡ t = omega (arith, s.index, s.room) in
    let column : i % 128 ≡ i = omega (arith, s.index, s.room) in
    rw (lt→ltb 0 i (omega (arith, s.index)), row, column)
      (record {
        terminal = refl;
        shift_is = s.shift_is;
        caps_is = s.caps_is;
        ctrl = s.ctrl;
        alt = s.alt;
        index = store_at k.buffer_idx t (decrement i) ∙ omega (arith, s.index, s.room);
        room = omega (arith, s.room);
        line =
            subst (λ b. Line b l) (sym (store_at k.buffer t (store (k.buffer t) i 0)))
              (Line-store (k.buffer t) i 0 l (omega (arith, s.index)) s.line.1);
      })

module _ (t shift caps : ℕ) where
  pub deliver-Shows :
      (code c : ℕ) (l : List ℕ) (k : Keyboard)
      → code ≢ 1
      → c ≢ 0
      → length l < 127
      → Shows t shift caps l k
      → Shows t shift caps (c ∷ l) (deliver code (c, k))
  deliver-Shows code c l k e v short s =
      subst (λ u. Shows u shift caps l k → Shows u shift caps (c ∷ l) (deliver code (c, k)))
        s.terminal (deliver_here shift caps code c l k e v short) s

  pub erase-Shows :
      (l : List ℕ) (k : Keyboard)
      → Shows t shift caps l k
      → Shows t shift caps (shorter l) (erase 14 k)
  erase-Shows l k s =
      subst (λ u. Shows u shift caps l k → Shows u shift caps (shorter l) (erase 14 k)) s.terminal
        (erase_here shift caps l k) s

  -- A key without a character is done when its modifiers are set and the line is erased.
  pub silent_key :
      (code : ℕ) (l : List ℕ) (k k1 : Keyboard)
      → code ≢ 15
      → decode code k ≡ (0, k1)
      → Shows t shift caps l (erase code k1)
      → Shows t shift caps l (handle_key code k)
  unfolding handle_key
  silent_key code l k k1 h run s =
      rw
        (
          run,
          screen_keys_none code 0 (erase code k1) h s.ctrl,
          switch_terminal_none 0 (erase code k1) s.alt,
          deliver_none code (erase code k1),
        )
        s

  -- The interrupt controller has no part in the line.
  pub Shows-pic :
      (l : List ℕ) (k : Keyboard) (p : Pic)
      → Shows t shift caps l k
      → Shows t shift caps l (record k { pic = p })
  Shows-pic l k p s = record {
    terminal = s.terminal;
    shift_is = s.shift_is;
    caps_is = s.caps_is;
    ctrl = s.ctrl;
    alt = s.alt;
    index = s.index;
    room = s.room;
    line = s.line;
  }
