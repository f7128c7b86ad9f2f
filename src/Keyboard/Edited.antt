-- ===== src/Keyboard/Edited.antt =====
-- The handler makes of the codes the line that they mean.
use linux_based_os.Prelude.{
  ℕ, ◌+◌, ◌<◌, ◌≡◌, ◌≢◌, refl, ap, ◌∙◌, arith, List, ◌∷◌, length, ◌==◌, ◌||◌, if◌then◌else◌,
}
use linux_based_os.Keyboard.{
  Keyboard, keyboard_handler, handle_key, decode, key_up, key_down, return_char,
}
use linux_based_os.Keyboard.Typing.{
  IsPlain, Edits, over, pressed, erased, left_shift, right_shift, caps_lock, released, keys,
  shorter, Shows,
}
use linux_based_os.Keyboard.Keys.{
  silent, key_down-plain, down_bit, up_bit, key_of_release, erase_none, screen_keys_none,
  switch_terminal_none, deliver-Shows, erase-Shows, silent_key, Shows-pic,
}

no_character :
    (code : ℕ) (k k1 : Keyboard) {c : ℕ} → c ≡ 0 → decode code k ≡ (c, k1) → decode code k ≡ (0, k1)
no_character code k k1 e run = run ∙ ap (λ x. (x, k1)) e

decode_erase : (k : Keyboard) → decode 14 k ≡ (0, k)
unfolding decode key_down
decode_erase k = ap (λ x. (x, k)) (silent 14 k.shift_status k.caps_status refl refl)

decode_left : (k : Keyboard) → decode 42 k ≡ (0, record k { shift_status = 1 })
unfolding decode key_down
decode_left k = ap (λ x. (x, record k { shift_status = 1 })) (silent 42 1 k.caps_status refl refl)

decode_right : (k : Keyboard) → decode 54 k ≡ (0, record k { shift_status = 1 })
unfolding decode key_down
decode_right k = ap (λ x. (x, record k { shift_status = 1 })) (silent 54 1 k.caps_status refl refl)

decode_caps :
    (k : Keyboard)
    → decode 58 k ≡ (0, record k { caps_status = if k.caps_status == 0 then 1 else 0 })
unfolding decode key_down
decode_caps k =
    let caps = if k.caps_status == 0 then 1 else 0 in
    ap (λ x. (x, record k { caps_status = caps })) (silent 58 k.shift_status caps refl refl)

decode_release : (code : ℕ) (k : Keyboard) → code < 128 → decode (code + 128) k ≡ (0, key_up code k)
unfolding decode
decode_release code k h = rw (up_bit code h, key_of_release code h) refl

module _ (t shift caps : ℕ) (l : List ℕ) (k : Keyboard) (s : Shows t shift caps l k) where
  decode_plain :
      (code : ℕ) → IsPlain shift caps code → decode code k ≡ (return_char code shift caps, k)
  unfolding decode
  decode_plain code p =
      rw (down_bit code p.down, key_down-plain shift caps code k p)
        (ap (λ x. (x, k))
          (ap (λ u. return_char code u k.caps_status) s.shift_is
            ∙ ap (return_char code shift) s.caps_is))

  not_erase : (code : ℕ) → IsPlain shift caps code → code ≢ 14
  not_erase code p e =
      p.visible (ap (λ i. return_char i shift caps) e ∙ silent 14 shift caps refl refl)

  press :
      (code : ℕ)
      → IsPlain shift caps code
      → length l < 127
      → Shows t shift caps (return_char code shift caps ∷ l) (handle_key code k)
  unfolding handle_key
  press code p short =
      let c = return_char code shift caps in
      rw
        (
          decode_plain code p,
          erase_none code k (not_erase code p),
          screen_keys_none code c k p.not_tab s.ctrl,
          switch_terminal_none c k s.alt,
        )
        (deliver-Shows t shift caps code c l k p.not_escape p.visible short s)

  press_erase : Shows t shift caps (shorter l) (handle_key 14 k)
  press_erase =
      silent_key t shift caps 14 (shorter l) k k (omega arith) (decode_erase k)
        (erase-Shows t shift caps l k s)

  with_shift : (n : ℕ) → Shows t n caps l (record k { shift_status = n })
  with_shift n = record {
    terminal = s.terminal;
    shift_is = refl;
    caps_is = s.caps_is;
    ctrl = s.ctrl;
    alt = s.alt;
    index = s.index;
    room = s.room;
    line = s.line;
  }

  with_caps :
      Shows t shift
        (if caps == 0 then 1 else 0)
        l
        (record k { caps_status = if k.caps_status == 0 then 1 else 0 })
  with_caps = record {
    terminal = s.terminal;
    shift_is = s.shift_is;
    caps_is = ap (λ c. if c == 0 then 1 else 0) s.caps_is;
    ctrl = s.ctrl;
    alt = s.alt;
    index = s.index;
    room = s.room;
    line = s.line;
  }

  without :
      (code : ℕ)
      → Shows t (if (code == 42) || (code == 54) then 0 else shift) caps l (key_up code k)
  unfolding key_up
  without code = record {
    terminal = s.terminal;
    shift_is = ap (λ n. if (code == 42) || (code == 54) then 0 else n) s.shift_is;
    caps_is = s.caps_is;
    ctrl = ground (arith, s.ctrl);
    alt = ground (arith, s.alt);
    index = s.index;
    room = s.room;
    line = s.line;
  }

-- A key that only sets a modifier.
modifier :
    (t shift caps code : ℕ) (l : List ℕ) (k k1 : Keyboard)
    → code ≢ 14
    → code ≢ 15
    → decode code k ≡ (0, k1)
    → Shows t shift caps l k1
    → Shows t shift caps l (handle_key code k)
modifier t shift caps code l k k1 e h run s =
    silent_key t shift caps code l k k1 h run (rw (erase_none code k1 e) s)

-- The handler does its work on the line with the request of the keyboard masked.
handled :
    (t shift caps shift' caps' code : ℕ) (l l' : List ℕ) (k : Keyboard)
    → ((j : Keyboard) → Shows t shift caps l j → Shows t shift' caps' l' (handle_key code j))
    → Shows t shift caps l k
    → Shows t shift' caps' l' (keyboard_handler code k)
unfolding keyboard_handler
handled t shift caps shift' caps' code l l' k step s =
    Shows-pic t shift' caps' l' _ _ (step _ (Shows-pic t shift caps l k _ s))

-- Codes that mean the line `m` make it.
pub keys-Shows :
    (t : ℕ) {shift caps : ℕ} {codes l m : List ℕ}
    → Edits shift caps codes l m
    → (k : Keyboard) → Shows t shift caps l k
    → (shift' : ℕ) × (caps' : ℕ) × Shows t shift' caps' m (keys codes k)
keys-Shows t {shift} {caps} over k s = (shift, caps, s)
keys-Shows t {shift} {caps} {l = l} (pressed code p short more) k s = keys-Shows t more _ (
    handled t shift caps shift caps code l (return_char code shift caps ∷ l) k
      (λ j q. press t shift caps l j q code p short) s)
keys-Shows t {shift} {caps} {l = l} (erased more) k s =
    keys-Shows t more _
      (handled t shift caps shift caps 14 l (shorter l) k (λ j q. press_erase t shift caps l j q) s)
keys-Shows t {shift} {caps} {l = l} (left_shift more) k s = keys-Shows t more _ (
    handled t shift caps 1 caps 42 l l k
      (λ j q.
        modifier t 1 caps 42 l j _ (omega arith) (omega arith) (decode_left j)
          (with_shift t shift caps l j q 1))
      s)
keys-Shows t {shift} {caps} {l = l} (right_shift more) k s = keys-Shows t more _ (
    handled t shift caps 1 caps 54 l l k
      (λ j q.
        modifier t 1 caps 54 l j _ (omega arith) (omega arith) (decode_right j)
          (with_shift t shift caps l j q 1))
      s)
keys-Shows t {shift} {caps} {l = l} (caps_lock more) k s = keys-Shows t more _ (
    handled t shift caps shift _ 58 l l k
      (λ j q.
        modifier t shift _ 58 l j _ (omega arith) (omega arith) (decode_caps j)
          (with_caps t shift caps l j q))
      s)
keys-Shows t {shift} {caps} {l = l} (released code h more) k s = keys-Shows t more _ (
    handled t shift caps _ caps (code + 128) l l k
      (λ j q.
        modifier t _ caps (code + 128) l j _ (omega arith) (omega arith) (decode_release code j h)
          (without t shift caps l j q code))
      s)
