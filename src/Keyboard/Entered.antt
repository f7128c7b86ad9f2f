-- ===== src/Keyboard/Entered.antt =====
-- A line that is typed and corrected, ended by the enter key, and read.
use linux_based_os.Prelude.{
  ℕ, ◌+◌, ◌<◌, ◌≤◌, ◌≡◌, ◌≢◌, refl, sym, ap, ◌∙◌, subst, arith, List, [], ◌∷◌, length, lt→ltb, min,
  some, pos,
}
use linux_based_os.Keyboard.{
  Keyboard, keyboard_handler, handle_key, decode, key_down, return_char, keyboard_read, deliver,
}
use linux_based_os.Pic.{disable_irq}
use linux_based_os.Keyboard.Line.{taken, keyboard_read_lem}
use linux_based_os.Keyboard.Typing.{Edits, keys, Line, Shows, Line-same, Line-cons}
use linux_based_os.Keyboard.Keys.{
  erase_none, screen_keys_none, switch_terminal_none, store_at, Shows-pic,
}
use linux_based_os.Keyboard.Edited.{keys-Shows}

-- The enter key has ended the line `l`.
record Ended (t : ℕ) (l : List ℕ) (r : Keyboard) : Type 0 where
  same_terminal : r.active_terminal ≡ t
  entered : r.enter_status ≡ 1
  index : r.buffer_idx t ≡ length l + 1
  line : Line (r.buffer t) (10 ∷ l)

enter_char : (shift caps : ℕ) → return_char 28 shift caps ≡ 10
unfolding return_char
enter_char shift caps = ground arith

decode_enter : (k : Keyboard) → decode 28 k ≡ (10, record k { enter_status = 1 })
unfolding decode key_down
decode_enter k =
    ap (λ x. (x, record k { enter_status = 1 })) (enter_char k.shift_status k.caps_status)

deliver_enter :
    (shift caps : ℕ) (l : List ℕ) (k : Keyboard)
    → k.enter_status ≡ 1
    → Shows k.active_terminal shift caps l k
    → Ended k.active_terminal l (deliver 28 (10, k))
unfolding deliver
deliver_enter shift caps l k e s =
    let t = k.active_terminal in
    let i = k.buffer_idx t in
    rw (s.ctrl, lt→ltb i 128 (omega (arith, s.index, s.room)))
      (record {
        same_terminal = refl;
        entered = e;
        index = store_at k.buffer_idx t (i + 1) ∙ omega (arith, s.index);
        line =
            subst (λ b. Line b (10 ∷ l)) (sym (store_at k.buffer t _))
              (Line-cons (k.buffer t) i 10 l s.index s.line);
      })

enter_handled :
    (shift caps : ℕ) (l : List ℕ) (k : Keyboard)
    → Shows k.active_terminal shift caps l k
    → Ended k.active_terminal l (handle_key 28 k)
unfolding handle_key
enter_handled shift caps l k s =
    let k1 = record k { enter_status = 1 } in
    rw
      (
        decode_enter k,
        erase_none 28 k1 (omega arith),
        screen_keys_none 28 10 k1 (omega arith) s.ctrl,
        switch_terminal_none 10 k1 s.alt,
      )
      (deliver_enter shift caps l k1 refl (record {
        terminal = refl;
        shift_is = s.shift_is;
        caps_is = s.caps_is;
        ctrl = s.ctrl;
        alt = s.alt;
        index = s.index;
        room = s.room;
        line = s.line;
      }))

enter_here :
    (shift caps : ℕ) (l : List ℕ) (k : Keyboard)
    → Shows k.active_terminal shift caps l k
    → Ended k.active_terminal l (keyboard_handler 28 k)
unfolding keyboard_handler
enter_here shift caps l k s =
    let q =
      enter_handled shift caps l _
        (Shows-pic k.active_terminal shift caps l k (disable_irq 1 k.pic) s) in
    record { same_terminal = q.same_terminal; entered = q.entered; index = q.index; line = q.line }

enter :
    (t shift caps : ℕ) (l : List ℕ) (k : Keyboard)
    → Shows t shift caps l k
    → Ended t l (keyboard_handler 28 k)
enter t shift caps l k s =
    subst (λ u. Shows u shift caps l k → Ended u l (keyboard_handler 28 k)) s.terminal
      (enter_here shift caps l k) s

-- A read on terminal `t` of a line of `len` characters.
abbrev ReadsLine : (n len : ℕ) → (buf : ℕ → ℕ) → Keyboard → ℕ → Type 0
ReadsLine n len buf k t =
    (out : ℕ → ℕ) × (r : Keyboard) × (keyboard_read t buf (pos n) k ≡ some (pos len, out, r))
    × ((j : ℕ) → out j ≡ taken len (k.buffer t) buf j)
    × (r.buffer_idx t ≡ 0)

read_line :
    (t n len : ℕ) (buf : ℕ → ℕ) (k : Keyboard)
    → k.active_terminal ≡ t
    → k.enter_status ≢ 0
    → k.buffer_idx t ≡ len
    → len ≤ n
    → ReadsLine n len buf k t
read_line t n len buf k e h idx enough =
    let (out, r, run, q) = keyboard_read_lem n buf k h in
    let all : ReadsLine n (min (k.buffer_idx k.active_terminal) n) buf k k.active_terminal =
      (out, r, run, q.chars, q.empty) in
    let same : min (k.buffer_idx t) n ≡ len = omega arith in
    subst (λ m. ReadsLine n m buf k t) same
      (subst (λ u. ReadsLine n (min (k.buffer_idx u) n) buf k u) e all)

-- On an empty line, with neither control nor alt held, let the handler take the codes of keys that
-- mean a line: keys with a character, with shift and caps lock as they stand then, backspaces,
-- shift and caps lock pressed, and releases, where no character comes when the line has 127. Then
-- comes the enter key. A read of more bytes than the line has on the active terminal returns the
-- characters of the line and a line break, writes nothing else, and leaves an empty line.
pub keyboard_read-keys :
    (n : ℕ) (buf : ℕ → ℕ) (k : Keyboard) (codes l : List ℕ)
    → k.ctrl_status ≡ 0
    → k.alt_status ≡ 0
    → k.buffer_idx k.active_terminal ≡ 0
    → Edits k.shift_status k.caps_status codes [] l
    → length l < n
    → (out : ℕ → ℕ) × (r : Keyboard) × (keyboard_read k.active_terminal buf
          (pos n)
          (keyboard_handler 28 (keys codes k))
        ≡ some (pos (length l + 1), out, r))
      × Line out (10 ∷ l)
      × ((j : ℕ) → length l < j → out j ≡ buf j)
      × (r.buffer_idx k.active_terminal ≡ 0)
keyboard_read-keys n buf k codes l ctrl alt empty edits enough =
    let t = k.active_terminal in
    let (shift, caps, s) = keys-Shows t edits k (record {
      terminal = refl;
      shift_is = refl;
      caps_is = refl;
      ctrl = ctrl;
      alt = alt;
      index = empty;
      room = omega arith;
      line = tt;
    }) in
    let k1 = keys codes k in
    let k2 = keyboard_handler 28 k1 in
    let e = enter t shift caps l k1 s in
    let (out, r, run, got, cleared) =
      read_line t n (length l + 1) buf k2 e.same_terminal (omega (arith, e.entered)) e.index
        (omega arith) in
    (
      out,
      r,
      run,
      Line-same (k2.buffer t) out (10 ∷ l) (λ j p. got j ∙ ground arith) e.line,
      λ j p. got j ∙ ground arith,
      cleared,
    )
