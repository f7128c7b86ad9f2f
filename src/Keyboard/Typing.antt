-- ===== src/Keyboard/Typing.antt =====
-- What keys mean for a line that is typed: characters, shift, caps lock, backspace, and releases.
use linux_based_os.Prelude.{
  ℕ, ◌+◌, ◌-◌, ◌<◌, ◌≤◌, ◌≡◌, ◌≢◌, refl, ◌∙◌, arith, List, [], ◌∷◌, length, store, ==_false,
  ==_refl, ◌==◌, ◌||◌, if◌then◌else◌,
}
use linux_based_os.Keyboard.{Keyboard, keyboard_handler, return_char}

-- A key that gives a character with these modifiers, and is none of escape, tab and enter.
pub record IsPlain (shift caps code : ℕ) : Type 0 where
  pub down : code < 128
  pub not_escape : code ≢ 1
  pub not_tab : code ≢ 15
  pub not_enter : code ≢ 28
  pub visible : return_char code shift caps ≢ 0

-- A line without its last character; an empty line stays empty.
abbrev pub shorter : List ℕ → List ℕ
shorter [] = []
shorter (c ∷ l) = l

-- Codes of keys, with the state of shift and caps lock before them, make the line `m` of the line `l`.
-- A line has its last character first, and at most 127.
pub data Edits : (shift caps : ℕ) → (codes l m : List ℕ) → Type 0 where
  over : {shift caps : ℕ} {l : List ℕ} → Edits shift caps [] l l
  pressed :
      {shift caps : ℕ} {codes l m : List ℕ} (code : ℕ)
      → IsPlain shift caps code
      → length l < 127
      → Edits shift caps codes (return_char code shift caps ∷ l) m
      → Edits shift caps (code ∷ codes) l m
  erased :
      {shift caps : ℕ} {codes l m : List ℕ}
      → Edits shift caps codes (shorter l) m
      → Edits shift caps (14 ∷ codes) l m
  left_shift :
      {shift caps : ℕ} {codes l m : List ℕ}
      → Edits 1 caps codes l m
      → Edits shift caps (42 ∷ codes) l m
  right_shift :
      {shift caps : ℕ} {codes l m : List ℕ}
      → Edits 1 caps codes l m
      → Edits shift caps (54 ∷ codes) l m
  caps_lock :
      {shift caps : ℕ} {codes l m : List ℕ}
      → Edits shift (if caps == 0 then 1 else 0) codes l m
      → Edits shift caps (58 ∷ codes) l m
  -- The code of a release is that of the key and 128.
  released :
      {shift caps : ℕ} {codes l m : List ℕ} (code : ℕ)
      → code < 128
      → Edits (if (code == 42) || (code == 54) then 0 else shift) caps codes l m
      → Edits shift caps ((code + 128) ∷ codes) l m

-- The handler, for one code after the other.
abbrev pub keys : List ℕ → Keyboard → Keyboard
keys [] k = k
keys (code ∷ codes) k = keys codes (keyboard_handler code k)

-- A buffer starts with a line.
abbrev pub Line : (ℕ → ℕ) → List ℕ → Type 0
Line b [] = Unit {0}
Line b (c ∷ l) = (b (length l) ≡ c) × Line b l

-- The line of terminal `t`, which is the active one, with neither control nor alt held.
pub record Shows (t shift caps : ℕ) (l : List ℕ) (k : Keyboard) : Type 0 where
  pub terminal : k.active_terminal ≡ t
  pub shift_is : k.shift_status ≡ shift
  pub caps_is : k.caps_status ≡ caps
  pub ctrl : k.ctrl_status ≡ 0
  pub alt : k.alt_status ≡ 0
  pub index : k.buffer_idx t ≡ length l
  pub room : length l < 128
  pub line : Line (k.buffer t) l

pub Line-same :
    (b b' : ℕ → ℕ) (l : List ℕ) → ((j : ℕ) → j < length l → b' j ≡ b j) → Line b l → Line b' l
Line-same b b' [] same h = tt
Line-same b b' (c ∷ l) same (last, h) =
    (same (length l) (omega arith) ∙ last, Line-same b b' l (λ j p. same j (omega arith)) h)

-- A store behind the line keeps it.
pub Line-store : (b : ℕ → ℕ) (i v : ℕ) (l : List ℕ) → length l ≤ i → Line b l → Line (store b i v) l
Line-store b i v l h = Line-same b (store b i v) l (λ j p. rw (==_false j i (omega arith)) refl)

-- A store at its end makes it longer.
pub Line-cons :
    (b : ℕ → ℕ) (i v : ℕ) (l : List ℕ) → i ≡ length l → Line b l → Line (store b i v) (v ∷ l)
Line-cons b i v l e h = (rw (e, ==_refl (length l)) refl, Line-store b i v l (omega (arith, e)) h)

pub Line-shorter : (b : ℕ → ℕ) (l : List ℕ) → Line b l → Line b (shorter l)
Line-shorter b [] h = tt
Line-shorter b (c ∷ l) (last, h) = h

pub length-shorter : (l : List ℕ) → length (shorter l) ≡ length l - 1
length-shorter [] = refl
length-shorter (c ∷ l) = omega arith
