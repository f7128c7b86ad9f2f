-- ===== src/Keyboard/Letters.antt =====
-- Which character a key gives.
use linux_based_os.Prelude.{
  ℕ, ◌+◌, ◌-◌, ◌<◌, ◌≤◌, ◌≡◌, arith, ◌==◌, leb, ◌&&◌, ◌||◌, not, Bool, if◌then◌else◌, get_or,
  all_below, all_below_sound, bit_xor, inl, inr, ◌⊎◌, refl,
}
use linux_based_os.Keyboard.{keyboard_us, keyboard_us_shift, return_char}

-- The key of a small letter.
pub record IsLetter (code : ℕ) : Type 0 where
  pub code_fits : code < 128
  pub low : 97 ≤ get_or keyboard_us code 0
  pub high : get_or keyboard_us code 0 ≤ 122

-- A flag of a key.
abbrev pub IsFlag : ℕ → Type 0
IsFlag f = (f ≡ 0) ⊎ (f ≡ 1)

abbrev pub letter_test : ℕ → Bool
letter_test code =
    not (leb 97 (get_or keyboard_us code 0) && leb (get_or keyboard_us code 0) 122)
    || (get_or keyboard_us_shift code 0 + 32 == get_or keyboard_us code 0)

capital :
    (code : ℕ) → IsLetter code → get_or keyboard_us_shift code 0 + 32 ≡ get_or keyboard_us code 0
unfolding all_below
capital code h =
    let t = all_below_sound 128 letter_test code refl h.code_fits in
    ground (arith, t, h.low, h.high)

xor_flags : (s c : ℕ) → IsFlag s → IsFlag c → (bit_xor s c == 0) ≡ (s == c)
xor_flags s c (inl a) (inl b) = rw (a, b) refl
xor_flags s c (inl a) (inr b) = rw (a, b) refl
xor_flags s c (inr a) (inl b) = rw (a, b) refl
xor_flags s c (inr a) (inr b) = rw (a, b) refl

-- The key of a letter gives the small letter when shift and caps lock are both on or both off, and
-- the capital one, 32 below it, when one of them is on.
pub return_char_lem :
    (code shift caps : ℕ)
    → IsLetter code
    → IsFlag shift
    → IsFlag caps
    → return_char code shift caps
      ≡ (if shift == caps then get_or keyboard_us code 0 else get_or keyboard_us code 0 - 32)
unfolding return_char
return_char_lem code shift caps h s c =
    let big = capital code h in ground (arith, big, h.low, h.high, xor_flags shift caps s c)
