-- ===== src/Printf.antt =====
-- student-distrib/lib.c: `printf`. The stack behind `format` is a function from an offset to the word
-- there, `text` gives the memory behind an address, which `%s` prints, and `conv_buf` is what
-- stands in the buffer of that name before it is written. Loops that a NUL ends run on fuel.
pub mod Numbers
pub mod Plain
use linux_based_os.Prelude.{
  ℕ, zero, suc, ◌+◌, ◌-◌, ◌^◌, ◌==◌, ltb, if◌then◌else◌, Option, none, some, store, for_range, Bool,
  true, false, u8, u32,
}
use linux_based_os.Strings.{Str, strlen}
use linux_based_os.Strings.Digits.{itoa}
use linux_based_os.Screen.{Screen, putc, puts}

-- The string behind `&s[k]`.
abbrev pub behind : ℕ → Str → Str
behind k s j = s (j + k)

-- `s` when its part from `k` on has become `t`.
abbrev pub with_behind : ℕ → Str → Str → Str
with_behind k t s j = if ltb j k then s j else t (j - k)

-- `while (i < 8)`
unfoldable pub zero_fill : (i : ℕ) → Str → Str
unfolding for_range
zero_fill i conv_buf = for_range (8 - i) i (λ j s. store s j b'0') conv_buf

-- `&conv_buf[starting_index]` of `%#x`, from the length of the digits at `&conv_buf[8]`.
padded : (starting_index : Option ℕ) → Str → Option Str
unfolding zero_fill
padded none conv_buf = none
padded (some starting_index) conv_buf =
    some (behind starting_index (zero_fill starting_index conv_buf))

-- `conv_buf` after a part of it was printed to.
filled_in : (k : ℕ) → Option Str → Str → Option Str
filled_in k none conv_buf = none
filled_in k (some digits) conv_buf = some (with_behind k digits conv_buf)

hex_padded : (fuel : ℕ) → Option Str → Option Str
unfolding padded
hex_padded fuel none = none
hex_padded fuel (some conv_buf) = padded (strlen fuel (behind 8 conv_buf)) conv_buf

-- What `%x`, `%#x`, `%u` and `%d` hand to `puts`.
unfoldable pub hex_text : (fuel : ℕ) → (alternate : Bool) → (word : ℕ) → Str → Option Str
unfolding hex_padded filled_in
hex_text fuel false word conv_buf = itoa fuel word conv_buf 16
hex_text fuel true word conv_buf =
    hex_padded fuel (filled_in 8 (itoa fuel word (behind 8 conv_buf) 16) conv_buf)

unfoldable pub unsigned_text : (fuel word : ℕ) → Str → Option Str
unsigned_text fuel word conv_buf = itoa fuel word conv_buf 10

unfoldable pub signed_text : (fuel word : ℕ) → Str → Option Str
unfolding filled_in
signed_text fuel word conv_buf =
    if ltb word (2 ^ 31)
    then itoa fuel word conv_buf 10
    else filled_in 1 (itoa fuel (2 ^ 32 - word) (behind 1 (store conv_buf 0 b'-')) 10)
        (store conv_buf 0 b'-')

-- What a conversion leaves: `buf`, `esp` and the screen.
abbrev pub Converted : Type 0
Converted = ℕ × ℕ × Screen

show_done : (buf esp : ℕ) → Option (ℕ × Screen) → Option Converted
show_done buf esp none = none
show_done buf esp (some (index, screen)) = some (buf, esp + 1, screen)

-- `buf++` behind a conversion
print_behind :
    (next : ℕ → ℕ → Screen → Option (ℕ × Screen)) → Option Converted → Option (ℕ × Screen)
print_behind next none = none
print_behind next (some (buf, esp, screen)) = next (buf + 1) esp screen

module _ (fuel active_terminal : ℕ) where
  -- `puts` of the text, `esp++` and `break`
  show : (buf esp : ℕ) → Option Str → Screen → Option Converted
  unfolding show_done
  show buf esp none screen = none
  show buf esp (some s) screen = show_done buf esp (puts fuel active_terminal s screen)

  module _ (format : Str) (stack : ℕ → ℕ) (text : ℕ → Str) (conv_buf : Str) where
    -- `format_char_switch`
    convert : (rounds : ℕ) → (alternate : Bool) → (buf esp : ℕ) → Screen → Option Converted
    unfolding show
    convert zero alternate buf esp screen = none
    convert (suc rounds) alternate buf esp screen =
        let c = format buf in
        let word = stack esp in
        let again = convert rounds true (buf + 1) esp screen in
        if c == b'%'
        then some (buf, esp, putc b'%' active_terminal screen)
        else if c == b'#'
        then again
        else if c == b'x'
        then show buf esp (hex_text fuel alternate word conv_buf) screen
        else if c == b'u'
        then show buf esp (unsigned_text fuel word conv_buf) screen
        else if c == b'd'
        then show buf esp (signed_text fuel word conv_buf) screen
        else if c == b'c'
        then some (buf, esp + 1, putc (u8 word) active_terminal screen)
        else if c == b's'
        then show buf esp (some (text word)) screen
        else some (buf, esp, screen)

    -- `while (*buf != '\0')`: where `buf` stops, and the screen.
    print_from : (rounds buf esp : ℕ) → Screen → Option (ℕ × Screen)
    unfolding convert print_behind
    print_from zero buf esp screen = none
    print_from (suc rounds) buf esp screen =
        let next = print_from rounds in
        let converted = convert fuel false (buf + 1) esp screen in
        if format buf == 0
        then some (buf, screen)
        else if format buf == b'%'
        then print_behind next converted
        else next (buf + 1) esp (putc (format buf) active_terminal screen)

    -- The return value and the screen.
    unfoldable pub printf : Screen → Option (ℕ × Screen)
    unfolding print_from
    printf screen = print_from fuel 0 0 screen
