-- ===== src/Rtc.antt =====
-- student-distrib/rtc.c: the real-time clock. What `inb` reads from the device is an argument.
pub mod Rate
pub mod Wait
use linux_based_os.Prelude.{
  ℕ, ◌==◌, if◌then◌else◌, not, ◌||◌, ltb, leb, List, ◌++◌, ◌∷◌, [], ℤ, pos, negsuc, minus_one,
  is_zero, ltb_ℤ, bit_and, bit_or, Option, none, some, ◌>>=◌, ◌+◌, zero, suc, Bool, true, false,
}
use linux_based_os.Pic.{Pic, send, enable_irq, disable_irq, send_eoi}

abbrev pub rtc_reg_port : ℕ
rtc_reg_port = 0x70

abbrev pub rtc_cmos_port : ℕ
rtc_cmos_port = 0x71

abbrev pub rtc_irq : ℕ
rtc_irq = 8

abbrev pub disable_nmi : ℕ
disable_nmi = 0x80

-- The chain of comparisons on a frequency from 0 to 1024.
unfoldable pub set_frequency : ℕ → ℕ
set_frequency frequency =
    if frequency == 0
    then 0x00
    else if leb frequency 2
    then 0x0F
    else if leb frequency 4
    then 0x0E
    else if leb frequency 8
    then 0x0D
    else if leb frequency 16
    then 0x0C
    else if leb frequency 32
    then 0x0B
    else if leb frequency 64
    then 0x0A
    else if leb frequency 128
    then 0x09
    else if leb frequency 256
    then 0x08
    else if leb frequency 512
    then 0x07
    else 0x06

-- The port writes that set register A, whose value was `current_a`.
unfoldable pub set_rate : (current_a frequency : ℕ) → Pic → Pic
set_rate current_a frequency p =
    let rate = bit_and (set_frequency frequency) 0x0F in
    let p1 = send (bit_or 0x0A disable_nmi) rtc_reg_port (disable_irq rtc_irq p) in
    let p2 = send (bit_or 0x0A disable_nmi) rtc_reg_port p1 in
    enable_irq rtc_irq (send (bit_or (bit_and current_a 0xF0) rate) rtc_cmos_port p2)

-- `rtc_write` of the frequency that stands in the buffer. A null pointer is never tested for: the
-- second test is on the frequency.
unfoldable pub rtc_write : (current_a : ℕ) (frequency nbytes : ℤ) → Pic → ℤ × Pic
rtc_write current_a (negsuc f) nbytes p = (minus_one, p)
rtc_write current_a (pos f) nbytes p =
    if not (is_four nbytes)
    then (minus_one, p)
    else if f == 0
    then (minus_one, p)
    else if ltb 1024 f
    then (minus_one, p)
    else (pos 0, set_rate current_a f p)
  where
    is_four : ℤ → Bool
    is_four (pos n) = n == 4
    is_four (negsuc n) = false

-- The result of `rtc_write` is dropped.
unfoldable pub rtc_init : (current_b current_a : ℕ) → Pic → Pic
rtc_init current_b current_a p =
    let p1 = send (bit_or 0x0B disable_nmi) rtc_reg_port p in
    let p2 = send (bit_or 0x0B disable_nmi) rtc_reg_port p1 in
    let p3 = send (bit_or current_b 0x40) rtc_cmos_port p2 in
    let (_, p4) = rtc_write current_a (pos 0) (pos 4) p3 in enable_irq rtc_irq p4

unfoldable pub rtc_open : (current_a : ℕ) → Pic → ℤ × Pic
rtc_open current_a p = let (_, p1) = rtc_write current_a (pos 2) (pos 4) p in (pos 0, p1)

-- The flag `interrupt_occurred` and the controllers.
unfoldable pub rtc_interrupt : Pic → ℕ × Pic
rtc_interrupt p =
    let p1 = send 0x0C rtc_reg_port (disable_irq rtc_irq p) in
    (1, enable_irq rtc_irq (send_eoi rtc_irq p1))

abbrev pub rtc_close : ℤ → ℤ
rtc_close fd = pos 0

-- The wait of `rtc_read`, with the flag `interrupt_occurred`: at each test of the flag the next
-- arrival says whether the interrupt comes before the test after it; `none` while it waits.
unfoldable pub wait_interrupt :
    (arrivals : List Bool) (interrupt_occurred : ℕ) → Pic → Option (ℕ × Pic)
wait_interrupt [] interrupt_occurred p =
    if interrupt_occurred == 0 then none else some (interrupt_occurred, p)
wait_interrupt (arrives ∷ later) interrupt_occurred p =
    let (flag, p1) = rtc_interrupt p in
    let rest_served = wait_interrupt later flag p1 in
    let rest = wait_interrupt later interrupt_occurred p in
    if interrupt_occurred == 0
    then if arrives then rest_served else rest
    else some (interrupt_occurred, p)

-- `rtc_read`: its result, the flag and the controllers. The flag is cleared with the line masked, and
-- again behind the wait. Neither the buffer nor its size is looked at.
unfoldable pub rtc_read :
    (arrivals : List Bool) (interrupt_occurred : ℕ) → Pic → Option (ℤ × ℕ × Pic)
rtc_read arrivals interrupt_occurred p =
    let p1 = enable_irq rtc_irq (disable_irq rtc_irq p) in
    wait_interrupt arrivals 0 p1 >>= λ waited. some (pos 0, 0, waited.1)
