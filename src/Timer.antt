-- ===== src/Timer.antt =====
-- student-distrib/pit.c: the interval timer. `outb` writes the low byte of its argument.
use linux_based_os.Prelude.{
  ℕ, ◌+◌, ◌*◌, ◌/◌, ◌^◌, ◌<◌, ◌≡◌, ◌==◌, if◌then◌else◌, arith, u8, bit_and, bit_and_ones, ◌>>>◌,
  Option, none, some,
}
use linux_based_os.Pic.{Pic, send, enable_irq, disable_irq}

abbrev pub pit_frequency : ℕ
pit_frequency = 1193182

abbrev pub channel_one : ℕ
channel_one = 0x41

abbrev pub command_port : ℕ
command_port = 0x43

-- The two writes of a divisor.
unfoldable pub send_divisor : ℕ → Pic → Pic
send_divisor divisor p =
    send (u8 (divisor >>> 8)) channel_one (send (u8 (bit_and divisor 0xFF)) channel_one p)

unfoldable pub pit_init : Pic → Pic
unfolding send_divisor
pit_init p =
    enable_irq 0 (send_divisor (pit_frequency / 20) (send 0x36 command_port (disable_irq 0 p)))

-- A division by 0 is a fault.
unfoldable pub pit_update : (frequency : ℕ) → Pic → Option Pic
unfolding send_divisor
pit_update frequency p =
    if frequency == 0
    then none
    else some (enable_irq 0 (send_divisor (pit_frequency / frequency) (disable_irq 0 p)))

-- The two bytes that are written for a divisor below 2 ^ 16 make up the divisor.
send_divisor-bytes :
    (divisor : ℕ)
    → divisor < 2 ^ 16
    → u8 (bit_and divisor 0xFF) + u8 (divisor >>> 8) * 2 ^ 8 ≡ divisor
send_divisor-bytes divisor h = omega (arith, bit_and_ones 8 divisor)
