-- ===== src/Rtc/Wait.antt =====
-- What a read of the clock waits for.
use linux_based_os.Prelude.{
  ℕ, zero, suc, ◌≡◌, refl, List, ◌++◌, ◌∷◌, [], Bool, true, false, pos, none, some,
}
use linux_based_os.Pic.{Pic, enable_irq, disable_irq}
use linux_based_os.Rtc.{rtc_read, rtc_interrupt, wait_interrupt, rtc_irq}

-- `n` tests of the flag without an interrupt between them.
pub quiet : ℕ → List Bool
quiet zero = []
quiet (suc n) = false ∷ quiet n

wait_quiet :
    (n : ℕ) (later : List Bool) (p : Pic)
    → wait_interrupt (quiet n ++ later) 0 p ≡ wait_interrupt later 0 p
unfolding wait_interrupt quiet
wait_quiet zero later p = refl
wait_quiet (suc n) later p = wait_quiet n later p

wait_over : (later : List Bool) (p : Pic) → wait_interrupt later 1 p ≡ some (1, p)
unfolding wait_interrupt
wait_over [] p = refl
wait_over (a ∷ later) p = refl

wait_served :
    (later : List Bool) (p : Pic)
    → wait_interrupt (true ∷ later) 0 p ≡ some (1, (rtc_interrupt p).1)
unfolding wait_interrupt rtc_interrupt
wait_served later p = wait_over later (rtc_interrupt p).1

wait_none : (n : ℕ) (p : Pic) → wait_interrupt (quiet n) 0 p ≡ none
unfolding wait_interrupt quiet
wait_none zero p = refl
wait_none (suc n) p = wait_none n p

-- Whatever the flag was before, `rtc_read` waits while no interrupt comes, however many rounds; it
-- returns 0 behind the first that comes, having toggled the line, let the handler run once and
-- cleared the flag.
pub rtc_read_lem :
    (n interrupt_occurred : ℕ) (later : List Bool) (p : Pic)
    → (rtc_read (quiet n) interrupt_occurred p ≡ none)
      × (rtc_read (quiet n ++ (true ∷ later)) interrupt_occurred p
          ≡ some (pos 0, 0, (rtc_interrupt (enable_irq rtc_irq (disable_irq rtc_irq p))).1))
unfolding rtc_read
rtc_read_lem n interrupt_occurred later p =
    let p1 = enable_irq rtc_irq (disable_irq rtc_irq p) in
    (rw (wait_none n p1) refl, rw (wait_quiet n (true ∷ later) p1, wait_served later p1) refl)
