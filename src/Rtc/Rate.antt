-- ===== src/Rtc/Rate.antt =====
-- Which rate the clock is set to.
use linux_based_os.Prelude.{
  ℕ, ◌+◌, ◌-◌, ◌*◌, ◌^◌, ◌<◌, ◌≤◌, ◌≡◌, ◌≢◌, ◌⊎◌, inl, inr, arith, ℤ, pos, negsuc, minus_one, refl,
  Bool-cases, ==_false, ltb-false, bit_and, bit_or, all_below, all_below_sound, Bool, true, leb,
  ltb, ◌&&◌, ◌||◌, ◌==◌, subst, ◌/◌, ◌%◌, lt→ltb, ==_iff, ap,
}
use linux_based_os.Pic.{Pic, send, enable_irq, disable_irq}
use linux_based_os.Rtc.{rtc_write, set_frequency, set_rate}

-- The frequency of a rate, from the data sheet of the clock: 32768 Hz shifted right by one less than the rate.
abbrev pub hertz : ℕ → ℕ
hertz rate = 2 ^ (16 - rate)

-- The least power of two, from 2 on, that is not below the frequency asked for.
pub record Fits (frequency rate : ℕ) : Type 0 where
  enough : frequency ≤ hertz rate
  least : (rate ≡ 15) ⊎ (hertz rate < 2 * frequency)
  four_bits : rate < 16

abbrev fits_test : ℕ → ℕ → Bool
fits_test f rate = leb f (hertz rate) && (((rate == 15) || ltb (hertz rate) (2 * f)) && ltb rate 16)

Fits-sound : (f rate : ℕ) → fits_test f rate ≡ true → Fits f rate
Fits-sound f rate t = record {
  enough = ground arith;
  least = ground arith;
  four_bits = ground arith;
}

set_frequency_lem : (f : ℕ) → 0 < f → f ≤ 1024 → Fits f (set_frequency f)
unfolding all_below set_frequency
set_frequency_lem f a b =
    let t =
      all_below_sound 1024 (λ n. fits_test (n + 1) (set_frequency (n + 1))) (f - 1) refl
        (omega arith) in
    let e : f - 1 + 1 ≡ f = omega arith in
    Fits-sound f (set_frequency f) (subst (λ n. fits_test n (set_frequency n) ≡ true) e t)

-- What register A is set to: the high half as it was, the rate in the low half.
rate_bits :
    (current_a rate : ℕ)
    → current_a < 256
    → rate < 16
    → bit_or (bit_and current_a 0xF0) (bit_and rate 0x0F) ≡ current_a / 16 * 16 + rate
unfolding all_below
rate_bits current_a rate h b =
    let n = current_a * 16 + rate in
    let high : n / 16 ≡ current_a = omega arith in
    let low : n % 16 ≡ rate = omega arith in
    subst (λ a. bit_or (bit_and a 0xF0) (bit_and rate 0x0F) ≡ a / 16 * 16 + rate) high
      (subst (λ r. bit_or (bit_and (n / 16) 0xF0) (bit_and r 0x0F) ≡ n / 16 / 16 * 16 + r) low
        ((==_iff (bit_or (bit_and (n / 16) 0xF0) (bit_and (n % 16) 0x0F))
            (n / 16 / 16 * 16 + n % 16)).0
          (all_below_sound 4096
            (λ m.
              bit_or (bit_and (m / 16) 0xF0) (bit_and (m % 16) 0x0F) == m / 16 / 16 * 16 + m % 16)
            n refl (omega arith))))

-- The request line is held back while register A is set to `value`.
abbrev pub register_a_set : ℕ → Pic → Pic
register_a_set value p =
    enable_irq 8 (send value 0x71 (send 0x8A 0x70 (send 0x8A 0x70 (disable_irq 8 p))))

set_rate_lem :
    (current_a f : ℕ) (p : Pic)
    → current_a < 256
    → set_frequency f < 16
    → set_rate current_a f p ≡ register_a_set (current_a / 16 * 16 + set_frequency f) p
unfolding set_rate
set_rate_lem current_a f p h b =
    ap (λ v. register_a_set v p) (rate_bits current_a (set_frequency f) h b)

-- `rtc_write` of four bytes with a frequency from 1 to 1024 Hz returns 0 and sets the low half of
-- register A, and nothing else of it, to the rate of the least power of two from 2 on that is not
-- below the frequency.
pub rtc_write_lem :
    (current_a f : ℕ) (p : Pic)
    → current_a < 256
    → 0 < f
    → f ≤ 1024
    → (rate : ℕ) × (rtc_write current_a (pos f) (pos 4) p
        ≡ (pos 0, register_a_set (current_a / 16 * 16 + rate) p))
      × Fits f rate
unfolding rtc_write
rtc_write_lem current_a f p h a b =
    let fits = set_frequency_lem f a b in
    (
      set_frequency f,
      rw
          (
            ==_false f 0 (omega arith),
            ltb-false 1024 f b,
            set_rate_lem current_a f p h fits.four_bits,
          )
          refl,
      fits,
    )

-- Not four bytes, or a frequency that is not from 1 to 1024 Hz.
unfoldable pub Refused : (frequency nbytes : ℤ) → Type 0
Refused (pos f) nbytes = (nbytes ≢ pos 4) ⊎ ((f ≡ 0) ⊎ (1024 < f))
Refused (negsuc f) nbytes = Unit

-- `rtc_write` of a length other than 4, or of a frequency that is not from 1 to 1024 Hz, returns -1
-- and writes to no port.
pub rtc_write_refuses :
    (current_a : ℕ) (frequency nbytes : ℤ) (p : Pic)
    → Refused frequency nbytes
    → rtc_write current_a frequency nbytes p ≡ (minus_one, p)
unfolding rtc_write Refused
rtc_write_refuses current_a (negsuc f) nbytes p h = refl
rtc_write_refuses current_a (pos f) (negsuc n) p h = refl
rtc_write_refuses current_a (pos f) (pos n) p (inl h) = rw (==_false n 4 (λ e. h (ap pos e))) refl
rtc_write_refuses current_a (pos f) (pos n) p (inr h) = elim (Bool-cases (n == 4)) [
  | inl e ↦
      rw e (elim h [
        | inl z ↦ rw z refl
        | inr z ↦ rw (==_false f 0 (omega arith), lt→ltb 1024 f z) refl
      ])
  | inr e ↦ rw e refl
]
