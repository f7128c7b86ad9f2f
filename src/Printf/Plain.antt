-- ===== src/Printf/Plain.antt =====
-- `printf` of a text without conversions.
use linux_based_os.Prelude.{
  ℕ, zero, suc, ◌+◌, ◌<◌, ◌≡◌, ◌≢◌, refl, arith, some, ==_false, true, ◌==◌,
}
use linux_based_os.Strings.{Str}
use linux_based_os.Strings.Length.{HasLength}
use linux_based_os.Screen.{Screen, puts, puts_from, putc}
use linux_based_os.Printf.{printf, print_from}

module _ (fuel active_terminal n : ℕ) (format : Str) (stack : ℕ → ℕ) (text : ℕ → Str)
    (conv_buf : Str) (length : HasLength format n) (plain : (i : ℕ) → i < n → format i ≢ b'%') where
  print_from-puts_from :
      (left rounds buf esp : ℕ) (screen : Screen)
      → buf + left ≡ n
      → left < rounds
      → (print_from fuel active_terminal format stack text conv_buf rounds buf esp screen
          ≡ puts_from rounds active_terminal format buf screen)
        × ((out : Screen) × (puts_from rounds active_terminal format buf screen ≡ some (n, out)))
  unfolding print_from puts_from
  print_from-puts_from left zero buf esp screen e f = absurd (omega arith)
  print_from-puts_from zero (suc rounds) buf esp screen e f =
      let here : n ≡ buf = omega arith in
      let nul : format buf ≡ 0 = rw here at length.nul in
      let stop : (format buf == 0) ≡ true = ground (arith, nul) in
      (rw stop refl, (screen, rw (stop, here) refl))
  print_from-puts_from (suc left) (suc rounds) buf esp screen e f =
      let visible = ==_false (format buf) 0 (length.before buf (omega arith)) in
      let shown = ==_false (format buf) b'%' (plain buf (omega arith)) in
      let (same, (out, run)) =
        print_from-puts_from left rounds (buf + 1) esp (putc (format buf) active_terminal screen)
          (omega arith) (omega arith) in
      (rw (visible, shown) same, (out, rw visible run))

-- For a string of `n` characters without a `%`, and fuel above `n`, `printf` does what `puts` does,
-- which returns with the result `n`.
printf-puts :
    (fuel active_terminal n : ℕ) (format : Str) (stack : ℕ → ℕ) (text : ℕ → Str) (conv_buf : Str)
    (screen : Screen)
    → HasLength format n
    → ((i : ℕ) → i < n → format i ≢ b'%')
    → n < fuel
    → (printf fuel active_terminal format stack text conv_buf screen
        ≡ puts fuel active_terminal format screen)
      × ((out : Screen) × (puts fuel active_terminal format screen ≡ some (n, out)))
unfolding printf puts
printf-puts fuel active_terminal n format stack text conv_buf screen length plain f =
    print_from-puts_from fuel active_terminal n format stack text conv_buf length plain n fuel 0 0
      screen (omega arith) f
