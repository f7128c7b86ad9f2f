-- ===== src/Tests/Drivers.antt =====
-- Runs of the drivers, directly and behind the system calls.
use linux_based_os.Prelude.{◌+◌, ◌≡◌, refl, arith, pos, some, none, true, false, ◌++◌, ◌∷◌, []}
use linux_based_os.Filesystem.{fill_dentry}
use linux_based_os.Filesystem.Data.{IsReadable}
use linux_based_os.Syscall.{Machine, open_fd, read}
use linux_based_os.Screen.Text.{Shown}
use linux_based_os.Keyboard.{Keyboard, terminal_write}
use linux_based_os.Keyboard.Write.{terminal_write_lem}
use linux_based_os.Pic.{enable_irq, disable_irq}
use linux_based_os.Rtc.{rtc_read, rtc_interrupt}
use linux_based_os.Rtc.Wait.{quiet, rtc_read_lem}
use linux_based_os.Drivers.{World, drivers}
use linux_based_os.Drivers.Open.{OpensAndReads, open_fd-read}
use linux_based_os.Tests.Files.{zeros, letter, named_entry, files, first_file}
use linux_based_os.Tests.Devices.{screen, screen-InBounds, two_keys, pic}
use linux_based_os.Tests.Calls.{process, table, a_found}

-- "ab" on the second terminal, whose cursor is in the last column of a row.
terminal_write_example :
    (r : Keyboard) × (terminal_write 1 (λ i. 97 + i) (pos 2) (record two_keys { screen = screen })
      ≡ (pos 2, r))
    × Shown 1 (λ i. 97 + i) screen 2 r.screen
    × (r ≡ record two_keys { enter_status = 0; screen = r.screen })
terminal_write_example =
    terminal_write_lem 1 2 (λ i. 97 + i) (record two_keys { screen = screen }) screen-InBounds
      (λ i h. (omega arith, (omega arith, omega arith, omega arith))) (omega arith)

rtc_read_example :
    (rtc_read (quiet 2) 1 pic ≡ none)
    × (rtc_read (quiet 2 ++ (true ∷ false ∷ [])) 1 pic
        ≡ some (pos 0, 0, (rtc_interrupt (enable_irq 8 (disable_irq 8 pic))).1))
rtc_read_example = rtc_read_lem 2 1 (false ∷ []) pic

abbrev machine : Machine World
machine = record {
  pcb = process 1;
  world = record { devices = two_keys; interrupt_occurred = 0; memory = zeros };
}

read_20 : IsReadable files 1 0 20
read_20 = record {
  known = omega arith;
  within = omega arith;
  long = omega arith;
  no_wrap = omega arith;
  blocks = record { few = omega arith; inside = λ j p. omega arith };
}

-- The file "a", from its start.
open_fd-read_example :
    (m1 : Machine World) × (open_fd
        (drivers files 9 1 0x26 [] (named_entry 5) (named_entry 6) (pos 0))
        9
        files
        (some (letter 97))
        (named_entry 5)
        machine
      ≡ some (pos 2, m1))
    × OpensAndReads files 9 1 0x26 []
        (named_entry 5)
        (named_entry 6)
        (pos 0)
        1
        1000
        20
        2
        machine
        m1
        (read
          (drivers files 9 1 0x26 [] (named_entry 5) (named_entry 6) (pos 0))
          (pos 2)
          (some 1000)
          (pos 20)
          m1)
unfolding fill_dentry
open_fd-read_example =
    open_fd-read files 9 1 0x26 [] (named_entry 5) (named_entry 6) (pos 0) 1 (letter 97)
      (named_entry 5) (fill_dentry (named_entry 5) (named_entry 0)) 2 0 1000 20 machine table
      a_found refl first_file (omega arith) read_20 (omega arith)
