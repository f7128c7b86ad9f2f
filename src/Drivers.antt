-- ===== src/Drivers.antt =====
-- student-distrib/system_calls.c: the five tables of driver entries, over what the drivers act on,
-- and the entries of filesystem.c, keyboard.c and terminal.c that do no more than return.
pub mod Open
use linux_based_os.Prelude.{
  ℕ, ◌+◌, ◌-◌, ◌*◌, ◌^◌, leb, if◌then◌else◌, Option, some, none, ◌>>=◌, ℤ, pos, minus_one, signed32,
  List, ◌∷◌, [], Bool, get_or,
}
use linux_based_os.Strings.{Str}
use linux_based_os.Memory.{Memory}
use linux_based_os.Screen.{Screen}
use linux_based_os.Printf.{printf}
use linux_based_os.Pic.{Pic}
use linux_based_os.Rtc.{rtc_read, rtc_write, rtc_open}
use linux_based_os.Keyboard.{Keyboard, keyboard_read, terminal_write, terminal_open}
use linux_based_os.Descriptor.{
  Driver, Descriptor, rtc, filesystem_dir, filesystem_reg, keyboard, terminal,
}
use linux_based_os.Filesystem.{Image, Dentry}
use linux_based_os.Filesystem.Read.{read_fs, read_fs_dir}
use linux_based_os.Syscall.{Machine, FileOps, descriptor, fd_index, with_descriptor}

-- The keyboard with the screens and the interrupt controllers, the flag of the clock, and memory.
pub record World : Type 0 where
  pub devices : Keyboard
  pub interrupt_occurred : ℕ
  pub memory : Memory

unfoldable pub open_fs : Str → ℤ
open_fs filename = pos 0

unfoldable pub close_fs : ℤ → ℤ
close_fs fd = pos 0

unfoldable pub keyboard_write : (fd : ℤ) (buf : ℕ) (nbytes : ℤ) → ℤ
keyboard_write fd buf nbytes = minus_one

unfoldable pub keyboard_open : Str → ℤ
keyboard_open filename = minus_one

unfoldable pub keyboard_close : ℤ → ℤ
keyboard_close fd = minus_one

unfoldable pub terminal_read : (fd : ℤ) (buf : ℕ) (nbytes : ℤ) → ℤ
terminal_read fd buf nbytes = minus_one

unfoldable pub terminal_close : ℤ → ℤ
terminal_close fd = minus_one

-- "This filesystem is readonly\n"
abbrev pub readonly_text : Str
readonly_text i =
    get_or
      (b'T' ∷ b'h' ∷ b'i' ∷ b's' ∷ b' ' ∷ b'f' ∷ b'i' ∷ b'l' ∷ b'e' ∷ b's' ∷ b'y' ∷ b's' ∷ b't'
        ∷ b'e' ∷ b'm' ∷ b' ' ∷ b'i' ∷ b's' ∷ b' ' ∷ b'r' ∷ b'e' ∷ b'a' ∷ b'd' ∷ b'o' ∷ b'n' ∷ b'l'
        ∷ b'y' ∷ 10 ∷ [])
      i 0

-- `write_fs`: what stands on the stack and in `conv_buf` of `printf` is not used by its text.
unfoldable pub write_fs : (fuel active_terminal : ℕ) → Screen → Option (ℤ × Screen)
write_fs fuel active_terminal screen =
    printf fuel active_terminal readonly_text (λ i. 0) (λ a i. 0) (λ i. 0) screen >>= λ shown.
    some (minus_one, shown.1)

-- `*(int32_t*) buf`
unfoldable pub load_int32 : Memory → ℕ → ℤ
load_int32 m buf =
    signed32 (m buf + m (buf + 1) * 2 ^ 8 + m (buf + 2) * 2 ^ 16 + m (buf + 3) * 2 ^ 24)

-- Memory when what stands from `buf` on has become `out`.
abbrev pub placed : Memory → ℕ → Str → Memory
placed m buf out a = if leb buf a then out (a - buf) else m a

abbrev pub with_pic : Machine World → Pic → Machine World
with_pic m p = record m { world = record m.world { devices = record m.world.devices { pic = p } } }

abbrev pub with_devices : Machine World → Keyboard → Machine World
with_devices m k = record m { world = record m.world { devices = k } }

-- Behind a read of the file system: the descriptor and memory have changed.
unfoldable pub has_read : (fd : ℕ) → Machine World → ℤ × Descriptor × Memory → ℤ × Machine World
has_read fd m (n, d, memory) =
    (n, record (with_descriptor m fd d) { world = record m.world { memory = memory } })

-- The file system, the fuel for its search and for `printf`, the terminal of the caller, register A
-- of the clock, its interrupts during a wait, and the local variables of `read_fs`.
module _ (im : Image) (fuel pcb_terminal current_a : ℕ) (arrivals : List Bool)
    (file dir_entry : Dentry) (garbage : ℤ) where
  unfoldable pub rtc_jumptable : FileOps World
  rtc_jumptable = record {
    open_op =
        λ filename m. let (r, p) = rtc_open current_a m.world.devices.pic in some (r, with_pic m p);
    read_op = λ fd buf nbytes m.
        rtc_read arrivals m.world.interrupt_occurred m.world.devices.pic >>= λ (r, flag, p).
        let m1 = with_pic m p in
        some (r, record m1 { world = record m1.world { interrupt_occurred = flag } });
    write_op = λ fd buf nbytes m.
        let (r, p) =
          rtc_write current_a (load_int32 m.world.memory buf) nbytes m.world.devices.pic in
        some (r, with_pic m p);
  }

  -- `write_fs` as a call.
  unfoldable pub refuses_write : ℤ → ℕ → ℤ → Machine World → Option (ℤ × Machine World)
  refuses_write fd buf nbytes m =
      write_fs fuel m.world.devices.active_terminal m.world.devices.screen >>= λ (r, screen).
      some (r, with_devices m (record m.world.devices { screen = screen }))

  unfoldable pub filesystem_reg_jumptable : FileOps World
  unfolding refuses_write
  filesystem_reg_jumptable = record {
    open_op = λ filename m. some (open_fs filename, m);
    read_op = λ fd buf nbytes m.
        read_fs fuel im (descriptor m.pcb (fd_index fd)) buf nbytes m.world.memory file dir_entry
          garbage
        >>= λ answer. some (has_read (fd_index fd) m answer);
    write_op = refuses_write;
  }

  unfoldable pub filesystem_dir_jumptable : FileOps World
  unfolding refuses_write
  filesystem_dir_jumptable = record {
    open_op = λ filename m. some (open_fs filename, m);
    read_op = λ fd buf nbytes m.
        let d = descriptor m.pcb (fd_index fd) in
        some (has_read (fd_index fd) m (read_fs_dir im d buf nbytes m.world.memory dir_entry));
    write_op = refuses_write;
  }

  unfoldable pub keyboard_jumptable : FileOps World
  keyboard_jumptable = record {
    open_op = λ filename m. some (keyboard_open filename, m);
    read_op = λ fd buf nbytes m.
        keyboard_read pcb_terminal (λ j. m.world.memory (buf + j)) nbytes m.world.devices
        >>= λ (r, out, k).
            let m1 = with_devices m k in
            some
              (r, record m1 { world = record m1.world { memory = placed m.world.memory buf out } });
    write_op = λ fd buf nbytes m. some (keyboard_write fd buf nbytes, m);
  }

  unfoldable pub terminal_jumptable : FileOps World
  terminal_jumptable = record {
    open_op = λ filename m.
        let (r, k) = terminal_open pcb_terminal m.world.devices in some (r, with_devices m k);
    read_op = λ fd buf nbytes m. some (terminal_read fd buf nbytes, m);
    write_op = λ fd buf nbytes m.
        let (r, k) =
          terminal_write pcb_terminal (λ j. m.world.memory (buf + j)) nbytes m.world.devices in
        some (r, with_devices m k);
  }

  -- The tables by name.
  unfoldable pub drivers : Driver → FileOps World
  unfolding rtc_jumptable filesystem_reg_jumptable filesystem_dir_jumptable keyboard_jumptable
      terminal_jumptable
  drivers rtc = rtc_jumptable
  drivers filesystem_dir = filesystem_dir_jumptable
  drivers filesystem_reg = filesystem_reg_jumptable
  drivers keyboard = keyboard_jumptable
  drivers terminal = terminal_jumptable
