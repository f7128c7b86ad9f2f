-- ===== src/Boot/Order.antt =====
-- The order in which `entry` calls the parts of the kernel, on each of its branches.
use linux_based_os.Prelude.{ℕ, ◌+◌, ◌*◌, ◌^◌, ◌<◌, ◌==◌, ◌&&◌, not, Bool, List, [], ◌∷◌}
use linux_based_os.Boot.{
  MultibootInfo, Call, Event, printed, called, check_flag, multiboot_bootloader_magic,
}

-- The calls among the events.
abbrev pub calls : List Event → List Call
calls [] = []
calls (printed s args ∷ es) = calls es
calls (called c ∷ es) = c ∷ calls es

module _ (dword byte : ℕ → ℕ) where
  -- The conditions under which the memory map's loop ends with this fuel.
  pub record EndsMap (fuel : ℕ) (mbi : MultibootInfo) : Type 0 where
    pub fits : mbi.mmap_addr + mbi.mmap_length < 2 ^ 32
    pub enough : mbi.mmap_length < 4 * fuel
    pub steps : (a : ℕ) → a < mbi.mmap_addr + mbi.mmap_length → a + dword a + 4 < 2 ^ 32

-- `magic` and the flags let the kernel start.
abbrev pub starts : (magic : ℕ) → MultibootInfo → Bool
starts magic mbi =
    (magic == multiboot_bootloader_magic) && not (check_flag mbi.flags 4 && check_flag mbi.flags 5)
