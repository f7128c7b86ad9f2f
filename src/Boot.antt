-- ===== src/Boot.antt =====
-- student-distrib/kernel.c: `entry`, as the list of what it prints and calls, in order. What the boot
-- loader leaves in memory is a parameter: `dword` is the 32-bit word at an address and `byte` the
-- byte there. `entry` ends in a loop of `hlt`, which is left out; the called parts have modules of
-- their own. The loop over the memory map runs on fuel.
pub mod Descriptors
pub mod Order
use Prim.Native.String.{String}
use linux_based_os.Prelude.{
  ℕ, zero, suc, ◌+◌, ◌*◌, ◌==◌, ltb, ◌&&◌, not, if◌then◌else◌, Bool, true, false, ◌^◌, ◌-◌, List,
  [], ◌∷◌, ◌++◌, Option, none, some, u32, ◌<<<◌, bit_and, map,
}
use linux_based_os.Segment.{SegDesc, set_params, kernel_ldt, kernel_tss, kernel_ds, tss_bytes}

abbrev pub multiboot_bootloader_magic : ℕ
multiboot_bootloader_magic = 0x2BADB002

-- The fields of `multiboot_info_t` that `entry` reads; those of `elf_sec` are spelled out.
pub record MultibootInfo : Type 0 where
  pub flags : ℕ
  pub mem_lower : ℕ
  pub mem_upper : ℕ
  pub boot_device : ℕ
  pub cmdline : ℕ
  pub mods_count : ℕ
  pub mods_addr : ℕ
  pub elf_num : ℕ
  pub elf_size : ℕ
  pub elf_addr : ℕ
  pub elf_shndx : ℕ
  pub mmap_length : ℕ
  pub mmap_addr : ℕ

-- What `entry` sets in the TSS.
pub record TssFields : Type 0 where
  pub ldt_segment_selector : ℕ
  pub ss0 : ℕ
  pub esp0 : ℕ

pub data Call : Type 0 where
  set_process_request do_clear do_filesystem_init do_lldt do_ltr : ℕ → Call
  set_ldt_desc set_tss_desc : SegDesc → Call
  do_set_tss : TssFields → Call
  do_idt_init do_i8259_init do_paging_exec do_pit_init do_rtc_init do_enable_keyboard
        do_scheduler_init do_sti :
      Call

pub data Event : Type 0 where
  printed : String → List ℕ → Event
  called : Call → Event

abbrev pub check_flag : (flags bit : ℕ) → Bool
check_flag flags bit = not (bit_and flags (1 <<< bit) == 0)

-- A `char` as an argument of `printf`
abbrev pub sign_extended : ℕ → ℕ
sign_extended c = if ltb c 128 then c else 2 ^ 32 - 256 + c

when : Bool → List Event → List Event
when true es = es
when false es = []

prepend : Event → Option (List Event) → Option (List Event)
prepend e none = none
prepend e (some es) = some (e ∷ es)

module _ (dword byte : ℕ → ℕ) where
  print_bytes : (rounds address : ℕ) → List Event
  print_bytes zero address = []
  print_bytes (suc rounds) address =
      printed "0x%x " (sign_extended (byte address) ∷ []) ∷ print_bytes rounds (address + 1)

  -- `while (mod_count < mbi->mods_count)`: a module descriptor has 16 bytes.
  print_modules : (rounds mod_count module_at : ℕ) → List Event
  unfolding print_bytes
  print_modules zero mod_count module_at = []
  print_modules (suc rounds) mod_count module_at =
      printed "Module %d loaded at address: 0x%#x\n" (mod_count ∷ dword module_at ∷ [])
      ∷ printed "Module %d ends at address: 0x%#x\n" (mod_count ∷ dword (module_at + 4) ∷ [])
      ∷ printed "First few bytes of module:\n" []
      ∷ (print_bytes 16 (dword module_at)
          ++ (printed "\n" [] ∷ print_modules rounds (mod_count + 1) (module_at + 16)))

  abbrev pub mmap_line : ℕ → Event
  mmap_line mmap =
      printed "    size = 0x%x, base_addr = 0x%#x%#x\n    type = 0x%x,  length    = 0x%#x%#x\n" (
        dword mmap
        ∷ dword (mmap + 8)
        ∷ dword (mmap + 4)
        ∷ dword (mmap + 20)
        ∷ dword (mmap + 16)
        ∷ dword (mmap + 12)
        ∷ [])

  -- The loop over the memory map, from the descriptor at `mmap` on.
  print_mmap : (fuel stop mmap : ℕ) → Option (List Event)
  unfolding prepend
  print_mmap zero stop mmap = none
  print_mmap (suc fuel) stop mmap =
      let rest = print_mmap fuel stop (u32 (mmap + dword mmap + 4)) in
      if ltb mmap stop then prepend (mmap_line mmap) rest else some []

  -- The lines up to the modules, of the fields whose flags are set.
  print_info : MultibootInfo → List Event
  unfolding print_modules when
  print_info mbi =
      printed "flags = 0x%#x\n" (mbi.flags ∷ [])
      ∷ (when (check_flag mbi.flags 0) (
            printed "mem_lower = %uKB, mem_upper = %uKB\n" (mbi.mem_lower ∷ mbi.mem_upper ∷ [])
            ∷ [])
          ++ when (check_flag mbi.flags 1)
              (printed "boot_device = 0x%#x\n" (mbi.boot_device ∷ []) ∷ [])
          ++ when (check_flag mbi.flags 2) (printed "cmdline = %s\n" (mbi.cmdline ∷ []) ∷ [])
          ++ when (check_flag mbi.flags 3) (print_modules mbi.mods_count 0 mbi.mods_addr))

  print_elf : MultibootInfo → List Event
  unfolding when
  print_elf mbi = when (check_flag mbi.flags 5) (
      printed "elf_sec: num = %u, size = 0x%#x, addr = 0x%#x, shndx = 0x%#x\n"
        (mbi.elf_num ∷ mbi.elf_size ∷ mbi.elf_addr ∷ mbi.elf_shndx ∷ [])
      ∷ [])

  print_map : (fuel : ℕ) → MultibootInfo → Option (List Event)
  unfolding print_mmap prepend
  print_map fuel mbi =
      let line =
        printed "mmap_addr = 0x%#x, mmap_length = 0x%x\n" (mbi.mmap_addr ∷ mbi.mmap_length ∷ []) in
      let rest = print_mmap fuel (u32 (mbi.mmap_addr + mbi.mmap_length)) mbi.mmap_addr in
      if check_flag mbi.flags 6 then prepend line rest else some []

  -- Where the file system is: without modules what stood in the variable.
  abbrev pub disk_mount_addr : MultibootInfo → (uninitialised : ℕ) → ℕ
  disk_mount_addr mbi uninitialised =
      if check_flag mbi.flags 3 then dword mbi.mods_addr else uninitialised

-- The fields of a descriptor on the stack that are set one by one.
abbrev pub ldt_template : SegDesc → SegDesc
ldt_template d = record d {
  granularity = 0x0;
  opsize = 0x1;
  reserved = 0x0;
  avail = 0x0;
  present = 0x1;
  dpl = 0x0;
  sys = 0x0;
  type = 0x2;
}

abbrev pub tss_template : SegDesc → SegDesc
tss_template d = record d {
  granularity = 0x0;
  opsize = 0x0;
  reserved = 0x0;
  avail = 0x0;
  seg_lim_19_16 = bit_and tss_bytes 0x000F0000;
  present = 0x1;
  dpl = 0x0;
  sys = 0x0;
  type = 0x9;
  seg_lim_15_00 = bit_and tss_bytes 0x0000FFFF;
}

-- What the linker and the assembly give: addresses and sizes, and the descriptor's old contents.
pub record Linked : Type 0 where
  pub ldt : ℕ
  pub ldt_size : ℕ
  pub tss : ℕ
  pub tss_size : ℕ
  pub stack : SegDesc

unfoldable pub the_ldt_desc : Linked → SegDesc
the_ldt_desc l = set_params (ldt_template l.stack) l.ldt l.ldt_size

unfoldable pub the_tss_desc : Linked → SegDesc
the_tss_desc l = set_params (tss_template l.stack) l.tss l.tss_size

-- From the LDT entry to `sti`; the two lines that are printed stand in `entry`.
pub boot_calls : Linked → (disk : ℕ) → List Call
boot_calls l disk =
    set_ldt_desc (the_ldt_desc l)
    ∷ do_lldt kernel_ldt
    ∷ set_tss_desc (the_tss_desc l)
    ∷ do_set_tss (record { ldt_segment_selector = kernel_ldt; ss0 = kernel_ds; esp0 = 0x800000 })
    ∷ do_ltr kernel_tss
    ∷ do_idt_init
    ∷ do_i8259_init
    ∷ do_paging_exec
    ∷ do_pit_init
    ∷ do_rtc_init
    ∷ do_enable_keyboard
    ∷ do_filesystem_init disk
    ∷ do_scheduler_init
    ∷ []

boot_events : Linked → (disk : ℕ) → List Event
unfolding boot_calls
boot_events l disk =
    map called (boot_calls l disk)
    ++ (printed "Enabling Interrupts\n" [] ∷ called do_sti ∷ printed "this\n" [] ∷ [])

followed_by : List Event → List Event → Option (List Event) → Option (List Event)
followed_by before behind none = none
followed_by before behind (some es) = some (before ++ (es ++ behind))

-- `process_request = 0` and `clear(2)`
abbrev pub opening : List Event
opening = called (set_process_request 0) ∷ called (do_clear 2) ∷ []

-- Behind the screen that is cleared: the branches of `entry`.
unfoldable pub entry :
    (dword byte : ℕ → ℕ)
    → (fuel magic : ℕ) → MultibootInfo
    → Linked
    → (uninitialised : ℕ) → Option (List Event)
unfolding print_info print_elf print_map boot_events followed_by
entry dword byte fuel magic mbi l uninitialised =
    let info = opening ++ print_info dword byte mbi in
    let boot = boot_events l (disk_mount_addr dword byte mbi uninitialised) in
    if not (magic == multiboot_bootloader_magic)
    then some (opening ++ (printed "Invalid magic number: 0x%#x\n" (magic ∷ []) ∷ []))
    else if check_flag mbi.flags 4 && check_flag mbi.flags 5
    then some (info ++ (printed "Both bits 4 and 5 are set.\n" [] ∷ []))
    else followed_by (info ++ print_elf dword byte mbi) boot (print_map dword byte fuel mbi)
