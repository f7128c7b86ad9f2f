-- ===== src/Tests/Boot.antt =====
-- Runs of the start of the kernel: page tables, interrupt table and the order of calls.
use linux_based_os.Prelude.{◌*◌, ◌+◌, ◌^◌, ℕ, ◌≡◌, refl, arith, if◌then◌else◌, ltb, ◌==◌}
use linux_based_os.Segment.{SegDesc, IdtDesc}
use linux_based_os.Idt.{Handler, page_handler, idt_init, systemcall_vector}
use linux_based_os.Idt.Entries.{Gate, idt_init_lem}
use linux_based_os.Paging.{Paging, paging_exec}
use linux_based_os.Paging.Tables.{video_page, paging_exec-directory}
use linux_based_os.Boot.{Linked, MultibootInfo}

abbrev old_segment : SegDesc
old_segment = record {
  seg_lim_15_00 = 1;
  base_15_00 = 2;
  base_23_16 = 3;
  type = 4;
  sys = 1;
  dpl = 3;
  present = 0;
  seg_lim_19_16 = 5;
  avail = 1;
  reserved = 1;
  opsize = 1;
  granularity = 1;
  base_31_24 = 6;
}

abbrev linked : Linked
linked = record {
  ldt = 0x401234;
  ldt_size = 32;
  tss = 0x405678;
  tss_size = 104;
  stack = old_segment;
}

abbrev old_gate : IdtDesc
old_gate = record {
  offset_15_00 = 0;
  seg_selector = 0;
  reserved4 = 0;
  reserved3 = 0;
  reserved2 = 0;
  reserved1 = 0;
  size = 0;
  reserved0 = 0;
  dpl = 0;
  present = 0;
  offset_31_16 = 0;
}

abbrev handlers : Handler → ℕ
handlers h = 0x412345

idt_init_example :
    Gate
      (idt_init handlers old_gate (λ v. old_gate) 14)
      0x412345
      (if ltb 14 32 then 1 else 0)
      (if 14 == systemcall_vector then 3 else 0)
idt_init_example = idt_init_lem handlers old_gate (λ v. old_gate) 14 page_handler (omega arith) refl

abbrev before_paging : Paging
before_paging = record {
  page_dir = λ i. 5;
  page_table = λ i. 5;
  page_table_user_video = λ i. 5;
  cr0 = 1;
  cr2 = 0;
  cr3 = 0;
  cr4 = 0;
  page_fault_addr = 0;
}

paging_exec-directory_example :
    let r = paging_exec 0x409000 0x40A000 0x40B000 before_paging in
    (r.page_dir 128 ≡ (
      if 128 == 0
      then 0x40A000 + 0x3
      else if 128 == 1
      then 4 * 2 ^ 20 + 0x83
      else if 128 == 128
      then 0x40B000 + 0x7
      else 0))
    × (r.page_table 128 ≡ video_page 128)
    × (r.page_table_user_video 128 ≡ 0)
    × (r.cr3 ≡ 0x409000)
paging_exec-directory_example =
    paging_exec-directory 0x409000 0x40A000 0x40B000 128 before_paging (refl, omega arith)
      (refl, omega arith) (omega arith)

-- Memory where every word is 20: one descriptor of the memory map fills its 24 bytes.
abbrev words : ℕ → ℕ
words a = 20

abbrev info : MultibootInfo
info = record {
  flags = 0x4F;
  mem_lower = 639;
  mem_upper = 65535;
  boot_device = 0;
  cmdline = 0x9000;
  mods_count = 1;
  mods_addr = 0x9100;
  elf_num = 0;
  elf_size = 0;
  elf_addr = 0;
  elf_shndx = 0;
  mmap_length = 48;
  mmap_addr = 0x9200;
}
