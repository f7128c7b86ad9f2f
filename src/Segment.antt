-- ===== src/Segment.antt =====
-- student-distrib/x86_desc.h: the descriptors of the GDT and the IDT, and the macros that set their
-- fields. A field of w bits is a number below 2 ^ w.
pub mod Fields
use linux_based_os.Prelude.{ℕ, bit_and, ◌>>>◌}

abbrev pub kernel_cs : ℕ
kernel_cs = 0x0010

abbrev pub kernel_ds : ℕ
kernel_ds = 0x0018

abbrev pub kernel_tss : ℕ
kernel_tss = 0x0030

abbrev pub kernel_ldt : ℕ
kernel_ldt = 0x0038

abbrev pub tss_bytes : ℕ
tss_bytes = 104

-- `seg_desc_t`, by its fields
pub record SegDesc : Type 0 where
  pub seg_lim_15_00 : ℕ
  pub base_15_00 : ℕ
  pub base_23_16 : ℕ
  pub type : ℕ
  pub sys : ℕ
  pub dpl : ℕ
  pub present : ℕ
  pub seg_lim_19_16 : ℕ
  pub avail : ℕ
  pub reserved : ℕ
  pub opsize : ℕ
  pub granularity : ℕ
  pub base_31_24 : ℕ

-- SET_LDT_PARAMS and SET_TSS_PARAMS, which have the same body.
unfoldable pub set_params : SegDesc → (addr lim : ℕ) → SegDesc
set_params str addr lim = record str {
  base_31_24 = bit_and addr 0xFF000000 >>> 24;
  base_23_16 = bit_and addr 0x00FF0000 >>> 16;
  base_15_00 = bit_and addr 0x0000FFFF;
  seg_lim_19_16 = bit_and lim 0x000F0000 >>> 16;
  seg_lim_15_00 = bit_and lim 0x0000FFFF;
}

-- `idt_desc_t`, by its fields
pub record IdtDesc : Type 0 where
  pub offset_15_00 : ℕ
  pub seg_selector : ℕ
  pub reserved4 : ℕ
  pub reserved3 : ℕ
  pub reserved2 : ℕ
  pub reserved1 : ℕ
  pub size : ℕ
  pub reserved0 : ℕ
  pub dpl : ℕ
  pub present : ℕ
  pub offset_31_16 : ℕ

-- SET_IDT_ENTRY
unfoldable pub set_idt_entry : IdtDesc → (handler : ℕ) → IdtDesc
set_idt_entry str handler = record str {
  offset_31_16 = bit_and handler 0xFFFF0000 >>> 16;
  offset_15_00 = bit_and handler 0xFFFF;
}
