-- ===== src/Idt.antt =====
-- student-distrib/idt.c: the interrupt descriptor table, a function from a vector to its entry. The
-- addresses of the handlers are the linker's, a parameter; `lidt` is left out.
pub mod Entries
pub mod Handlers
use linux_based_os.Prelude.{
  ℕ, ◌+◌, ◌<◌, ltb, ◌==◌, ◌&&◌, not, if◌then◌else◌, store, for_range, List, [], ◌∷◌, get_or, Option,
  none, some,
}
use linux_based_os.Segment.{IdtDesc, set_idt_entry, kernel_cs}

-- The handlers that entries can have.
pub data Handler : Type 0 where
  ex_de ex_db ex_nmi ex_bp ex_of ex_br ex_ud ex_nm ex_df ex_mf ex_ts ex_np ex_ss ex_gp : Handler
  ex_pf ex_ma ex_ac ex_mc ex_xf ex_reserved page_handler : Handler
  handle_rtc_interrupt handle_pit_interrupt handle_keyboard_interrupt : Handler
  system_calls_linkage : Handler

abbrev pub pit_vector : ℕ
pit_vector = 0x20

abbrev pub kb_vector : ℕ
kb_vector = 0x21

abbrev pub rtc_vector : ℕ
rtc_vector = 0x28

abbrev pub systemcall_vector : ℕ
systemcall_vector = 0x80

abbrev pub exception_ptr_table : List (Option Handler)
exception_ptr_table =
    some ex_de
    ∷ some ex_db
    ∷ some ex_nmi
    ∷ some ex_bp
    ∷ some ex_of
    ∷ some ex_br
    ∷ some ex_ud
    ∷ some ex_nm
    ∷ some ex_df
    ∷ some ex_mf
    ∷ some ex_ts
    ∷ some ex_np
    ∷ some ex_ss
    ∷ some ex_gp
    ∷ some ex_pf
    ∷ none
    ∷ some ex_ma
    ∷ some ex_ac
    ∷ some ex_mc
    ∷ some ex_xf
    ∷ []

-- The fields that are not set yet keep what the stack had.
abbrev pub exception_vector : IdtDesc → IdtDesc
exception_vector d = record d {
  seg_selector = kernel_cs;
  reserved4 = 0;
  reserved3 = 1;
  reserved2 = 1;
  reserved1 = 1;
  size = 1;
  reserved0 = 0;
  dpl = 0;
  present = 1;
}

abbrev pub int_vector : IdtDesc → IdtDesc
int_vector d = record (exception_vector d) { reserved3 = 0 }

abbrev pub syscall_vector : IdtDesc → IdtDesc
syscall_vector d = record (int_vector d) { dpl = 3 }

abbrev pub Idt : Type 0
Idt = ℕ → IdtDesc

module _ (address : Handler → ℕ) (stack : IdtDesc) where
  -- An entry of `exception_ptr_table` as an address: NULL is 0.
  pointer : Option Handler → ℕ
  pointer none = 0
  pointer (some h) = address h

  -- The body of the loop over the 32 exceptions
  unfoldable pub exception_entry : ℕ → Idt → Idt
  unfolding pointer
  exception_entry i idt =
      let idt1 = store idt i (exception_vector stack) in
      if ltb i 20 && not (i == 15) && not (i == 14)
      then store idt1 i (set_idt_entry (idt1 i) (pointer (get_or exception_ptr_table i none)))
      else if i == 14
      then store idt1 i (set_idt_entry (idt1 i) (address page_handler))
      else store idt1 i (set_idt_entry (idt1 i) (address ex_reserved))

  unfoldable pub idt_init : Idt → Idt
  unfolding exception_entry for_range
  idt_init idt =
      let idt0 = for_range 0x20 0 exception_entry idt in
      let idt1 = store idt0 rtc_vector (int_vector stack) in
      let idt2 = store idt1 pit_vector (int_vector stack) in
      let idt3 = store idt2 kb_vector (int_vector stack) in
      let idt4 = store idt3 systemcall_vector (syscall_vector stack) in
      let idt5 =
        store idt4 rtc_vector (set_idt_entry (idt4 rtc_vector) (address handle_rtc_interrupt)) in
      let idt6 =
        store idt5 pit_vector (set_idt_entry (idt5 pit_vector) (address handle_pit_interrupt)) in
      let idt7 =
        store idt6 kb_vector (set_idt_entry (idt6 kb_vector) (address handle_keyboard_interrupt)) in
      store idt7 systemcall_vector
        (set_idt_entry (idt7 systemcall_vector) (address system_calls_linkage))
