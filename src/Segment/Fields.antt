-- ===== src/Segment/Fields.antt =====
-- The parts of an address and of a limit that the macros spread over a descriptor.
use linux_based_os.Prelude.{
  ℕ, ◌+◌, ◌-◌, ◌*◌, ◌/◌, ◌%◌, ◌^◌, ◌<◌, ◌≡◌, arith, bit_and, bit_and_ones, bit_and_shift, ap, ◌∙◌,
}
use linux_based_os.Segment.{SegDesc, set_params, IdtDesc, set_idt_entry}

-- `(a & mask) >> k`, for a mask of `w` ones that starts at bit `k`.
field : (a w k mask : ℕ) → mask ≡ (2 ^ w - 1) * 2 ^ k → bit_and a mask ≡ a / 2 ^ k % 2 ^ w * 2 ^ k
field a w k mask e =
    ap (λ (m : ℕ). bit_and a m) e
    ∙ bit_and_shift k a (2 ^ w - 1)
    ∙ ap (λ (m : ℕ). m * 2 ^ k) (bit_and_ones w (a / 2 ^ k))

-- The handler that the processor reads from an entry of the IDT.
abbrev pub handler_of : IdtDesc → ℕ
handler_of d = d.offset_31_16 * 2 ^ 16 + d.offset_15_00

-- The base address and the limit that it reads from a segment descriptor.
abbrev pub base_of : SegDesc → ℕ
base_of d = d.base_31_24 * 2 ^ 24 + d.base_23_16 * 2 ^ 16 + d.base_15_00

abbrev pub limit_of : SegDesc → ℕ
limit_of d = d.seg_lim_19_16 * 2 ^ 16 + d.seg_lim_15_00

-- For a 32-bit address, SET_IDT_ENTRY stores the handler so that it is read back.
pub set_idt_entry_lem :
    (d : IdtDesc) (handler : ℕ) → handler < 2 ^ 32 → handler_of (set_idt_entry d handler) ≡ handler
unfolding set_idt_entry
set_idt_entry_lem d handler h =
    omega
      (arith, field handler 16 16 0xFFFF0000 (omega arith), field handler 16 0 0xFFFF (omega arith))

-- For a 32-bit address, the macros for the LDT and the TSS store the base so that it is read back,
-- with the low 20 bits of the limit, each part within its field.
pub set_params_lem :
    (d : SegDesc) (addr lim : ℕ)
    → addr < 2 ^ 32
    → (base_of (set_params d addr lim) ≡ addr)
      × (limit_of (set_params d addr lim) ≡ lim % 2 ^ 20)
      × ((set_params d addr lim).base_31_24 < 2 ^ 8)
      × ((set_params d addr lim).base_23_16 < 2 ^ 8)
      × ((set_params d addr lim).base_15_00 < 2 ^ 16)
      × ((set_params d addr lim).seg_lim_19_16 < 2 ^ 4)
      × ((set_params d addr lim).seg_lim_15_00 < 2 ^ 16)
unfolding set_params
set_params_lem d addr lim h =
    let b24 = field addr 8 24 0xFF000000 (omega arith) in
    let b16 = field addr 8 16 0x00FF0000 (omega arith) in
    let b0 = field addr 16 0 0x0000FFFF (omega arith) in
    let l16 = field lim 4 16 0x000F0000 (omega arith) in
    let l0 = field lim 16 0 0x0000FFFF (omega arith) in ground (arith, b24, b16, b0, l16, l0)
