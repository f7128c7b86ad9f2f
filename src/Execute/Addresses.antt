-- ===== src/Execute/Addresses.antt =====
-- Where the control blocks, the kernel stacks and the programs of the processes are.
use linux_based_os.Prelude.{
  ℕ, ◌+◌, ◌*◌, ◌/◌, ◌^◌, ◌<◌, ◌≤◌, ◌≡◌, ◌∙◌, ap, arith, bit_and_shift, bit_and_ones,
}
use linux_based_os.Execute.{
  current_pcb, pcb_addr, kernel_stack_addr, physical_page_addr, eight_kb, eight_mb, four_mb,
}

-- In the kernel of process `pid` the stack pointer is in the 8KB below its stack address.
abbrev pub OnStack : ℕ → ℕ → Type 0
OnStack pid esp = (pcb_addr pid ≤ esp) × (esp < kernel_stack_addr pid)

-- On the kernel stack of any of the seven processes, masking the stack pointer gives the address of
-- that process's control block.
pub current_pcb_lem :
    (pid esp : ℕ) → 1 ≤ pid → pid ≤ 7 → OnStack pid esp → current_pcb esp ≡ pcb_addr pid
unfolding current_pcb
current_pcb_lem pid esp lo hi (a, b) =
    bit_and_shift 13 esp 0x7FFFF
    ∙ ap (λ n. n * 2 ^ 13) (bit_and_ones 19 (esp / 2 ^ 13))
    ∙ omega arith

-- Of two of the seven processes the control blocks and kernel stacks do not overlap and lie in the
-- kernel's page, and their programs are in different pages of four megabytes above it.
addresses_apart :
    (p q : ℕ)
    → 1 ≤ p
    → p < q
    → q ≤ 7
    → (pcb_addr q + eight_kb ≤ pcb_addr p)
      × (kernel_stack_addr q ≤ pcb_addr p)
      × (four_mb ≤ pcb_addr q)
      × (physical_page_addr p + four_mb ≤ physical_page_addr q)
      × (eight_mb ≤ physical_page_addr p)
addresses_apart p q lo l hi = (omega arith, omega arith, omega arith, omega arith, omega arith)
