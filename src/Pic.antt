-- ===== src/Pic.antt =====
-- student-distrib/i8259.c: the two interrupt controllers.
pub mod Masks
use linux_based_os.Prelude.{
  ℕ, ◌+◌, ◌-◌, ◌^◌, ◌%◌, ◌==◌, if◌then◌else◌, List, ◌++◌, ◌∷◌, [], u8, ◌<<<◌, bit_and, bit_or,
}
use linux_based_os.Port.{Outb, outb}

-- The cached masks, and the port writes so far.
pub record Pic : Type 0 where
  pub master_mask : ℕ
  pub slave_mask : ℕ
  pub ports : List Outb

abbrev pub master_8259_port : ℕ
master_8259_port = 0x20

abbrev pub slave_8259_port : ℕ
slave_8259_port = 0xA0

abbrev pub master_8259_data : ℕ
master_8259_data = 0x21

abbrev pub slave_8259_data : ℕ
slave_8259_data = 0xA1

abbrev pub send : ℕ → ℕ → Pic → Pic
send value port p = record p { ports = p.ports ++ (outb value port ∷ []) }

-- `~x` cut to eight bits
abbrev pub complement : ℕ → ℕ
complement x = 255 - u8 x

unfoldable pub enable_irq : ℕ → Pic → Pic
enable_irq irq_num p =
    let slave = bit_and p.slave_mask (complement (1 <<< (irq_num - 8))) in
    let master = bit_and p.master_mask (complement (1 <<< irq_num)) in
    if bit_and irq_num 8 == 0
    then send master master_8259_data (record p { master_mask = master })
    else send slave slave_8259_data (record p { slave_mask = slave })

unfoldable pub disable_irq : ℕ → Pic → Pic
disable_irq irq_num p =
    let slave = bit_or p.slave_mask (u8 (1 <<< (irq_num - 8))) in
    let master = bit_or p.master_mask (u8 (1 <<< irq_num)) in
    if bit_and irq_num 8 == 0
    then send master master_8259_data (record p { master_mask = master })
    else send slave slave_8259_data (record p { slave_mask = slave })

unfoldable pub send_eoi : ℕ → Pic → Pic
send_eoi irq_num p =
    if bit_and irq_num 8 == 0
    then send (bit_or 0x60 irq_num) master_8259_port p
    else send (bit_or 0x60 2) master_8259_port (send (bit_or 0x60 (irq_num - 8)) slave_8259_port p)

unfoldable pub i8259_init : Pic → Pic
unfolding enable_irq
i8259_init p =
    let words =
      outb 0xff master_8259_data
      ∷ outb 0xff slave_8259_data
      ∷ outb 0x11 master_8259_port
      ∷ outb 0x20 master_8259_data
      ∷ outb 0x04 master_8259_data
      ∷ outb 0x01 master_8259_data
      ∷ outb 0x11 slave_8259_port
      ∷ outb 0x28 slave_8259_data
      ∷ outb 0x02 slave_8259_data
      ∷ outb 0x01 slave_8259_data
      ∷ outb p.master_mask master_8259_data
      ∷ outb p.slave_mask slave_8259_data
      ∷ [] in
    enable_irq 2 (record p { ports = p.ports ++ words })
