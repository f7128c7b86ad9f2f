-- ===== src/Port.antt =====
-- The port writes of the drivers, in the order they are made: `outb(data, port)` of lib.h.
use linux_based_os.Prelude.{ℕ}

pub data Outb : Type 0 where
  outb : (data_byte port : ℕ) → Outb
