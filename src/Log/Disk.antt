-- ===== src/Log/Disk.antt =====
-- The disk below the log, with the buffers through which the log reads and writes it.
-- `cache` is what `bread` returns for a block number: the buffer's data, or the disk's where no
-- buffer holds the block (kernel/bio.c). `power` counts the disk writes that are made before the
-- machine stops: the code that runs after that changes nothing on the disk.
use xv6_riscv_labs.Prelude.{ℕ, zero, suc, ◌+◌, ◌-◌, update}

-- A block as its 32-bit words. The log copies whole blocks, and reads words of its header block.
abbrev pub Block : Type 0
Block = ℕ → ℕ

pub record Io : Type 0 where
  pub cache : ℕ → Block
  pub disk : ℕ → Block
  pub pins : ℕ → ℕ
  pub power : ℕ

-- An assignment to the data of the buffer of block `b`.
abbrev pub set_data : Io → ℕ → Block → Io
set_data io b v = record io { cache = update io.cache b v }

unfoldable pub bwrite : ℕ → Io → Io
bwrite b io = elim io.power [
  | zero ↦ io
  | suc p ↦ record io { disk = update io.disk b (io.cache b); power = p }
]

abbrev pub bpin : ℕ → Io → Io
bpin b io = record io { pins = update io.pins b (io.pins b + 1) }

abbrev pub bunpin : ℕ → Io → Io
bunpin b io = record io { pins = update io.pins b (io.pins b - 1) }
