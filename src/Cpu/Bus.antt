-- ===== src/Cpu/Bus.antt =====
-- RD_WORD and WR_WORD of emu/cpu/cpu.h, ADVANCE_PC, and the result of an instruction.
use realboy.Prelude.{ℕ, ◌+◌, ◌*◌, ◌/◌, bit_and, bit_or, u16}
use realboy.Machine.{Registers, reg_hl_of, Machine, with_regs}
use realboy.Monitor.{monitor_rd_mem, monitor_wr_mem}

-- The machine after an instruction, and the cycles that its function returns.
abbrev pub Executed : Type 0
Executed = Machine × ℕ

abbrev pub reg_pc : Machine → ℕ
reg_pc m = m.cpu.regs.pc

abbrev pub reg_sp : Machine → ℕ
reg_sp m = m.cpu.regs.sp

abbrev pub reg_hl : Machine → ℕ
reg_hl m = reg_hl_of m.cpu.regs

-- The second address is an `int` that is converted to a uint16_t.
unfoldable pub rd_word : Machine → ℕ → ℕ
rd_word m addr = bit_or (monitor_rd_mem m addr) (monitor_rd_mem m (u16 (addr + 1)) * 256)

-- The macro evaluates its arguments twice: the second time after the first byte is written.
unfoldable pub wr_word : (Machine → ℕ) → (Machine → ℕ) → Machine → Machine
wr_word addr value m =
    let m1 = monitor_wr_mem m (addr m) (bit_and (value m) 0xff) in
    monitor_wr_mem m1 (u16 (addr m1 + 1)) (bit_and (value m1) 0xff00 / 256)

abbrev pub advance_pc : ℕ → Registers → Registers
advance_pc x r = record r { pc = u16 (r.pc + x) }

abbrev pub on_regs : (Registers → Registers) → Machine → Machine
on_regs g m = with_regs m (g m.cpu.regs)
