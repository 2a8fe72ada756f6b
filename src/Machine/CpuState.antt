-- ===== src/Machine/CpuState.antt =====
-- `cpu_t` of emu/cpu/cpu.h: the registers, the registers mapped to the IO range, and the ram.
use realboy.Prelude.{ℕ, Bool, Bytes}
use realboy.Machine.RegState.{Registers}

pub record Cpu : Type 0 where
  pub regs : Registers
  pub div_reg : ℕ
  pub if_reg : ℕ
  pub ie_reg : ℕ
  pub cycles : ℕ
  pub div_counter : ℕ
  pub tima_enabled : Bool
  pub tima_reg : ℕ
  pub tma_reg : ℕ
  pub tac_reg : ℕ
  pub tac_counter : ℕ
  pub tac_divider : ℕ
  pub is_halted : Bool
  pub ime_enabled : Bool
  pub disable_bootrom : Bool
  pub wram : Bytes
  pub hram : Bytes

-- The part of the state that no write to memory reaches.
abbrev pub internals : Cpu → Registers × (Bool × Bool)
internals s = (s.regs, (s.ime_enabled, s.is_halted))
