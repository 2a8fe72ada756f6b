-- ===== src/Machine.antt =====
-- The state of the emulated machine: the globals of the cpu, the ppu, the cartridge, the
-- monitor and the renderer, in one record that the functions of the program take and return.
mod RegState
mod CpuState
mod PpuState
mod Mbc1State
mod ScreenState
pub mod Hash
pub mod Valid
pub use RegState.*
pub use CpuState.*
pub use PpuState.*
pub use Mbc1State.*
pub use ScreenState.*
use realboy.Prelude.{ℕ, Bool, Bytes}

-- The `*_released` flags of monitor.c.
pub record Keys : Type 0 where
  pub start_released : Bool
  pub select_released : Bool
  pub a_released : Bool
  pub b_released : Bool
  pub up_released : Bool
  pub down_released : Bool
  pub left_released : Bool
  pub right_released : Bool

pub record Machine : Type 0 where
  pub cpu : Cpu
  pub ppu : Ppu
  pub mbc : Mbc1
  pub tmp_ioregs : Bytes
  pub keys : Keys
  pub screen : Screen

abbrev pub with_regs : Machine → Registers → Machine
with_regs m r = record m { cpu = record m.cpu { regs = r } }
