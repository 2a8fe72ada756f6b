-- ===== src/Machine/Valid.antt =====
-- What holds of the machine between two instructions: every field fits its C type, and the fields
-- that the code keeps in a smaller range do so.
use realboy.Prelude.{ℕ, ◌%◌, ◌^◌, ◌≤◌, ◌<◌, ◌≡◌, true, IsBytes}
use realboy.Machine.Hash.{Objects, HashValidFrom, nothing}
use realboy.Machine.{Registers, Cpu, PpuRegs, Ppu, Mbc1, Machine}

-- A value of F: no bit below the four flags.
pub record FlagByte (f : ℕ) : Type 0 where
  pub fits : f < 256
  pub low_clear : f % 16 ≡ 0

-- Bytes and words, and no bit of F below the four flags.
pub record RegistersValid (r : Registers) : Type 0 where
  pub f_flags : FlagByte r.f
  pub a_fits : r.a < 256
  pub b_fits : r.b < 256
  pub c_fits : r.c < 256
  pub d_fits : r.d < 256
  pub e_fits : r.e < 256
  pub h_fits : r.h < 256
  pub l_fits : r.l < 256
  pub sp_fits : r.sp < 65536
  pub pc_fits : r.pc < 65536

-- `if_reg` holds the five interrupts that there are, and a running timer has a divider.
pub record CpuValid (s : Cpu) : Type 0 where
  pub regs_valid : RegistersValid s.regs
  pub div_fits : s.div_reg < 256
  pub if_fits : s.if_reg < 32
  pub ie_fits : s.ie_reg < 256
  pub cycles_fit : s.cycles < 2 ^ 64
  pub div_counter_fits : s.div_counter < 64
  pub tima_fits : s.tima_reg < 256
  pub tma_fits : s.tma_reg < 256
  pub tac_fits : s.tac_reg < 8
  pub tac_counter_fits : s.tac_counter < 256
  pub divider_fits : s.tac_divider ≤ 256
  pub timer_runs : s.tima_enabled ≡ true → 0 < s.tac_divider
  pub wram_bytes : IsBytes s.wram
  pub hram_bytes : IsBytes s.hram

pub record PpuRegsValid (r : PpuRegs) : Type 0 where
  pub lcdc_fits : r.lcdc < 256
  pub ly_fits : r.ly < 256
  pub lyc_fits : r.lyc < 256
  pub stat_fits : r.stat < 256
  pub scx_fits : r.scx < 256
  pub scy_fits : r.scy < 256
  pub dma_fits : r.dma < 256
  pub bgp_fits : r.bgp < 256
  pub obp0_fits : r.obp0 < 256
  pub obp1_fits : r.obp1 < 256
  pub wx_fits : r.wx < 256
  pub wy_fits : r.wy < 256

pub record PpuValidFrom (base : Objects) (s : Ppu) : Type 0 where
  pub regs_valid : PpuRegsValid s.regs
  pub tile_bytes : IsBytes s.tile_data
  pub map1_bytes : IsBytes s.tile_map1
  pub map2_bytes : IsBytes s.tile_map2
  pub oam_bytes : IsBytes s.oam
  pub hash_valid : HashValidFrom base s.oam s.oam_hash
  pub dots_fit : s.dots_remaining < 65536
  pub frames_fit : s.frame_count < 2 ^ 64
  pub vblank_dots_fit : s.vblank_dots < 2 ^ 32

pub record Mbc1Valid (s : Mbc1) : Type 0 where
  pub rom_bytes : IsBytes s.mbc1_rom
  pub ram_bytes : IsBytes s.mbc1_ram
  pub file_bytes : IsBytes s.rom.byte

pub record MachineValidFrom (base : Objects) (m : Machine) : Type 0 where
  pub cpu_valid : CpuValid m.cpu
  pub ppu_valid : PpuValidFrom base m.ppu
  pub mbc_valid : Mbc1Valid m.mbc
  pub io_bytes : IsBytes m.tmp_ioregs

-- Without objects that have to be in the table.
abbrev pub PpuValid : Ppu → Type 0
PpuValid = PpuValidFrom nothing

abbrev pub MachineValid : Machine → Type 0
MachineValid = MachineValidFrom nothing
