-- ===== src/Machine/PpuState.antt =====
-- `ppu_t` and `oam_hash` of emu/ppu.c.
use realboy.Prelude.{ℕ, Bytes}

pub data PpuMode : Type 0 where
  hblank vblank oam_scan draw : PpuMode

pub record PpuRegs : Type 0 where
  pub lcdc : ℕ
  pub ly : ℕ
  pub lyc : ℕ
  pub stat : ℕ
  pub scx : ℕ
  pub scy : ℕ
  pub dma : ℕ
  pub bgp : ℕ
  pub obp0 : ℕ
  pub obp1 : ℕ
  pub wx : ℕ
  pub wy : ℕ

-- `dots_remaining` is an int16_t, kept as its bit pattern. `oam_hash` is the 17 rows of 40
-- pointers in one line of 680 cells; 0 is NULL, and k + 1 is `&ppu.oam[k]`.
pub record Ppu : Type 0 where
  pub regs : PpuRegs
  pub tile_data : Bytes
  pub tile_map1 : Bytes
  pub tile_map2 : Bytes
  pub oam : Bytes
  pub oam_hash : ℕ → ℕ
  pub mode : PpuMode
  pub dots_remaining : ℕ
  pub frame_count : ℕ
  pub vblank_dots : ℕ
