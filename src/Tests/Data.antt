-- ===== src/Tests/Data.antt =====
-- A machine in the middle of a program: its registers hold packed decimals, the timer is about to
-- overflow and its interrupt is enabled, and the ppu scans the objects of line 0.
use realboy.Prelude.{◌%◌, update, true, false, none, refl, [], arith}
use realboy.Machine.{Registers, Cpu, oam_scan, Ppu, Mbc1, Machine}
use realboy.Ppu.Oam.{oam_rehash}
use realboy.Machine.Hash.{HashRows}
use realboy.Machine.Valid.{RegistersValid, CpuValid, PpuValid, MachineValid}

abbrev pub test_regs : Registers
test_regs = record {
  f = 0x90;
  a = 0x47;
  c = 0x11;
  b = 0x58;
  e = 0;
  d = 0x80;
  l = 0xff;
  h = 0xc0;
  sp = 0xfffe;
  pc = 0xc000;
}

abbrev pub test_cpu : Cpu
test_cpu = record {
  regs = test_regs;
  div_reg = 255;
  if_reg = 5;
  ie_reg = 4;
  cycles = 100;
  div_counter = 62;
  tima_enabled = true;
  tima_reg = 255;
  tma_reg = 7;
  tac_reg = 5;
  tac_counter = 3;
  tac_divider = 4;
  is_halted = true;
  ime_enabled = true;
  disable_bootrom = true;
  wram = λ i. 0;
  hram = λ i. 1;
}

abbrev pub test_ppu : Ppu
test_ppu = record {
  regs = record {
    lcdc = 0x80;
    ly = 0;
    lyc = 1;
    stat = 2;
    scx = 0;
    scy = 0;
    dma = 0;
    bgp = 0;
    obp0 = 0;
    obp1 = 0;
    wx = 0;
    wy = 0;
  };
  tile_data = λ i. 0;
  tile_map1 = λ i. 0;
  tile_map2 = λ i. 0;
  oam = λ i. 0;
  oam_hash = λ i. 0;
  mode = oam_scan;
  dots_remaining = 8;
  frame_count = 0;
  vblank_dots = 0;
}

-- A cartridge of four banks.
abbrev pub test_mbc : Mbc1
test_mbc = record {
  mbc1_rom = λ i. 0;
  mbc1_ram = λ i. 0;
  rom = record { size = 0x10000; byte = λ i. i % 251 };
}

abbrev pub test_machine : Machine
test_machine = record {
  cpu = test_cpu;
  ppu = test_ppu;
  mbc = test_mbc;
  tmp_ioregs = λ i. 0;
  keys = record {
    start_released = false;
    select_released = true;
    a_released = true;
    b_released = true;
    up_released = true;
    down_released = true;
    left_released = true;
    right_released = true;
  };
  screen = record { dmg_buf = λ k. none; aborted = false };
}

pub test_regs-Valid : RegistersValid test_regs
test_regs-Valid = omega arith

pub test_cpu-Valid : CpuValid test_cpu
test_cpu-Valid = record {
  regs_valid = test_regs-Valid;
  div_fits = omega arith;
  if_fits = omega arith;
  ie_fits = omega arith;
  cycles_fit = omega arith;
  div_counter_fits = omega arith;
  tima_fits = omega arith;
  tma_fits = omega arith;
  tac_fits = omega arith;
  tac_counter_fits = omega arith;
  divider_fits = omega arith;
  timer_runs = λ _. omega arith;
  wram_bytes = λ i. omega arith;
  hram_bytes = λ i. omega arith;
}

-- No object was moved yet.
pub empty_hash : HashRows test_ppu.oam test_ppu.oam_hash (λ r. []) (λ j. false)
empty_hash = record {
  held = λ r h i lt. refl;
  cells = λ r. tt;
  once = λ r j h. refl;
  fresh = λ j h e. refl;
  all_told = refl;
}

pub test_ppu-Valid : PpuValid test_ppu
test_ppu-Valid = record {
  regs_valid = omega arith;
  tile_bytes = λ i. omega arith;
  map1_bytes = λ i. omega arith;
  map2_bytes = λ i. omega arith;
  oam_bytes = λ i. omega arith;
  hash_valid = (λ r. [], λ j. false, empty_hash, λ j e. e);
  dots_fit = omega arith;
  frames_fit = omega arith;
  vblank_dots_fit = omega arith;
}

pub test_machine-Valid : MachineValid test_machine
test_machine-Valid = record {
  cpu_valid = test_cpu-Valid;
  ppu_valid = test_ppu-Valid;
  mbc_valid = record {
    rom_bytes = λ i. omega arith;
    ram_bytes = λ i. omega arith;
    file_bytes = λ i. omega arith;
  };
  io_bytes = λ i. omega arith;
}

-- An object at line 16 of the screen, hashed.
abbrev pub one_object : Ppu
one_object = record test_ppu {
  oam = update test_ppu.oam 0 0x20;
  oam_hash = (oam_rehash test_ppu 0 0x20).oam_hash;
}
