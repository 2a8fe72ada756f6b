-- ===== src/Mbc.antt =====
-- mbc1_rd_mem() and mbc1_wr_mem() of emu/mem/mbc1.c, the one cartridge that `mbc_init` installs.
pub mod Valid
pub mod Banks
use realboy.Prelude.{ℕ, ◌+◌, ◌-◌, ◌*◌, ◌&&◌, bit_and, leb, ◌==◌, if◌then◌else◌, update}
use realboy.Machine.{Mbc1, fread}

unfoldable pub mbc1_rd_mem : Mbc1 → ℕ → ℕ
mbc1_rd_mem s addr =
    if leb 0xa000 addr && leb addr 0xbfff then s.mbc1_ram (addr - 0xa000) else s.mbc1_rom addr

-- The bank that a write of `value` selects: a 0 is a 1, before the five low bits are taken.
abbrev pub rom_bank : ℕ → ℕ
rom_bank value = bit_and (if value == 0 then value + 1 else value) 0x1f

-- Each `fread` follows an `fseek`, so that the position of the file is no state.
unfoldable pub mbc1_wr_mem : Mbc1 → ℕ → ℕ → Mbc1
mbc1_wr_mem s addr value =
    if addr == 0xff50
    then record s { mbc1_rom = fread s.mbc1_rom 0 0x256 s.rom 0 }
    else (let s' =
          if leb 0x8000 addr
          then record s { mbc1_ram = update s.mbc1_ram (addr - 0xa000) value }
          else s in
        if leb 0x2000 addr && leb addr 0x3fff
        then record s' {
          mbc1_rom = fread s'.mbc1_rom 0x4000 0x4000 s'.rom (0x4000 * rom_bank value);
        }
        else s')
