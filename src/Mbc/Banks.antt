-- ===== src/Mbc/Banks.antt =====
-- About the bank register of emu/mem/mbc1.c.
use realboy.Prelude.{
  ℕ, ◌+◌, ◌-◌, ◌*◌, ◌/◌, ◌%◌, ◌≤◌, ◌<◌, ◌≡◌, refl, arith, true, false, bit_and, ltb, leb, ◌==◌,
  ◌&&◌, if◌then◌else◌,
}
use realboy.Prelude.Bits.{bit_and_step, bit_and-zero}
use realboy.Machine.{Mbc1, fread}
use realboy.Mbc.{rom_bank, mbc1_rd_mem, mbc1_wr_mem}

bit_and-31 : (a : ℕ) → bit_and a 31 ≡ a % 32
bit_and-31 a = omega (
  arith,
  bit_and_step a 31,
  bit_and_step (a / 2) 15,
  bit_and_step (a / 2 / 2) 7,
  bit_and_step (a / 2 / 2 / 2) 3,
  bit_and_step (a / 2 / 2 / 2 / 2) 1,
  bit_and-zero (a / 2 / 2 / 2 / 2 / 2),
)

rom_bank_lem : (value : ℕ) → rom_bank value ≡ (if value == 0 then 1 else value % 32)
rom_bank_lem value = ground (arith, bit_and-31 (value + 1), bit_and-31 value)

-- A store to the bank register shows the bank that its five low bits name from 0x4000 on, bank 1
-- for 0, as far as the file goes, and leaves what is below.
module _ (s : Mbc1) (addr value : ℕ) (low : 0x2000 ≤ addr) (high : addr ≤ 0x3fff) where
  mbc1_wr_mem-bank :
      mbc1_wr_mem s addr value
      ≡ record s { mbc1_rom = fread s.mbc1_rom 0x4000 0x4000 s.rom (0x4000 * rom_bank value) }
  unfolding mbc1_wr_mem
  mbc1_wr_mem-bank = rw (no_boot, no_ram, banks) refl
    where
      no_boot : (addr == 0xff50) ≡ false
      no_boot = ground arith

      no_ram : leb 0x8000 addr ≡ false
      no_ram = ground arith

      banks : (leb 0x2000 addr && leb addr 0x3fff) ≡ true
      banks = ground arith

  fread-inside :
      (pos i : ℕ)
      → i < 0x4000
      → pos + i < s.rom.size
      → fread s.mbc1_rom 0x4000 0x4000 s.rom pos (0x4000 + i) ≡ s.rom.byte (pos + i)
  fread-inside pos i fits inside = rw (within, offset) refl
    where
      offset : 0x4000 + i - 0x4000 ≡ i
      offset = omega arith

      within :
          (leb 0x4000 (0x4000 + i)
            && (ltb (0x4000 + i) (0x4000 + 0x4000) && ltb (pos + (0x4000 + i - 0x4000)) s.rom.size))
          ≡ true
      within = ground arith

  -- Behind a store to the bank register, an address from 0x4000 to 0x7fff reads the byte of the
  -- file in the bank that the five low bits of the value name, bank 1 for the value 0, where the
  -- file has that byte.
  pub rd_mem-wr_mem_bank :
      (i : ℕ)
      → i < 0x4000
      → 0x4000 * (if value == 0 then 1 else value % 32) + i < s.rom.size
      → mbc1_rd_mem (mbc1_wr_mem s addr value) (0x4000 + i)
        ≡ s.rom.byte (0x4000 * (if value == 0 then 1 else value % 32) + i)
  unfolding mbc1_rd_mem
  rd_mem-wr_mem_bank i fits inside =
      rw (mbc1_wr_mem-bank, rom, ← rom_bank_lem value)
        (fread-inside (0x4000 * rom_bank value) i fits (rw (rom_bank_lem value) inside))
    where
      rom : (leb 0xa000 (0x4000 + i) && leb (0x4000 + i) 0xbfff) ≡ false
      rom = ground arith
