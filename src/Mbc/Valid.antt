-- ===== src/Mbc/Valid.antt =====
-- Well-formedness: mbc1_rd_mem() and mbc1_wr_mem() of emu/mem/mbc1.c.
use realboy.Prelude.{ℕ, ◌+◌, ◌-◌, ◌*◌, ◌<◌, arith}
use realboy.Machine.{Mbc1}
use realboy.Machine.Valid.{Mbc1Valid}
use realboy.Mbc.{rom_bank, mbc1_rd_mem, mbc1_wr_mem}

pub mbc1_rd_mem-lt : (s : Mbc1) (addr : ℕ) → Mbc1Valid s → mbc1_rd_mem s addr < 256
unfolding mbc1_rd_mem
mbc1_rd_mem-lt s addr v = ground (arith, v.ram_bytes (addr - 0xa000), v.rom_bytes addr)

pub mbc1_wr_mem-Valid :
    (s : Mbc1) (addr value : ℕ) → Mbc1Valid s → value < 256 → Mbc1Valid (mbc1_wr_mem s addr value)
unfolding mbc1_wr_mem
mbc1_wr_mem-Valid s addr value v h = record {
  rom_bytes = λ i. ground (
    arith,
    v.rom_bytes i,
    v.file_bytes (0 + (i - 0)),
    v.file_bytes (0x4000 * rom_bank value + (i - 0x4000)),
  );
  ram_bytes = λ i. ground (arith, v.ram_bytes i);
  file_bytes = λ i. ground (arith, v.file_bytes i);
}
