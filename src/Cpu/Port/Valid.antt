-- ===== src/Cpu/Port/Valid.antt =====
-- Well-formedness: cpu_rd() and cpu_wr() of emu/cpu/cpu.c.
use realboy.Prelude.{ℕ, ◌-◌, ◌<◌, ◌≡◌, arith}
use realboy.Prelude.Bits.{bit_and-le_mask}
use realboy.Machine.{internals, Cpu}
use realboy.Machine.Valid.{CpuValid}
use realboy.Cpu.Port.{cpu_rd, cpu_wr}

pub cpu_rd-lt : (s : Cpu) (addr : ℕ) → CpuValid s → cpu_rd s addr < 256
unfolding cpu_rd
cpu_rd-lt s addr v = ground (arith, v.wram_bytes (addr - 0xc000), v.hram_bytes (addr - 0xff80))

regs-cpu_wr : (s : Cpu) (addr value : ℕ) → (cpu_wr s addr value).regs ≡ s.regs
unfolding cpu_wr
regs-cpu_wr s addr value = ground arith

pub internals-cpu_wr : (s : Cpu) (addr value : ℕ) → internals (cpu_wr s addr value) ≡ internals s
unfolding cpu_wr
internals-cpu_wr s addr value = ground arith

pub cpu_wr-Valid :
    (s : Cpu) (addr value : ℕ) → CpuValid s → value < 256 → CpuValid (cpu_wr s addr value)
unfolding cpu_wr
cpu_wr-Valid s addr value v h = record {
  regs_valid = rw regs-cpu_wr v.regs_valid;
  div_fits = ground (arith, bit_and-le_mask value 7, bit_and-le_mask value 31);
  if_fits = ground (arith, bit_and-le_mask value 7, bit_and-le_mask value 31);
  ie_fits = ground (arith, bit_and-le_mask value 7, bit_and-le_mask value 31);
  cycles_fit = ground (arith, bit_and-le_mask value 7, bit_and-le_mask value 31);
  div_counter_fits = ground (arith, bit_and-le_mask value 7, bit_and-le_mask value 31);
  tima_fits = ground (arith, bit_and-le_mask value 7, bit_and-le_mask value 31);
  tma_fits = ground (arith, bit_and-le_mask value 7, bit_and-le_mask value 31);
  tac_fits = ground (arith, bit_and-le_mask value 7, bit_and-le_mask value 31);
  tac_counter_fits = ground (arith, bit_and-le_mask value 7, bit_and-le_mask value 31);
  divider_fits = ground (arith, bit_and-le_mask value 7, bit_and-le_mask value 31);
  timer_runs = ground (arith, bit_and-le_mask value 7, bit_and-le_mask value 31);
  wram_bytes = λ i. ground (arith, v.wram_bytes i);
  hram_bytes = λ i. ground (arith, v.hram_bytes i);
}
