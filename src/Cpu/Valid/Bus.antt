-- ===== src/Cpu/Valid/Bus.antt =====
-- Well-formedness: RD_WORD and WR_WORD of emu/cpu/cpu.h.
use realboy.Prelude.{ℕ, ◌+◌, ◌*◌, ◌/◌, ◌<◌, ◌≡◌, ◌∙◌, arith, bit_and, u16}
use realboy.Prelude.Bits.{bit_and-le_mask, bit_or-lt_pow}
use realboy.Machine.{Registers, Cpu, Machine, with_regs}
use realboy.Machine.Hash.{Objects}
use realboy.Machine.Valid.{RegistersValid, CpuValid, MachineValidFrom}
use realboy.Monitor.{monitor_rd_mem, monitor_wr_mem}
use realboy.Monitor.Valid.{monitor_rd_mem-lt, monitor_wr_mem-Valid}
use realboy.Monitor.Depth.{regs-monitor_wr_mem}
use realboy.Cpu.Bus.{rd_word, wr_word}

pub regs_of : {base : Objects} → (m : Machine) → MachineValidFrom base m → RegistersValid m.cpu.regs
regs_of m v = v.cpu_valid.regs_valid

pub with_cpu-Valid :
    {base : Objects}
    → (m : Machine) (s : Cpu) → MachineValidFrom base m
    → CpuValid s
    → MachineValidFrom base (record m { cpu = s })
with_cpu-Valid m s v w = record {
  cpu_valid = w;
  ppu_valid = v.ppu_valid;
  mbc_valid = v.mbc_valid;
  io_bytes = v.io_bytes;
}

pub with_regs-Valid :
    {base : Objects}
    → (m : Machine) (r : Registers) → MachineValidFrom base m
    → RegistersValid r
    → MachineValidFrom base (with_regs m r)
with_regs-Valid m r v w = with_cpu-Valid m _ v (
    let c = v.cpu_valid in
    record {
      regs_valid = w;
      div_fits = c.div_fits;
      if_fits = c.if_fits;
      ie_fits = c.ie_fits;
      cycles_fit = c.cycles_fit;
      div_counter_fits = c.div_counter_fits;
      tima_fits = c.tima_fits;
      tma_fits = c.tma_fits;
      tac_fits = c.tac_fits;
      tac_counter_fits = c.tac_counter_fits;
      divider_fits = c.divider_fits;
      timer_runs = c.timer_runs;
      wram_bytes = c.wram_bytes;
      hram_bytes = c.hram_bytes;
    })

pub rd_word-lt :
    {base : Objects} → (m : Machine) (addr : ℕ) → MachineValidFrom base m → rd_word m addr < 65536
unfolding rd_word
rd_word-lt m addr v =
    let lo = monitor_rd_mem-lt m addr v in
    let hi = monitor_rd_mem-lt m (u16 (addr + 1)) v in
    bit_or-lt_pow 16 (monitor_rd_mem m addr) (monitor_rd_mem m (u16 (addr + 1)) * 256) (omega arith)
      (omega arith)

module _ (addr value : Machine → ℕ) (m : Machine) where
  pub wr_word-Valid :
      {base : Objects} → MachineValidFrom base m → MachineValidFrom base (wr_word addr value m)
  unfolding wr_word
  wr_word-Valid v =
      let m1 = monitor_wr_mem m (addr m) (bit_and (value m) 0xff) in
      let v1 =
        monitor_wr_mem-Valid m (addr m) (bit_and (value m) 0xff) v
          (omega (arith, bit_and-le_mask (value m) 255)) in
      monitor_wr_mem-Valid m1 (u16 (addr m1 + 1)) (bit_and (value m1) 0xff00 / 256) v1
        (omega (arith, bit_and-le_mask (value m1) 0xff00))

  pub regs-wr_word : (wr_word addr value m).cpu.regs ≡ m.cpu.regs
  unfolding wr_word
  regs-wr_word = regs-monitor_wr_mem _ _ _ ∙ regs-monitor_wr_mem _ _ _
