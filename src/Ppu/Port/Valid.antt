-- ===== src/Ppu/Port/Valid.antt =====
-- Well-formedness: ppu_rd() and ppu_wr() of emu/ppu.c.
use realboy.Prelude.{
  ℕ, zero, suc, ◌+◌, ◌-◌, ◌*◌, ◌<◌, arith, if-holds, if-cases, leb, ◌&&◌, update, update-IsBytes,
  bit_and, ◌==◌, to_bool,
}
use realboy.Prelude.Bits.{bit_and-le}
use realboy.Machine.{Ppu, PpuRegs, Machine}
use realboy.Machine.Hash.{Objects, HashValidFrom}
use realboy.Machine.Valid.{PpuValidFrom, PpuRegsValid, MachineValidFrom}
use realboy.Ppu.Port.ObjectMemory.{wr_oam-Valid}
use realboy.Ppu.Port.{ppu_rd, wr_lcdc, oam_dma, wr_reg, ppu_wr, with_ppu}

pub ppu_rd-lt : {base : Objects} → (s : Ppu) (addr : ℕ) → PpuValidFrom base s → ppu_rd s addr < 256
unfolding ppu_rd
ppu_rd-lt s addr v = ground (
  arith,
  v.tile_bytes (addr - 0x8000),
  v.map1_bytes (addr - 0x9800),
  v.map2_bytes (addr - 0x9c00),
  v.oam_bytes (addr - 0xfe00),
)

wr_lcdc-Valid :
    {base : Objects}
    → (s : Ppu) (value : ℕ) → PpuValidFrom base s
    → value < 256
    → PpuValidFrom base (wr_lcdc s value)
unfolding wr_lcdc
wr_lcdc-Valid {base = base} s value v h = record {
  regs_valid = ground (arith, bit_and-le s.regs.stat 252);
  tile_bytes = λ i. ground (arith, v.tile_bytes i);
  map1_bytes = λ i. ground (arith, v.map1_bytes i);
  map2_bytes = λ i. ground (arith, v.map2_bytes i);
  oam_bytes = λ i. ground (arith, v.oam_bytes i);
  hash_valid =
      if-holds (λ (t : Ppu). (HashValidFrom base) t.oam t.oam_hash)
        (bit_and s.regs.lcdc 0x80 == bit_and value 0x80) _ _ v.hash_valid
        (if-holds (λ (t : Ppu). (HashValidFrom base) t.oam t.oam_hash)
          (to_bool (bit_and value 0x80)) _ _ v.hash_valid v.hash_valid);
  dots_fit = ground arith;
  frames_fit = ground arith;
  vblank_dots_fit = ground arith;
}

with_regs-Valid :
    {base : Objects}
    → (s : Ppu) (r : PpuRegs) → PpuValidFrom base s
    → PpuRegsValid r
    → PpuValidFrom base (record s { regs = r })
with_regs-Valid s r v w = record {
  regs_valid = w;
  tile_bytes = v.tile_bytes;
  map1_bytes = v.map1_bytes;
  map2_bytes = v.map2_bytes;
  oam_bytes = v.oam_bytes;
  hash_valid = v.hash_valid;
  dots_fit = v.dots_fit;
  frames_fit = v.frames_fit;
  vblank_dots_fit = v.vblank_dots_fit;
}

pub with_ppu-Valid :
    {base : Objects}
    → (m : Machine) (s : Ppu) → MachineValidFrom base m
    → PpuValidFrom base s
    → MachineValidFrom base (with_ppu m s)
with_ppu-Valid m s v w = record {
  cpu_valid = v.cpu_valid;
  ppu_valid = w;
  mbc_valid = v.mbc_valid;
  io_bytes = v.io_bytes;
}

-- A write through the ppu, given that the monitor's functions keep the machine valid.
module _ {base : Objects} (rd_mem : Machine → ℕ → ℕ) (wr_mem : Machine → ℕ → ℕ → Machine)
    (rd_lt : (m : Machine) (addr : ℕ) → MachineValidFrom base m → rd_mem m addr < 256)
    (wr_valid : (m : Machine) (addr value : ℕ)
      → MachineValidFrom base m
      → value < 256
      → MachineValidFrom base (wr_mem m addr value)) where
  oam_dma-Valid :
      (n : ℕ) (m : Machine) (addr i : ℕ)
      → MachineValidFrom base m
      → MachineValidFrom base (oam_dma rd_mem wr_mem n m addr i)
  unfolding oam_dma
  oam_dma-Valid zero m addr i v = v
  oam_dma-Valid (suc n) m addr i v =
      oam_dma-Valid n (wr_mem m (0xfe00 + i) (rd_mem m (addr + i))) addr (i + 1)
        (wr_valid m (0xfe00 + i) (rd_mem m (addr + i)) v (rd_lt m (addr + i) v))

  wr_reg-Valid :
      (m : Machine) (addr value : ℕ)
      → MachineValidFrom base m
      → value < 256
      → MachineValidFrom base (wr_reg rd_mem wr_mem m addr value)
  unfolding wr_reg
  wr_reg-Valid m addr value v h =
      let rule = if-holds (MachineValidFrom base) in
      let put = λ (r : PpuRegs) (w : PpuRegsValid r).
        with_ppu-Valid m (record m.ppu { regs = r }) v (with_regs-Valid m.ppu r v.ppu_valid w) in
      rule _ _ _
        (with_ppu-Valid m (wr_lcdc m.ppu value) v (wr_lcdc-Valid m.ppu value v.ppu_valid h))
        (rule _ _ _ (put (record m.ppu.regs { stat = value }) (omega arith)) (
          rule _ _ _ (put (record m.ppu.regs { scy = value }) (omega arith)) (
            rule _ _ _ (put (record m.ppu.regs { scx = value }) (omega arith)) (
              rule _ _ _ (put (record m.ppu.regs { ly = value }) (omega arith)) (
                rule _ _ _ (put (record m.ppu.regs { lyc = value }) (omega arith)) (
                  rule _ _ _ (oam_dma-Valid 0xa0 m (value * 0x100) 0 v) (
                    rule _ _ _ (put (record m.ppu.regs { bgp = value }) (omega arith)) (
                      rule _ _ _ (put (record m.ppu.regs { obp0 = value }) (omega arith)) (
                        rule _ _ _ (put (record m.ppu.regs { obp1 = value }) (omega arith)) (
                          rule _ _ _ (put (record m.ppu.regs { wy = value }) (omega arith)) (
                            rule _ _ _ (put (record m.ppu.regs { wx = value }) (omega arith))
                              v)))))))))))

  pub ppu_wr-Valid :
      (m : Machine) (addr value : ℕ)
      → MachineValidFrom base m
      → value < 256
      → MachineValidFrom base (ppu_wr rd_mem wr_mem m addr value)
  unfolding ppu_wr
  ppu_wr-Valid m addr value v h =
      let rule = if-holds (MachineValidFrom base) in
      let s = m.ppu in
      let w = v.ppu_valid in
      let put = λ (t : Ppu) (u : (PpuValidFrom base) t). with_ppu-Valid m t v u in
      rule (leb 0xff40 addr) _ _ (wr_reg-Valid m addr value v h) (
        rule (leb 0x8000 addr && leb addr 0x97ff) _ _
          (put (record s { tile_data = update s.tile_data (addr - 0x8000) value })
            (record {
              regs_valid = w.regs_valid;
              tile_bytes = update-IsBytes s.tile_data (addr - 0x8000) value w.tile_bytes h;
              map1_bytes = w.map1_bytes;
              map2_bytes = w.map2_bytes;
              oam_bytes = w.oam_bytes;
              hash_valid = w.hash_valid;
              dots_fit = w.dots_fit;
              frames_fit = w.frames_fit;
              vblank_dots_fit = w.vblank_dots_fit;
            }))
          (rule (leb 0x9800 addr && leb addr 0x9bff) _ _
            (put (record s { tile_map1 = update s.tile_map1 (addr - 0x9800) value })
              (record {
                regs_valid = w.regs_valid;
                tile_bytes = w.tile_bytes;
                map1_bytes = update-IsBytes s.tile_map1 (addr - 0x9800) value w.map1_bytes h;
                map2_bytes = w.map2_bytes;
                oam_bytes = w.oam_bytes;
                hash_valid = w.hash_valid;
                dots_fit = w.dots_fit;
                frames_fit = w.frames_fit;
                vblank_dots_fit = w.vblank_dots_fit;
              }))
            (rule (leb 0x9c00 addr && leb addr 0x9fff) _ _
              (put (record s { tile_map2 = update s.tile_map2 (addr - 0x9c00) value })
                (record {
                  regs_valid = w.regs_valid;
                  tile_bytes = w.tile_bytes;
                  map1_bytes = w.map1_bytes;
                  map2_bytes = update-IsBytes s.tile_map2 (addr - 0x9c00) value w.map2_bytes h;
                  oam_bytes = w.oam_bytes;
                  hash_valid = w.hash_valid;
                  dots_fit = w.dots_fit;
                  frames_fit = w.frames_fit;
                  vblank_dots_fit = w.vblank_dots_fit;
                }))
              (if-cases (MachineValidFrom base) (leb 0xfe00 addr && leb addr 0xfe9f) _ _
                (λ t. put _ (wr_oam-Valid s w value h addr (ground arith) (ground arith)))
                (λ _. v)))))
