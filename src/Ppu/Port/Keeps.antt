-- ===== src/Ppu/Port/Keeps.antt =====
-- What a write through the ppu leaves alone, and how it depends on the monitor's functions.
use realboy.Prelude.{
  ℕ, zero, suc, ◌+◌, ◌*◌, ◌<◌, ◌≤◌, ◌≡◌, refl, ◌∙◌, false, arith, if-holds, leb, ◌&&◌, ◌==◌,
}
use realboy.Machine.{Ppu, Machine}
use realboy.Ppu.Port.{oam_dma, wr_reg, ppu_wr}

-- A view of the machine that the ppu is no part of, where the monitor's function keeps it.
module _ {A : Type 0} (view : Machine → A)
    (frame : (m : Machine) (p : Ppu) → view (record m { ppu = p }) ≡ view m)
    (rd_mem : Machine → ℕ → ℕ) (wr_mem : Machine → ℕ → ℕ → Machine)
    (keeps : (m : Machine) (addr value : ℕ) → view (wr_mem m addr value) ≡ view m) where
  view-oam_dma :
      (n : ℕ) (m : Machine) (addr i : ℕ) → view (oam_dma rd_mem wr_mem n m addr i) ≡ view m
  unfolding oam_dma
  view-oam_dma zero m addr i = refl
  view-oam_dma (suc n) m addr i =
      view-oam_dma n (wr_mem m (0xfe00 + i) (rd_mem m (addr + i))) addr (i + 1)
      ∙ keeps m (0xfe00 + i) (rd_mem m (addr + i))

  view-wr_reg : (m : Machine) (addr value : ℕ) → view (wr_reg rd_mem wr_mem m addr value) ≡ view m
  unfolding wr_reg
  view-wr_reg m addr value =
      let rule = if-holds (λ (n : Machine). view n ≡ view m) in
      rule (addr == 0xff40) _ _ (frame m _) (
        rule (addr == 0xff41) _ _ (frame m _) (
          rule (addr == 0xff42) _ _ (frame m _) (
            rule (addr == 0xff43) _ _ (frame m _) (
              rule (addr == 0xff44) _ _ (frame m _) (
                rule (addr == 0xff45) _ _ (frame m _) (
                  rule (addr == 0xff46) _ _ (view-oam_dma 0xa0 m (value * 0x100) 0) (
                    rule (addr == 0xff47) _ _ (frame m _) (
                      rule (addr == 0xff48) _ _ (frame m _) (
                        rule (addr == 0xff49) _ _ (frame m _) (
                          rule (addr == 0xff4a) _ _ (frame m _)
                            (rule (addr == 0xff4b) _ _ (frame m _) refl)))))))))))

  pub view-ppu_wr :
      (m : Machine) (addr value : ℕ) → view (ppu_wr rd_mem wr_mem m addr value) ≡ view m
  unfolding ppu_wr
  view-ppu_wr m addr value =
      let rule = if-holds (λ (n : Machine). view n ≡ view m) in
      rule (leb 0xff40 addr) _ _ (view-wr_reg m addr value) (
        rule (leb 0x8000 addr && leb addr 0x97ff) _ _ (frame m _) (
          rule (leb 0x9800 addr && leb addr 0x9bff) _ _ (frame m _) (
            rule (leb 0x9c00 addr && leb addr 0x9fff) _ _ (frame m _)
              (rule (leb 0xfe00 addr && leb addr 0xfe9f) _ _ (frame m _) refl))))

-- Two ways to write that agree on the object memory.
module _ (rd_mem : Machine → ℕ → ℕ) (wr wr' : Machine → ℕ → ℕ → Machine)
    (agree : (m : Machine) (i value : ℕ)
      → i < 0xa0
      → wr m (0xfe00 + i) value ≡ wr' m (0xfe00 + i) value) where
  oam_dma_agree :
      (n : ℕ) (m : Machine) (addr i : ℕ)
      → n + i ≤ 0xa0
      → oam_dma rd_mem wr n m addr i ≡ oam_dma rd_mem wr' n m addr i
  unfolding oam_dma
  oam_dma_agree zero m addr i h = refl
  oam_dma_agree (suc n) m addr i h =
      rw (agree m i (rd_mem m (addr + i)) (omega arith))
        (oam_dma_agree n (wr' m (0xfe00 + i) (rd_mem m (addr + i))) addr (i + 1) (omega arith))

  wr_reg_agree :
      (m : Machine) (addr value : ℕ)
      → wr_reg rd_mem wr m addr value ≡ wr_reg rd_mem wr' m addr value
  unfolding wr_reg
  wr_reg_agree m addr value = rw (oam_dma_agree 0xa0 m (value * 0x100) 0 (omega arith))

  pub ppu_wr_agree :
      (m : Machine) (addr value : ℕ)
      → ppu_wr rd_mem wr m addr value ≡ ppu_wr rd_mem wr' m addr value
  unfolding ppu_wr
  ppu_wr_agree m addr value = rw (wr_reg_agree m addr value)

-- Outside the registers a write does not use the monitor.
pub ppu_wr_below_registers :
    (rd_mem : Machine → ℕ → ℕ) (wr wr' : Machine → ℕ → ℕ → Machine) (m : Machine) (addr value : ℕ)
    → addr < 0xff40
    → ppu_wr rd_mem wr m addr value ≡ ppu_wr rd_mem wr' m addr value
unfolding ppu_wr
ppu_wr_below_registers rd_mem wr wr' m addr value h =
    let below : leb 0xff40 addr ≡ false = ground arith in rw below
