-- ===== src/Monitor/Depth.antt =====
-- About the recursion of monitor_wr_mem() of monitor.c through the DMA of the ppu, and what no
-- store reaches.
use realboy.Prelude.{
  ℕ, zero, suc, ◌+◌, ◌<◌, ◌≡◌, refl, ap, ◌∙◌, arith, Bytes, ◌==◌, ◌&&◌, leb, if-holds,
}
use realboy.Machine.{internals, Ppu, Mbc1, Machine}
use realboy.Ppu.Port.{ppu_wr}
use realboy.Ppu.Port.Keeps.{ppu_wr_agree, ppu_wr_below_registers, view-ppu_wr}
use realboy.Cpu.Port.Valid.{internals-cpu_wr}
use realboy.Monitor.{in_ppu, monitor_rd_mem, with_cpu_wr, wr_mem_body, wr_mem_depth, monitor_wr_mem}

-- The body depends on the inner call only through the ppu.
wr_mem_body_agree :
    (again again' : Machine → ℕ → ℕ → Machine) (m : Machine) (addr value : ℕ)
    → ppu_wr monitor_rd_mem again m addr value ≡ ppu_wr monitor_rd_mem again' m addr value
    → wr_mem_body again m addr value ≡ wr_mem_body again' m addr value
unfolding wr_mem_body
wr_mem_body_agree again again' m addr value e = rw e

wr_mem_depth-oam :
    (more more' : ℕ) (m : Machine) (i value : ℕ)
    → i < 0xa0
    → wr_mem_depth (suc more) m (0xfe00 + i) value ≡ wr_mem_depth (suc more') m (0xfe00 + i) value
unfolding wr_mem_depth
wr_mem_depth-oam more more' m i value h =
    wr_mem_body_agree (wr_mem_depth more) (wr_mem_depth more') m (0xfe00 + i) value (
      ppu_wr_below_registers monitor_rd_mem (wr_mem_depth more) (wr_mem_depth more') m (0xfe00 + i)
        value (omega arith))

-- The recursion of monitor_wr_mem() through the DMA of the ppu is two calls deep at most: any
-- greater depth gives the same machine.
pub wr_mem_depth_enough :
    (more : ℕ) (m : Machine) (addr value : ℕ)
    → wr_mem_depth (suc (suc more)) m addr value ≡ monitor_wr_mem m addr value
unfolding wr_mem_depth monitor_wr_mem
wr_mem_depth_enough more m addr value =
    wr_mem_body_agree (wr_mem_depth (suc more)) (wr_mem_depth 1) m addr value (
      ppu_wr_agree monitor_rd_mem (wr_mem_depth (suc more)) (wr_mem_depth 1)
        (λ n i v h. wr_mem_depth-oam more 0 n i v h) m addr value)

-- A view of the machine that no memory is a part of.
module _ {A : Type 0} (view : Machine → A)
    (frame : (m : Machine) (addr value : ℕ) → view (with_cpu_wr m addr value) ≡ view m)
    (frame_ppu : (m : Machine) (p : Ppu) → view (record m { ppu = p }) ≡ view m)
    (frame_mbc : (m : Machine) (c : Mbc1) → view (record m { mbc = c }) ≡ view m)
    (frame_io : (m : Machine) (f : Bytes) → view (record m { tmp_ioregs = f }) ≡ view m) where
  view-wr_mem_body :
      (again : Machine → ℕ → ℕ → Machine)
      → ((m : Machine) (addr value : ℕ) → view (again m addr value) ≡ view m)
      → (m : Machine) (addr value : ℕ) → view (wr_mem_body again m addr value) ≡ view m
  unfolding wr_mem_body
  view-wr_mem_body again keeps m addr value =
      let rule = if-holds (λ (n : Machine). view n ≡ view m) in
      let cpu = frame m addr value in
      rule (addr == 0xffff) _ _ cpu (
        rule (addr == 0xff0f) _ _ cpu (
          rule (addr == 0xff04) _ _ cpu (
            rule (addr == 0xff05) _ _ cpu (
              rule (addr == 0xff06) _ _ cpu (
                rule (addr == 0xff07) _ _ cpu (
                  rule (addr == 0xff50) _ _ (frame_mbc _ _ ∙ cpu) (
                    rule (in_ppu addr) _ _
                      (view-ppu_wr view frame_ppu monitor_rd_mem again keeps m addr value)
                      (rule (leb 0xc000 addr && leb addr 0xdfff) _ _ cpu (
                        rule (leb 0xff80 addr && leb addr 0xfffe) _ _ cpu (
                          rule (leb addr 0xbfff) _ _ (frame_mbc m _)
                            (rule (addr == 0xff00) _ _ (frame_io m _) (frame_io m _))))))))))))

  view-wr_mem_depth :
      (depth : ℕ) (m : Machine) (addr value : ℕ) → view (wr_mem_depth depth m addr value) ≡ view m
  unfolding wr_mem_depth
  view-wr_mem_depth zero m addr value = refl
  view-wr_mem_depth (suc depth) m addr value =
      view-wr_mem_body (wr_mem_depth depth) (view-wr_mem_depth depth) m addr value

-- No store to memory, to whatever address, changes the registers of the cpu, its interrupt switch
-- or its halt.
pub internals-monitor_wr_mem :
    (m : Machine) (addr value : ℕ) → internals (monitor_wr_mem m addr value).cpu ≡ internals m.cpu
unfolding monitor_wr_mem
internals-monitor_wr_mem =
    view-wr_mem_depth (λ m. internals m.cpu) (λ m addr value. internals-cpu_wr m.cpu addr value)
      (λ m p. refl) (λ m c. refl) (λ m f. refl) 2

pub regs-monitor_wr_mem :
    (m : Machine) (addr value : ℕ) → (monitor_wr_mem m addr value).cpu.regs ≡ m.cpu.regs
regs-monitor_wr_mem m addr value = ap (λ x. x.0) (internals-monitor_wr_mem m addr value)
