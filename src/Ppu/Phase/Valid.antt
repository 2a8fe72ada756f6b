-- ===== src/Ppu/Phase/Valid.antt =====
-- Well-formedness: ppu_refresh() of emu/ppu.c and the functions below it.
use realboy.Prelude.{
  ℕ, ◌+◌, ◌%◌, ◌^◌, ◌<◌, ◌||◌, arith, bit_and, bit_or, leb, ◌==◌, if◌then◌else◌, if-holds, to_bool,
  u8, u16, u32, sub16, ◌*◌, ◌/◌,
}
use realboy.Prelude.Bits.{bit_and-le, bit_or-lt, bit_or-lt_pow}
use realboy.Machine.{PpuMode, hblank, vblank, oam_scan, draw, Screen, Machine}
use realboy.Machine.Hash.{Objects}
use realboy.Machine.Valid.{MachineValidFrom}
use realboy.Cpu.Port.{
  Interrupt, intr_vblank, intr_lcd, intr_timer, intr_joypad, cpu_request_intr, interrupt_mask,
}
use realboy.Cpu.Valid.Bus.{with_cpu-Valid}
use realboy.Cpu.Valid.Exec.{counters-Valid}
use realboy.Ppu.Port.{with_ppu}
use realboy.Ppu.Port.Valid.{with_ppu-Valid}
use realboy.Ppu.Phase.{
  request_intr, stat_intr, check_ly_lyc, set_ly, hblank_end_cycle, vblank_end_cycle,
  change_phase_from, vblank_line, in_vblank, ppu_refresh, halted_dots, dots_vblank_line,
}

interrupt_mask-lt : (im : Interrupt) → interrupt_mask im < 32
interrupt_mask-lt intr_vblank = omega arith
interrupt_mask-lt intr_lcd = omega arith
interrupt_mask-lt intr_timer = omega arith
interrupt_mask-lt intr_joypad = omega arith

pub request_intr-Valid :
    {base : Objects}
    → (im : Interrupt) (m : Machine) → MachineValidFrom base m
    → MachineValidFrom base (request_intr im m)
unfolding cpu_request_intr
request_intr-Valid im m v =
    let c = v.cpu_valid in
    with_cpu-Valid m _ v (
      counters-Valid m.cpu _ (bit_or m.cpu.if_reg (interrupt_mask im)) _ _ _ _ _ _ c c.div_fits
        (bit_or-lt_pow 5 m.cpu.if_reg (interrupt_mask im) c.if_fits (interrupt_mask-lt im))
        c.cycles_fit c.div_counter_fits c.tima_fits c.tac_counter_fits)

stat_intr-Valid :
    {base : Objects}
    → (flag : ℕ) (m : Machine) → MachineValidFrom base m
    → MachineValidFrom base (stat_intr flag m)
stat_intr-Valid {base = base} flag m v =
    if-holds (MachineValidFrom base) (to_bool (bit_and m.ppu.regs.stat flag)) _ _
      (request_intr-Valid intr_lcd m v) v

-- The registers and the counters of the ppu.
phase-Valid :
    {base : Objects}
    → (m : Machine) (ly stat dots frames lines : ℕ) (mode : PpuMode) → MachineValidFrom base m
    → ly < 256
    → stat < 256
    → dots < 65536
    → frames < 2 ^ 64
    → lines < 2 ^ 32
    → MachineValidFrom base (
        with_ppu m (record m.ppu {
          regs = record m.ppu.regs { ly = ly; stat = stat };
          dots_remaining = dots;
          frame_count = frames;
          vblank_dots = lines;
          mode = mode;
        }))
phase-Valid m ly stat dots frames lines mode v h1 h2 h3 h4 h5 =
    let p = v.ppu_valid in
    let r = p.regs_valid in
    with_ppu-Valid m _ v (record {
      regs_valid = record {
        lcdc_fits = r.lcdc_fits;
        ly_fits = h1;
        lyc_fits = r.lyc_fits;
        stat_fits = h2;
        scx_fits = r.scx_fits;
        scy_fits = r.scy_fits;
        dma_fits = r.dma_fits;
        bgp_fits = r.bgp_fits;
        obp0_fits = r.obp0_fits;
        obp1_fits = r.obp1_fits;
        wx_fits = r.wx_fits;
        wy_fits = r.wy_fits;
      };
      tile_bytes = p.tile_bytes;
      map1_bytes = p.map1_bytes;
      map2_bytes = p.map2_bytes;
      oam_bytes = p.oam_bytes;
      hash_valid = p.hash_valid;
      dots_fit = h3;
      frames_fit = h4;
      vblank_dots_fit = h5;
    })

-- LY and STAT alone, and a new phase.
module _ {base : Objects} (m : Machine) (v : MachineValidFrom base m) where
  lines-Valid :
      (ly stat : ℕ)
      → ly < 256
      → stat < 256
      → MachineValidFrom base
          (with_ppu m (record m.ppu { regs = record m.ppu.regs { ly = ly; stat = stat } }))
  lines-Valid ly stat h k =
      phase-Valid m ly stat _ _ _ _ v h k v.ppu_valid.dots_fit v.ppu_valid.frames_fit
        v.ppu_valid.vblank_dots_fit

  enter-Valid :
      (dots stat : ℕ) (mode : PpuMode)
      → dots < 65536
      → stat < 256
      → MachineValidFrom base (
          with_ppu m (record m.ppu {
            regs = record m.ppu.regs { stat = stat };
            dots_remaining = dots;
            mode = mode;
          }))
  enter-Valid dots stat mode h k =
      phase-Valid m _ stat dots _ _ mode v v.ppu_valid.regs_valid.ly_fits k h v.ppu_valid.frames_fit
        v.ppu_valid.vblank_dots_fit

  dots-Valid :
      (dots : ℕ)
      → dots < 65536
      → MachineValidFrom base (with_ppu m (record m.ppu { dots_remaining = dots }))
  dots-Valid dots h = enter-Valid dots _ _ h v.ppu_valid.regs_valid.stat_fits

  vblank_dots-Valid :
      (n : ℕ) → n < 2 ^ 32 → MachineValidFrom base (with_ppu m (record m.ppu { vblank_dots = n }))
  vblank_dots-Valid n h =
      phase-Valid m _ _ _ _ n _ v v.ppu_valid.regs_valid.ly_fits v.ppu_valid.regs_valid.stat_fits
        v.ppu_valid.dots_fit v.ppu_valid.frames_fit h

  stat-or : (x : ℕ) → x < 256 → bit_or m.ppu.regs.stat x < 256
  stat-or x h = bit_or-lt m.ppu.regs.stat x v.ppu_valid.regs_valid.stat_fits h

  stat-and : (x : ℕ) → bit_and m.ppu.regs.stat x < 256
  stat-and x = omega (arith, bit_and-le m.ppu.regs.stat x, v.ppu_valid.regs_valid.stat_fits)

  check_ly_lyc-Valid : MachineValidFrom base (check_ly_lyc m)
  unfolding check_ly_lyc
  check_ly_lyc-Valid =
      if-holds (MachineValidFrom base) (m.ppu.regs.ly == m.ppu.regs.lyc) _ _
        (stat_intr-Valid 0b01000000 _ (
          lines-Valid _ (bit_or m.ppu.regs.stat 4) v.ppu_valid.regs_valid.ly_fits
            (stat-or 4 (omega arith))))
        (lines-Valid _ (bit_and m.ppu.regs.stat 251) v.ppu_valid.regs_valid.ly_fits (stat-and 251))

set_ly-Valid :
    {base : Objects}
    → (value : ℕ) (m : Machine) → MachineValidFrom base m
    → value < 256
    → MachineValidFrom base (set_ly value m)
unfolding set_ly
set_ly-Valid value m v h =
    check_ly_lyc-Valid _ (lines-Valid m v value _ h v.ppu_valid.regs_valid.stat_fits)

hblank_end_cycle-Valid :
    {base : Objects}
    → (m : Machine) → MachineValidFrom base m
    → MachineValidFrom base (hblank_end_cycle m)
unfolding hblank_end_cycle
hblank_end_cycle-Valid {base = base} m v =
    let n = set_ly (u8 (m.ppu.regs.ly + 1)) m in
    let w = set_ly-Valid (u8 (m.ppu.regs.ly + 1)) m v (omega arith) in
    if-holds (MachineValidFrom base) (leb 144 n.ppu.regs.ly) _ _
      (request_intr-Valid intr_vblank _ (
        stat_intr-Valid 0b00010000 _ (
          enter-Valid _ (vblank_dots-Valid n w 0 (omega arith)) (u16 (n.ppu.dots_remaining + 4560))
            (bit_or n.ppu.regs.stat 1) vblank (omega arith) (stat-or n w 1 (omega arith)))))
      (stat_intr-Valid 0b00100000 _ (
        enter-Valid n w (u16 (n.ppu.dots_remaining + 80)) (bit_or n.ppu.regs.stat 2) oam_scan
          (omega arith) (stat-or n w 2 (omega arith))))

vblank_end_cycle-Valid :
    {base : Objects}
    → (m : Machine) → MachineValidFrom base m
    → MachineValidFrom base (vblank_end_cycle m)
unfolding vblank_end_cycle
vblank_end_cycle-Valid m v =
    let before = with_ppu m (record m.ppu { dots_remaining = u16 (m.ppu.dots_remaining + 80) }) in
    let n = set_ly 0 before in
    let w =
      set_ly-Valid 0 before (dots-Valid m v (u16 (m.ppu.dots_remaining + 80)) (omega arith))
        (omega arith) in
    phase-Valid n _ (bit_or (bit_and n.ppu.regs.stat 252) 2) _ ((n.ppu.frame_count + 1) % 2 ^ 64) _
      oam_scan w w.ppu_valid.regs_valid.ly_fits
      (bit_or-lt (bit_and n.ppu.regs.stat 252) 2 (stat-and n w 252) (omega arith))
      w.ppu_valid.dots_fit (omega arith) w.ppu_valid.vblank_dots_fit

-- The screen is no part of what must be valid.
screen-Valid :
    {base : Objects}
    → (m : Machine) (p : Screen) → MachineValidFrom base m
    → MachineValidFrom base (record m { screen = p })
screen-Valid m p v = record {
  cpu_valid = v.cpu_valid;
  ppu_valid = v.ppu_valid;
  mbc_valid = v.mbc_valid;
  io_bytes = v.io_bytes;
}

change_phase_from-Valid :
    {base : Objects}
    → (mode : PpuMode) (m : Machine) → MachineValidFrom base m
    → MachineValidFrom base (change_phase_from mode m)
unfolding change_phase_from
change_phase_from-Valid hblank m v = hblank_end_cycle-Valid m v
change_phase_from-Valid vblank m v = vblank_end_cycle-Valid m v
change_phase_from-Valid oam_scan m v =
    enter-Valid m v (u16 (m.ppu.dots_remaining + 230)) (bit_or m.ppu.regs.stat 3) draw (omega arith)
      (stat-or m v 3 (omega arith))
change_phase_from-Valid draw m v = screen-Valid _ _ (
    enter-Valid m v (u16 (m.ppu.dots_remaining + 145)) (bit_and m.ppu.regs.stat 252) hblank
      (omega arith) (stat-and m v 252))

vblank_line-Valid :
    {base : Objects}
    → (dots : ℕ) (m : Machine) → MachineValidFrom base m
    → MachineValidFrom base (vblank_line dots m)
unfolding vblank_line
vblank_line-Valid {base = base} dots m v =
    let now = u32 (m.ppu.vblank_dots + dots) in
    let w = vblank_dots-Valid m v now (omega arith) in
    if-holds (MachineValidFrom base) (to_bool (now / dots_vblank_line)) _ _
      (vblank_dots-Valid _ (set_ly-Valid (u8 (m.ppu.regs.ly + 1)) _ w (omega arith))
        (now % dots_vblank_line) (omega arith))
      w

in_vblank-Valid :
    {base : Objects}
    → (mode : PpuMode) (dots : ℕ) (m : Machine) → MachineValidFrom base m
    → MachineValidFrom base (in_vblank mode dots m)
unfolding in_vblank
in_vblank-Valid vblank dots m v = vblank_line-Valid dots m v
in_vblank-Valid hblank dots m v = v
in_vblank-Valid oam_scan dots m v = v
in_vblank-Valid draw dots m v = v

-- A step of the ppu keeps a valid machine valid.
pub ppu_refresh-Valid :
    {base : Objects}
    → (ticks : ℕ) (m : Machine) → MachineValidFrom base m
    → MachineValidFrom base (ppu_refresh ticks m)
unfolding ppu_refresh
ppu_refresh-Valid {base = base} ticks m v =
    let left =
      sub16
        (if ticks == 0 then halted_dots m.ppu.mode m.ppu.dots_remaining else m.ppu.dots_remaining)
        ((if ticks == 0 then 3 else ticks) * 4) in
    let w = dots-Valid m v left (omega arith) in
    if-holds (MachineValidFrom base) (bit_and m.ppu.regs.lcdc 0x80 == 0) _ _ v (
      if-holds (MachineValidFrom base) (left == 0 || (leb 0x8000 left || m.ppu.regs.ly == 0x99)) _ _
        (change_phase_from-Valid m.ppu.mode _ w) (in_vblank-Valid m.ppu.mode _ _ w))
