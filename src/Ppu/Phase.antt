-- ===== src/Ppu/Phase.antt =====
-- ppu_refresh() of emu/ppu.c and the functions below it that move the ppu from phase to phase.
-- render_draw_framebuffer() scales `dmg_buf` into the memory of the display, which is no part of
-- this state.
pub mod Cycle
pub mod Picture
pub mod Valid
use realboy.Prelude.{
  ℕ, ◌+◌, ◌*◌, ◌/◌, ◌%◌, ◌^◌, ◌||◌, bit_and, bit_or, leb, ◌==◌, if◌then◌else◌, to_bool, u8, u16,
  u32, sub16, not8,
}
use realboy.Machine.{PpuMode, hblank, vblank, oam_scan, draw, PpuRegs, Ppu, Machine}
use realboy.Cpu.Port.{Interrupt, intr_vblank, intr_lcd, cpu_request_intr}
use realboy.Ppu.Render.{ppu_render_line}
use realboy.Ppu.Port.{dots_oam, with_ppu, with_ppu_regs}

abbrev pub request_intr : Interrupt → Machine → Machine
request_intr im m = record m { cpu = cpu_request_intr m.cpu im }

abbrev pub dots_draw : ℕ
dots_draw = 230

abbrev pub dots_hblank : ℕ
dots_hblank = 145

abbrev pub dots_vblank : ℕ
dots_vblank = 4560

abbrev pub dots_vblank_line : ℕ
dots_vblank_line = 456

abbrev pub with_stat : ℕ → Ppu → Ppu
with_stat stat s = with_ppu_regs s (record s.regs { stat = stat })

abbrev pub set_stat : ℕ → Machine → Machine
set_stat stat m = with_ppu m (with_stat stat m.ppu)

-- `if (regs->stat & flag) cpu_request_intr(REQUEST_INTR_LCD);`
abbrev pub stat_intr : ℕ → Machine → Machine
stat_intr flag m = if to_bool (bit_and m.ppu.regs.stat flag) then request_intr intr_lcd m else m

unfoldable pub check_ly_lyc : Machine → Machine
check_ly_lyc m =
    let regs = m.ppu.regs in
    if regs.ly == regs.lyc
    then stat_intr 0b01000000 (set_stat (bit_or regs.stat 4) m)
    else set_stat (bit_and regs.stat (not8 4)) m

unfoldable pub set_ly : ℕ → Machine → Machine
set_ly value m = check_ly_lyc (with_ppu m (with_ppu_regs m.ppu (record m.ppu.regs { ly = value })))

-- `ppu.dots_remaining += dots; ppu.mode = mode; regs->stat = stat;`
abbrev pub enter : ℕ → PpuMode → ℕ → Machine → Machine
enter dots mode stat m = with_ppu m (record (with_stat stat m.ppu) {
  dots_remaining = u16 (m.ppu.dots_remaining + dots);
  mode = mode;
})

unfoldable pub hblank_end_cycle : Machine → Machine
hblank_end_cycle m =
    let m1 = set_ly (u8 (m.ppu.regs.ly + 1)) m in
    if leb 144 m1.ppu.regs.ly
    then (let m2 = with_ppu m1 (record m1.ppu { vblank_dots = 0 }) in
        let m3 = enter dots_vblank vblank (bit_or m2.ppu.regs.stat 1) m2 in
        request_intr intr_vblank (stat_intr 0b00010000 m3))
    else stat_intr 0b00100000 (enter dots_oam oam_scan (bit_or m1.ppu.regs.stat 2) m1)

unfoldable pub vblank_end_cycle : Machine → Machine
vblank_end_cycle m =
    let m1 = with_ppu m (record m.ppu { dots_remaining = u16 (m.ppu.dots_remaining + dots_oam) }) in
    let m2 = set_ly 0 m1 in
    let m3 =
      set_stat (bit_or (bit_and m2.ppu.regs.stat (not8 3)) 2)
        (with_ppu m2 (record m2.ppu { mode = oam_scan })) in
    with_ppu m3 (record m3.ppu { frame_count = (m3.ppu.frame_count + 1) % 2 ^ 64 })

-- The line that is drawn goes to the screen.
abbrev pub render_line : Machine → Machine
render_line m = record m { screen = ppu_render_line m.ppu m.screen }

unfoldable pub change_phase_from : PpuMode → Machine → Machine
change_phase_from hblank m = hblank_end_cycle m
change_phase_from vblank m = vblank_end_cycle m
change_phase_from oam_scan m = enter dots_draw draw (bit_or m.ppu.regs.stat 3) m
change_phase_from draw m =
    render_line (enter dots_hblank hblank (bit_and m.ppu.regs.stat (not8 3)) m)

-- The switch of change_phase().
abbrev pub change_phase : Machine → Machine
change_phase m = change_phase_from m.ppu.mode m

-- A halted cpu has no ticks: the phase ends at once, but for the vertical blank.
abbrev pub halted_dots : PpuMode → ℕ → ℕ
halted_dots vblank dots = dots
halted_dots _ dots = 12

-- The lines of the vertical blank.
unfoldable pub vblank_line : ℕ → Machine → Machine
vblank_line dots m =
    let now = u32 (m.ppu.vblank_dots + dots) in
    if to_bool (now / dots_vblank_line)
    then (let m1 =
          set_ly (u8 (m.ppu.regs.ly + 1)) (with_ppu m (record m.ppu { vblank_dots = now })) in
        with_ppu m1 (record m1.ppu { vblank_dots = now % dots_vblank_line }))
    else with_ppu m (record m.ppu { vblank_dots = now })

unfoldable pub in_vblank : PpuMode → ℕ → Machine → Machine
in_vblank vblank dots m = vblank_line dots m
in_vblank _ dots m = m

-- `dots_remaining <= 0`, where the pattern of an int16_t from 0x8000 on is negative.
unfoldable pub ppu_refresh : ℕ → Machine → Machine
ppu_refresh ticks m =
    if bit_and m.ppu.regs.lcdc 0x80 == 0
    then m
    else (let start =
          if ticks == 0
          then halted_dots m.ppu.mode m.ppu.dots_remaining
          else m.ppu.dots_remaining in
        let dots = (if ticks == 0 then 3 else ticks) * 4 in
        let left = sub16 start dots in
        let m1 = with_ppu m (record m.ppu { dots_remaining = left }) in
        if left == 0 || (leb 0x8000 left || m1.ppu.regs.ly == 0x99)
        then change_phase m1
        else in_vblank m1.ppu.mode dots m1)
