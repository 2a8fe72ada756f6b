-- ===== src/Ppu/Phase/Picture.antt =====
-- About ppu_refresh() of emu/ppu.c: what becomes of the screen.
use realboy.Prelude.{
  ℕ, ◌+◌, ◌*◌, ◌/◌, ◌<◌, ◌≡◌, refl, ap, arith, true, ◌||◌, bit_and, bit_or, leb, ◌==◌,
  if◌then◌else◌, if-holds, to_bool, u8, u16, u32, sub16, not8,
}
use realboy.Machine.{PpuMode, hblank, vblank, oam_scan, draw, Screen, Machine}
use realboy.Ppu.Port.{with_ppu, dots_oam}
use realboy.Ppu.Render.Line.{aborted-ppu_render_line}
use realboy.Ppu.Phase.{
  stat_intr, check_ly_lyc, set_ly, hblank_end_cycle, vblank_end_cycle, change_phase_from,
  vblank_line, in_vblank, ppu_refresh, dots_vblank_line, dots_hblank, enter, halted_dots,
}
use realboy.Ppu.Phase.Cycle.{PhaseOf, InPhase}

abbrev SameScreen : Machine → Machine → Type 0
SameScreen m n = n.screen ≡ m.screen

-- Interrupts and registers are no business of the screen.
module _ (m : Machine) where
  stat_intr-screen : (flag : ℕ) → SameScreen m (stat_intr flag m)
  stat_intr-screen flag =
      if-holds (SameScreen m) (to_bool (bit_and m.ppu.regs.stat flag)) _ _ refl refl

  set_ly-screen : (value : ℕ) → SameScreen m (set_ly value m)
  unfolding set_ly check_ly_lyc
  set_ly-screen value =
      if-holds (SameScreen m) (value == m.ppu.regs.lyc) _ _
        (if-holds (SameScreen m) (to_bool (bit_and (bit_or m.ppu.regs.stat 4) 0b01000000)) _ _ refl
          refl)
        refl

  hblank_end_cycle-screen : SameScreen m (hblank_end_cycle m)
  unfolding hblank_end_cycle
  hblank_end_cycle-screen =
      let n = set_ly (u8 (m.ppu.regs.ly + 1)) m in
      let same = set_ly-screen (u8 (m.ppu.regs.ly + 1)) in
      if-holds (SameScreen m) (leb 144 n.ppu.regs.ly) _ _
        (if-holds (SameScreen m) (to_bool (bit_and (bit_or n.ppu.regs.stat 1) 0b00010000)) _ _ same
          same)
        (if-holds (SameScreen m) (to_bool (bit_and (bit_or n.ppu.regs.stat 2) 0b00100000)) _ _ same
          same)

vblank_end_cycle-screen : (m : Machine) → SameScreen m (vblank_end_cycle m)
unfolding vblank_end_cycle
vblank_end_cycle-screen m =
    set_ly-screen
      (with_ppu m (record m.ppu { dots_remaining = u16 (m.ppu.dots_remaining + dots_oam) })) 0

vblank_line-screen : (dots : ℕ) (m : Machine) → SameScreen m (vblank_line dots m)
unfolding vblank_line
vblank_line-screen dots m =
    let now = u32 (m.ppu.vblank_dots + dots) in
    if-holds (SameScreen m) (to_bool (now / dots_vblank_line)) _ _
      (set_ly-screen (with_ppu m (record m.ppu { vblank_dots = now })) (u8 (m.ppu.regs.ly + 1)))
      refl

in_vblank-screen : (mode : PpuMode) (dots : ℕ) (m : Machine) → SameScreen m (in_vblank mode dots m)
unfolding in_vblank
in_vblank-screen vblank dots m = vblank_line-screen dots m
in_vblank-screen hblank dots m = refl
in_vblank-screen oam_scan dots m = refl
in_vblank-screen draw dots m = refl

-- Lines are drawn at the end of the phase `draw` alone.
change_phase_from-aborted :
    (mode : PpuMode) (m : Machine)
    → PhaseOf mode m.ppu.regs.ly m.ppu.regs.stat
    → (change_phase_from mode m).screen.aborted ≡ m.screen.aborted
unfolding change_phase_from
change_phase_from-aborted hblank m p = ap (λ (q : Screen). q.aborted) (hblank_end_cycle-screen m)
change_phase_from-aborted vblank m p = ap (λ (q : Screen). q.aborted) (vblank_end_cycle-screen m)
change_phase_from-aborted oam_scan m p = refl
change_phase_from-aborted draw m p =
    let n = enter dots_hblank hblank (bit_and m.ppu.regs.stat (not8 3)) m in
    ground (arith, aborted-ppu_render_line n.ppu m.screen, p.0)

-- Where LY and STAT agree with the phase, a step of the ppu fails no assertion on the place of a
-- pixel.
pub ppu_refresh-aborted :
    (ticks : ℕ) (m : Machine) → InPhase m → (ppu_refresh ticks m).screen.aborted ≡ m.screen.aborted
unfolding ppu_refresh
ppu_refresh-aborted ticks m p =
    let kept = λ (n : Machine). n.screen.aborted ≡ m.screen.aborted in
    let left =
      sub16
        (if ticks == 0 then halted_dots m.ppu.mode m.ppu.dots_remaining else m.ppu.dots_remaining)
        ((if ticks == 0 then 3 else ticks) * 4) in
    if-holds kept (bit_and m.ppu.regs.lcdc 0x80 == 0) _ _ refl (
      if-holds kept (left == 0 || (leb 0x8000 left || m.ppu.regs.ly == 0x99)) _ _
        (change_phase_from-aborted m.ppu.mode _ p)
        (ap (λ (q : Screen). q.aborted) (in_vblank-screen m.ppu.mode _ _)))

-- A line that the buffer does not have ends the program at the end of its phase.
pub change_phase-out_of_buffer :
    (m : Machine) → 144 < m.ppu.regs.ly → (change_phase_from draw m).screen.aborted ≡ true
unfolding change_phase_from
change_phase-out_of_buffer m h =
    let n = enter dots_hblank hblank (bit_and m.ppu.regs.stat (not8 3)) m in
    ground (arith, aborted-ppu_render_line n.ppu m.screen)
