-- ===== src/Ppu/Phase/Cycle.antt =====
-- The cycle of the phases: in which of them LY and the mode bits of STAT are what.
use realboy.Prelude.{
  ℕ, ◌+◌, ◌*◌, ◌/◌, ◌%◌, ◌≤◌, ◌<◌, ◌≡◌, refl, sym, ◌∙◌, arith, false, ◌||◌, bit_and, bit_or, leb,
  ◌==◌, if◌then◌else◌, if-holds, if-cases, to_bool, u8, u16, u32, sub16, or_right, subst,
}
use realboy.Prelude.Bits.{bit_and_step, bit_or_step}
use realboy.Machine.{PpuMode, hblank, vblank, oam_scan, draw, Machine}
use realboy.Cpu.Port.{cpu_request_intr}
use realboy.Ppu.Port.{with_ppu, dots_oam}
use realboy.Ppu.Phase.{
  stat_intr, check_ly_lyc, set_ly, hblank_end_cycle, vblank_end_cycle, change_phase_from,
  vblank_line, in_vblank, ppu_refresh, dots_vblank_line, halted_dots,
}

-- The lines 0 to 143 are drawn, in three phases each, and 144 to 153 are the vertical blank; the
-- two low bits of STAT name the phase.
abbrev pub PhaseOf : PpuMode → ℕ → ℕ → Type 0
PhaseOf hblank ly stat = (ly < 144) × (stat % 4 ≡ 0)
PhaseOf vblank ly stat = ((144 ≤ ly) × (ly ≤ 153)) × (stat % 4 ≡ 1)
PhaseOf oam_scan ly stat = (ly < 144) × (stat % 4 ≡ 2)
PhaseOf draw ly stat = (ly < 144) × (stat % 4 ≡ 3)

abbrev pub InPhase : Machine → Type 0
InPhase m = PhaseOf m.ppu.mode m.ppu.regs.ly m.ppu.regs.stat

-- The two low bits of STAT under the masks of the code.
set_low :
    (s : ℕ)
    → (bit_or s 1 % 4 ≡ s / 2 % 2 * 2 + 1) × ((bit_or s 2 % 4 ≡ 2 + s % 2) × (bit_or s 3 % 4 ≡ 3))
set_low s = omega (
  arith,
  bit_or_step s 1,
  bit_or_step (s / 2) 0,
  bit_or_step s 2,
  bit_or_step (s / 2) 1,
  bit_or_step s 3,
)

clear_low : (s : ℕ) → bit_and s 252 % 4 ≡ 0
clear_low s = omega (arith, bit_and_step s 252, bit_and_step (s / 2) 126)

keep_low : (s : ℕ) → (bit_or s 4 % 4 ≡ s % 4) × (bit_and s 251 % 4 ≡ s % 4)
keep_low s =
    omega
      (arith, bit_or_step s 4, bit_or_step (s / 2) 2, bit_and_step s 251, bit_and_step (s / 2) 125)

-- An interrupt on a bit of STAT is no business of the ppu.
stat_intr-ppu : (flag : ℕ) (m : Machine) → (stat_intr flag m).ppu ≡ m.ppu
stat_intr-ppu flag m =
    if-holds (λ (n : Machine). n.ppu ≡ m.ppu) (to_bool (bit_and m.ppu.regs.stat flag)) _ _ refl refl

-- LY is compared and the mode bits are kept.
module _ (m : Machine) where
  check-mode : (check_ly_lyc m).ppu.mode ≡ m.ppu.mode
  unfolding check_ly_lyc
  check-mode =
      if-holds (λ (n : Machine). n.ppu.mode ≡ m.ppu.mode) (m.ppu.regs.ly == m.ppu.regs.lyc) _ _
        (if-holds (λ (n : Machine). n.ppu.mode ≡ m.ppu.mode)
          (to_bool (bit_and (bit_or m.ppu.regs.stat 4) 0b01000000)) _ _ refl refl)
        refl

  check-ly : (check_ly_lyc m).ppu.regs.ly ≡ m.ppu.regs.ly
  unfolding check_ly_lyc
  check-ly =
      if-holds (λ (n : Machine). n.ppu.regs.ly ≡ m.ppu.regs.ly) (m.ppu.regs.ly == m.ppu.regs.lyc) _
        _
        (if-holds (λ (n : Machine). n.ppu.regs.ly ≡ m.ppu.regs.ly)
          (to_bool (bit_and (bit_or m.ppu.regs.stat 4) 0b01000000)) _ _ refl refl)
        refl

  check-stat : (check_ly_lyc m).ppu.regs.stat % 4 ≡ m.ppu.regs.stat % 4
  unfolding check_ly_lyc
  check-stat =
      if-holds (λ (n : Machine). n.ppu.regs.stat % 4 ≡ m.ppu.regs.stat % 4)
        (m.ppu.regs.ly == m.ppu.regs.lyc) _ _
        (if-holds (λ (n : Machine). n.ppu.regs.stat % 4 ≡ m.ppu.regs.stat % 4)
          (to_bool (bit_and (bit_or m.ppu.regs.stat 4) 0b01000000)) _ _ (keep_low m.ppu.regs.stat).0
          (keep_low m.ppu.regs.stat).0)
        (keep_low m.ppu.regs.stat).1

-- The same behind a new value of LY.
module _ (value : ℕ) (m : Machine) where
  set-mode : (set_ly value m).ppu.mode ≡ m.ppu.mode
  unfolding set_ly
  set-mode = check-mode _

  set-ly : (set_ly value m).ppu.regs.ly ≡ value
  unfolding set_ly
  set-ly = check-ly _

  set-stat : (set_ly value m).ppu.regs.stat % 4 ≡ m.ppu.regs.stat % 4
  unfolding set_ly
  set-stat = check-stat _

hblank_end_cycle-InPhase :
    (m : Machine) → m.ppu.regs.ly < 144 → m.ppu.regs.stat % 4 ≡ 0 → InPhase (hblank_end_cycle m)
unfolding hblank_end_cycle cpu_request_intr
hblank_end_cycle-InPhase m low clear =
    let value = u8 (m.ppu.regs.ly + 1) in
    let ly = set-ly value m in
    let stat = set-stat value m in
    let n = set_ly value m in
    let bits = set_low n.ppu.regs.stat in
    if-cases InPhase (leb 144 n.ppu.regs.ly) _ _
      (λ over.
        let entered : ((144 ≤ n.ppu.regs.ly) × (n.ppu.regs.ly ≤ 153))
            × (bit_or n.ppu.regs.stat 1 % 4 ≡ 1) =
          ground (arith, ly, stat, bits.0) in
        if-holds InPhase (to_bool (bit_and (bit_or n.ppu.regs.stat 1) 0b00010000)) _ _ entered
          entered)
      (λ under.
        let entered : (n.ppu.regs.ly < 144) × (bit_or n.ppu.regs.stat 2 % 4 ≡ 2) =
          ground (arith, ly, stat, bits.1.0) in
        if-holds InPhase (to_bool (bit_and (bit_or n.ppu.regs.stat 2) 0b00100000)) _ _ entered
          entered)

vblank_end_cycle-InPhase : (m : Machine) → InPhase (vblank_end_cycle m)
unfolding vblank_end_cycle
vblank_end_cycle-InPhase m =
    let before =
      with_ppu m (record m.ppu { dots_remaining = u16 (m.ppu.dots_remaining + dots_oam) }) in
    let n = set_ly 0 before in
    let ly = set-ly 0 before in
    omega (arith, ly, clear_low n.ppu.regs.stat, (set_low (bit_and n.ppu.regs.stat 252)).1.0)

change_phase_from-InPhase :
    (mode : PpuMode) (m : Machine)
    → PhaseOf mode m.ppu.regs.ly m.ppu.regs.stat
    → InPhase (change_phase_from mode m)
unfolding change_phase_from
change_phase_from-InPhase hblank m p = hblank_end_cycle-InPhase m p.0 p.1
change_phase_from-InPhase vblank m p = vblank_end_cycle-InPhase m
change_phase_from-InPhase oam_scan m p = (p.0, (set_low m.ppu.regs.stat).1.1)
change_phase_from-InPhase draw m p = (p.0, clear_low m.ppu.regs.stat)

-- A line of the vblank that is over is followed by another, up to 153.
module _ (dots : ℕ) (m : Machine) (e : m.ppu.mode ≡ vblank) (low : m.ppu.regs.ly ≤ 152)
    (p : PhaseOf vblank m.ppu.regs.ly m.ppu.regs.stat) where
  vblank_line-InPhase : InPhase (vblank_line dots m)
  unfolding vblank_line
  vblank_line-InPhase =
      let now = u32 (m.ppu.vblank_dots + dots) in
      let value = u8 (m.ppu.regs.ly + 1) in
      let before = with_ppu m (record m.ppu { vblank_dots = now }) in
      let stat = set-stat value before in
      let ly = set-ly value before in
      let n = set_ly value before in
      let entered : PhaseOf vblank n.ppu.regs.ly n.ppu.regs.stat = omega (arith, ly, stat, p) in
      if-holds InPhase (to_bool (now / dots_vblank_line)) _ _
        (subst (λ x. PhaseOf x n.ppu.regs.ly n.ppu.regs.stat) (sym (set-mode value before ∙ e))
          entered)
        (subst (λ x. PhaseOf x m.ppu.regs.ly m.ppu.regs.stat) (sym e) p)

in_vblank-InPhase :
    (mode : PpuMode) (dots : ℕ) (m : Machine)
    → m.ppu.mode ≡ mode
    → (m.ppu.regs.ly == 0x99) ≡ false
    → InPhase m
    → InPhase (in_vblank mode dots m)
unfolding in_vblank
in_vblank-InPhase vblank dots m e f p =
    let q : PhaseOf vblank m.ppu.regs.ly m.ppu.regs.stat =
      subst (λ x. PhaseOf x m.ppu.regs.ly m.ppu.regs.stat) e p in
    vblank_line-InPhase dots m e (ground (arith, q)) q
in_vblank-InPhase hblank dots m e f p = p
in_vblank-InPhase oam_scan dots m e f p = p
in_vblank-InPhase draw dots m e f p = p

-- A step of the ppu keeps LY and the mode bits of STAT in agreement with the phase: LY is below 144
-- while a line is scanned, drawn or blanked, and from 144 to 153 in the vertical blank.
pub ppu_refresh-InPhase : (ticks : ℕ) (m : Machine) → InPhase m → InPhase (ppu_refresh ticks m)
unfolding ppu_refresh
ppu_refresh-InPhase ticks m p =
    let left =
      sub16
        (if ticks == 0 then halted_dots m.ppu.mode m.ppu.dots_remaining else m.ppu.dots_remaining)
        ((if ticks == 0 then 3 else ticks) * 4) in
    if-holds InPhase (bit_and m.ppu.regs.lcdc 0x80 == 0) _ _ p (
      if-cases InPhase (left == 0 || (leb 0x8000 left || m.ppu.regs.ly == 0x99)) _ _
        (λ _. change_phase_from-InPhase m.ppu.mode _ p)
        (λ stays. in_vblank-InPhase m.ppu.mode _ _ refl (or_right _ _ (or_right _ _ stays)) p))
