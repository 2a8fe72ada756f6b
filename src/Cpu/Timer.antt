-- ===== src/Cpu/Timer.antt =====
-- The divider and the timer of cpu_exec_next(): how far the cycles of an instruction take them.
use realboy.Prelude.{
  ℕ, ◌+◌, ◌*◌, ◌/◌, ◌%◌, ◌^◌, ◌≤◌, ◌<◌, ◌≡◌, arith, true, false, bit_or, ltb, ◌==◌, if◌then◌else◌,
  if-cases, Bool-cases, inl, inr, ap, refl, u8, ltb_sound, to_bool, ◌-◌, ◌∙◌,
}
use native.Mathlib.Nat.{div-eq_of_lt, div-eq_of_lt-le, mod-eq-sub-mod, mod-eq_of_lt}
use realboy.Machine.{Cpu}
use realboy.Machine.Valid.{CpuValid}
use realboy.Cpu.Port.{cpu_request_intr}
use realboy.Cpu.Exec.{tick_div, tick_tima, tick_timer}

-- DIV and the six bits below it are one counter of fourteen bits.
abbrev pub div_clock : Cpu → ℕ
div_clock s = s.div_reg * 64 + s.div_counter

-- For fewer than 64 cycles, DIV and the six bits below it advance as one counter of fourteen bits
-- by the cycles.
pub div_clock-tick_div :
    (cycles : ℕ) (s : Cpu)
    → CpuValid s
    → cycles < 64
    → div_clock (tick_div cycles s) ≡ (div_clock s + cycles) % 2 ^ 14
unfolding tick_div
div_clock-tick_div cycles s v h =
    let div_fits = v.div_fits in let counter = v.div_counter_fits in ground arith

-- One step of a timer that divides by `tac_divider`: below it the counter goes up; at it, TIMA
-- does, from 255 to TMA with a request of the timer's interrupt.
abbrev pub timer_next : ℕ → Cpu → Cpu
timer_next cycles s =
    if ltb (s.tac_counter + cycles) s.tac_divider
    then record s { tac_counter = s.tac_counter + cycles }
    else (if s.tima_reg == 255
        then record s {
          tima_reg = s.tma_reg;
          if_reg = bit_or s.if_reg 4;
          tac_counter = s.tac_counter + cycles - s.tac_divider;
        }
        else record s {
          tima_reg = s.tima_reg + 1;
          tac_counter = s.tac_counter + cycles - s.tac_divider;
        })

-- What TIMA does when it counts.
tick_tima_lem :
    (s : Cpu) (n : ℕ)
    → s.tima_reg < 256
    → record (tick_tima s) { tac_counter = n } ≡ (
        if s.tima_reg == 255
        then record s { tima_reg = s.tma_reg; if_reg = bit_or s.if_reg 4; tac_counter = n }
        else record s { tima_reg = s.tima_reg + 1; tac_counter = n })
unfolding tick_tima cpu_request_intr
tick_tima_lem s n h = ground arith

-- Once around: the quotient and the remainder where the divider is reached at most once.
module _ (x d : ℕ) (once : x < d + d) (reached : d ≤ x) where
  once-div : x / d ≡ 1
  once-div = div-eq_of_lt-le d (omega arith) (omega arith)

  once-mod : x % d ≡ x - d
  once-mod = mod-eq-sub-mod reached ∙ mod-eq_of_lt (omega arith)

module _ (cycles : ℕ) (s : Cpu) (v : CpuValid s) (runs : s.tima_enabled ≡ true)
    (counter_low : s.tac_counter < s.tac_divider) (short : cycles ≤ s.tac_divider) where
  below-div :
      ltb (s.tac_counter + cycles) s.tac_divider ≡ true
      → to_bool ((s.tac_counter + cycles) / s.tac_divider) ≡ false
  below-div t = let zero_quotient = div-eq_of_lt (ltb_sound _ _ t) in ground (arith, zero_quotient)

  fits :
      s.tac_counter + cycles < s.tac_divider → u8 (s.tac_counter + cycles) ≡ s.tac_counter + cycles
  fits low = let divider_fits = v.divider_fits in omega arith

  reached :
      ltb (s.tac_counter + cycles) s.tac_divider ≡ false → s.tac_divider ≤ s.tac_counter + cycles
  reached f = ground arith

  reached-div :
      ltb (s.tac_counter + cycles) s.tac_divider ≡ false
      → to_bool ((s.tac_counter + cycles) / s.tac_divider) ≡ true
  reached-div f =
      rw (once-div (s.tac_counter + cycles) s.tac_divider (omega arith) (reached f)) refl

  -- An enabled timer of a valid cpu, whose counter is below its divider, takes an instruction that
  -- is no longer than the divider as one step: the counter goes up, or it wraps and TIMA does, from
  -- 255 to TMA with a request of the timer interrupt.
  pub tick_timer_lem : tick_timer cycles s ≡ timer_next cycles s
  unfolding tick_timer
  tick_timer_lem =
      let d_fits = v.divider_fits in
      if-cases (λ (t : Cpu). t ≡ timer_next cycles s) s.tima_enabled _ _
        (λ _.
          if-cases (λ (t : Cpu). t ≡ timer_next cycles s)
            (to_bool ((s.tac_counter + cycles) / s.tac_divider)) _ _
            (λ ticks. elim (Bool-cases (ltb (s.tac_counter + cycles) s.tac_divider)) [
              | inl t ↦ absurd (let no_tick = below-div t in cc)
              | inr f ↦
                  rw (f, once-mod (s.tac_counter + cycles) s.tac_divider (omega arith) (reached f))
                    (tick_tima_lem s (s.tac_counter + cycles - s.tac_divider) v.tima_fits)
            ])
            (λ counts. elim (Bool-cases (ltb (s.tac_counter + cycles) s.tac_divider)) [
              | inl t ↦ rw t (ap (λ (n : ℕ). record s { tac_counter = n }) (fits (ltb_sound _ _ t)))
              | inr f ↦ absurd (let tick = reached-div f in cc)
            ]))
        (λ off. absurd cc)
