-- ===== src/Cpu/Interrupts.antt =====
-- About handle_intrs() of emu/cpu/cpu.c: its loop over the bits, and which of them it services.
use realboy.Prelude.{
  ℕ, zero, suc, ◌+◌, ◌*◌, ◌-◌, ◌^◌, ◌<◌, ◌≤◌, ◌≡◌, refl, sym, ap, ◌∙◌, arith, if-holds, if-cases,
  Bool, true, false, some, ◌||◌, bit_and, ◌==◌, to_bool, not8, u8, sub16,
}
use realboy.Machine.{Cpu, Machine}
use realboy.Monitor.Depth.{internals-monitor_wr_mem}
use realboy.Cpu.Bus.{reg_pc, reg_sp, wr_word, on_regs}
use realboy.Cpu.Flow.{push_pc}
use realboy.Cpu.Exec.{with_cpu, process_intr, check_intr, intr_loop, ended, handle_intrs}

-- The bits from the lowest on.
abbrev pub check_all : Machine → Machine
check_all m =
    let low = check_intr 8 (check_intr 4 (check_intr 2 (check_intr 1 m))) in
    check_intr 128 (check_intr 64 (check_intr 32 (check_intr 16 low)))

nine_tests :
    (more : ℕ) (m : Machine)
    → intr_loop (suc (suc (suc (suc (suc (suc (suc (suc (suc more))))))))) 1 m ≡ some (check_all m)
unfolding intr_loop
nine_tests more m = refl

-- The loop of handle_intrs() ends by the ninth test of its mask, and has then checked the eight
-- bits, each once and from the lowest on.
pub intr_loop_ends : (fuel : ℕ) (m : Machine) → 9 ≤ fuel → intr_loop fuel 1 m ≡ some (check_all m)
intr_loop_ends fuel m h = ap (λ (n : ℕ). intr_loop n 1 m) enough ∙ nine_tests (fuel - 9) m
  where
    enough : fuel ≡ suc (suc (suc (suc (suc (suc (suc (suc (suc (fuel - 9)))))))))
    enough = omega arith

abbrev pub switches : Cpu → Bool × Bool
switches s = (s.ime_enabled, s.is_halted)

switches-wr_word :
    (addr value : Machine → ℕ) (m : Machine) → switches (wr_word addr value m).cpu ≡ switches m.cpu
unfolding wr_word
switches-wr_word addr value m =
    ap (λ x. x.1) (internals-monitor_wr_mem _ _ _ ∙ internals-monitor_wr_mem _ _ _)

-- An interrupt is entered with the two switches as they were set before.
switches-process_intr : (bit : ℕ) (m : Machine) → switches (process_intr bit m).cpu ≡ switches m.cpu
unfolding process_intr push_pc
switches-process_intr bit m =
    switches-wr_word reg_sp reg_pc (on_regs (λ r. record r { sp = sub16 r.sp 2 }) m)

-- The bit of an interrupt that is both requested and enabled.
abbrev pub pending : ℕ → Machine → Bool
pending intr_mask m = to_bool (bit_and (bit_and m.cpu.if_reg m.cpu.ie_reg) intr_mask)

-- The state in which an interrupt is entered.
abbrev pub acknowledged : ℕ → Machine → Machine
acknowledged intr_mask m = with_cpu m (record m.cpu {
  ime_enabled = false;
  if_reg = bit_and m.cpu.if_reg (not8 intr_mask);
  is_halted = false;
})

check_intr-idle :
    (intr_mask : ℕ) (m : Machine) → pending intr_mask m ≡ false → check_intr intr_mask m ≡ m
unfolding check_intr
check_intr-idle intr_mask m none = rw none refl

check_intr-served :
    (intr_mask : ℕ) (m : Machine)
    → pending intr_mask m ≡ true
    → m.cpu.ime_enabled ≡ true
    → check_intr intr_mask m ≡ process_intr intr_mask (acknowledged intr_mask m)
unfolding check_intr
check_intr-served intr_mask m due on = rw (due, on) refl

-- With interrupts disabled and the cpu running, the loop changes nothing.
module _ (m : Machine) (off : switches m.cpu ≡ (false, false)) where
  check_intr-settled : (intr_mask : ℕ) → check_intr intr_mask m ≡ m
  unfolding check_intr
  check_intr-settled intr_mask =
      if-holds (λ (n : Machine). n ≡ m) (pending intr_mask m) _ _
        (if-cases (λ (n : Machine). n ≡ m) m.cpu.ime_enabled _ _
          (λ on. let disabled : m.cpu.ime_enabled ≡ false = ap (λ x. x.0) off in absurd cc)
          (λ _.
            ap (λ (b : Bool). with_cpu m (record m.cpu { is_halted = b }))
              (sym (ap (λ x. x.1) off))))
        refl

-- The mask in the round k of the loop.
mask_at : ℕ → ℕ
mask_at zero = 1
mask_at (suc k) = u8 (mask_at k * 2)

mask_at-pow : (k : ℕ) → k < 8 → mask_at k ≡ 2 ^ k
unfolding mask_at
mask_at-pow zero h = refl
mask_at-pow (suc zero) h = refl
mask_at-pow (suc (suc zero)) h = refl
mask_at-pow (suc (suc (suc zero))) h = refl
mask_at-pow (suc (suc (suc (suc zero)))) h = refl
mask_at-pow (suc (suc (suc (suc (suc zero))))) h = refl
mask_at-pow (suc (suc (suc (suc (suc (suc zero)))))) h = refl
mask_at-pow (suc (suc (suc (suc (suc (suc (suc zero))))))) h = refl
mask_at-pow (suc (suc (suc (suc (suc (suc (suc (suc k)))))))) h = absurd (omega arith)

pow_nonzero : (k : ℕ) → (2 ^ k == 0) ≡ false
pow_nonzero zero = refl
pow_nonzero (suc k) = let before = pow_nonzero k in ground arith

mask_at-nonzero : (k : ℕ) → k < 8 → (mask_at k == 0) ≡ false
mask_at-nonzero k h = rw (mask_at-pow k h) (pow_nonzero k)

intr_loop-round :
    (k fuel : ℕ) (m : Machine)
    → k < 8
    → intr_loop (suc fuel) (mask_at k) m ≡ intr_loop fuel (mask_at (suc k)) (check_intr (2 ^ k) m)
unfolding intr_loop mask_at
intr_loop-round k fuel m h =
    rw (mask_at-nonzero k h)
      (ap (λ (x : ℕ). intr_loop fuel (u8 (mask_at k * 2)) (check_intr x m)) (mask_at-pow k h))

intr_loop-over : (fuel : ℕ) (m : Machine) → intr_loop (suc fuel) (mask_at 8) m ≡ some m
unfolding intr_loop mask_at
intr_loop-over fuel m = refl

intr_loop-settled :
    (m : Machine)
    → switches m.cpu ≡ (false, false)
    → (d k : ℕ) → k + d ≡ 8
    → intr_loop (suc d) (mask_at k) m ≡ some m
intr_loop-settled m off zero k all =
    let last : k ≡ 8 = omega arith in
    ap (λ (n : ℕ). intr_loop 1 (mask_at n) m) last ∙ intr_loop-over 0 m
intr_loop-settled m off (suc d) k all =
    intr_loop-round k (suc d) m (omega arith)
    ∙ ap (intr_loop (suc d) (mask_at (suc k))) (check_intr-settled m off (2 ^ k))
    ∙ intr_loop-settled m off d (suc k) (omega arith)

-- The rounds before the first pending interrupt change nothing.
intr_loop-skips :
    (m : Machine) (d i fuel : ℕ)
    → i + d ≤ 8
    → ((j : ℕ) → j < i + d → pending (2 ^ j) m ≡ false)
    → intr_loop (fuel + d) (mask_at i) m ≡ intr_loop fuel (mask_at (i + d)) m
intr_loop-skips m zero i fuel small none =
    ap (λ (n : ℕ). intr_loop n (mask_at i) m) lem1
    ∙ ap (λ (n : ℕ). intr_loop fuel (mask_at n) m) lem2
  where
    lem1 : fuel + 0 ≡ fuel
    lem1 = omega arith

    lem2 : i ≡ i + 0
    lem2 = omega arith
intr_loop-skips m (suc d) i fuel small none =
    ap (λ (n : ℕ). intr_loop n (mask_at i) m) lem1
    ∙ intr_loop-round i (fuel + d) m (omega arith)
    ∙ ap (intr_loop (fuel + d) (mask_at (suc i))) (check_intr-idle (2 ^ i) m (none i (omega arith)))
    ∙ intr_loop-skips m d (suc i) fuel (omega arith) (λ j h. none j (omega arith))
    ∙ ap (λ (n : ℕ). intr_loop fuel (mask_at n) m) lem2
  where
    lem1 : fuel + suc d ≡ suc (fuel + d)
    lem1 = omega arith

    lem2 : suc i + d ≡ i + suc d
    lem2 = omega arith

-- Where no interrupt is both requested and enabled, handle_intrs() changes nothing.
pub handle_intrs-idle :
    (m : Machine) → ((j : ℕ) → j < 8 → pending (2 ^ j) m ≡ false) → handle_intrs m ≡ m
unfolding handle_intrs mask_at
handle_intrs-idle m none =
    if-holds (λ (n : Machine). n ≡ m) (m.cpu.ime_enabled || m.cpu.is_halted) _ _
      (ap (ended m) (intr_loop-skips m 8 0 1 (omega arith) none ∙ intr_loop-over 0 m)) refl

-- With interrupts enabled, the lowest bit that is requested and enabled is serviced, and only that
-- one: its request is cleared, interrupts are disabled, the cpu is no longer halted, and
-- process_intr() enters the handler.
pub handle_intrs-lowest :
    (m : Machine) (k : ℕ)
    → k < 8
    → m.cpu.ime_enabled ≡ true
    → ((j : ℕ) → j < k → pending (2 ^ j) m ≡ false)
    → pending (2 ^ k) m ≡ true
    → handle_intrs m ≡ process_intr (2 ^ k) (acknowledged (2 ^ k) m)
unfolding handle_intrs mask_at
handle_intrs-lowest m k small on none due =
    let served = process_intr (2 ^ k) (acknowledged (2 ^ k) m) in
    let serve : intr_loop 9 1 m ≡ some served =
      ap (λ (n : ℕ). intr_loop n 1 m) split
      ∙ intr_loop-skips m k 0 (suc (8 - k)) (omega arith) (λ j h. none j (omega arith))
      ∙ ap (λ (n : ℕ). intr_loop (suc (8 - k)) (mask_at n) m) start
      ∙ intr_loop-round k (8 - k) m small
      ∙ ap (intr_loop (8 - k) (mask_at (suc k))) (check_intr-served (2 ^ k) m due on)
      ∙ ap (λ (n : ℕ). intr_loop n (mask_at (suc k)) served) left
      ∙ intr_loop-settled served (switches-process_intr (2 ^ k) (acknowledged (2 ^ k) m)) (7 - k)
          (suc k) (omega arith) in
    if-cases (λ (n : Machine). n ≡ served) (m.cpu.ime_enabled || m.cpu.is_halted) _ _
      (λ _. ap (ended m) serve)
      (λ off.
        let looks : (m.cpu.ime_enabled || m.cpu.is_halted) ≡ true =
          ap (λ (b : Bool). b || m.cpu.is_halted) on in
        absurd cc)
  where
    split : 9 ≡ suc (8 - k) + k
    split = omega arith

    start : 0 + k ≡ k
    start = omega arith

    left : 8 - k ≡ suc (7 - k)
    left = omega arith
