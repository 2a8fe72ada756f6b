-- ===== src/Cpu/Valid/Exec.antt =====
-- Well-formedness: cpu_exec_next() of emu/cpu/cpu.c, its timers and its interrupts.
use realboy.Prelude.{
  Option, none, some, bit_or, ℕ, zero, suc, ◌+◌, ◌*◌, ◌/◌, ◌%◌, ◌^◌, ◌<◌, ◌≡◌, arith, Bool, true,
  false, not, ◌||◌, ltb, ◌==◌, to_bool, u8, u16, bit_and, if-cases, if-holds, not8,
}
use realboy.Prelude.Bits.{bit_and-le, bit_or-lt_pow}
use realboy.Machine.{Cpu, Machine}
use realboy.Machine.Hash.{Objects}
use realboy.Machine.Valid.{CpuValid, MachineValidFrom}
use realboy.Monitor.{monitor_rd_mem}
use realboy.Cpu.Port.{cpu_request_intr}
use realboy.Cpu.Bus.{Executed, reg_pc, on_regs}
use realboy.Cpu.Exec.{
  with_cpu, interrupt_handler_addr, process_intr, check_intr, intr_loop, ended, handle_intrs,
  fetch_execute, tick_div, tick_tima, tick_timer, cpu_exec_next,
}
use realboy.Cpu.Valid.Bus.{regs_of, with_cpu-Valid, with_regs-Valid}
use realboy.Cpu.Valid.Flags.{with_pc-Valid, advance_pc-Valid}
use realboy.Cpu.Valid.Flow.{push_pc-Valid}
use realboy.Cpu.Valid.Ops.{ops_table_dispatch-Valid}

-- The fields that the execution of an instruction counts with.
pub counters-Valid :
    (s : Cpu) (div_reg if_reg cycles div_counter tima_reg tac_counter : ℕ)
    (is_halted ime_enabled : Bool)
    → CpuValid s
    → div_reg < 256
    → if_reg < 32
    → cycles < 2 ^ 64
    → div_counter < 64
    → tima_reg < 256
    → tac_counter < 256
    → CpuValid (record s {
      div_reg = div_reg;
      if_reg = if_reg;
      cycles = cycles;
      div_counter = div_counter;
      tima_reg = tima_reg;
      tac_counter = tac_counter;
      is_halted = is_halted;
      ime_enabled = ime_enabled;
    })
counters-Valid s div_reg if_reg cycles div_counter tima_reg tac_counter is_halted ime_enabled v h1
      h2 h3 h4 h5 h6 =
    record {
      regs_valid = v.regs_valid;
      div_fits = h1;
      if_fits = h2;
      ie_fits = v.ie_fits;
      cycles_fit = h3;
      div_counter_fits = h4;
      tima_fits = h5;
      tma_fits = v.tma_fits;
      tac_fits = v.tac_fits;
      tac_counter_fits = h6;
      divider_fits = v.divider_fits;
      timer_runs = v.timer_runs;
      wram_bytes = v.wram_bytes;
      hram_bytes = v.hram_bytes;
    }

module _ (cycles : ℕ) (s : Cpu) (v : CpuValid s) where
  tick_div-Valid : CpuValid (tick_div cycles s)
  unfolding tick_div
  tick_div-Valid =
      if-holds (λ t. CpuValid (record t { div_counter = (s.div_counter + cycles) % 64 }))
        (ltb ((s.div_counter + cycles) % 64) s.div_counter) _ _
        (counters-Valid s (u8 (s.div_reg + 1)) _ _ ((s.div_counter + cycles) % 64) _ _ _ _ v
          (omega arith) v.if_fits v.cycles_fit (omega arith) v.tima_fits v.tac_counter_fits)
        (counters-Valid s _ _ _ ((s.div_counter + cycles) % 64) _ _ _ _ v v.div_fits v.if_fits
          v.cycles_fit (omega arith) v.tima_fits v.tac_counter_fits)

  tick_tima-Valid : CpuValid (tick_tima s)
  unfolding tick_tima cpu_request_intr
  tick_tima-Valid =
      if-holds CpuValid (u8 (s.tima_reg + 1) == 0) _ _
        (counters-Valid s _ (bit_or s.if_reg 4) _ _ s.tma_reg _ _ _ v v.div_fits
          (bit_or-lt_pow 5 s.if_reg 4 v.if_fits (omega arith)) v.cycles_fit v.div_counter_fits
          v.tma_fits v.tac_counter_fits)
        (counters-Valid s _ _ _ _ (u8 (s.tima_reg + 1)) _ _ _ v v.div_fits v.if_fits v.cycles_fit
          v.div_counter_fits (omega arith) v.tac_counter_fits)

  tac_counter-tick : s.tima_enabled ≡ true → (s.tac_counter + cycles) % s.tac_divider < 256
  tac_counter-tick runs = let d = v.divider_fits in let p = v.timer_runs runs in ground arith

  tac_counter-Valid :
      (t : Cpu) (n : ℕ) → CpuValid t → n < 256 → CpuValid (record t { tac_counter = n })
  tac_counter-Valid t n w h =
      counters-Valid t _ _ _ _ _ n _ _ w w.div_fits w.if_fits w.cycles_fit w.div_counter_fits
        w.tima_fits h

  tick_timer-Valid : CpuValid (tick_timer cycles s)
  unfolding tick_timer
  tick_timer-Valid =
      if-cases CpuValid s.tima_enabled _ _
        (λ runs.
          if-holds CpuValid (to_bool ((s.tac_counter + cycles) / s.tac_divider)) _ _
            (tac_counter-Valid (tick_tima s) ((s.tac_counter + cycles) % s.tac_divider)
              tick_tima-Valid (tac_counter-tick runs))
            (tac_counter-Valid s (u8 (s.tac_counter + cycles)) v (omega arith)))
        (λ _. v)

module _ {base : Objects} (m : Machine) (v : MachineValidFrom base m) where
  process_intr-Valid : (interrupt_bit : ℕ) → MachineValidFrom base (process_intr interrupt_bit m)
  unfolding process_intr
  process_intr-Valid interrupt_bit =
      let before = push_pc-Valid m v in
      with_regs-Valid _ _ before
        (with_pc-Valid _ (interrupt_handler_addr interrupt_bit) (regs_of _ before) (ground arith))

check_intr-Valid :
    {base : Objects}
    → (intr_mask : ℕ) (m : Machine) → MachineValidFrom base m
    → MachineValidFrom base (check_intr intr_mask m)
unfolding check_intr
check_intr-Valid {base = base} intr_mask m v =
    let c = v.cpu_valid in
    let if_le = bit_and-le m.cpu.if_reg (not8 intr_mask) in
    let halted = λ (b ime : Bool) (n : ℕ) (h : n < 32). with_cpu-Valid m _ v (
      counters-Valid m.cpu _ n _ _ _ _ b ime c c.div_fits h c.cycles_fit c.div_counter_fits
        c.tima_fits c.tac_counter_fits) in
    if-holds (MachineValidFrom base)
      (to_bool (bit_and (bit_and m.cpu.if_reg m.cpu.ie_reg) intr_mask)) _ _
      (if-holds (MachineValidFrom base) m.cpu.ime_enabled _ _
        (process_intr-Valid _
          (halted false false (bit_and m.cpu.if_reg (not8 intr_mask))
            (omega (arith, if_le, c.if_fits)))
          intr_mask)
        (halted false m.cpu.ime_enabled m.cpu.if_reg c.if_fits))
      v

abbrev EndsValid : Objects → Option Machine → Type 0
EndsValid base none = Unit
EndsValid base (some m) = (MachineValidFrom base) m

intr_loop-Valid :
    {base : Objects}
    → (fuel intr_mask : ℕ) (m : Machine) → MachineValidFrom base m
    → EndsValid base (intr_loop fuel intr_mask m)
unfolding intr_loop
intr_loop-Valid zero intr_mask m v = tt
intr_loop-Valid (suc fuel) intr_mask m v = if-holds (EndsValid _) (intr_mask == 0) _ _ v (
    intr_loop-Valid fuel (u8 (intr_mask * 2)) (check_intr intr_mask m)
      (check_intr-Valid intr_mask m v))

ended-Valid :
    {base : Objects}
    → (m : Machine) (end : Option Machine) → MachineValidFrom base m
    → EndsValid base end
    → MachineValidFrom base (ended m end)
ended-Valid m none v e = v
ended-Valid m (some n) v e = e

pub handle_intrs-Valid :
    {base : Objects}
    → (m : Machine) → MachineValidFrom base m
    → MachineValidFrom base (handle_intrs m)
unfolding handle_intrs
handle_intrs-Valid {base = base} m v =
    if-holds (MachineValidFrom base) (m.cpu.ime_enabled || m.cpu.is_halted) _ _
      (ended-Valid m (intr_loop 9 1 m) v (intr_loop-Valid 9 1 m v)) v

-- The program counter after a byte of the instruction.
next_pc-Valid :
    {base : Objects}
    → (m : Machine) → MachineValidFrom base m
    → MachineValidFrom base (on_regs (λ r. record r { pc = u16 (r.pc + 1) }) m)
next_pc-Valid m v = with_regs-Valid m _ v (advance_pc-Valid 1 _ (regs_of m v))

count_cycles-Valid :
    {base : Objects}
    → (m : Machine) (n : ℕ) → MachineValidFrom base m
    → MachineValidFrom base (with_cpu m (record m.cpu { cycles = n % 2 ^ 64 }))
count_cycles-Valid m n v =
    let c = v.cpu_valid in
    with_cpu-Valid m _ v (
      counters-Valid m.cpu _ _ (n % 2 ^ 64) _ _ _ _ _ c c.div_fits c.if_fits (omega arith)
        c.div_counter_fits c.tima_fits c.tac_counter_fits)

fetch_execute-Valid :
    {base : Objects}
    → (m : Machine) → MachineValidFrom base m
    → MachineValidFrom base (fetch_execute m).0
unfolding fetch_execute
fetch_execute-Valid {base = base} m v =
    let next = λ (n : Machine). on_regs (λ r. record r { pc = u16 (r.pc + 1) }) n in
    let prefixed = monitor_rd_mem m (reg_pc m) == 0xcb in
    if-holds (λ (e : Executed). (MachineValidFrom base) e.0) (not m.cpu.is_halted) _ _
      (count_cycles-Valid _ _ (
        ops_table_dispatch-Valid _ prefixed _ (
          if-holds (MachineValidFrom base) prefixed _ _ (next_pc-Valid _ (next_pc-Valid m v))
            (next_pc-Valid m v))))
      v

-- One call of cpu_exec_next() - fetch, execute, divider, timer, interrupts - keeps a valid machine
-- valid.
pub cpu_exec_next-Valid :
    {base : Objects}
    → (m : Machine) → MachineValidFrom base m
    → MachineValidFrom base (cpu_exec_next m).0
unfolding cpu_exec_next
cpu_exec_next-Valid m v =
    let ran = fetch_execute-Valid m v in
    handle_intrs-Valid _
      (with_cpu-Valid _ _ ran (tick_timer-Valid _ _ (tick_div-Valid _ _ ran.cpu_valid)))
