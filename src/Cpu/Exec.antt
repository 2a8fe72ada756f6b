-- ===== src/Cpu/Exec.antt =====
-- cpu_exec_next() and the interrupts of emu/cpu/cpu.c.
use realboy.Prelude.{
  ℕ, zero, suc, ◌+◌, ◌*◌, ◌/◌, ◌%◌, ◌^◌, false, not, ◌||◌, Option, none, some, bit_and, ltb, ◌==◌,
  if◌then◌else◌, to_bool, not8, u8, u16,
}
use realboy.Machine.{Cpu, Machine}
use realboy.Monitor.{monitor_rd_mem}
use realboy.Cpu.Port.{cpu_request_intr, intr_timer}
use realboy.Cpu.Bus.{Executed, reg_pc, on_regs}
use realboy.Cpu.Flow.{push_pc, jump_to}
use realboy.Cpu.Table.{ops_table_dispatch}

abbrev pub with_cpu : Machine → Cpu → Machine
with_cpu m s = record m { cpu = s }

-- The switch of process_intr(). A bit above the five leaves the C variable unset, and gives 0 here;
-- in a valid machine such a bit is never requested.
abbrev pub interrupt_handler_addr : ℕ → ℕ
interrupt_handler_addr interrupt_bit =
    if interrupt_bit == 0x01
    then 0x40
    else (if interrupt_bit == 0x02
        then 0x48
        else (if interrupt_bit == 0x04
            then 0x50
            else (if interrupt_bit == 0x08
                then 0x58
                else (if interrupt_bit == 0x10 then 0x60 else 0))))

unfoldable pub process_intr : ℕ → Machine → Machine
process_intr interrupt_bit m = on_regs (jump_to (interrupt_handler_addr interrupt_bit)) (push_pc m)

-- The body of the loop of handle_intrs(), at one bit.
unfoldable pub check_intr : ℕ → Machine → Machine
check_intr intr_mask m =
    let s = m.cpu in
    if to_bool (bit_and (bit_and s.if_reg s.ie_reg) intr_mask)
    then (let s' = record s { is_halted = false } in
        if s'.ime_enabled
        then process_intr intr_mask (
            with_cpu m (record s' {
              ime_enabled = false;
              if_reg = bit_and s'.if_reg (not8 intr_mask);
              is_halted = false;
            }))
        else with_cpu m s')
    else m

-- `while (intr_mask)`, which shifts a uint8_t until it is 0. A test of the mask takes a unit of fuel,
-- and `none` is a loop that has not ended by then.
unfoldable pub intr_loop : ℕ → ℕ → Machine → Option Machine
intr_loop zero intr_mask m = none
intr_loop (suc fuel) intr_mask m =
    let rest = intr_loop fuel (u8 (intr_mask * 2)) (check_intr intr_mask m) in
    if intr_mask == 0 then some m else rest

-- The machine behind a loop that has ended: from the mask 1 it always has, by the ninth test. See
-- `Cpu.Interrupts`.
abbrev pub ended : Machine → Option Machine → Machine
ended m none = m
ended m (some n) = n

unfoldable pub handle_intrs : Machine → Machine
handle_intrs m = if m.cpu.ime_enabled || m.cpu.is_halted then ended m (intr_loop 9 1 m) else m

-- The part that fetches and executes: the cycles of a halted cpu are 3, and are not counted.
unfoldable pub fetch_execute : Machine → Executed
fetch_execute m =
    if not m.cpu.is_halted
    then (let op = monitor_rd_mem m (reg_pc m) in
        let m1 = on_regs (λ r. record r { pc = u16 (r.pc + 1) }) m in
        let prefixed = op == 0xcb in
        let op' = if prefixed then monitor_rd_mem m1 (reg_pc m1) else op in
        let m2 = if prefixed then on_regs (λ r. record r { pc = u16 (r.pc + 1) }) m1 else m1 in
        let (m3, cycles) = ops_table_dispatch op' prefixed m2 in
        (with_cpu m3 (record m3.cpu { cycles = (m3.cpu.cycles + cycles) % 2 ^ 64 }), cycles))
    else (m, 3)

-- The divider: `div_counter` has six bits, and DIV counts how often it wraps.
unfoldable pub tick_div : ℕ → Cpu → Cpu
tick_div cycles s =
    let s' =
      if ltb ((s.div_counter + cycles) % 64) s.div_counter
      then record s { div_reg = u8 (s.div_reg + 1) }
      else s in
    record s' { div_counter = (s.div_counter + cycles) % 64 }

-- TIMA goes up by one, and from its overflow to TMA.
unfoldable pub tick_tima : Cpu → Cpu
tick_tima s =
    let s' = record s { tima_reg = u8 (s.tima_reg + 1) } in
    if s'.tima_reg == 0
    then cpu_request_intr (record s' { tima_reg = s'.tma_reg }) intr_timer
    else s'

-- The timer. The code divides by `tac_divider`, which is not 0 while the timer is enabled.
unfoldable pub tick_timer : ℕ → Cpu → Cpu
tick_timer cycles s =
    if s.tima_enabled
    then (if to_bool ((s.tac_counter + cycles) / s.tac_divider)
        then (let s' = tick_tima s in
            record s' { tac_counter = (s.tac_counter + cycles) % s.tac_divider })
        else record s { tac_counter = u8 (s.tac_counter + cycles) })
    else s

unfoldable pub cpu_exec_next : Machine → Executed
cpu_exec_next m =
    let (m1, cycles) = fetch_execute m in
    let m2 = with_cpu m1 (tick_timer cycles (tick_div cycles m1.cpu)) in (handle_intrs m2, cycles)
