-- ===== src/Tests/CpuRuns.antt =====
-- The theorems of the cpu at the test machine.
use realboy.Prelude.{ℕ, zero, suc, ◌^◌, ◌<◌, ◌≡◌, refl, arith, inr, true, false, some}
use realboy.Machine.{set_reg16, reg_bc, reg_de, reg_hl}
use realboy.Cpu.Flags.{flags}
use realboy.Cpu.Arith.{
  do_add, do_adc, adc_word, do_sub, do_sbc, sbc_word, do_cp, do_inc, do_dec, do_add16, add_sp,
  ld_hl_sp,
}
use realboy.Cpu.Arith.Sums.{added}
use realboy.Cpu.Arith.Differences.{subtracted}
use realboy.Cpu.Logic.{do_daa}
use realboy.Cpu.Logic.Decimal.{do_daa-do_adc}
use realboy.Cpu.Rotate.{do_rlc, do_rl, do_rrc, do_rr, do_sla, do_srl, do_sra, do_swp}
use realboy.Cpu.Rotate.Laws.{shifted}
use realboy.Cpu.Flow.{push_pc, do_ret}
use realboy.Cpu.Load.{op_push_reg16, op_pop_reg16, op_pop_af}
use realboy.Cpu.Stack.{do_ret-push_pc, pops-op_push_reg16}
use realboy.Cpu.Exec.{tick_div, tick_timer, process_intr, intr_loop, handle_intrs}
use realboy.Cpu.Interrupts.{pending, acknowledged, check_all, intr_loop_ends, handle_intrs-lowest}
use realboy.Cpu.Timer.{div_clock, div_clock-tick_div, tick_timer_lem}
use realboy.Cpu.Table.{ops_table_dispatch}
use realboy.Cpu.Cycles.{InRange, ops_table_dispatch-cycles}
use realboy.Cpu.Length.Lens.{HasLength, ops_table_dispatch-op_len}
use realboy.Cpu.Arith.Together.{sums_lem, differences_lem, steps_lem, words_lem}
use realboy.Cpu.Rotate.Together.{rotates_lem, rotates_undone}
use realboy.Tests.Data.{
  test_regs, test_cpu, test_machine, test_regs-Valid, test_cpu-Valid, test_machine-Valid,
}

ops_table_dispatch-cycles_example : InRange (ops_table_dispatch 0x34 false test_machine)
ops_table_dispatch-cycles_example = ops_table_dispatch-cycles 0x34 false test_machine

ops_table_dispatch-op_len_example : HasLength 0x06 test_machine
ops_table_dispatch-op_len_example =
    ops_table_dispatch-op_len 0x06 test_machine (omega arith) (omega arith) refl

words_lem_example :
    (do_add16 0x4001 test_regs
      ≡ set_reg16 reg_hl 0x100 (record test_regs { f = flags true false false true }))
    × (add_sp 0xff test_regs ≡ record test_regs { sp = 0xfffd; f = flags false false true true })
    × (ld_hl_sp 0xff test_regs
        ≡ set_reg16 reg_hl 0xfffd (record test_regs { f = flags false false true true }))
words_lem_example = words_lem test_regs test_regs-Valid 0x4001 0xff (omega arith) (omega arith)

do_daa-do_adc_example :
    do_daa (do_adc 0x58 test_regs) ≡ record test_regs { a = 0x06; f = flags false false false true }
do_daa-do_adc_example = do_daa-do_adc test_regs 0x58 test_regs-Valid (omega arith) (omega arith)

do_ret-push_pc_example : (do_ret (push_pc test_machine)).cpu.regs ≡ test_regs
do_ret-push_pc_example =
    do_ret-push_pc test_machine test_machine-Valid (inr (omega arith), inr (omega arith))

pops-op_push_reg16_example :
    ((op_pop_reg16 reg_de (op_push_reg16 reg_bc test_machine).0).0.cpu.regs
      ≡ record test_regs { d = 0x58; e = 0x11 })
    × ((op_pop_af (op_push_reg16 reg_bc test_machine).0).0.cpu.regs
        ≡ record test_regs { a = 0x58; f = 0x10 })
pops-op_push_reg16_example =
    pops-op_push_reg16 test_machine test_machine-Valid (inr (omega arith), inr (omega arith)) reg_de
      reg_bc (λ e. absurd cc) (λ e. absurd cc) (λ e. absurd cc)

div_clock-tick_div_example : div_clock (tick_div 6 test_cpu) ≡ 4
div_clock-tick_div_example = div_clock-tick_div 6 test_cpu test_cpu-Valid (omega arith)

tick_timer_lem_example :
    tick_timer 4 test_cpu ≡ record test_cpu { tima_reg = 7; if_reg = 5; tac_counter = 3 }
tick_timer_lem_example = tick_timer_lem 4 test_cpu test_cpu-Valid refl (omega arith) (omega arith)

intr_loop_ends_example : intr_loop 20 1 test_machine ≡ some (check_all test_machine)
intr_loop_ends_example = intr_loop_ends 20 test_machine (omega arith)

-- Of the test machine's two requests only the timer's is enabled.
below_timer : (j : ℕ) → j < 2 → pending (2 ^ j) test_machine ≡ false
below_timer zero h = refl
below_timer (suc zero) h = refl
below_timer (suc (suc j)) h = absurd (omega arith)

handle_intrs-lowest_example :
    handle_intrs test_machine ≡ process_intr 4 (acknowledged 4 test_machine)
handle_intrs-lowest_example = handle_intrs-lowest test_machine 2 (omega arith) refl below_timer refl

sums_lem_example :
    (do_add 0xffff_fffe 0 test_regs ≡ added 0xfe 0 test_regs)
    × (do_adc 0xb8 test_regs ≡ added 0xb8 1 test_regs)
    × (adc_word 0xb8 test_regs ≡ added 0xb8 1 test_regs)
sums_lem_example = sums_lem test_regs test_regs-Valid 0xb8 0xffff_fffe (omega arith) (omega arith)

differences_lem_example :
    (do_sub 0xffff_fffe 0 test_regs ≡ subtracted 0xfe 0 test_regs)
    × (do_sbc 0x47 test_regs ≡ subtracted 0x47 1 test_regs)
    × (sbc_word 0x47 test_regs ≡ subtracted 0x47 1 test_regs)
    × (do_cp 0x47 test_regs ≡ record (subtracted 0x47 0 test_regs) { a = 0x47 })
differences_lem_example =
    differences_lem test_regs test_regs-Valid 0x47 0xffff_fffe (omega arith) (omega arith)

steps_lem_example :
    (do_inc 0xff test_regs ≡ (0, record test_regs { f = flags true false true true }))
    × (do_dec 0xff test_regs ≡ (0xfe, record test_regs { f = flags false true false true }))
steps_lem_example = steps_lem test_regs test_regs-Valid 0xff (omega arith)

rotates_lem_example :
    (do_sla 0x81 test_regs ≡ shifted 0x02 true test_regs)
    × (do_rl 0x81 test_regs ≡ shifted 0x03 true test_regs)
    × (do_rlc 0x81 test_regs ≡ shifted 0x03 true test_regs)
    × (do_rrc 0x81 test_regs ≡ shifted 0xc0 true test_regs)
    × (do_rr 0x81 test_regs ≡ shifted 0xc0 true test_regs)
    × (do_swp 0x81 test_regs ≡ shifted 0x18 false test_regs)
    × (do_srl 0x81 test_regs ≡ shifted 0x40 true test_regs)
    × (do_sra 0x81 test_regs ≡ shifted 0xc0 true test_regs)
rotates_lem_example = rotates_lem 0x81 test_regs (omega arith) test_regs-Valid

rotates_undone_example :
    ((let (x, s) = do_rl 0x1f test_regs in do_rr x s) ≡ shifted 0x1f true test_regs)
    × ((let (x, s) = do_rlc 0x1f test_regs in do_rrc x s) ≡ shifted 0x1f false test_regs)
    × ((let (x, s) = do_swp 0x1f test_regs in do_swp x s) ≡ shifted 0x1f false test_regs)
rotates_undone_example = rotates_undone 0x1f test_regs (omega arith) test_regs-Valid
