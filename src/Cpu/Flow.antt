-- ===== src/Cpu/Flow.antt =====
-- The control flow instructions of emu/cpu/cpu_ops.c.
use realboy.Prelude.{ℕ, ◌+◌, Bool, true, false, not, u16, sub16, int8, if◌then◌else◌}
use realboy.Machine.{Registers, Machine}
use realboy.Monitor.{monitor_rd_mem}
use realboy.Cpu.Flags.{flag_zero, flag_carry, test_flag}
use realboy.Cpu.Bus.{Executed, reg_pc, reg_sp, reg_hl, rd_word, wr_word, advance_pc, on_regs}

-- The four conditions of the conditional instructions.
pub data Cond : Type 0 where
  cond_nz cond_z cond_nc cond_c : Cond

abbrev pub holds : Cond → Registers → Bool
holds cond_nz r = not (test_flag flag_zero r)
holds cond_z r = test_flag flag_zero r
holds cond_nc r = not (test_flag flag_carry r)
holds cond_c r = test_flag flag_carry r

abbrev pub jump_to : ℕ → Registers → Registers
jump_to addr r = record r { pc = addr }

-- `REG_SP -= 2; WR_WORD(REG_SP, REG_PC);`
unfoldable pub push_pc : Machine → Machine
push_pc m = wr_word reg_sp reg_pc (on_regs (λ r. record r { sp = sub16 r.sp 2 }) m)

unfoldable pub op_jmp_a16 : Machine → Executed
op_jmp_a16 m = (on_regs (jump_to (rd_word m (reg_pc m))) m, 4)

unfoldable pub op_jmp_cond : Cond → Machine → Executed
unfolding op_jmp_a16
op_jmp_cond cond m = if holds cond m.cpu.regs then op_jmp_a16 m else (on_regs (advance_pc 2) m, 3)

unfoldable pub op_jmp_hl : Machine → Executed
op_jmp_hl m = (on_regs (jump_to (reg_hl m)) m, 1)

-- DO_JR
abbrev pub do_jr : ℕ → Registers → Registers
do_jr off r = let r1 = advance_pc 1 r in record r1 { pc = u16 (r1.pc + int8 off) }

unfoldable pub op_jr_e8 : Machine → Executed
op_jr_e8 m = (on_regs (do_jr (monitor_rd_mem m (reg_pc m))) m, 3)

unfoldable pub op_jr_cond : Cond → Machine → Executed
unfolding op_jr_e8
op_jr_cond cond m = if holds cond m.cpu.regs then op_jr_e8 m else (on_regs (advance_pc 1) m, 2)

-- DO_CALL
unfoldable pub op_call_a16 : Machine → Executed
unfolding push_pc
op_call_a16 m =
    let addr = rd_word m (reg_pc m) in
    (on_regs (jump_to addr) (push_pc (on_regs (advance_pc 2) m)), 6)

unfoldable pub op_call_cond : Cond → Machine → Executed
unfolding op_call_a16
op_call_cond cond m = if holds cond m.cpu.regs then op_call_a16 m else (on_regs (advance_pc 2) m, 3)

-- DO_RET
unfoldable pub do_ret : Machine → Machine
do_ret m =
    let addr = rd_word m (reg_sp m) in
    on_regs (λ r. let r1 = jump_to addr r in record r1 { sp = u16 (r1.sp + 2) }) m

unfoldable pub op_ret : Machine → Executed
unfolding do_ret
op_ret m = (do_ret m, 4)

unfoldable pub op_ret_cond : Cond → Machine → Executed
unfolding do_ret
op_ret_cond cond m = if holds cond m.cpu.regs then (do_ret m, 5) else (m, 2)

-- cpu_enable_intr(), cpu_disable_intr() and cpu_halt()
abbrev pub cpu_enable_intr : Machine → Machine
cpu_enable_intr m = record m { cpu = record m.cpu { ime_enabled = true } }

abbrev pub cpu_disable_intr : Machine → Machine
cpu_disable_intr m = record m { cpu = record m.cpu { ime_enabled = false } }

abbrev pub cpu_halt : Machine → Machine
cpu_halt m = record m { cpu = record m.cpu { is_halted = true } }

unfoldable pub op_reti : Machine → Executed
unfolding do_ret
op_reti m = (cpu_enable_intr (do_ret m), 4)

-- OP_RESTART
unfoldable pub op_restart : ℕ → Machine → Executed
unfolding push_pc
op_restart addr m = (on_regs (jump_to addr) (push_pc m), 4)

unfoldable pub op_halt : Machine → Executed
op_halt m = (cpu_halt m, 1)

unfoldable pub op_stop_n8 : Machine → Executed
op_stop_n8 m = (on_regs (advance_pc 1) m, 2)

unfoldable pub op_dis_ints : Machine → Executed
op_dis_ints m = (cpu_disable_intr m, 1)

unfoldable pub op_ena_ints : Machine → Executed
op_ena_ints m = (cpu_enable_intr m, 1)
