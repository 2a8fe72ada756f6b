-- ===== src/Cpu/Cycles.antt =====
-- The cycles that the instructions of emu/cpu/cpu_ops.c return.
use realboy.Prelude.{ℕ, ◌*◌, ◌≤◌, arith, Bool, if-holds, to_int, bit_or}
use realboy.Machine.{Machine}
use realboy.Cpu.Bus.{Executed}
use realboy.Cpu.Ops.{
  Op, nop, ld_reg_reg, ld_b_ind_hl, ld_reg_ind_hl, ld_reg16_n16, ld_ind_reg16_a, ld_ind_hl_reg,
  ld_reg_n8, ld_a_ind_reg16, ld_a_ind_a16, ld_sp_hl, ldi_ind_hl_a, ldi_a_ind_hl, ldd_ind_hl_a,
  ldd_a_ind_hl, ld_ind_a16_sp, ld_ind_hl_n8, ld_ind_a16_a, ld_hl_sp_e8, ldh_ind_a8_a, ldh_ind_c_a,
  ldh_a_ind_a8, ldh_a_ind_c, pop_reg16, pop_af, push_reg16, add_a_reg, add_a_ind_hl, add_a_n8,
  adc_a_reg, adc_a_ind_hl, adc_a_n8, sub_a_reg, sub_a_ind_hl, sub_a_n8, sbc_a_reg, sbc_a_ind_hl,
  sbc_a_n8, and_a_reg, and_a_ind_hl, and_a_n8, xor_a_reg, xor_a_ind_hl, xor_a_n8, or_a_reg,
  or_a_ind_hl, or_a_n8, cp_a_reg, cp_a_ind_hl, cp_a_n8, inc_reg, inc_reg16, inc_ind_hl, dec_reg,
  dec_reg16, dec_ind_hl, add_hl_reg16, add_sp_e8, daa, cpl, scf, ccf, rlc_reg, rlc_ind_hl, rl_reg,
  rl_ind_hl, rrc_reg, rrc_ind_hl, rr_reg, rr_ind_hl, sla_reg, sla_ind_hl, sra_reg, sra_ind_hl,
  srl_reg, srl_ind_hl, swp_reg, swp_ind_hl, rlca, rla, rrca, rra, bit_reg, bit_ind_hl, rst_reg,
  rst_ind_hl, set_reg, set_ind_hl, jmp_a16, jmp_cond, jmp_hl, jr_e8, jr_cond, call_a16, call_cond,
  ret, ret_cond, reti, restart, halt, stop_n8, dis_ints, ena_ints, prefix, inval, run_op,
}
use realboy.Cpu.Table.{table_ops, entry, ops_table_dispatch}
use realboy.Cpu.Load.{
  op_ld_reg_reg, op_ld_b_ind_hl, op_ld_reg_ind_hl, op_ld_reg16_n16, op_ld_ind_reg16_a,
  op_ld_ind_hl_reg, op_ld_reg_n8, op_ld_a_ind_reg16, op_ld_a_ind_a16, op_ld_sp_hl, op_ldi_ind_hl_a,
  op_ldi_a_ind_hl, op_ldd_ind_hl_a, op_ldd_a_ind_hl, op_ld_ind_a16_sp, op_ld_ind_hl_n8,
  op_ld_ind_a16_a, op_ld_hl_sp_e8, op_ldh_ind_a8_a, op_ldh_ind_c_a, op_ldh_a_ind_a8, op_ldh_a_ind_c,
  op_pop_reg16, op_pop_af, op_push_reg16,
}
use realboy.Cpu.Alu.{
  op_add_a_reg, op_add_a_ind_hl, op_add_a_n8, op_adc_a_reg, op_adc_a_ind_hl, op_adc_a_n8,
  op_sub_a_reg, op_sub_a_ind_hl, op_sub_a_n8, op_sbc_a_reg, op_sbc_a_ind_hl, op_sbc_a_n8,
  op_and_a_reg, op_and_a_ind_hl, op_and_a_n8, op_xor_a_reg, op_xor_a_ind_hl, op_xor_a_n8,
  op_or_a_reg, op_or_a_ind_hl, op_or_a_n8, op_cp_a_reg, op_cp_a_ind_hl, op_cp_a_n8, op_inc_reg,
  op_inc_reg16, op_inc_ind_hl, op_dec_reg, op_dec_reg16, op_dec_ind_hl, op_add_hl_reg16,
  op_add_sp_e8, op_daa, op_cpl, op_scf, op_ccf,
}
use realboy.Cpu.Shift.{
  op_rlc_reg, op_rlc_ind_hl, op_rl_reg, op_rl_ind_hl, op_rrc_reg, op_rrc_ind_hl, op_rr_reg,
  op_rr_ind_hl, op_sla_reg, op_sla_ind_hl, op_sra_reg, op_sra_ind_hl, op_srl_reg, op_srl_ind_hl,
  op_swp_reg, op_swp_ind_hl, op_rlca, op_rla, op_rrca, op_rra, op_bit_reg, op_bit_ind_hl,
  op_rst_reg, op_rst_ind_hl, op_set_reg, op_set_ind_hl,
}
use realboy.Cpu.Flow.{
  holds, do_ret, op_jmp_a16, op_jmp_cond, op_jmp_hl, op_jr_e8, op_jr_cond, op_call_a16,
  op_call_cond, op_ret, op_ret_cond, op_reti, op_restart, op_halt, op_stop_n8, op_dis_ints,
  op_ena_ints,
}
use realboy.Cpu.Ops.{op_nop, op_prefix, op_inval}

-- The bound that the timer relies on.
abbrev pub InRange : Executed → Type 0
InRange e = (1 ≤ e.1) × (e.1 ≤ 6)

run_op-cycles : (op : Op) (m : Machine) → InRange (run_op op m)
unfolding run_op do_ret op_nop op_ld_reg_reg op_ld_b_ind_hl op_ld_reg_ind_hl op_ld_reg16_n16
    op_ld_ind_reg16_a op_ld_ind_hl_reg op_ld_reg_n8 op_ld_a_ind_reg16 op_ld_a_ind_a16 op_ld_sp_hl
    op_ldi_ind_hl_a op_ldi_a_ind_hl op_ldd_ind_hl_a op_ldd_a_ind_hl op_ld_ind_a16_sp op_ld_ind_hl_n8
    op_ld_ind_a16_a op_ld_hl_sp_e8 op_ldh_ind_a8_a op_ldh_ind_c_a op_ldh_a_ind_a8 op_ldh_a_ind_c
    op_pop_reg16 op_pop_af op_push_reg16 op_add_a_reg op_add_a_ind_hl op_add_a_n8 op_adc_a_reg
    op_adc_a_ind_hl op_adc_a_n8 op_sub_a_reg op_sub_a_ind_hl op_sub_a_n8 op_sbc_a_reg
    op_sbc_a_ind_hl op_sbc_a_n8 op_and_a_reg op_and_a_ind_hl op_and_a_n8 op_xor_a_reg
    op_xor_a_ind_hl op_xor_a_n8 op_or_a_reg op_or_a_ind_hl op_or_a_n8 op_cp_a_reg op_cp_a_ind_hl
    op_cp_a_n8 op_inc_reg op_inc_reg16 op_inc_ind_hl op_dec_reg op_dec_reg16 op_dec_ind_hl
    op_add_hl_reg16 op_add_sp_e8 op_daa op_cpl op_scf op_ccf op_rlc_reg op_rlc_ind_hl op_rl_reg
    op_rl_ind_hl op_rrc_reg op_rrc_ind_hl op_rr_reg op_rr_ind_hl op_sla_reg op_sla_ind_hl op_sra_reg
    op_sra_ind_hl op_srl_reg op_srl_ind_hl op_swp_reg op_swp_ind_hl op_rlca op_rla op_rrca op_rra
    op_bit_reg op_bit_ind_hl op_rst_reg op_rst_ind_hl op_set_reg op_set_ind_hl op_jmp_a16
    op_jmp_cond op_jmp_hl op_jr_e8 op_jr_cond op_call_a16 op_call_cond op_ret op_ret_cond op_reti
    op_restart op_halt op_stop_n8 op_dis_ints op_ena_ints op_prefix op_inval
run_op-cycles nop m = omega arith
run_op-cycles (ld_reg_reg dst src) m = omega arith
run_op-cycles ld_b_ind_hl m = omega arith
run_op-cycles (ld_reg_ind_hl reg) m = omega arith
run_op-cycles (ld_reg16_n16 reg) m = omega arith
run_op-cycles (ld_ind_reg16_a reg) m = omega arith
run_op-cycles (ld_ind_hl_reg reg) m = omega arith
run_op-cycles (ld_reg_n8 reg) m = omega arith
run_op-cycles (ld_a_ind_reg16 reg) m = omega arith
run_op-cycles ld_a_ind_a16 m = omega arith
run_op-cycles ld_sp_hl m = omega arith
run_op-cycles ldi_ind_hl_a m = omega arith
run_op-cycles ldi_a_ind_hl m = omega arith
run_op-cycles ldd_ind_hl_a m = omega arith
run_op-cycles ldd_a_ind_hl m = omega arith
run_op-cycles ld_ind_a16_sp m = omega arith
run_op-cycles ld_ind_hl_n8 m = omega arith
run_op-cycles ld_ind_a16_a m = omega arith
run_op-cycles ld_hl_sp_e8 m = omega arith
run_op-cycles ldh_ind_a8_a m = omega arith
run_op-cycles ldh_ind_c_a m = omega arith
run_op-cycles ldh_a_ind_a8 m = omega arith
run_op-cycles ldh_a_ind_c m = omega arith
run_op-cycles (pop_reg16 reg) m = omega arith
run_op-cycles pop_af m = omega arith
run_op-cycles (push_reg16 reg) m = omega arith
run_op-cycles (add_a_reg reg) m = omega arith
run_op-cycles add_a_ind_hl m = omega arith
run_op-cycles add_a_n8 m = omega arith
run_op-cycles (adc_a_reg reg) m = omega arith
run_op-cycles adc_a_ind_hl m = omega arith
run_op-cycles adc_a_n8 m = omega arith
run_op-cycles (sub_a_reg reg) m = omega arith
run_op-cycles sub_a_ind_hl m = omega arith
run_op-cycles sub_a_n8 m = omega arith
run_op-cycles (sbc_a_reg reg) m = omega arith
run_op-cycles sbc_a_ind_hl m = omega arith
run_op-cycles sbc_a_n8 m = omega arith
run_op-cycles (and_a_reg reg) m = omega arith
run_op-cycles and_a_ind_hl m = omega arith
run_op-cycles and_a_n8 m = omega arith
run_op-cycles (xor_a_reg reg) m = omega arith
run_op-cycles xor_a_ind_hl m = omega arith
run_op-cycles xor_a_n8 m = omega arith
run_op-cycles (or_a_reg reg) m = omega arith
run_op-cycles or_a_ind_hl m = omega arith
run_op-cycles or_a_n8 m = omega arith
run_op-cycles (cp_a_reg reg) m = omega arith
run_op-cycles cp_a_ind_hl m = omega arith
run_op-cycles cp_a_n8 m = omega arith
run_op-cycles (inc_reg reg) m = omega arith
run_op-cycles (inc_reg16 reg) m = omega arith
run_op-cycles inc_ind_hl m = omega arith
run_op-cycles (dec_reg reg) m = omega arith
run_op-cycles (dec_reg16 reg) m = omega arith
run_op-cycles dec_ind_hl m = omega arith
run_op-cycles (add_hl_reg16 reg) m = omega arith
run_op-cycles add_sp_e8 m = omega arith
run_op-cycles daa m = omega arith
run_op-cycles cpl m = omega arith
run_op-cycles scf m = omega arith
run_op-cycles ccf m = omega arith
run_op-cycles (rlc_reg reg) m = omega arith
run_op-cycles rlc_ind_hl m = omega arith
run_op-cycles (rl_reg reg) m = omega arith
run_op-cycles rl_ind_hl m = omega arith
run_op-cycles (rrc_reg reg) m = omega arith
run_op-cycles rrc_ind_hl m = omega arith
run_op-cycles (rr_reg reg) m = omega arith
run_op-cycles rr_ind_hl m = omega arith
run_op-cycles (sla_reg reg) m = omega arith
run_op-cycles sla_ind_hl m = omega arith
run_op-cycles (sra_reg reg) m = omega arith
run_op-cycles sra_ind_hl m = omega arith
run_op-cycles (srl_reg reg) m = omega arith
run_op-cycles srl_ind_hl m = omega arith
run_op-cycles (swp_reg reg) m = omega arith
run_op-cycles swp_ind_hl m = omega arith
run_op-cycles rlca m = omega arith
run_op-cycles rla m = omega arith
run_op-cycles rrca m = omega arith
run_op-cycles rra m = omega arith
run_op-cycles (bit_reg k reg) m = omega arith
run_op-cycles (bit_ind_hl k) m = omega arith
run_op-cycles (rst_reg k reg) m = omega arith
run_op-cycles (rst_ind_hl k) m = omega arith
run_op-cycles (set_reg k reg) m = omega arith
run_op-cycles (set_ind_hl k) m = omega arith
run_op-cycles jmp_a16 m = omega arith
run_op-cycles (jmp_cond cond) m =
    if-holds InRange (holds cond m.cpu.regs) _ _ (omega arith) (omega arith)
run_op-cycles jmp_hl m = omega arith
run_op-cycles jr_e8 m = omega arith
run_op-cycles (jr_cond cond) m =
    if-holds InRange (holds cond m.cpu.regs) _ _ (omega arith) (omega arith)
run_op-cycles call_a16 m = omega arith
run_op-cycles (call_cond cond) m =
    if-holds InRange (holds cond m.cpu.regs) _ _ (omega arith) (omega arith)
run_op-cycles ret m = omega arith
run_op-cycles (ret_cond cond) m =
    if-holds InRange (holds cond m.cpu.regs) _ _ (omega arith) (omega arith)
run_op-cycles reti m = omega arith
run_op-cycles (restart k) m = omega arith
run_op-cycles halt m = omega arith
run_op-cycles stop_n8 m = omega arith
run_op-cycles dis_ints m = omega arith
run_op-cycles ena_ints m = omega arith
run_op-cycles prefix m = omega arith
run_op-cycles inval m = omega arith

-- Every opcode takes from one to six cycles.
pub ops_table_dispatch-cycles :
    (op : ℕ) (prefixed : Bool) (m : Machine) → InRange (ops_table_dispatch op prefixed m)
unfolding ops_table_dispatch
ops_table_dispatch-cycles op prefixed m =
    run_op-cycles (entry table_ops (bit_or op (to_int prefixed * 256))) m
