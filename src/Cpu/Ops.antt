-- ===== src/Cpu/Ops.antt =====
-- The instructions of emu/cpu/cpu_ops.c as data, in place of the pointers to their functions that
-- `table_ops` holds, and the function that each stands for.
use realboy.Prelude.{ℕ}
use realboy.Machine.{Reg8, Reg16, Machine}
use realboy.Cpu.Bus.{Executed}
use realboy.Cpu.Load.{
  op_ld_reg_reg, op_ld_b_ind_hl, op_ld_reg_ind_hl, op_ld_reg16_n16, op_ld_ind_reg16_a,
  op_ld_ind_hl_reg, op_ld_reg_n8, op_ld_a_ind_reg16, op_ld_a_ind_a16, op_ld_sp_hl, op_ldi_ind_hl_a,
  op_ldi_a_ind_hl, op_ldd_ind_hl_a, op_ldd_a_ind_hl, op_ld_ind_a16_sp, op_ld_ind_hl_n8,
  op_ld_ind_a16_a, op_ld_hl_sp_e8, op_ldh_ind_a8_a, op_ldh_ind_c_a, op_ldh_a_ind_a8, op_ldh_a_ind_c,
  op_pop_reg16, op_pop_af, op_push_reg16,
}
use realboy.Cpu.Alu.{
  op_add_a_reg, op_add_a_ind_hl, op_add_a_n8, op_adc_a_reg, op_adc_a_ind_hl, op_adc_a_n8,
  op_sub_a_reg, op_sub_a_ind_hl, op_sub_a_n8, op_sbc_a_reg, op_sbc_a_ind_hl, op_sbc_a_n8,
  op_and_a_reg, op_and_a_ind_hl, op_and_a_n8, op_xor_a_reg, op_xor_a_ind_hl, op_xor_a_n8,
  op_or_a_reg, op_or_a_ind_hl, op_or_a_n8, op_cp_a_reg, op_cp_a_ind_hl, op_cp_a_n8, op_inc_reg,
  op_inc_reg16, op_inc_ind_hl, op_dec_reg, op_dec_reg16, op_dec_ind_hl, op_add_hl_reg16,
  op_add_sp_e8, op_daa, op_cpl, op_scf, op_ccf,
}
use realboy.Cpu.Shift.{
  op_rlc_reg, op_rlc_ind_hl, op_rl_reg, op_rl_ind_hl, op_rrc_reg, op_rrc_ind_hl, op_rr_reg,
  op_rr_ind_hl, op_sla_reg, op_sla_ind_hl, op_sra_reg, op_sra_ind_hl, op_srl_reg, op_srl_ind_hl,
  op_swp_reg, op_swp_ind_hl, op_rlca, op_rla, op_rrca, op_rra, op_bit_reg, op_bit_ind_hl,
  op_rst_reg, op_rst_ind_hl, op_set_reg, op_set_ind_hl,
}
use realboy.Cpu.Flow.{
  Cond, op_jmp_a16, op_jmp_cond, op_jmp_hl, op_jr_e8, op_jr_cond, op_call_a16, op_call_cond, op_ret,
  op_ret_cond, op_reti, op_restart, op_halt, op_stop_n8, op_dis_ints, op_ena_ints,
}

pub data Op : Type 0 where
  nop : Op
  ld_reg_reg : Reg8 → Reg8 → Op
  ld_b_ind_hl : Op
  ld_reg_ind_hl : Reg8 → Op
  ld_reg16_n16 : Reg16 → Op
  ld_ind_reg16_a : Reg16 → Op
  ld_ind_hl_reg : Reg8 → Op
  ld_reg_n8 : Reg8 → Op
  ld_a_ind_reg16 : Reg16 → Op
  ld_a_ind_a16 : Op
  ld_sp_hl : Op
  ldi_ind_hl_a : Op
  ldi_a_ind_hl : Op
  ldd_ind_hl_a : Op
  ldd_a_ind_hl : Op
  ld_ind_a16_sp : Op
  ld_ind_hl_n8 : Op
  ld_ind_a16_a : Op
  ld_hl_sp_e8 : Op
  ldh_ind_a8_a : Op
  ldh_ind_c_a : Op
  ldh_a_ind_a8 : Op
  ldh_a_ind_c : Op
  pop_reg16 : Reg16 → Op
  pop_af : Op
  push_reg16 : Reg16 → Op
  add_a_reg : Reg8 → Op
  add_a_ind_hl : Op
  add_a_n8 : Op
  adc_a_reg : Reg8 → Op
  adc_a_ind_hl : Op
  adc_a_n8 : Op
  sub_a_reg : Reg8 → Op
  sub_a_ind_hl : Op
  sub_a_n8 : Op
  sbc_a_reg : Reg8 → Op
  sbc_a_ind_hl : Op
  sbc_a_n8 : Op
  and_a_reg : Reg8 → Op
  and_a_ind_hl : Op
  and_a_n8 : Op
  xor_a_reg : Reg8 → Op
  xor_a_ind_hl : Op
  xor_a_n8 : Op
  or_a_reg : Reg8 → Op
  or_a_ind_hl : Op
  or_a_n8 : Op
  cp_a_reg : Reg8 → Op
  cp_a_ind_hl : Op
  cp_a_n8 : Op
  inc_reg : Reg8 → Op
  inc_reg16 : Reg16 → Op
  inc_ind_hl : Op
  dec_reg : Reg8 → Op
  dec_reg16 : Reg16 → Op
  dec_ind_hl : Op
  add_hl_reg16 : Reg16 → Op
  add_sp_e8 : Op
  daa : Op
  cpl : Op
  scf : Op
  ccf : Op
  rlc_reg : Reg8 → Op
  rlc_ind_hl : Op
  rl_reg : Reg8 → Op
  rl_ind_hl : Op
  rrc_reg : Reg8 → Op
  rrc_ind_hl : Op
  rr_reg : Reg8 → Op
  rr_ind_hl : Op
  sla_reg : Reg8 → Op
  sla_ind_hl : Op
  sra_reg : Reg8 → Op
  sra_ind_hl : Op
  srl_reg : Reg8 → Op
  srl_ind_hl : Op
  swp_reg : Reg8 → Op
  swp_ind_hl : Op
  rlca : Op
  rla : Op
  rrca : Op
  rra : Op
  bit_reg : ℕ → Reg8 → Op
  bit_ind_hl : ℕ → Op
  rst_reg : ℕ → Reg8 → Op
  rst_ind_hl : ℕ → Op
  set_reg : ℕ → Reg8 → Op
  set_ind_hl : ℕ → Op
  jmp_a16 : Op
  jmp_cond : Cond → Op
  jmp_hl : Op
  jr_e8 : Op
  jr_cond : Cond → Op
  call_a16 : Op
  call_cond : Cond → Op
  ret : Op
  ret_cond : Cond → Op
  reti : Op
  restart : ℕ → Op
  halt : Op
  stop_n8 : Op
  dis_ints : Op
  ena_ints : Op
  prefix : Op
  inval : Op

-- op_nop(), op_prefix() and op_inval()
unfoldable pub op_nop : Machine → Executed
op_nop m = (m, 1)

unfoldable pub op_prefix : Machine → Executed
op_prefix m = (m, 1)

unfoldable pub op_inval : Machine → Executed
op_inval m = (m, 1)

-- The call through the table.
unfoldable pub run_op : Op → Machine → Executed
run_op nop = op_nop
run_op (ld_reg_reg dst src) = op_ld_reg_reg dst src
run_op ld_b_ind_hl = op_ld_b_ind_hl
run_op (ld_reg_ind_hl reg) = op_ld_reg_ind_hl reg
run_op (ld_reg16_n16 reg) = op_ld_reg16_n16 reg
run_op (ld_ind_reg16_a reg) = op_ld_ind_reg16_a reg
run_op (ld_ind_hl_reg reg) = op_ld_ind_hl_reg reg
run_op (ld_reg_n8 reg) = op_ld_reg_n8 reg
run_op (ld_a_ind_reg16 reg) = op_ld_a_ind_reg16 reg
run_op ld_a_ind_a16 = op_ld_a_ind_a16
run_op ld_sp_hl = op_ld_sp_hl
run_op ldi_ind_hl_a = op_ldi_ind_hl_a
run_op ldi_a_ind_hl = op_ldi_a_ind_hl
run_op ldd_ind_hl_a = op_ldd_ind_hl_a
run_op ldd_a_ind_hl = op_ldd_a_ind_hl
run_op ld_ind_a16_sp = op_ld_ind_a16_sp
run_op ld_ind_hl_n8 = op_ld_ind_hl_n8
run_op ld_ind_a16_a = op_ld_ind_a16_a
run_op ld_hl_sp_e8 = op_ld_hl_sp_e8
run_op ldh_ind_a8_a = op_ldh_ind_a8_a
run_op ldh_ind_c_a = op_ldh_ind_c_a
run_op ldh_a_ind_a8 = op_ldh_a_ind_a8
run_op ldh_a_ind_c = op_ldh_a_ind_c
run_op (pop_reg16 reg) = op_pop_reg16 reg
run_op pop_af = op_pop_af
run_op (push_reg16 reg) = op_push_reg16 reg
run_op (add_a_reg reg) = op_add_a_reg reg
run_op add_a_ind_hl = op_add_a_ind_hl
run_op add_a_n8 = op_add_a_n8
run_op (adc_a_reg reg) = op_adc_a_reg reg
run_op adc_a_ind_hl = op_adc_a_ind_hl
run_op adc_a_n8 = op_adc_a_n8
run_op (sub_a_reg reg) = op_sub_a_reg reg
run_op sub_a_ind_hl = op_sub_a_ind_hl
run_op sub_a_n8 = op_sub_a_n8
run_op (sbc_a_reg reg) = op_sbc_a_reg reg
run_op sbc_a_ind_hl = op_sbc_a_ind_hl
run_op sbc_a_n8 = op_sbc_a_n8
run_op (and_a_reg reg) = op_and_a_reg reg
run_op and_a_ind_hl = op_and_a_ind_hl
run_op and_a_n8 = op_and_a_n8
run_op (xor_a_reg reg) = op_xor_a_reg reg
run_op xor_a_ind_hl = op_xor_a_ind_hl
run_op xor_a_n8 = op_xor_a_n8
run_op (or_a_reg reg) = op_or_a_reg reg
run_op or_a_ind_hl = op_or_a_ind_hl
run_op or_a_n8 = op_or_a_n8
run_op (cp_a_reg reg) = op_cp_a_reg reg
run_op cp_a_ind_hl = op_cp_a_ind_hl
run_op cp_a_n8 = op_cp_a_n8
run_op (inc_reg reg) = op_inc_reg reg
run_op (inc_reg16 reg) = op_inc_reg16 reg
run_op inc_ind_hl = op_inc_ind_hl
run_op (dec_reg reg) = op_dec_reg reg
run_op (dec_reg16 reg) = op_dec_reg16 reg
run_op dec_ind_hl = op_dec_ind_hl
run_op (add_hl_reg16 reg) = op_add_hl_reg16 reg
run_op add_sp_e8 = op_add_sp_e8
run_op daa = op_daa
run_op cpl = op_cpl
run_op scf = op_scf
run_op ccf = op_ccf
run_op (rlc_reg reg) = op_rlc_reg reg
run_op rlc_ind_hl = op_rlc_ind_hl
run_op (rl_reg reg) = op_rl_reg reg
run_op rl_ind_hl = op_rl_ind_hl
run_op (rrc_reg reg) = op_rrc_reg reg
run_op rrc_ind_hl = op_rrc_ind_hl
run_op (rr_reg reg) = op_rr_reg reg
run_op rr_ind_hl = op_rr_ind_hl
run_op (sla_reg reg) = op_sla_reg reg
run_op sla_ind_hl = op_sla_ind_hl
run_op (sra_reg reg) = op_sra_reg reg
run_op sra_ind_hl = op_sra_ind_hl
run_op (srl_reg reg) = op_srl_reg reg
run_op srl_ind_hl = op_srl_ind_hl
run_op (swp_reg reg) = op_swp_reg reg
run_op swp_ind_hl = op_swp_ind_hl
run_op rlca = op_rlca
run_op rla = op_rla
run_op rrca = op_rrca
run_op rra = op_rra
run_op (bit_reg k reg) = op_bit_reg k reg
run_op (bit_ind_hl k) = op_bit_ind_hl k
run_op (rst_reg k reg) = op_rst_reg k reg
run_op (rst_ind_hl k) = op_rst_ind_hl k
run_op (set_reg k reg) = op_set_reg k reg
run_op (set_ind_hl k) = op_set_ind_hl k
run_op jmp_a16 = op_jmp_a16
run_op (jmp_cond cond) = op_jmp_cond cond
run_op jmp_hl = op_jmp_hl
run_op jr_e8 = op_jr_e8
run_op (jr_cond cond) = op_jr_cond cond
run_op call_a16 = op_call_a16
run_op (call_cond cond) = op_call_cond cond
run_op ret = op_ret
run_op (ret_cond cond) = op_ret_cond cond
run_op reti = op_reti
run_op (restart k) = op_restart k
run_op halt = op_halt
run_op stop_n8 = op_stop_n8
run_op dis_ints = op_dis_ints
run_op ena_ints = op_ena_ints
run_op prefix = op_prefix
run_op inval = op_inval
