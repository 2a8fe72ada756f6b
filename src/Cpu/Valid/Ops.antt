-- ===== src/Cpu/Valid/Ops.antt =====
-- Well-formedness: `table_ops` of emu/cpu/cpu_ops.c, and the dispatch through it.
use realboy.Prelude.{
  ℕ, zero, suc, ◌*◌, ◌^◌, ◌≡◌, ◌≢◌, refl, Bool, true, false, ◌&&◌, List, [], ◌∷◌, ltb, ltb_sound,
  and_left, and_right, to_int, bit_or,
}
use realboy.Machine.{Reg16, reg_af, reg_bc, reg_de, reg_hl, reg_sp, Machine}
use realboy.Machine.Hash.{Objects}
use realboy.Machine.Valid.{MachineValidFrom}
use realboy.Cpu.Ops.{
  Op, nop, ld_reg_reg, ld_b_ind_hl, ld_reg_ind_hl, ld_reg16_n16, ld_ind_reg16_a, ld_ind_hl_reg,
  ld_reg_n8, ld_a_ind_reg16, ld_a_ind_a16, ld_sp_hl, ldi_ind_hl_a, ldi_a_ind_hl, ldd_ind_hl_a,
  ldd_a_ind_hl, ld_ind_a16_sp, ld_ind_hl_n8, ld_ind_a16_a, ld_hl_sp_e8, ldh_ind_a8_a, ldh_ind_c_a,
  ldh_a_ind_a8, ldh_a_ind_c, pop_reg16, pop_af, push_reg16, add_a_reg, add_a_ind_hl, add_a_n8,
  adc_a_reg, adc_a_ind_hl, adc_a_n8, sub_a_reg, sub_a_ind_hl, sub_a_n8, sbc_a_reg, sbc_a_ind_hl,
  sbc_a_n8, and_a_reg, and_a_ind_hl, and_a_n8, xor_a_reg, xor_a_ind_hl, xor_a_n8, or_a_reg,
  or_a_ind_hl, or_a_n8, cp_a_reg, cp_a_ind_hl, cp_a_n8, inc_reg, inc_reg16, inc_ind_hl, dec_reg,
  dec_reg16, dec_ind_hl, add_hl_reg16, add_sp_e8, daa, cpl, scf, ccf, rlc_reg, rlc_ind_hl, rl_reg,
  rl_ind_hl, rrc_reg, rrc_ind_hl, rr_reg, rr_ind_hl, sla_reg, sla_ind_hl, sra_reg, sra_ind_hl,
  srl_reg, srl_ind_hl, swp_reg, swp_ind_hl, rlca, rla, rrca, rra, bit_reg, bit_ind_hl, rst_reg,
  rst_ind_hl, set_reg, set_ind_hl, jmp_a16, jmp_cond, jmp_hl, jr_e8, jr_cond, call_a16, call_cond,
  ret, ret_cond, reti, restart, halt, stop_n8, dis_ints, ena_ints, prefix, inval, op_nop, op_prefix,
  op_inval, run_op,
}
use realboy.Cpu.Table.{table_ops, entry, ops_table_dispatch}
use realboy.Cpu.Valid.Load.{
  op_ld_reg_reg-Valid, op_ld_b_ind_hl-Valid, op_ld_reg_ind_hl-Valid, op_ld_reg16_n16-Valid,
  op_ld_ind_reg16_a-Valid, op_ld_ind_hl_reg-Valid, op_ld_reg_n8-Valid, op_ld_a_ind_reg16-Valid,
  op_ld_a_ind_a16-Valid, op_ld_sp_hl-Valid, op_ldi_ind_hl_a-Valid, op_ldi_a_ind_hl-Valid,
  op_ldd_ind_hl_a-Valid, op_ldd_a_ind_hl-Valid, op_ld_ind_a16_sp-Valid, op_ld_ind_hl_n8-Valid,
  op_ld_ind_a16_a-Valid, op_ld_hl_sp_e8-Valid, op_ldh_ind_a8_a-Valid, op_ldh_ind_c_a-Valid,
  op_ldh_a_ind_a8-Valid, op_ldh_a_ind_c-Valid, op_pop_reg16-Valid, op_pop_af-Valid,
  op_push_reg16-Valid,
}
use realboy.Cpu.Valid.Alu.{
  op_add_a_reg-Valid, op_add_a_ind_hl-Valid, op_add_a_n8-Valid, op_adc_a_reg-Valid,
  op_adc_a_ind_hl-Valid, op_adc_a_n8-Valid, op_sub_a_reg-Valid, op_sub_a_ind_hl-Valid,
  op_sub_a_n8-Valid, op_sbc_a_reg-Valid, op_sbc_a_ind_hl-Valid, op_sbc_a_n8-Valid,
  op_and_a_reg-Valid, op_and_a_ind_hl-Valid, op_and_a_n8-Valid, op_xor_a_reg-Valid,
  op_xor_a_ind_hl-Valid, op_xor_a_n8-Valid, op_or_a_reg-Valid, op_or_a_ind_hl-Valid,
  op_or_a_n8-Valid, op_cp_a_reg-Valid, op_cp_a_ind_hl-Valid, op_cp_a_n8-Valid, op_inc_reg-Valid,
  op_inc_reg16-Valid, op_inc_ind_hl-Valid, op_dec_reg-Valid, op_dec_reg16-Valid,
  op_dec_ind_hl-Valid, op_add_hl_reg16-Valid, op_add_sp_e8-Valid, op_daa-Valid, op_cpl-Valid,
  op_scf-Valid, op_ccf-Valid,
}
use realboy.Cpu.Valid.Shift.{
  op_rlc_reg-Valid, op_rlc_ind_hl-Valid, op_rl_reg-Valid, op_rl_ind_hl-Valid, op_rrc_reg-Valid,
  op_rrc_ind_hl-Valid, op_rr_reg-Valid, op_rr_ind_hl-Valid, op_sla_reg-Valid, op_sla_ind_hl-Valid,
  op_sra_reg-Valid, op_sra_ind_hl-Valid, op_srl_reg-Valid, op_srl_ind_hl-Valid, op_swp_reg-Valid,
  op_swp_ind_hl-Valid, op_rlca-Valid, op_rla-Valid, op_rrca-Valid, op_rra-Valid,
}
use realboy.Cpu.Valid.Bits.{
  op_bit_reg-Valid, op_bit_ind_hl-Valid, op_rst_reg-Valid, op_rst_ind_hl-Valid, op_set_reg-Valid,
  op_set_ind_hl-Valid,
}
use realboy.Cpu.Valid.Flow.{
  op_jmp_a16-Valid, op_jmp_cond-Valid, op_jmp_hl-Valid, op_jr_e8-Valid, op_jr_cond-Valid,
  op_call_a16-Valid, op_call_cond-Valid, op_ret-Valid, op_ret_cond-Valid, op_reti-Valid,
  op_restart-Valid, op_halt-Valid, op_stop_n8-Valid, op_dis_ints-Valid, op_ena_ints-Valid,
}

-- A register pair that an instruction may load a word into: F keeps its low bits clear.
abbrev not_af : Reg16 → Bool
not_af reg_af = false
not_af _ = true

not_af_sound : (reg : Reg16) → not_af reg ≡ true → reg ≢ reg_af
not_af_sound reg_af fits = cc
not_af_sound reg_bc fits = λ e. cc
not_af_sound reg_de fits = λ e. cc
not_af_sound reg_hl fits = λ e. cc
not_af_sound reg_sp fits = λ e. cc

-- The operands that the table gives an instruction are in its range.
abbrev operands_fit : Op → Bool
operands_fit (ld_reg16_n16 reg) = not_af reg
operands_fit (pop_reg16 reg) = not_af reg
operands_fit (inc_reg16 reg) = not_af reg
operands_fit (dec_reg16 reg) = not_af reg
operands_fit (set_reg k reg) = ltb (2 ^ k) 256
operands_fit (set_ind_hl k) = ltb (2 ^ k) 256
operands_fit (restart addr) = ltb addr 65536
operands_fit _ = true

pub run_op-Valid :
    {base : Objects}
    → (op : Op) → operands_fit op ≡ true
    → (m : Machine) → MachineValidFrom base m
    → MachineValidFrom base (run_op op m).0
unfolding run_op op_nop op_prefix op_inval
run_op-Valid nop fits m v = v
run_op-Valid (ld_reg_reg dst src) fits m v = op_ld_reg_reg-Valid m v dst src
run_op-Valid ld_b_ind_hl fits m v = op_ld_b_ind_hl-Valid m v
run_op-Valid (ld_reg_ind_hl reg) fits m v = op_ld_reg_ind_hl-Valid m v reg
run_op-Valid (ld_reg16_n16 reg) fits m v = op_ld_reg16_n16-Valid m v reg (not_af_sound reg fits)
run_op-Valid (ld_ind_reg16_a reg) fits m v = op_ld_ind_reg16_a-Valid m v reg
run_op-Valid (ld_ind_hl_reg reg) fits m v = op_ld_ind_hl_reg-Valid m v reg
run_op-Valid (ld_reg_n8 reg) fits m v = op_ld_reg_n8-Valid m v reg
run_op-Valid (ld_a_ind_reg16 reg) fits m v = op_ld_a_ind_reg16-Valid m v reg
run_op-Valid ld_a_ind_a16 fits m v = op_ld_a_ind_a16-Valid m v
run_op-Valid ld_sp_hl fits m v = op_ld_sp_hl-Valid m v
run_op-Valid ldi_ind_hl_a fits m v = op_ldi_ind_hl_a-Valid m v
run_op-Valid ldi_a_ind_hl fits m v = op_ldi_a_ind_hl-Valid m v
run_op-Valid ldd_ind_hl_a fits m v = op_ldd_ind_hl_a-Valid m v
run_op-Valid ldd_a_ind_hl fits m v = op_ldd_a_ind_hl-Valid m v
run_op-Valid ld_ind_a16_sp fits m v = op_ld_ind_a16_sp-Valid m v
run_op-Valid ld_ind_hl_n8 fits m v = op_ld_ind_hl_n8-Valid m v
run_op-Valid ld_ind_a16_a fits m v = op_ld_ind_a16_a-Valid m v
run_op-Valid ld_hl_sp_e8 fits m v = op_ld_hl_sp_e8-Valid m v
run_op-Valid ldh_ind_a8_a fits m v = op_ldh_ind_a8_a-Valid m v
run_op-Valid ldh_ind_c_a fits m v = op_ldh_ind_c_a-Valid m v
run_op-Valid ldh_a_ind_a8 fits m v = op_ldh_a_ind_a8-Valid m v
run_op-Valid ldh_a_ind_c fits m v = op_ldh_a_ind_c-Valid m v
run_op-Valid (pop_reg16 reg) fits m v = op_pop_reg16-Valid m v reg (not_af_sound reg fits)
run_op-Valid pop_af fits m v = op_pop_af-Valid m v
run_op-Valid (push_reg16 reg) fits m v = op_push_reg16-Valid m v reg
run_op-Valid (add_a_reg reg) fits m v = op_add_a_reg-Valid m v reg
run_op-Valid add_a_ind_hl fits m v = op_add_a_ind_hl-Valid m v
run_op-Valid add_a_n8 fits m v = op_add_a_n8-Valid m v
run_op-Valid (adc_a_reg reg) fits m v = op_adc_a_reg-Valid m v reg
run_op-Valid adc_a_ind_hl fits m v = op_adc_a_ind_hl-Valid m v
run_op-Valid adc_a_n8 fits m v = op_adc_a_n8-Valid m v
run_op-Valid (sub_a_reg reg) fits m v = op_sub_a_reg-Valid m v reg
run_op-Valid sub_a_ind_hl fits m v = op_sub_a_ind_hl-Valid m v
run_op-Valid sub_a_n8 fits m v = op_sub_a_n8-Valid m v
run_op-Valid (sbc_a_reg reg) fits m v = op_sbc_a_reg-Valid m v reg
run_op-Valid sbc_a_ind_hl fits m v = op_sbc_a_ind_hl-Valid m v
run_op-Valid sbc_a_n8 fits m v = op_sbc_a_n8-Valid m v
run_op-Valid (and_a_reg reg) fits m v = op_and_a_reg-Valid m v reg
run_op-Valid and_a_ind_hl fits m v = op_and_a_ind_hl-Valid m v
run_op-Valid and_a_n8 fits m v = op_and_a_n8-Valid m v
run_op-Valid (xor_a_reg reg) fits m v = op_xor_a_reg-Valid m v reg
run_op-Valid xor_a_ind_hl fits m v = op_xor_a_ind_hl-Valid m v
run_op-Valid xor_a_n8 fits m v = op_xor_a_n8-Valid m v
run_op-Valid (or_a_reg reg) fits m v = op_or_a_reg-Valid m v reg
run_op-Valid or_a_ind_hl fits m v = op_or_a_ind_hl-Valid m v
run_op-Valid or_a_n8 fits m v = op_or_a_n8-Valid m v
run_op-Valid (cp_a_reg reg) fits m v = op_cp_a_reg-Valid m v reg
run_op-Valid cp_a_ind_hl fits m v = op_cp_a_ind_hl-Valid m v
run_op-Valid cp_a_n8 fits m v = op_cp_a_n8-Valid m v
run_op-Valid (inc_reg reg) fits m v = op_inc_reg-Valid m v reg
run_op-Valid (inc_reg16 reg) fits m v = op_inc_reg16-Valid m v reg (not_af_sound reg fits)
run_op-Valid inc_ind_hl fits m v = op_inc_ind_hl-Valid m v
run_op-Valid (dec_reg reg) fits m v = op_dec_reg-Valid m v reg
run_op-Valid (dec_reg16 reg) fits m v = op_dec_reg16-Valid m v reg (not_af_sound reg fits)
run_op-Valid dec_ind_hl fits m v = op_dec_ind_hl-Valid m v
run_op-Valid (add_hl_reg16 reg) fits m v = op_add_hl_reg16-Valid m v reg
run_op-Valid add_sp_e8 fits m v = op_add_sp_e8-Valid m v
run_op-Valid daa fits m v = op_daa-Valid m v
run_op-Valid cpl fits m v = op_cpl-Valid m v
run_op-Valid scf fits m v = op_scf-Valid m v
run_op-Valid ccf fits m v = op_ccf-Valid m v
run_op-Valid (rlc_reg reg) fits m v = op_rlc_reg-Valid m v reg
run_op-Valid rlc_ind_hl fits m v = op_rlc_ind_hl-Valid m v
run_op-Valid (rl_reg reg) fits m v = op_rl_reg-Valid m v reg
run_op-Valid rl_ind_hl fits m v = op_rl_ind_hl-Valid m v
run_op-Valid (rrc_reg reg) fits m v = op_rrc_reg-Valid m v reg
run_op-Valid rrc_ind_hl fits m v = op_rrc_ind_hl-Valid m v
run_op-Valid (rr_reg reg) fits m v = op_rr_reg-Valid m v reg
run_op-Valid rr_ind_hl fits m v = op_rr_ind_hl-Valid m v
run_op-Valid (sla_reg reg) fits m v = op_sla_reg-Valid m v reg
run_op-Valid sla_ind_hl fits m v = op_sla_ind_hl-Valid m v
run_op-Valid (sra_reg reg) fits m v = op_sra_reg-Valid m v reg
run_op-Valid sra_ind_hl fits m v = op_sra_ind_hl-Valid m v
run_op-Valid (srl_reg reg) fits m v = op_srl_reg-Valid m v reg
run_op-Valid srl_ind_hl fits m v = op_srl_ind_hl-Valid m v
run_op-Valid (swp_reg reg) fits m v = op_swp_reg-Valid m v reg
run_op-Valid swp_ind_hl fits m v = op_swp_ind_hl-Valid m v
run_op-Valid rlca fits m v = op_rlca-Valid m v
run_op-Valid rla fits m v = op_rla-Valid m v
run_op-Valid rrca fits m v = op_rrca-Valid m v
run_op-Valid rra fits m v = op_rra-Valid m v
run_op-Valid (bit_reg k reg) fits m v = op_bit_reg-Valid m v k reg
run_op-Valid (bit_ind_hl k) fits m v = op_bit_ind_hl-Valid m v k
run_op-Valid (rst_reg k reg) fits m v = op_rst_reg-Valid m v k reg
run_op-Valid (rst_ind_hl k) fits m v = op_rst_ind_hl-Valid m v k
run_op-Valid (set_reg k reg) fits m v = op_set_reg-Valid m v k reg (ltb_sound _ _ fits)
run_op-Valid (set_ind_hl k) fits m v = op_set_ind_hl-Valid m v k (ltb_sound _ _ fits)
run_op-Valid jmp_a16 fits m v = op_jmp_a16-Valid m v
run_op-Valid (jmp_cond cond) fits m v = op_jmp_cond-Valid m v cond
run_op-Valid jmp_hl fits m v = op_jmp_hl-Valid m v
run_op-Valid jr_e8 fits m v = op_jr_e8-Valid m v
run_op-Valid (jr_cond cond) fits m v = op_jr_cond-Valid m v cond
run_op-Valid call_a16 fits m v = op_call_a16-Valid m v
run_op-Valid (call_cond cond) fits m v = op_call_cond-Valid m v cond
run_op-Valid ret fits m v = op_ret-Valid m v
run_op-Valid (ret_cond cond) fits m v = op_ret_cond-Valid m v cond
run_op-Valid reti fits m v = op_reti-Valid m v
run_op-Valid (restart k) fits m v = op_restart-Valid m v k (ltb_sound _ _ fits)
run_op-Valid halt fits m v = op_halt-Valid m v
run_op-Valid stop_n8 fits m v = op_stop_n8-Valid m v
run_op-Valid dis_ints fits m v = op_dis_ints-Valid m v
run_op-Valid ena_ints fits m v = op_ena_ints-Valid m v
run_op-Valid prefix fits m v = v
run_op-Valid inval fits m v = v

abbrev all_fit : List Op → Bool
all_fit [] = true
all_fit (op ∷ ops) = operands_fit op && all_fit ops

entry-fits : (ops : List Op) (i : ℕ) → all_fit ops ≡ true → operands_fit (entry ops i) ≡ true
entry-fits [] i fits = refl
entry-fits (op ∷ ops) zero fits = and_left _ _ fits
entry-fits (op ∷ ops) (suc i) fits = entry-fits ops i (and_right _ _ fits)

table_fits : all_fit table_ops ≡ true
table_fits = refl

-- Every opcode, prefixed or not, leaves a valid machine valid when it is dispatched through
-- table_ops.
pub ops_table_dispatch-Valid :
    {base : Objects}
    → (op : ℕ) (prefixed : Bool) (m : Machine) → MachineValidFrom base m
    → MachineValidFrom base (ops_table_dispatch op prefixed m).0
unfolding ops_table_dispatch
ops_table_dispatch-Valid op prefixed m v =
    run_op-Valid (entry table_ops (bit_or op (to_int prefixed * 256)))
      (entry-fits table_ops (bit_or op (to_int prefixed * 256)) table_fits) m v
