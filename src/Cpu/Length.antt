-- ===== src/Cpu/Length.antt =====
-- How far the instructions of emu/cpu/cpu_ops.c advance the program counter.
pub mod Lens
use realboy.Prelude.{
  ℕ, ◌+◌, ◌%◌, ◌<◌, ◌≡◌, refl, ap, ◌∙◌, arith, if-cases, Bool, true, false, Option, some, none, u16,
  bit_or, to_int,
}
use realboy.Machine.{Machine}
use realboy.Cpu.Ops.{
  Op, nop, ld_reg_reg, ld_b_ind_hl, ld_reg_ind_hl, ld_reg16_n16, ld_ind_reg16_a, ld_ind_hl_reg,
  ld_reg_n8, ld_a_ind_reg16, ld_a_ind_a16, ld_sp_hl, ldi_ind_hl_a, ldi_a_ind_hl, ldd_ind_hl_a,
  ldd_a_ind_hl, ld_ind_a16_sp, ld_ind_hl_n8, ld_ind_a16_a, ld_hl_sp_e8, ldh_ind_a8_a, ldh_ind_c_a,
  ldh_a_ind_a8, ldh_a_ind_c, pop_reg16, pop_af, push_reg16, add_a_reg, add_a_ind_hl, add_a_n8,
  adc_a_reg, adc_a_ind_hl, adc_a_n8, sub_a_reg, sub_a_ind_hl, sub_a_n8, sbc_a_reg, sbc_a_ind_hl,
  sbc_a_n8, and_a_reg, and_a_ind_hl, and_a_n8, xor_a_reg, xor_a_ind_hl, xor_a_n8, or_a_reg,
  or_a_ind_hl, or_a_n8, cp_a_reg, cp_a_ind_hl, cp_a_n8, inc_reg, inc_reg16, inc_ind_hl, dec_reg,
  dec_reg16, dec_ind_hl, add_hl_reg16, add_sp_e8, daa, cpl, scf, ccf, rlc_reg, rlc_ind_hl, rl_reg,
  rl_ind_hl, rrc_reg, rrc_ind_hl, rr_reg, rr_ind_hl, sla_reg, sla_ind_hl, sra_reg, sra_ind_hl,
  srl_reg, srl_ind_hl, swp_reg, swp_ind_hl, rlca, rla, rrca, rra, bit_reg, bit_ind_hl, rst_reg,
  rst_ind_hl, set_ind_hl, jmp_a16, jmp_cond, jmp_hl, jr_e8, jr_cond, call_a16, call_cond, ret,
  ret_cond, reti, restart, halt, stop_n8, dis_ints, ena_ints, prefix, inval, run_op,
}
use realboy.Cpu.Table.{table_ops, entry, ops_table_dispatch}
use realboy.Cpu.Load.{
  op_ld_reg_reg, op_ld_b_ind_hl, op_ld_reg_ind_hl, op_ld_reg16_n16, op_ld_ind_reg16_a,
  op_ld_ind_hl_reg, op_ld_reg_n8, op_ld_a_ind_reg16, op_ld_a_ind_a16, op_ld_sp_hl, op_ldi_ind_hl_a,
  op_ldi_a_ind_hl, op_ldd_ind_hl_a, op_ldd_a_ind_hl, op_ld_ind_a16_sp, op_ld_ind_hl_n8,
  op_ld_ind_a16_a, op_ld_hl_sp_e8, op_ldh_ind_a8_a, op_ldh_ind_c_a, op_ldh_a_ind_a8, op_ldh_a_ind_c,
  op_pop_reg16, op_pop_af, op_push_reg16,
}
use realboy.Cpu.Alu.{
  op_add_a_reg, op_add_a_ind_hl, op_add_a_n8, op_adc_a_reg, op_adc_a_ind_hl, op_adc_a_n8,
  op_sub_a_reg, op_sub_a_ind_hl, op_sub_a_n8, op_sbc_a_reg, op_sbc_a_ind_hl, op_sbc_a_n8,
  op_and_a_reg, op_and_a_ind_hl, op_and_a_n8, op_xor_a_reg, op_xor_a_ind_hl, op_xor_a_n8,
  op_or_a_reg, op_or_a_ind_hl, op_or_a_n8, op_cp_a_reg, op_cp_a_ind_hl, op_cp_a_n8, op_inc_reg,
  op_inc_reg16, op_inc_ind_hl, op_dec_reg, op_dec_reg16, op_dec_ind_hl, op_add_hl_reg16,
  op_add_sp_e8, op_daa, op_cpl, op_scf, op_ccf,
}
use realboy.Cpu.Shift.{
  op_rlc_reg, op_rlc_ind_hl, op_rl_reg, op_rl_ind_hl, op_rrc_reg, op_rrc_ind_hl, op_rr_reg,
  op_rr_ind_hl, op_sla_reg, op_sla_ind_hl, op_sra_reg, op_sra_ind_hl, op_srl_reg, op_srl_ind_hl,
  op_swp_reg, op_swp_ind_hl, op_rlca, op_rla, op_rrca, op_rra, op_bit_reg, op_bit_ind_hl,
  op_rst_reg, op_rst_ind_hl, op_set_reg, op_set_ind_hl,
}
use realboy.Cpu.Flow.{
  holds, do_ret, op_jmp_a16, op_jmp_cond, op_jmp_hl, op_jr_e8, op_jr_cond, op_call_a16,
  op_call_cond, op_ret, op_ret_cond, op_reti, op_restart, op_halt, op_stop_n8, op_dis_ints,
  op_ena_ints,
}
use realboy.Cpu.Ops.{op_nop, op_prefix, op_inval}
use realboy.Cpu.Arith.{
  do_add, do_adc, adc_word, do_sub, do_sbc, sbc_word, do_cp, do_inc, do_dec, inc_load, dec_load,
  do_add16, add_sp, ld_hl_sp,
}
use realboy.Cpu.Logic.{do_and, do_xor, do_or, do_daa, do_cpl, do_scf, do_ccf, do_bit}
use realboy.Cpu.Rotate.{do_rlc, do_rl, do_rrc, do_rr, do_sla, do_sra, do_srl, do_swp}
use realboy.Cpu.Bus.{wr_word}
use realboy.Cpu.Peek.{op_lens, op_len}
use realboy.Monitor.{monitor_wr_mem}
use realboy.Monitor.Depth.{regs-monitor_wr_mem}
use realboy.Machine.{
  Registers, Reg8, Reg16, reg_a, reg_b, reg_c, reg_d, reg_e, reg_h, reg_l, reg_af, reg_bc, reg_de,
  reg_hl, reg_sp, set_reg, set_reg16,
}

-- How many bytes behind its opcode an instruction goes on, for those that do not jump.
abbrev pub operands : Op → Option ℕ
operands (ld_reg16_n16 _) = some 2
operands (ld_reg_n8 _) = some 1
operands ld_a_ind_a16 = some 2
operands ld_ind_a16_sp = some 2
operands ld_ind_hl_n8 = some 1
operands ld_ind_a16_a = some 2
operands ld_hl_sp_e8 = some 1
operands ldh_ind_a8_a = some 1
operands ldh_a_ind_a8 = some 1
operands add_a_n8 = some 1
operands adc_a_n8 = some 1
operands sub_a_n8 = some 1
operands sbc_a_n8 = some 1
operands and_a_n8 = some 1
operands xor_a_n8 = some 1
operands or_a_n8 = some 1
operands cp_a_n8 = some 1
operands add_sp_e8 = some 1
operands stop_n8 = some 1
operands jmp_a16 = none
operands (jmp_cond _) = none
operands jmp_hl = none
operands jr_e8 = none
operands (jr_cond _) = none
operands call_a16 = none
operands (call_cond _) = none
operands ret = none
operands (ret_cond _) = none
operands reti = none
operands (restart _) = none
operands prefix = none
operands inval = none
operands _ = some 0

pc-set_reg : (reg : Reg8) (v : ℕ) (r : Registers) → (set_reg reg v r).pc ≡ r.pc
pc-set_reg reg_a v r = refl
pc-set_reg reg_b v r = refl
pc-set_reg reg_c v r = refl
pc-set_reg reg_d v r = refl
pc-set_reg reg_e v r = refl
pc-set_reg reg_h v r = refl
pc-set_reg reg_l v r = refl

pc-set_reg16 : (reg : Reg16) (v : ℕ) (r : Registers) → (set_reg16 reg v r).pc ≡ r.pc
pc-set_reg16 reg_af v r = refl
pc-set_reg16 reg_bc v r = refl
pc-set_reg16 reg_de v r = refl
pc-set_reg16 reg_hl v r = refl
pc-set_reg16 reg_sp v r = refl

pc-do_daa : (r : Registers) → (do_daa r).pc ≡ r.pc
unfolding do_daa
pc-do_daa r = if-cases (λ (q : Registers). q.pc ≡ r.pc) _ _ _ (λ _. refl) (λ _. refl)

pc-monitor_wr_mem :
    (m : Machine) (addr value : ℕ) → (monitor_wr_mem m addr value).cpu.regs.pc ≡ m.cpu.regs.pc
pc-monitor_wr_mem m addr value = ap (λ r. r.pc) (regs-monitor_wr_mem m addr value)

pc-wr_word :
    (addr value : Machine → ℕ) (m : Machine) → (wr_word addr value m).cpu.regs.pc ≡ m.cpu.regs.pc
unfolding wr_word
pc-wr_word addr value m = pc-monitor_wr_mem _ _ _ ∙ pc-monitor_wr_mem _ _ _

abbrev pub Advances : Option ℕ → Machine → Machine → Type 0
Advances none m n = Unit
Advances (some k) m n = n.cpu.regs.pc ≡ (m.cpu.regs.pc + k) % 65536

module _ (m : Machine) (fits : m.cpu.regs.pc < 65536) where
  still : m.cpu.regs.pc ≡ (m.cpu.regs.pc + 0) % 65536
  still = omega arith

  pub run_op-pc : (op : Op) → Advances (operands op) m (run_op op m).0
  unfolding run_op do_ret op_nop op_ld_reg_reg op_ld_b_ind_hl op_ld_reg_ind_hl op_ld_reg16_n16
      op_ld_ind_reg16_a op_ld_ind_hl_reg op_ld_reg_n8 op_ld_a_ind_reg16 op_ld_a_ind_a16 op_ld_sp_hl
      op_ldi_ind_hl_a op_ldi_a_ind_hl op_ldd_ind_hl_a op_ldd_a_ind_hl op_ld_ind_a16_sp
      op_ld_ind_hl_n8 op_ld_ind_a16_a op_ld_hl_sp_e8 op_ldh_ind_a8_a op_ldh_ind_c_a op_ldh_a_ind_a8
      op_ldh_a_ind_c op_pop_reg16 op_pop_af op_push_reg16 op_add_a_reg op_add_a_ind_hl op_add_a_n8
      op_adc_a_reg op_adc_a_ind_hl op_adc_a_n8 op_sub_a_reg op_sub_a_ind_hl op_sub_a_n8 op_sbc_a_reg
      op_sbc_a_ind_hl op_sbc_a_n8 op_and_a_reg op_and_a_ind_hl op_and_a_n8 op_xor_a_reg
      op_xor_a_ind_hl op_xor_a_n8 op_or_a_reg op_or_a_ind_hl op_or_a_n8 op_cp_a_reg op_cp_a_ind_hl
      op_cp_a_n8 op_inc_reg op_inc_reg16 op_inc_ind_hl op_dec_reg op_dec_reg16 op_dec_ind_hl
      op_add_hl_reg16 op_add_sp_e8 op_daa op_cpl op_scf op_ccf op_rlc_reg op_rlc_ind_hl op_rl_reg
      op_rl_ind_hl op_rrc_reg op_rrc_ind_hl op_rr_reg op_rr_ind_hl op_sla_reg op_sla_ind_hl
      op_sra_reg op_sra_ind_hl op_srl_reg op_srl_ind_hl op_swp_reg op_swp_ind_hl op_rlca op_rla
      op_rrca op_rra op_bit_reg op_bit_ind_hl op_rst_reg op_rst_ind_hl op_set_reg op_set_ind_hl
      op_jmp_a16 op_jmp_cond op_jmp_hl op_jr_e8 op_jr_cond op_call_a16 op_call_cond op_ret
      op_ret_cond op_reti op_restart op_halt op_stop_n8 op_dis_ints op_ena_ints op_prefix op_inval
      do_add do_adc adc_word do_sub do_sbc sbc_word do_cp do_inc do_dec inc_load dec_load do_add16
      add_sp ld_hl_sp do_and do_xor do_or do_cpl do_scf do_ccf do_bit do_rlc do_rl do_rrc do_rr
      do_sla do_sra do_srl do_swp
  run_op-pc nop = still
  run_op-pc (ld_reg_reg dst src) = pc-set_reg dst _ _ ∙ still
  run_op-pc ld_b_ind_hl = still
  run_op-pc (ld_reg_ind_hl reg) = pc-set_reg reg _ _ ∙ still
  run_op-pc (ld_reg16_n16 reg) = ap (λ x. u16 (x + 2)) (pc-set_reg16 reg _ _)
  run_op-pc (ld_ind_reg16_a reg) = pc-monitor_wr_mem _ _ _ ∙ still
  run_op-pc (ld_ind_hl_reg reg) = pc-monitor_wr_mem _ _ _ ∙ still
  run_op-pc (ld_reg_n8 reg) = ap (λ x. u16 (x + 1)) (pc-set_reg reg _ _)
  run_op-pc (ld_a_ind_reg16 reg) = still
  run_op-pc ld_a_ind_a16 = refl
  run_op-pc ld_sp_hl = still
  run_op-pc ldi_ind_hl_a = pc-monitor_wr_mem _ _ _ ∙ still
  run_op-pc ldi_a_ind_hl = still
  run_op-pc ldd_ind_hl_a = pc-monitor_wr_mem _ _ _ ∙ still
  run_op-pc ldd_a_ind_hl = still
  run_op-pc ld_ind_a16_sp = ap (λ x. u16 (x + 2)) (pc-wr_word _ _ _)
  run_op-pc ld_ind_hl_n8 = ap (λ x. u16 (x + 1)) (pc-monitor_wr_mem _ _ _)
  run_op-pc ld_ind_a16_a = ap (λ x. u16 (x + 2)) (pc-monitor_wr_mem _ _ _)
  run_op-pc ld_hl_sp_e8 = refl
  run_op-pc ldh_ind_a8_a = ap (λ x. u16 (x + 1)) (pc-monitor_wr_mem _ _ _)
  run_op-pc ldh_ind_c_a = pc-monitor_wr_mem _ _ _ ∙ still
  run_op-pc ldh_a_ind_a8 = refl
  run_op-pc ldh_a_ind_c = still
  run_op-pc (pop_reg16 reg) = pc-set_reg16 reg _ _ ∙ still
  run_op-pc pop_af = still
  run_op-pc (push_reg16 reg) = pc-wr_word _ _ _ ∙ still
  run_op-pc (add_a_reg reg) = still
  run_op-pc add_a_ind_hl = still
  run_op-pc add_a_n8 = refl
  run_op-pc (adc_a_reg reg) = still
  run_op-pc adc_a_ind_hl = still
  run_op-pc adc_a_n8 = refl
  run_op-pc (sub_a_reg reg) = still
  run_op-pc sub_a_ind_hl = still
  run_op-pc sub_a_n8 = refl
  run_op-pc (sbc_a_reg reg) = still
  run_op-pc sbc_a_ind_hl = still
  run_op-pc sbc_a_n8 = refl
  run_op-pc (and_a_reg reg) = still
  run_op-pc and_a_ind_hl = still
  run_op-pc and_a_n8 = refl
  run_op-pc (xor_a_reg reg) = still
  run_op-pc xor_a_ind_hl = still
  run_op-pc xor_a_n8 = refl
  run_op-pc (or_a_reg reg) = still
  run_op-pc or_a_ind_hl = still
  run_op-pc or_a_n8 = refl
  run_op-pc (cp_a_reg reg) = still
  run_op-pc cp_a_ind_hl = still
  run_op-pc cp_a_n8 = refl
  run_op-pc (inc_reg reg) = pc-set_reg reg _ _ ∙ still
  run_op-pc (inc_reg16 reg) = pc-set_reg16 reg _ _ ∙ still
  run_op-pc inc_ind_hl = pc-monitor_wr_mem _ _ _ ∙ still
  run_op-pc (dec_reg reg) = pc-set_reg reg _ _ ∙ still
  run_op-pc (dec_reg16 reg) = pc-set_reg16 reg _ _ ∙ still
  run_op-pc dec_ind_hl = pc-monitor_wr_mem _ _ _ ∙ still
  run_op-pc (add_hl_reg16 reg) = still
  run_op-pc add_sp_e8 = refl
  run_op-pc daa = pc-do_daa m.cpu.regs ∙ still
  run_op-pc cpl = still
  run_op-pc scf = still
  run_op-pc ccf = still
  run_op-pc (rlc_reg reg) = pc-set_reg reg _ _ ∙ still
  run_op-pc rlc_ind_hl = pc-monitor_wr_mem _ _ _ ∙ still
  run_op-pc (rl_reg reg) = pc-set_reg reg _ _ ∙ still
  run_op-pc rl_ind_hl = pc-monitor_wr_mem _ _ _ ∙ still
  run_op-pc (rrc_reg reg) = pc-set_reg reg _ _ ∙ still
  run_op-pc rrc_ind_hl = pc-monitor_wr_mem _ _ _ ∙ still
  run_op-pc (rr_reg reg) = pc-set_reg reg _ _ ∙ still
  run_op-pc rr_ind_hl = pc-monitor_wr_mem _ _ _ ∙ still
  run_op-pc (sla_reg reg) = pc-set_reg reg _ _ ∙ still
  run_op-pc sla_ind_hl = pc-monitor_wr_mem _ _ _ ∙ still
  run_op-pc (sra_reg reg) = pc-set_reg reg _ _ ∙ still
  run_op-pc sra_ind_hl = pc-monitor_wr_mem _ _ _ ∙ still
  run_op-pc (srl_reg reg) = pc-set_reg reg _ _ ∙ still
  run_op-pc srl_ind_hl = pc-monitor_wr_mem _ _ _ ∙ still
  run_op-pc (swp_reg reg) = pc-set_reg reg _ _ ∙ still
  run_op-pc swp_ind_hl = pc-monitor_wr_mem _ _ _ ∙ still
  run_op-pc rlca = still
  run_op-pc rla = still
  run_op-pc rrca = still
  run_op-pc rra = still
  run_op-pc (bit_reg k reg) = still
  run_op-pc (bit_ind_hl k) = still
  run_op-pc (rst_reg k reg) = pc-set_reg reg _ _ ∙ still
  run_op-pc (rst_ind_hl k) = pc-monitor_wr_mem _ _ _ ∙ still
  run_op-pc (Op.set_reg k reg) = pc-set_reg reg _ _ ∙ still
  run_op-pc (set_ind_hl k) = pc-monitor_wr_mem _ _ _ ∙ still
  run_op-pc jmp_a16 = tt
  run_op-pc (jmp_cond cond) = tt
  run_op-pc jmp_hl = tt
  run_op-pc jr_e8 = tt
  run_op-pc (jr_cond cond) = tt
  run_op-pc call_a16 = tt
  run_op-pc (call_cond cond) = tt
  run_op-pc ret = tt
  run_op-pc (ret_cond cond) = tt
  run_op-pc reti = tt
  run_op-pc (restart k) = tt
  run_op-pc halt = still
  run_op-pc stop_n8 = refl
  run_op-pc dis_ints = still
  run_op-pc ena_ints = still
  run_op-pc prefix = tt
  run_op-pc inval = tt
