-- ===== src/Cpu/Table/High.antt =====
-- `table_ops` of emu/cpu/cpu_ops.c: the opcodes 0x80 to 0xff.
use realboy.Prelude.{List, [], ◌∷◌}
use realboy.Machine.{
  reg_a, reg_b, reg_c, reg_d, reg_e, reg_h, reg_l, reg_bc, reg_de, reg_hl, reg_af,
}
use realboy.Cpu.Flow.{cond_nz, cond_z, cond_nc, cond_c}
use realboy.Cpu.Ops.{
  Op, ld_a_ind_a16, ld_sp_hl, ld_ind_a16_a, ld_hl_sp_e8, ldh_ind_a8_a, ldh_ind_c_a, ldh_a_ind_a8,
  ldh_a_ind_c, pop_reg16, pop_af, push_reg16, add_a_reg, add_a_ind_hl, add_a_n8, adc_a_reg,
  adc_a_ind_hl, adc_a_n8, sub_a_reg, sub_a_ind_hl, sub_a_n8, sbc_a_reg, sbc_a_ind_hl, sbc_a_n8,
  and_a_reg, and_a_ind_hl, and_a_n8, xor_a_reg, xor_a_ind_hl, xor_a_n8, or_a_reg, or_a_ind_hl,
  or_a_n8, cp_a_reg, cp_a_ind_hl, cp_a_n8, add_sp_e8, jmp_a16, jmp_cond, jmp_hl, call_a16,
  call_cond, ret, ret_cond, reti, restart, dis_ints, ena_ints, prefix, inval,
}

abbrev pub ops_080 : List Op
ops_080 =
    (add_a_reg reg_b)
    ∷ (add_a_reg reg_c)
    ∷ (add_a_reg reg_d)
    ∷ (add_a_reg reg_e)
    ∷ (add_a_reg reg_h)
    ∷ (add_a_reg reg_l)
    ∷ add_a_ind_hl
    ∷ (add_a_reg reg_a)
    ∷ (adc_a_reg reg_b)
    ∷ (adc_a_reg reg_c)
    ∷ (adc_a_reg reg_d)
    ∷ (adc_a_reg reg_e)
    ∷ (adc_a_reg reg_h)
    ∷ (adc_a_reg reg_l)
    ∷ adc_a_ind_hl
    ∷ (adc_a_reg reg_a)
    ∷ (sub_a_reg reg_b)
    ∷ (sub_a_reg reg_c)
    ∷ (sub_a_reg reg_d)
    ∷ (sub_a_reg reg_e)
    ∷ (sub_a_reg reg_h)
    ∷ (sub_a_reg reg_l)
    ∷ sub_a_ind_hl
    ∷ (sub_a_reg reg_a)
    ∷ (sbc_a_reg reg_b)
    ∷ (sbc_a_reg reg_c)
    ∷ (sbc_a_reg reg_d)
    ∷ (sbc_a_reg reg_e)
    ∷ (sbc_a_reg reg_h)
    ∷ (sbc_a_reg reg_l)
    ∷ sbc_a_ind_hl
    ∷ (sbc_a_reg reg_a)
    ∷ (and_a_reg reg_b)
    ∷ (and_a_reg reg_c)
    ∷ (and_a_reg reg_d)
    ∷ (and_a_reg reg_e)
    ∷ (and_a_reg reg_h)
    ∷ (and_a_reg reg_l)
    ∷ and_a_ind_hl
    ∷ (and_a_reg reg_a)
    ∷ (xor_a_reg reg_b)
    ∷ (xor_a_reg reg_c)
    ∷ (xor_a_reg reg_d)
    ∷ (xor_a_reg reg_e)
    ∷ (xor_a_reg reg_h)
    ∷ (xor_a_reg reg_l)
    ∷ xor_a_ind_hl
    ∷ (xor_a_reg reg_a)
    ∷ (or_a_reg reg_b)
    ∷ (or_a_reg reg_c)
    ∷ (or_a_reg reg_d)
    ∷ (or_a_reg reg_e)
    ∷ (or_a_reg reg_h)
    ∷ (or_a_reg reg_l)
    ∷ or_a_ind_hl
    ∷ (or_a_reg reg_a)
    ∷ (cp_a_reg reg_b)
    ∷ (cp_a_reg reg_c)
    ∷ (cp_a_reg reg_d)
    ∷ (cp_a_reg reg_e)
    ∷ (cp_a_reg reg_h)
    ∷ (cp_a_reg reg_l)
    ∷ cp_a_ind_hl
    ∷ (cp_a_reg reg_a)
    ∷ []

abbrev pub ops_0c0 : List Op
ops_0c0 =
    (ret_cond cond_nz)
    ∷ (pop_reg16 reg_bc)
    ∷ (jmp_cond cond_nz)
    ∷ jmp_a16
    ∷ (call_cond cond_nz)
    ∷ (push_reg16 reg_bc)
    ∷ add_a_n8
    ∷ (restart 0x0)
    ∷ (ret_cond cond_z)
    ∷ ret
    ∷ (jmp_cond cond_z)
    ∷ prefix
    ∷ (call_cond cond_z)
    ∷ call_a16
    ∷ adc_a_n8
    ∷ (restart 0x8)
    ∷ (ret_cond cond_nc)
    ∷ (pop_reg16 reg_de)
    ∷ (jmp_cond cond_nc)
    ∷ inval
    ∷ (call_cond cond_nc)
    ∷ (push_reg16 reg_de)
    ∷ sub_a_n8
    ∷ (restart 0x10)
    ∷ (ret_cond cond_c)
    ∷ reti
    ∷ (jmp_cond cond_c)
    ∷ inval
    ∷ (call_cond cond_c)
    ∷ inval
    ∷ sbc_a_n8
    ∷ (restart 0x18)
    ∷ ldh_ind_a8_a
    ∷ (pop_reg16 reg_hl)
    ∷ ldh_ind_c_a
    ∷ inval
    ∷ inval
    ∷ (push_reg16 reg_hl)
    ∷ and_a_n8
    ∷ (restart 0x20)
    ∷ add_sp_e8
    ∷ jmp_hl
    ∷ ld_ind_a16_a
    ∷ inval
    ∷ inval
    ∷ inval
    ∷ xor_a_n8
    ∷ (restart 0x28)
    ∷ ldh_a_ind_a8
    ∷ pop_af
    ∷ ldh_a_ind_c
    ∷ dis_ints
    ∷ inval
    ∷ (push_reg16 reg_af)
    ∷ or_a_n8
    ∷ (restart 0x30)
    ∷ ld_hl_sp_e8
    ∷ ld_sp_hl
    ∷ ld_a_ind_a16
    ∷ ena_ints
    ∷ inval
    ∷ inval
    ∷ cp_a_n8
    ∷ (restart 0x38)
    ∷ []
