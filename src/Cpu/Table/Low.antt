-- ===== src/Cpu/Table/Low.antt =====
-- `table_ops` of emu/cpu/cpu_ops.c: the opcodes 0x00 to 0x7f.
use realboy.Prelude.{List, [], ◌∷◌}
use realboy.Machine.{
  reg_a, reg_b, reg_c, reg_d, reg_e, reg_h, reg_l, reg_bc, reg_de, reg_hl, reg_sp,
}
use realboy.Cpu.Flow.{cond_nz, cond_z, cond_nc, cond_c}
use realboy.Cpu.Ops.{
  Op, nop, ld_reg_reg, ld_b_ind_hl, ld_reg_ind_hl, ld_reg16_n16, ld_ind_reg16_a, ld_ind_hl_reg,
  ld_reg_n8, ld_a_ind_reg16, ldi_ind_hl_a, ldi_a_ind_hl, ldd_ind_hl_a, ldd_a_ind_hl, ld_ind_a16_sp,
  ld_ind_hl_n8, inc_reg, inc_reg16, inc_ind_hl, dec_reg, dec_reg16, dec_ind_hl, add_hl_reg16, daa,
  cpl, scf, ccf, rlca, rla, rrca, rra, jr_e8, jr_cond, halt, stop_n8,
}

abbrev pub ops_000 : List Op
ops_000 =
    nop
    ∷ (ld_reg16_n16 reg_bc)
    ∷ (ld_ind_reg16_a reg_bc)
    ∷ (inc_reg16 reg_bc)
    ∷ (inc_reg reg_b)
    ∷ (dec_reg reg_b)
    ∷ (ld_reg_n8 reg_b)
    ∷ rlca
    ∷ ld_ind_a16_sp
    ∷ (add_hl_reg16 reg_bc)
    ∷ (ld_a_ind_reg16 reg_bc)
    ∷ (dec_reg16 reg_bc)
    ∷ (inc_reg reg_c)
    ∷ (dec_reg reg_c)
    ∷ (ld_reg_n8 reg_c)
    ∷ rrca
    ∷ stop_n8
    ∷ (ld_reg16_n16 reg_de)
    ∷ (ld_ind_reg16_a reg_de)
    ∷ (inc_reg16 reg_de)
    ∷ (inc_reg reg_d)
    ∷ (dec_reg reg_d)
    ∷ (ld_reg_n8 reg_d)
    ∷ rla
    ∷ jr_e8
    ∷ (add_hl_reg16 reg_de)
    ∷ (ld_a_ind_reg16 reg_de)
    ∷ (dec_reg16 reg_de)
    ∷ (inc_reg reg_e)
    ∷ (dec_reg reg_e)
    ∷ (ld_reg_n8 reg_e)
    ∷ rra
    ∷ (jr_cond cond_nz)
    ∷ (ld_reg16_n16 reg_hl)
    ∷ ldi_ind_hl_a
    ∷ (inc_reg16 reg_hl)
    ∷ (inc_reg reg_h)
    ∷ (dec_reg reg_h)
    ∷ (ld_reg_n8 reg_h)
    ∷ daa
    ∷ (jr_cond cond_z)
    ∷ (add_hl_reg16 reg_hl)
    ∷ ldi_a_ind_hl
    ∷ (dec_reg16 reg_hl)
    ∷ (inc_reg reg_l)
    ∷ (dec_reg reg_l)
    ∷ (ld_reg_n8 reg_l)
    ∷ cpl
    ∷ (jr_cond cond_nc)
    ∷ (ld_reg16_n16 reg_sp)
    ∷ ldd_ind_hl_a
    ∷ (inc_reg16 reg_sp)
    ∷ inc_ind_hl
    ∷ dec_ind_hl
    ∷ ld_ind_hl_n8
    ∷ scf
    ∷ (jr_cond cond_c)
    ∷ (add_hl_reg16 reg_sp)
    ∷ ldd_a_ind_hl
    ∷ (dec_reg16 reg_sp)
    ∷ (inc_reg reg_a)
    ∷ (dec_reg reg_a)
    ∷ (ld_reg_n8 reg_a)
    ∷ ccf
    ∷ []

abbrev pub ops_040 : List Op
ops_040 =
    (ld_reg_reg reg_b reg_b)
    ∷ (ld_reg_reg reg_b reg_c)
    ∷ (ld_reg_reg reg_b reg_d)
    ∷ (ld_reg_reg reg_b reg_e)
    ∷ (ld_reg_reg reg_b reg_h)
    ∷ (ld_reg_reg reg_b reg_l)
    ∷ ld_b_ind_hl
    ∷ (ld_reg_reg reg_b reg_a)
    ∷ (ld_reg_reg reg_c reg_b)
    ∷ (ld_reg_reg reg_c reg_c)
    ∷ (ld_reg_reg reg_c reg_d)
    ∷ (ld_reg_reg reg_c reg_e)
    ∷ (ld_reg_reg reg_c reg_h)
    ∷ (ld_reg_reg reg_c reg_l)
    ∷ (ld_reg_ind_hl reg_c)
    ∷ (ld_reg_reg reg_c reg_a)
    ∷ (ld_reg_reg reg_d reg_b)
    ∷ (ld_reg_reg reg_d reg_c)
    ∷ (ld_reg_reg reg_d reg_d)
    ∷ (ld_reg_reg reg_d reg_e)
    ∷ (ld_reg_reg reg_d reg_h)
    ∷ (ld_reg_reg reg_d reg_l)
    ∷ (ld_reg_ind_hl reg_d)
    ∷ (ld_reg_reg reg_d reg_a)
    ∷ (ld_reg_reg reg_e reg_b)
    ∷ (ld_reg_reg reg_e reg_c)
    ∷ (ld_reg_reg reg_e reg_d)
    ∷ (ld_reg_reg reg_e reg_e)
    ∷ (ld_reg_reg reg_e reg_h)
    ∷ (ld_reg_reg reg_e reg_l)
    ∷ (ld_reg_ind_hl reg_e)
    ∷ (ld_reg_reg reg_e reg_a)
    ∷ (ld_reg_reg reg_h reg_b)
    ∷ (ld_reg_reg reg_h reg_c)
    ∷ (ld_reg_reg reg_h reg_d)
    ∷ (ld_reg_reg reg_h reg_e)
    ∷ (ld_reg_reg reg_h reg_h)
    ∷ (ld_reg_reg reg_h reg_l)
    ∷ (ld_reg_ind_hl reg_h)
    ∷ (ld_reg_reg reg_h reg_a)
    ∷ (ld_reg_reg reg_l reg_b)
    ∷ (ld_reg_reg reg_l reg_c)
    ∷ (ld_reg_reg reg_l reg_d)
    ∷ (ld_reg_reg reg_l reg_e)
    ∷ (ld_reg_reg reg_l reg_h)
    ∷ (ld_reg_reg reg_l reg_l)
    ∷ (ld_reg_ind_hl reg_l)
    ∷ (ld_reg_reg reg_l reg_a)
    ∷ (ld_ind_hl_reg reg_b)
    ∷ (ld_ind_hl_reg reg_c)
    ∷ (ld_ind_hl_reg reg_d)
    ∷ (ld_ind_hl_reg reg_e)
    ∷ (ld_ind_hl_reg reg_h)
    ∷ (ld_ind_hl_reg reg_l)
    ∷ halt
    ∷ (ld_ind_hl_reg reg_a)
    ∷ (ld_reg_reg reg_a reg_b)
    ∷ (ld_reg_reg reg_a reg_c)
    ∷ (ld_reg_reg reg_a reg_d)
    ∷ (ld_reg_reg reg_a reg_e)
    ∷ (ld_reg_reg reg_a reg_h)
    ∷ (ld_reg_reg reg_a reg_l)
    ∷ (ld_a_ind_reg16 reg_hl)
    ∷ (ld_reg_reg reg_a reg_a)
    ∷ []
