-- ===== src/Cpu/Table/Shifts.antt =====
-- `table_ops` of emu/cpu/cpu_ops.c: the prefixed opcodes 0x00 to 0x7f.
use realboy.Prelude.{List, [], ◌∷◌}
use realboy.Machine.{reg_a, reg_b, reg_c, reg_d, reg_e, reg_h, reg_l}
use realboy.Cpu.Ops.{
  Op, rlc_reg, rlc_ind_hl, rl_reg, rl_ind_hl, rrc_reg, rrc_ind_hl, rr_reg, rr_ind_hl, sla_reg,
  sla_ind_hl, sra_reg, sra_ind_hl, srl_reg, srl_ind_hl, swp_reg, swp_ind_hl, bit_reg, bit_ind_hl,
}

abbrev pub ops_100 : List Op
ops_100 =
    (rlc_reg reg_b)
    ∷ (rlc_reg reg_c)
    ∷ (rlc_reg reg_d)
    ∷ (rlc_reg reg_e)
    ∷ (rlc_reg reg_h)
    ∷ (rlc_reg reg_l)
    ∷ rlc_ind_hl
    ∷ (rlc_reg reg_a)
    ∷ (rrc_reg reg_b)
    ∷ (rrc_reg reg_c)
    ∷ (rrc_reg reg_d)
    ∷ (rrc_reg reg_e)
    ∷ (rrc_reg reg_h)
    ∷ (rrc_reg reg_l)
    ∷ rrc_ind_hl
    ∷ (rrc_reg reg_a)
    ∷ (rl_reg reg_b)
    ∷ (rl_reg reg_c)
    ∷ (rl_reg reg_d)
    ∷ (rl_reg reg_e)
    ∷ (rl_reg reg_h)
    ∷ (rl_reg reg_l)
    ∷ rl_ind_hl
    ∷ (rl_reg reg_a)
    ∷ (rr_reg reg_b)
    ∷ (rr_reg reg_c)
    ∷ (rr_reg reg_d)
    ∷ (rr_reg reg_e)
    ∷ (rr_reg reg_h)
    ∷ (rr_reg reg_l)
    ∷ rr_ind_hl
    ∷ (rr_reg reg_a)
    ∷ (sla_reg reg_b)
    ∷ (sla_reg reg_c)
    ∷ (sla_reg reg_d)
    ∷ (sla_reg reg_e)
    ∷ (sla_reg reg_h)
    ∷ (sla_reg reg_l)
    ∷ sla_ind_hl
    ∷ (sla_reg reg_a)
    ∷ (sra_reg reg_b)
    ∷ (sra_reg reg_c)
    ∷ (sra_reg reg_d)
    ∷ (sra_reg reg_e)
    ∷ (sra_reg reg_h)
    ∷ (sra_reg reg_l)
    ∷ sra_ind_hl
    ∷ (sra_reg reg_a)
    ∷ (swp_reg reg_b)
    ∷ (swp_reg reg_c)
    ∷ (swp_reg reg_d)
    ∷ (swp_reg reg_e)
    ∷ (swp_reg reg_h)
    ∷ (swp_reg reg_l)
    ∷ swp_ind_hl
    ∷ (swp_reg reg_a)
    ∷ (srl_reg reg_b)
    ∷ (srl_reg reg_c)
    ∷ (srl_reg reg_d)
    ∷ (srl_reg reg_e)
    ∷ (srl_reg reg_h)
    ∷ (srl_reg reg_l)
    ∷ srl_ind_hl
    ∷ (srl_reg reg_a)
    ∷ []

abbrev pub ops_140 : List Op
ops_140 =
    (bit_reg 0 reg_b)
    ∷ (bit_reg 0 reg_c)
    ∷ (bit_reg 0 reg_d)
    ∷ (bit_reg 0 reg_e)
    ∷ (bit_reg 0 reg_h)
    ∷ (bit_reg 0 reg_l)
    ∷ (bit_ind_hl 0)
    ∷ (bit_reg 0 reg_a)
    ∷ (bit_reg 1 reg_b)
    ∷ (bit_reg 1 reg_c)
    ∷ (bit_reg 1 reg_d)
    ∷ (bit_reg 1 reg_e)
    ∷ (bit_reg 1 reg_h)
    ∷ (bit_reg 1 reg_l)
    ∷ (bit_ind_hl 1)
    ∷ (bit_reg 1 reg_a)
    ∷ (bit_reg 2 reg_b)
    ∷ (bit_reg 2 reg_c)
    ∷ (bit_reg 2 reg_d)
    ∷ (bit_reg 2 reg_e)
    ∷ (bit_reg 2 reg_h)
    ∷ (bit_reg 2 reg_l)
    ∷ (bit_ind_hl 2)
    ∷ (bit_reg 2 reg_a)
    ∷ (bit_reg 3 reg_b)
    ∷ (bit_reg 3 reg_c)
    ∷ (bit_reg 3 reg_d)
    ∷ (bit_reg 3 reg_e)
    ∷ (bit_reg 3 reg_h)
    ∷ (bit_reg 3 reg_l)
    ∷ (bit_ind_hl 3)
    ∷ (bit_reg 3 reg_a)
    ∷ (bit_reg 4 reg_b)
    ∷ (bit_reg 4 reg_c)
    ∷ (bit_reg 4 reg_d)
    ∷ (bit_reg 4 reg_e)
    ∷ (bit_reg 4 reg_h)
    ∷ (bit_reg 4 reg_l)
    ∷ (bit_ind_hl 4)
    ∷ (bit_reg 4 reg_a)
    ∷ (bit_reg 5 reg_b)
    ∷ (bit_reg 5 reg_c)
    ∷ (bit_reg 5 reg_d)
    ∷ (bit_reg 5 reg_e)
    ∷ (bit_reg 5 reg_h)
    ∷ (bit_reg 5 reg_l)
    ∷ (bit_ind_hl 5)
    ∷ (bit_reg 5 reg_a)
    ∷ (bit_reg 6 reg_b)
    ∷ (bit_reg 6 reg_c)
    ∷ (bit_reg 6 reg_d)
    ∷ (bit_reg 6 reg_e)
    ∷ (bit_reg 6 reg_h)
    ∷ (bit_reg 6 reg_l)
    ∷ (bit_ind_hl 6)
    ∷ (bit_reg 6 reg_a)
    ∷ (bit_reg 7 reg_b)
    ∷ (bit_reg 7 reg_c)
    ∷ (bit_reg 7 reg_d)
    ∷ (bit_reg 7 reg_e)
    ∷ (bit_reg 7 reg_h)
    ∷ (bit_reg 7 reg_l)
    ∷ (bit_ind_hl 7)
    ∷ (bit_reg 7 reg_a)
    ∷ []
