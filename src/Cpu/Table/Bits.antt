-- ===== src/Cpu/Table/Bits.antt =====
-- `table_ops` of emu/cpu/cpu_ops.c: the prefixed opcodes 0x80 to 0xff.
use realboy.Prelude.{List, [], ◌∷◌}
use realboy.Machine.{reg_a, reg_b, reg_c, reg_d, reg_e, reg_h, reg_l}
use realboy.Cpu.Ops.{Op, rst_reg, rst_ind_hl, set_reg, set_ind_hl}

abbrev pub ops_180 : List Op
ops_180 =
    (rst_reg 0 reg_b)
    ∷ (rst_reg 0 reg_c)
    ∷ (rst_reg 0 reg_d)
    ∷ (rst_reg 0 reg_e)
    ∷ (rst_reg 0 reg_h)
    ∷ (rst_reg 0 reg_l)
    ∷ (rst_ind_hl 0)
    ∷ (rst_reg 0 reg_a)
    ∷ (rst_reg 1 reg_b)
    ∷ (rst_reg 1 reg_c)
    ∷ (rst_reg 1 reg_d)
    ∷ (rst_reg 1 reg_e)
    ∷ (rst_reg 1 reg_h)
    ∷ (rst_reg 1 reg_l)
    ∷ (rst_ind_hl 1)
    ∷ (rst_reg 1 reg_a)
    ∷ (rst_reg 2 reg_b)
    ∷ (rst_reg 2 reg_c)
    ∷ (rst_reg 2 reg_d)
    ∷ (rst_reg 2 reg_e)
    ∷ (rst_reg 2 reg_h)
    ∷ (rst_reg 2 reg_l)
    ∷ (rst_ind_hl 2)
    ∷ (rst_reg 2 reg_a)
    ∷ (rst_reg 3 reg_b)
    ∷ (rst_reg 3 reg_c)
    ∷ (rst_reg 3 reg_d)
    ∷ (rst_reg 3 reg_e)
    ∷ (rst_reg 3 reg_h)
    ∷ (rst_reg 3 reg_l)
    ∷ (rst_ind_hl 3)
    ∷ (rst_reg 3 reg_a)
    ∷ (rst_reg 4 reg_b)
    ∷ (rst_reg 4 reg_c)
    ∷ (rst_reg 4 reg_d)
    ∷ (rst_reg 4 reg_e)
    ∷ (rst_reg 4 reg_h)
    ∷ (rst_reg 4 reg_l)
    ∷ (rst_ind_hl 4)
    ∷ (rst_reg 4 reg_a)
    ∷ (rst_reg 5 reg_b)
    ∷ (rst_reg 5 reg_c)
    ∷ (rst_reg 5 reg_d)
    ∷ (rst_reg 5 reg_e)
    ∷ (rst_reg 5 reg_h)
    ∷ (rst_reg 5 reg_l)
    ∷ (rst_ind_hl 5)
    ∷ (rst_reg 5 reg_a)
    ∷ (rst_reg 6 reg_b)
    ∷ (rst_reg 6 reg_c)
    ∷ (rst_reg 6 reg_d)
    ∷ (rst_reg 6 reg_e)
    ∷ (rst_reg 6 reg_h)
    ∷ (rst_reg 6 reg_l)
    ∷ (rst_ind_hl 6)
    ∷ (rst_reg 6 reg_a)
    ∷ (rst_reg 7 reg_b)
    ∷ (rst_reg 7 reg_c)
    ∷ (rst_reg 7 reg_d)
    ∷ (rst_reg 7 reg_e)
    ∷ (rst_reg 7 reg_h)
    ∷ (rst_reg 7 reg_l)
    ∷ (rst_ind_hl 7)
    ∷ (rst_reg 7 reg_a)
    ∷ []

abbrev pub ops_1c0 : List Op
ops_1c0 =
    (set_reg 0 reg_b)
    ∷ (set_reg 0 reg_c)
    ∷ (set_reg 0 reg_d)
    ∷ (set_reg 0 reg_e)
    ∷ (set_reg 0 reg_h)
    ∷ (set_reg 0 reg_l)
    ∷ (set_ind_hl 0)
    ∷ (set_reg 0 reg_a)
    ∷ (set_reg 1 reg_b)
    ∷ (set_reg 1 reg_c)
    ∷ (set_reg 1 reg_d)
    ∷ (set_reg 1 reg_e)
    ∷ (set_reg 1 reg_h)
    ∷ (set_reg 1 reg_l)
    ∷ (set_ind_hl 1)
    ∷ (set_reg 1 reg_a)
    ∷ (set_reg 2 reg_b)
    ∷ (set_reg 2 reg_c)
    ∷ (set_reg 2 reg_d)
    ∷ (set_reg 2 reg_e)
    ∷ (set_reg 2 reg_h)
    ∷ (set_reg 2 reg_l)
    ∷ (set_ind_hl 2)
    ∷ (set_reg 2 reg_a)
    ∷ (set_reg 3 reg_b)
    ∷ (set_reg 3 reg_c)
    ∷ (set_reg 3 reg_d)
    ∷ (set_reg 3 reg_e)
    ∷ (set_reg 3 reg_h)
    ∷ (set_reg 3 reg_l)
    ∷ (set_ind_hl 3)
    ∷ (set_reg 3 reg_a)
    ∷ (set_reg 4 reg_b)
    ∷ (set_reg 4 reg_c)
    ∷ (set_reg 4 reg_d)
    ∷ (set_reg 4 reg_e)
    ∷ (set_reg 4 reg_h)
    ∷ (set_reg 4 reg_l)
    ∷ (set_ind_hl 4)
    ∷ (set_reg 4 reg_a)
    ∷ (set_reg 5 reg_b)
    ∷ (set_reg 5 reg_c)
    ∷ (set_reg 5 reg_d)
    ∷ (set_reg 5 reg_e)
    ∷ (set_reg 5 reg_h)
    ∷ (set_reg 5 reg_l)
    ∷ (set_ind_hl 5)
    ∷ (set_reg 5 reg_a)
    ∷ (set_reg 6 reg_b)
    ∷ (set_reg 6 reg_c)
    ∷ (set_reg 6 reg_d)
    ∷ (set_reg 6 reg_e)
    ∷ (set_reg 6 reg_h)
    ∷ (set_reg 6 reg_l)
    ∷ (set_ind_hl 6)
    ∷ (set_reg 6 reg_a)
    ∷ (set_reg 7 reg_b)
    ∷ (set_reg 7 reg_c)
    ∷ (set_reg 7 reg_d)
    ∷ (set_reg 7 reg_e)
    ∷ (set_reg 7 reg_h)
    ∷ (set_reg 7 reg_l)
    ∷ (set_ind_hl 7)
    ∷ (set_reg 7 reg_a)
    ∷ []
