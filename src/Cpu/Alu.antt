-- ===== src/Cpu/Alu.antt =====
-- The arithmetic and logical instructions of emu/cpu/cpu_ops.c. The functions on (HL) and on an
-- immediate byte load it into an int8_t for ADD and SUB, and do not use the macros for ADC and SBC.
use realboy.Prelude.{◌+◌, ◌==◌, int8, u16, sub16}
use realboy.Machine.{Reg8, get_reg, set_reg, Reg16, get_reg16, set_reg16, Machine}
use realboy.Monitor.{monitor_rd_mem, monitor_wr_mem}
use realboy.Cpu.Flags.{set_flag, bool_to_zero_flag}
use realboy.Cpu.Arith.{
  do_add, do_adc, adc_word, do_sub, do_sbc, sbc_word, do_cp, do_inc, inc_load, do_dec, dec_load,
  do_add16, add_sp,
}
use realboy.Cpu.Logic.{do_and, do_xor, do_or, do_daa, do_cpl, do_scf, do_ccf}
use realboy.Cpu.Bus.{Executed, reg_pc, reg_hl, advance_pc, on_regs}

unfoldable pub op_add_a_reg : Reg8 → Machine → Executed
op_add_a_reg reg m = (on_regs (λ r. do_add (get_reg reg r) 0 r) m, 1)

unfoldable pub op_add_a_ind_hl : Machine → Executed
op_add_a_ind_hl m = let load = monitor_rd_mem m (reg_hl m) in (on_regs (do_add (int8 load) 0) m, 2)

unfoldable pub op_add_a_n8 : Machine → Executed
op_add_a_n8 m =
    let load = monitor_rd_mem m (reg_pc m) in
    (on_regs (λ r. do_add (int8 load) 0 (advance_pc 1 r)) m, 2)

unfoldable pub op_adc_a_reg : Reg8 → Machine → Executed
op_adc_a_reg reg m = (on_regs (λ r. do_adc (get_reg reg r) r) m, 1)

unfoldable pub op_adc_a_ind_hl : Machine → Executed
op_adc_a_ind_hl m = let load = monitor_rd_mem m (reg_hl m) in (on_regs (adc_word load) m, 2)

unfoldable pub op_adc_a_n8 : Machine → Executed
op_adc_a_n8 m =
    let load = monitor_rd_mem m (reg_pc m) in (on_regs (λ r. advance_pc 1 (adc_word load r)) m, 2)

-- DO_SUB ends in `return 1;`, which all of the SUB functions run.
unfoldable pub op_sub_a_reg : Reg8 → Machine → Executed
op_sub_a_reg reg m = (on_regs (λ r. do_sub (get_reg reg r) 0 r) m, 1)

unfoldable pub op_sub_a_ind_hl : Machine → Executed
op_sub_a_ind_hl m = let load = monitor_rd_mem m (reg_hl m) in (on_regs (do_sub (int8 load) 0) m, 1)

unfoldable pub op_sub_a_n8 : Machine → Executed
op_sub_a_n8 m =
    let load = monitor_rd_mem m (reg_pc m) in
    (on_regs (λ r. do_sub (int8 load) 0 (advance_pc 1 r)) m, 1)

unfoldable pub op_sbc_a_reg : Reg8 → Machine → Executed
op_sbc_a_reg reg m = (on_regs (λ r. do_sbc (get_reg reg r) r) m, 1)

unfoldable pub op_sbc_a_ind_hl : Machine → Executed
op_sbc_a_ind_hl m = let load = monitor_rd_mem m (reg_hl m) in (on_regs (sbc_word load) m, 2)

unfoldable pub op_sbc_a_n8 : Machine → Executed
op_sbc_a_n8 m =
    let load = monitor_rd_mem m (reg_pc m) in (on_regs (λ r. advance_pc 1 (sbc_word load r)) m, 2)

unfoldable pub op_and_a_reg : Reg8 → Machine → Executed
op_and_a_reg reg m = (on_regs (λ r. do_and (get_reg reg r) r) m, 1)

unfoldable pub op_and_a_ind_hl : Machine → Executed
op_and_a_ind_hl m = let load = monitor_rd_mem m (reg_hl m) in (on_regs (do_and load) m, 2)

unfoldable pub op_and_a_n8 : Machine → Executed
op_and_a_n8 m =
    let load = monitor_rd_mem m (reg_pc m) in (on_regs (λ r. do_and load (advance_pc 1 r)) m, 2)

unfoldable pub op_xor_a_reg : Reg8 → Machine → Executed
op_xor_a_reg reg m = (on_regs (λ r. do_xor (get_reg reg r) r) m, 1)

unfoldable pub op_xor_a_ind_hl : Machine → Executed
op_xor_a_ind_hl m = let load = monitor_rd_mem m (reg_hl m) in (on_regs (do_xor load) m, 2)

unfoldable pub op_xor_a_n8 : Machine → Executed
op_xor_a_n8 m =
    let load = monitor_rd_mem m (reg_pc m) in (on_regs (λ r. do_xor load (advance_pc 1 r)) m, 2)

unfoldable pub op_or_a_reg : Reg8 → Machine → Executed
op_or_a_reg reg m = (on_regs (λ r. do_or (get_reg reg r) r) m, 1)

unfoldable pub op_or_a_ind_hl : Machine → Executed
op_or_a_ind_hl m = let load = monitor_rd_mem m (reg_hl m) in (on_regs (do_or load) m, 2)

unfoldable pub op_or_a_n8 : Machine → Executed
op_or_a_n8 m =
    let load = monitor_rd_mem m (reg_pc m) in (on_regs (λ r. do_or load (advance_pc 1 r)) m, 2)

unfoldable pub op_cp_a_reg : Reg8 → Machine → Executed
op_cp_a_reg reg m = (on_regs (λ r. do_cp (get_reg reg r) r) m, 1)

unfoldable pub op_cp_a_ind_hl : Machine → Executed
op_cp_a_ind_hl m = let load = monitor_rd_mem m (reg_hl m) in (on_regs (do_cp load) m, 2)

unfoldable pub op_cp_a_n8 : Machine → Executed
op_cp_a_n8 m =
    let load = monitor_rd_mem m (reg_pc m) in (on_regs (λ r. do_cp load (advance_pc 1 r)) m, 2)

-- OP_INC_REG and OP_DEC_REG
unfoldable pub op_inc_reg : Reg8 → Machine → Executed
op_inc_reg reg m = (on_regs (λ r. let (v, r1) = do_inc (get_reg reg r) r in set_reg reg v r1) m, 1)

unfoldable pub op_dec_reg : Reg8 → Machine → Executed
op_dec_reg reg m = (on_regs (λ r. let (v, r1) = do_dec (get_reg reg r) r in set_reg reg v r1) m, 1)

-- op_inc_bc() and its neighbours
unfoldable pub op_inc_reg16 : Reg16 → Machine → Executed
op_inc_reg16 reg m = (on_regs (λ r. set_reg16 reg (u16 (get_reg16 reg r + 1)) r) m, 2)

unfoldable pub op_dec_reg16 : Reg16 → Machine → Executed
op_dec_reg16 reg m = (on_regs (λ r. set_reg16 reg (sub16 (get_reg16 reg r) 1) r) m, 2)

-- The zero flag is set after the store.
unfoldable pub op_inc_ind_hl : Machine → Executed
op_inc_ind_hl m =
    let (load, r1) = inc_load (monitor_rd_mem m (reg_hl m)) m.cpu.regs in
    let m1 = on_regs (λ _. r1) m in
    let m2 = monitor_wr_mem m1 (reg_hl m1) load in
    (on_regs (set_flag (bool_to_zero_flag (load == 0))) m2, 3)

unfoldable pub op_dec_ind_hl : Machine → Executed
op_dec_ind_hl m =
    let (load, r1) = dec_load (monitor_rd_mem m (reg_hl m)) m.cpu.regs in
    let m1 = on_regs (λ _. r1) m in
    let m2 = monitor_wr_mem m1 (reg_hl m1) load in
    (on_regs (set_flag (bool_to_zero_flag (load == 0))) m2, 3)

-- OP_ADD_REG16
unfoldable pub op_add_hl_reg16 : Reg16 → Machine → Executed
op_add_hl_reg16 reg m = (on_regs (λ r. do_add16 (get_reg16 reg r) r) m, 2)

unfoldable pub op_add_sp_e8 : Machine → Executed
op_add_sp_e8 m =
    let load = monitor_rd_mem m (reg_pc m) in (on_regs (λ r. advance_pc 1 (add_sp load r)) m, 4)

unfoldable pub op_daa : Machine → Executed
op_daa m = (on_regs do_daa m, 1)

unfoldable pub op_cpl : Machine → Executed
op_cpl m = (on_regs do_cpl m, 1)

unfoldable pub op_scf : Machine → Executed
op_scf m = (on_regs do_scf m, 1)

unfoldable pub op_ccf : Machine → Executed
op_ccf m = (on_regs do_ccf m, 1)
