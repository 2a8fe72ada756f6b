-- ===== src/Cpu/Valid/Alu.antt =====
-- Well-formedness: the arithmetic and logical instructions of emu/cpu/cpu_ops.c.
use realboy.Prelude.{ℕ, ◌<◌, ◌≢◌, arith}
use realboy.Machine.{Reg8, get_reg, Reg16, reg_af, Machine}
use realboy.Machine.Hash.{Objects}
use realboy.Machine.Valid.{RegistersValid, MachineValidFrom}
use realboy.Monitor.{monitor_rd_mem}
use realboy.Monitor.Valid.{monitor_rd_mem-lt, monitor_wr_mem-Valid}
use realboy.Cpu.Bus.{reg_pc, reg_hl}
use realboy.Cpu.Valid.Bus.{regs_of, with_regs-Valid}
use realboy.Cpu.Valid.Flags.{
  or-FlagByte, zero-FlagByte, get_reg-lt, set_reg-Valid, set_reg16-Valid, with_f-Valid,
  advance_pc-Valid,
}
use realboy.Cpu.Alu.{
  op_add_a_reg, op_add_a_ind_hl, op_add_a_n8, op_adc_a_reg, op_adc_a_ind_hl, op_adc_a_n8,
  op_sub_a_reg, op_sub_a_ind_hl, op_sub_a_n8, op_sbc_a_reg, op_sbc_a_ind_hl, op_sbc_a_n8,
  op_and_a_reg, op_and_a_ind_hl, op_and_a_n8, op_xor_a_reg, op_xor_a_ind_hl, op_xor_a_n8,
  op_or_a_reg, op_or_a_ind_hl, op_or_a_n8, op_cp_a_reg, op_cp_a_ind_hl, op_cp_a_n8, op_inc_reg,
  op_inc_reg16, op_inc_ind_hl, op_dec_reg, op_dec_reg16, op_dec_ind_hl, op_add_hl_reg16,
  op_add_sp_e8, op_daa, op_cpl, op_scf, op_ccf,
}
use realboy.Cpu.Valid.Arith.{
  do_add-Valid, do_adc-Valid, adc_word-Valid, do_sub-Valid, do_sbc-Valid, sbc_word-Valid,
  do_cp-Valid, do_inc-Valid, inc_load-Valid, do_dec-Valid, dec_load-Valid, do_add16-Valid,
  add_sp-Valid,
}
use realboy.Cpu.Valid.Logic.{
  do_and-Valid, do_xor-Valid, do_or-Valid, do_daa-Valid, do_cpl-Valid, do_scf-Valid, do_ccf-Valid,
}

module _ {base : Objects} (m : Machine) (v : MachineValidFrom base m) where
  regs_ok : RegistersValid m.cpu.regs
  regs_ok = regs_of m v

  byte_at : (addr : ℕ) → monitor_rd_mem m addr < 256
  byte_at addr = monitor_rd_mem-lt m addr v

  pub op_add_a_reg-Valid : (reg : Reg8) → MachineValidFrom base (op_add_a_reg reg m).0
  unfolding op_add_a_reg
  op_add_a_reg-Valid reg = with_regs-Valid m _ v (do_add-Valid _ _ regs_ok)

  pub op_add_a_ind_hl-Valid : MachineValidFrom base (op_add_a_ind_hl m).0
  unfolding op_add_a_ind_hl
  op_add_a_ind_hl-Valid = with_regs-Valid m _ v (do_add-Valid _ _ regs_ok)

  pub op_add_a_n8-Valid : MachineValidFrom base (op_add_a_n8 m).0
  unfolding op_add_a_n8
  op_add_a_n8-Valid = with_regs-Valid m _ v (do_add-Valid _ _ (advance_pc-Valid 1 _ regs_ok))

  pub op_adc_a_reg-Valid : (reg : Reg8) → MachineValidFrom base (op_adc_a_reg reg m).0
  unfolding op_adc_a_reg
  op_adc_a_reg-Valid reg = with_regs-Valid m _ v (do_adc-Valid _ _ regs_ok)

  pub op_adc_a_ind_hl-Valid : MachineValidFrom base (op_adc_a_ind_hl m).0
  unfolding op_adc_a_ind_hl
  op_adc_a_ind_hl-Valid = with_regs-Valid m _ v (adc_word-Valid _ _ regs_ok)

  pub op_adc_a_n8-Valid : MachineValidFrom base (op_adc_a_n8 m).0
  unfolding op_adc_a_n8
  op_adc_a_n8-Valid = with_regs-Valid m _ v (advance_pc-Valid 1 _ (adc_word-Valid _ _ regs_ok))

  pub op_sub_a_reg-Valid : (reg : Reg8) → MachineValidFrom base (op_sub_a_reg reg m).0
  unfolding op_sub_a_reg
  op_sub_a_reg-Valid reg = with_regs-Valid m _ v (do_sub-Valid _ _ regs_ok)

  pub op_sub_a_ind_hl-Valid : MachineValidFrom base (op_sub_a_ind_hl m).0
  unfolding op_sub_a_ind_hl
  op_sub_a_ind_hl-Valid = with_regs-Valid m _ v (do_sub-Valid _ _ regs_ok)

  pub op_sub_a_n8-Valid : MachineValidFrom base (op_sub_a_n8 m).0
  unfolding op_sub_a_n8
  op_sub_a_n8-Valid = with_regs-Valid m _ v (do_sub-Valid _ _ (advance_pc-Valid 1 _ regs_ok))

  pub op_sbc_a_reg-Valid : (reg : Reg8) → MachineValidFrom base (op_sbc_a_reg reg m).0
  unfolding op_sbc_a_reg
  op_sbc_a_reg-Valid reg = with_regs-Valid m _ v (do_sbc-Valid _ _ regs_ok)

  pub op_sbc_a_ind_hl-Valid : MachineValidFrom base (op_sbc_a_ind_hl m).0
  unfolding op_sbc_a_ind_hl
  op_sbc_a_ind_hl-Valid = with_regs-Valid m _ v (sbc_word-Valid _ _ regs_ok)

  pub op_sbc_a_n8-Valid : MachineValidFrom base (op_sbc_a_n8 m).0
  unfolding op_sbc_a_n8
  op_sbc_a_n8-Valid = with_regs-Valid m _ v (advance_pc-Valid 1 _ (sbc_word-Valid _ _ regs_ok))

  pub op_and_a_reg-Valid : (reg : Reg8) → MachineValidFrom base (op_and_a_reg reg m).0
  unfolding op_and_a_reg
  op_and_a_reg-Valid reg = with_regs-Valid m _ v (do_and-Valid _ _ regs_ok)

  pub op_and_a_ind_hl-Valid : MachineValidFrom base (op_and_a_ind_hl m).0
  unfolding op_and_a_ind_hl
  op_and_a_ind_hl-Valid = with_regs-Valid m _ v (do_and-Valid _ _ regs_ok)

  pub op_and_a_n8-Valid : MachineValidFrom base (op_and_a_n8 m).0
  unfolding op_and_a_n8
  op_and_a_n8-Valid = with_regs-Valid m _ v (do_and-Valid _ _ (advance_pc-Valid 1 _ regs_ok))

  pub op_xor_a_reg-Valid : (reg : Reg8) → MachineValidFrom base (op_xor_a_reg reg m).0
  unfolding op_xor_a_reg
  op_xor_a_reg-Valid reg =
      with_regs-Valid m _ v (do_xor-Valid _ _ regs_ok (get_reg-lt reg _ regs_ok))

  pub op_xor_a_ind_hl-Valid : MachineValidFrom base (op_xor_a_ind_hl m).0
  unfolding op_xor_a_ind_hl
  op_xor_a_ind_hl-Valid = with_regs-Valid m _ v (do_xor-Valid _ _ regs_ok (byte_at (reg_hl m)))

  pub op_xor_a_n8-Valid : MachineValidFrom base (op_xor_a_n8 m).0
  unfolding op_xor_a_n8
  op_xor_a_n8-Valid =
      with_regs-Valid m _ v (do_xor-Valid _ _ (advance_pc-Valid 1 _ regs_ok) (byte_at (reg_pc m)))

  pub op_or_a_reg-Valid : (reg : Reg8) → MachineValidFrom base (op_or_a_reg reg m).0
  unfolding op_or_a_reg
  op_or_a_reg-Valid reg = with_regs-Valid m _ v (do_or-Valid _ _ regs_ok (get_reg-lt reg _ regs_ok))

  pub op_or_a_ind_hl-Valid : MachineValidFrom base (op_or_a_ind_hl m).0
  unfolding op_or_a_ind_hl
  op_or_a_ind_hl-Valid = with_regs-Valid m _ v (do_or-Valid _ _ regs_ok (byte_at (reg_hl m)))

  pub op_or_a_n8-Valid : MachineValidFrom base (op_or_a_n8 m).0
  unfolding op_or_a_n8
  op_or_a_n8-Valid =
      with_regs-Valid m _ v (do_or-Valid _ _ (advance_pc-Valid 1 _ regs_ok) (byte_at (reg_pc m)))

  pub op_cp_a_reg-Valid : (reg : Reg8) → MachineValidFrom base (op_cp_a_reg reg m).0
  unfolding op_cp_a_reg
  op_cp_a_reg-Valid reg = with_regs-Valid m _ v (do_cp-Valid _ _ regs_ok)

  pub op_cp_a_ind_hl-Valid : MachineValidFrom base (op_cp_a_ind_hl m).0
  unfolding op_cp_a_ind_hl
  op_cp_a_ind_hl-Valid = with_regs-Valid m _ v (do_cp-Valid _ _ regs_ok)

  pub op_cp_a_n8-Valid : MachineValidFrom base (op_cp_a_n8 m).0
  unfolding op_cp_a_n8
  op_cp_a_n8-Valid = with_regs-Valid m _ v (do_cp-Valid _ _ (advance_pc-Valid 1 _ regs_ok))

  pub op_inc_reg-Valid : (reg : Reg8) → MachineValidFrom base (op_inc_reg reg m).0
  unfolding op_inc_reg
  op_inc_reg-Valid reg =
      let p = do_inc-Valid (get_reg reg m.cpu.regs) m.cpu.regs regs_ok in
      with_regs-Valid m _ v (set_reg-Valid reg _ _ p.0 p.1)

  pub op_inc_reg16-Valid :
      (wreg : Reg16) → wreg ≢ reg_af → MachineValidFrom base (op_inc_reg16 wreg m).0
  unfolding op_inc_reg16
  op_inc_reg16-Valid wreg ne =
      with_regs-Valid m _ v (set_reg16-Valid wreg _ _ ne regs_ok (omega arith))

  pub op_inc_ind_hl-Valid : MachineValidFrom base (op_inc_ind_hl m).0
  unfolding op_inc_ind_hl
  op_inc_ind_hl-Valid =
      let p = inc_load-Valid (monitor_rd_mem m (reg_hl m)) m.cpu.regs regs_ok in
      let after = monitor_wr_mem-Valid _ _ _ (with_regs-Valid m _ v p.0) p.1 in
      with_regs-Valid _ _ after (
        with_f-Valid _ _ (regs_of _ after)
          (or-FlagByte _ _ (regs_of _ after).f_flags (zero-FlagByte _)))

  pub op_dec_reg-Valid : (reg : Reg8) → MachineValidFrom base (op_dec_reg reg m).0
  unfolding op_dec_reg
  op_dec_reg-Valid reg =
      let p = do_dec-Valid (get_reg reg m.cpu.regs) m.cpu.regs regs_ok in
      with_regs-Valid m _ v (set_reg-Valid reg _ _ p.0 p.1)

  pub op_dec_reg16-Valid :
      (wreg : Reg16) → wreg ≢ reg_af → MachineValidFrom base (op_dec_reg16 wreg m).0
  unfolding op_dec_reg16
  op_dec_reg16-Valid wreg ne =
      with_regs-Valid m _ v (set_reg16-Valid wreg _ _ ne regs_ok (omega arith))

  pub op_dec_ind_hl-Valid : MachineValidFrom base (op_dec_ind_hl m).0
  unfolding op_dec_ind_hl
  op_dec_ind_hl-Valid =
      let p = dec_load-Valid (monitor_rd_mem m (reg_hl m)) m.cpu.regs regs_ok in
      let after = monitor_wr_mem-Valid _ _ _ (with_regs-Valid m _ v p.0) p.1 in
      with_regs-Valid _ _ after (
        with_f-Valid _ _ (regs_of _ after)
          (or-FlagByte _ _ (regs_of _ after).f_flags (zero-FlagByte _)))

  pub op_add_hl_reg16-Valid : (wreg : Reg16) → MachineValidFrom base (op_add_hl_reg16 wreg m).0
  unfolding op_add_hl_reg16
  op_add_hl_reg16-Valid wreg = with_regs-Valid m _ v (do_add16-Valid _ _ regs_ok)

  pub op_add_sp_e8-Valid : MachineValidFrom base (op_add_sp_e8 m).0
  unfolding op_add_sp_e8
  op_add_sp_e8-Valid = with_regs-Valid m _ v (advance_pc-Valid 1 _ (add_sp-Valid _ _ regs_ok))

  pub op_daa-Valid : MachineValidFrom base (op_daa m).0
  unfolding op_daa
  op_daa-Valid = with_regs-Valid m _ v (do_daa-Valid _ regs_ok)

  pub op_cpl-Valid : MachineValidFrom base (op_cpl m).0
  unfolding op_cpl
  op_cpl-Valid = with_regs-Valid m _ v (do_cpl-Valid _ regs_ok)

  pub op_scf-Valid : MachineValidFrom base (op_scf m).0
  unfolding op_scf
  op_scf-Valid = with_regs-Valid m _ v (do_scf-Valid _ regs_ok)

  pub op_ccf-Valid : MachineValidFrom base (op_ccf m).0
  unfolding op_ccf
  op_ccf-Valid = with_regs-Valid m _ v (do_ccf-Valid _ regs_ok)
