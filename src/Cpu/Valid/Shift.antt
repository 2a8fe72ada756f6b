-- ===== src/Cpu/Valid/Shift.antt =====
-- Well-formedness: the rotate and shift instructions of emu/cpu/cpu_ops.c.
use realboy.Prelude.{ℕ, ◌<◌}
use realboy.Machine.{Reg8, reg_a, get_reg, Machine}
use realboy.Machine.Hash.{Objects}
use realboy.Machine.Valid.{RegistersValid, MachineValidFrom}
use realboy.Monitor.{monitor_rd_mem}
use realboy.Monitor.Valid.{monitor_rd_mem-lt, monitor_wr_mem-Valid}
use realboy.Cpu.Bus.{reg_hl}
use realboy.Cpu.Valid.Bus.{regs_of, with_regs-Valid}
use realboy.Cpu.Valid.Flags.{and-FlagByte, get_reg-lt, set_reg-Valid, with_f-Valid}
use realboy.Cpu.Shift.{
  op_rlc_reg, op_rlc_ind_hl, op_rl_reg, op_rl_ind_hl, op_rrc_reg, op_rrc_ind_hl, op_rr_reg,
  op_rr_ind_hl, op_sla_reg, op_sla_ind_hl, op_sra_reg, op_sra_ind_hl, op_srl_reg, op_srl_ind_hl,
  op_swp_reg, op_swp_ind_hl, op_rlca, op_rla, op_rrca, op_rra,
}
use realboy.Cpu.Valid.Rotate.{
  do_rlc-Valid, do_rl-Valid, do_rrc-Valid, do_rr-Valid, do_sla-Valid, do_sra-Valid, do_srl-Valid,
  do_swp-Valid,
}

module _ {base : Objects} (m : Machine) (v : MachineValidFrom base m) where
  regs_ok : RegistersValid m.cpu.regs
  regs_ok = regs_of m v

  byte_at : (addr : ℕ) → monitor_rd_mem m addr < 256
  byte_at addr = monitor_rd_mem-lt m addr v

  pub op_rlc_reg-Valid : (reg : Reg8) → MachineValidFrom base (op_rlc_reg reg m).0
  unfolding op_rlc_reg
  op_rlc_reg-Valid reg =
      let p = do_rlc-Valid (get_reg reg m.cpu.regs) m.cpu.regs regs_ok (get_reg-lt reg _ regs_ok) in
      with_regs-Valid m _ v (set_reg-Valid reg _ _ p.0 p.1)

  pub op_rlc_ind_hl-Valid : MachineValidFrom base (op_rlc_ind_hl m).0
  unfolding op_rlc_ind_hl
  op_rlc_ind_hl-Valid =
      let p = do_rlc-Valid (monitor_rd_mem m (reg_hl m)) m.cpu.regs regs_ok (byte_at (reg_hl m)) in
      monitor_wr_mem-Valid _ _ _ (with_regs-Valid m _ v p.0) p.1

  pub op_rl_reg-Valid : (reg : Reg8) → MachineValidFrom base (op_rl_reg reg m).0
  unfolding op_rl_reg
  op_rl_reg-Valid reg =
      let p = do_rl-Valid (get_reg reg m.cpu.regs) m.cpu.regs regs_ok (get_reg-lt reg _ regs_ok) in
      with_regs-Valid m _ v (set_reg-Valid reg _ _ p.0 p.1)

  pub op_rl_ind_hl-Valid : MachineValidFrom base (op_rl_ind_hl m).0
  unfolding op_rl_ind_hl
  op_rl_ind_hl-Valid =
      let p = do_rl-Valid (monitor_rd_mem m (reg_hl m)) m.cpu.regs regs_ok (byte_at (reg_hl m)) in
      monitor_wr_mem-Valid _ _ _ (with_regs-Valid m _ v p.0) p.1

  pub op_rrc_reg-Valid : (reg : Reg8) → MachineValidFrom base (op_rrc_reg reg m).0
  unfolding op_rrc_reg
  op_rrc_reg-Valid reg =
      let p = do_rrc-Valid (get_reg reg m.cpu.regs) m.cpu.regs regs_ok (get_reg-lt reg _ regs_ok) in
      with_regs-Valid m _ v (set_reg-Valid reg _ _ p.0 p.1)

  pub op_rrc_ind_hl-Valid : MachineValidFrom base (op_rrc_ind_hl m).0
  unfolding op_rrc_ind_hl
  op_rrc_ind_hl-Valid =
      let p = do_rrc-Valid (monitor_rd_mem m (reg_hl m)) m.cpu.regs regs_ok (byte_at (reg_hl m)) in
      monitor_wr_mem-Valid _ _ _ (with_regs-Valid m _ v p.0) p.1

  pub op_rr_reg-Valid : (reg : Reg8) → MachineValidFrom base (op_rr_reg reg m).0
  unfolding op_rr_reg
  op_rr_reg-Valid reg =
      let p = do_rr-Valid (get_reg reg m.cpu.regs) m.cpu.regs regs_ok (get_reg-lt reg _ regs_ok) in
      with_regs-Valid m _ v (set_reg-Valid reg _ _ p.0 p.1)

  pub op_rr_ind_hl-Valid : MachineValidFrom base (op_rr_ind_hl m).0
  unfolding op_rr_ind_hl
  op_rr_ind_hl-Valid =
      let p = do_rr-Valid (monitor_rd_mem m (reg_hl m)) m.cpu.regs regs_ok (byte_at (reg_hl m)) in
      monitor_wr_mem-Valid _ _ _ (with_regs-Valid m _ v p.0) p.1

  pub op_sla_reg-Valid : (reg : Reg8) → MachineValidFrom base (op_sla_reg reg m).0
  unfolding op_sla_reg
  op_sla_reg-Valid reg =
      let p = do_sla-Valid (get_reg reg m.cpu.regs) m.cpu.regs regs_ok (get_reg-lt reg _ regs_ok) in
      with_regs-Valid m _ v (set_reg-Valid reg _ _ p.0 p.1)

  pub op_sla_ind_hl-Valid : MachineValidFrom base (op_sla_ind_hl m).0
  unfolding op_sla_ind_hl
  op_sla_ind_hl-Valid =
      let p = do_sla-Valid (monitor_rd_mem m (reg_hl m)) m.cpu.regs regs_ok (byte_at (reg_hl m)) in
      monitor_wr_mem-Valid _ _ _ (with_regs-Valid m _ v p.0) p.1

  pub op_sra_reg-Valid : (reg : Reg8) → MachineValidFrom base (op_sra_reg reg m).0
  unfolding op_sra_reg
  op_sra_reg-Valid reg =
      let p = do_sra-Valid (get_reg reg m.cpu.regs) m.cpu.regs regs_ok (get_reg-lt reg _ regs_ok) in
      with_regs-Valid m _ v (set_reg-Valid reg _ _ p.0 p.1)

  pub op_sra_ind_hl-Valid : MachineValidFrom base (op_sra_ind_hl m).0
  unfolding op_sra_ind_hl
  op_sra_ind_hl-Valid =
      let p = do_sra-Valid (monitor_rd_mem m (reg_hl m)) m.cpu.regs regs_ok (byte_at (reg_hl m)) in
      monitor_wr_mem-Valid _ _ _ (with_regs-Valid m _ v p.0) p.1

  pub op_srl_reg-Valid : (reg : Reg8) → MachineValidFrom base (op_srl_reg reg m).0
  unfolding op_srl_reg
  op_srl_reg-Valid reg =
      let p = do_srl-Valid (get_reg reg m.cpu.regs) m.cpu.regs regs_ok (get_reg-lt reg _ regs_ok) in
      with_regs-Valid m _ v (set_reg-Valid reg _ _ p.0 p.1)

  pub op_srl_ind_hl-Valid : MachineValidFrom base (op_srl_ind_hl m).0
  unfolding op_srl_ind_hl
  op_srl_ind_hl-Valid =
      let p = do_srl-Valid (monitor_rd_mem m (reg_hl m)) m.cpu.regs regs_ok (byte_at (reg_hl m)) in
      monitor_wr_mem-Valid _ _ _ (with_regs-Valid m _ v p.0) p.1

  pub op_swp_reg-Valid : (reg : Reg8) → MachineValidFrom base (op_swp_reg reg m).0
  unfolding op_swp_reg
  op_swp_reg-Valid reg =
      let p = do_swp-Valid (get_reg reg m.cpu.regs) m.cpu.regs regs_ok (get_reg-lt reg _ regs_ok) in
      with_regs-Valid m _ v (set_reg-Valid reg _ _ p.0 p.1)

  pub op_swp_ind_hl-Valid : MachineValidFrom base (op_swp_ind_hl m).0
  unfolding op_swp_ind_hl
  op_swp_ind_hl-Valid =
      let p = do_swp-Valid (monitor_rd_mem m (reg_hl m)) m.cpu.regs regs_ok (byte_at (reg_hl m)) in
      monitor_wr_mem-Valid _ _ _ (with_regs-Valid m _ v p.0) p.1

  pub op_rlca-Valid : MachineValidFrom base (op_rlca m).0
  unfolding op_rlca
  op_rlca-Valid =
      let p = do_rlc-Valid m.cpu.regs.a m.cpu.regs regs_ok regs_ok.a_fits in
      with_regs-Valid m _ v
        (with_f-Valid _ _ (set_reg-Valid reg_a _ _ p.0 p.1) (and-FlagByte _ _ p.0.f_flags))

  pub op_rla-Valid : MachineValidFrom base (op_rla m).0
  unfolding op_rla
  op_rla-Valid =
      let p = do_rl-Valid m.cpu.regs.a m.cpu.regs regs_ok regs_ok.a_fits in
      with_regs-Valid m _ v
        (with_f-Valid _ _ (set_reg-Valid reg_a _ _ p.0 p.1) (and-FlagByte _ _ p.0.f_flags))

  pub op_rrca-Valid : MachineValidFrom base (op_rrca m).0
  unfolding op_rrca
  op_rrca-Valid =
      let p = do_rrc-Valid m.cpu.regs.a m.cpu.regs regs_ok regs_ok.a_fits in
      with_regs-Valid m _ v
        (with_f-Valid _ _ (set_reg-Valid reg_a _ _ p.0 p.1) (and-FlagByte _ _ p.0.f_flags))

  pub op_rra-Valid : MachineValidFrom base (op_rra m).0
  unfolding op_rra
  op_rra-Valid =
      let p = do_rr-Valid m.cpu.regs.a m.cpu.regs regs_ok regs_ok.a_fits in
      with_regs-Valid m _ v
        (with_f-Valid _ _ (set_reg-Valid reg_a _ _ p.0 p.1) (and-FlagByte _ _ p.0.f_flags))
