-- ===== src/Cpu/Shift.antt =====
-- The rotate, shift and bit instructions of emu/cpu/cpu_ops.c.
use realboy.Prelude.{ℕ}
use realboy.Machine.{Registers, Reg8, reg_a, get_reg, set_reg, Machine}
use realboy.Monitor.{monitor_rd_mem, monitor_wr_mem}
use realboy.Cpu.Flags.{flag_zero, unset_flag}
use realboy.Cpu.Rotate.{do_rlc, do_rl, do_rrc, do_rr, do_sla, do_sra, do_srl, do_swp}
use realboy.Cpu.Logic.{bit_mask, do_bit, do_rst, do_set}
use realboy.Cpu.Bus.{Executed, reg_hl, on_regs}

-- A macro applied to a register, and to a byte that is loaded and stored through HL.
abbrev pub rotate_reg : (ℕ → Registers → ℕ × Registers) → Reg8 → Registers → Registers
rotate_reg rotate reg r = let (v, r1) = rotate (get_reg reg r) r in set_reg reg v r1

abbrev pub rotate_ind_hl : (ℕ → Registers → ℕ × Registers) → Machine → Machine
rotate_ind_hl rotate m =
    let (load, r1) = rotate (monitor_rd_mem m (reg_hl m)) m.cpu.regs in
    let m1 = on_regs (λ _. r1) m in monitor_wr_mem m1 (reg_hl m1) load

unfoldable pub op_rlc_reg : Reg8 → Machine → Executed
op_rlc_reg reg m = (on_regs (rotate_reg do_rlc reg) m, 2)

unfoldable pub op_rlc_ind_hl : Machine → Executed
op_rlc_ind_hl m = (rotate_ind_hl do_rlc m, 4)

unfoldable pub op_rl_reg : Reg8 → Machine → Executed
op_rl_reg reg m = (on_regs (rotate_reg do_rl reg) m, 2)

unfoldable pub op_rl_ind_hl : Machine → Executed
op_rl_ind_hl m = (rotate_ind_hl do_rl m, 4)

unfoldable pub op_rrc_reg : Reg8 → Machine → Executed
op_rrc_reg reg m = (on_regs (rotate_reg do_rrc reg) m, 2)

unfoldable pub op_rrc_ind_hl : Machine → Executed
op_rrc_ind_hl m = (rotate_ind_hl do_rrc m, 4)

unfoldable pub op_rr_reg : Reg8 → Machine → Executed
op_rr_reg reg m = (on_regs (rotate_reg do_rr reg) m, 2)

unfoldable pub op_rr_ind_hl : Machine → Executed
op_rr_ind_hl m = (rotate_ind_hl do_rr m, 4)

unfoldable pub op_sla_reg : Reg8 → Machine → Executed
op_sla_reg reg m = (on_regs (rotate_reg do_sla reg) m, 2)

unfoldable pub op_sla_ind_hl : Machine → Executed
op_sla_ind_hl m = (rotate_ind_hl do_sla m, 4)

unfoldable pub op_sra_reg : Reg8 → Machine → Executed
op_sra_reg reg m = (on_regs (rotate_reg do_sra reg) m, 2)

unfoldable pub op_sra_ind_hl : Machine → Executed
op_sra_ind_hl m = (rotate_ind_hl do_sra m, 4)

unfoldable pub op_srl_reg : Reg8 → Machine → Executed
op_srl_reg reg m = (on_regs (rotate_reg do_srl reg) m, 2)

unfoldable pub op_srl_ind_hl : Machine → Executed
op_srl_ind_hl m = (rotate_ind_hl do_srl m, 4)

unfoldable pub op_swp_reg : Reg8 → Machine → Executed
op_swp_reg reg m = (on_regs (rotate_reg do_swp reg) m, 2)

unfoldable pub op_swp_ind_hl : Machine → Executed
op_swp_ind_hl m = (rotate_ind_hl do_swp m, 4)

-- The forms of the accumulator clear the zero flag.
unfoldable pub op_rlca : Machine → Executed
op_rlca m = (on_regs (λ r. unset_flag flag_zero (rotate_reg do_rlc reg_a r)) m, 1)

unfoldable pub op_rla : Machine → Executed
op_rla m = (on_regs (λ r. unset_flag flag_zero (rotate_reg do_rl reg_a r)) m, 1)

unfoldable pub op_rrca : Machine → Executed
op_rrca m = (on_regs (λ r. unset_flag flag_zero (rotate_reg do_rrc reg_a r)) m, 1)

unfoldable pub op_rra : Machine → Executed
op_rra m = (on_regs (λ r. unset_flag flag_zero (rotate_reg do_rr reg_a r)) m, 1)

-- OP_BIT_REG, OP_RST_REG and OP_SET_REG, for the bit of number `n`.
unfoldable pub op_bit_reg : ℕ → Reg8 → Machine → Executed
op_bit_reg n reg m = (on_regs (λ r. do_bit (bit_mask n) (get_reg reg r) r) m, 2)

unfoldable pub op_bit_ind_hl : ℕ → Machine → Executed
op_bit_ind_hl n m =
    let load = monitor_rd_mem m (reg_hl m) in (on_regs (do_bit (bit_mask n) load) m, 3)

unfoldable pub op_rst_reg : ℕ → Reg8 → Machine → Executed
op_rst_reg n reg m = (on_regs (λ r. set_reg reg (do_rst (bit_mask n) (get_reg reg r)) r) m, 2)

unfoldable pub op_rst_ind_hl : ℕ → Machine → Executed
op_rst_ind_hl n m =
    let load = do_rst (bit_mask n) (monitor_rd_mem m (reg_hl m)) in
    (monitor_wr_mem m (reg_hl m) load, 4)

unfoldable pub op_set_reg : ℕ → Reg8 → Machine → Executed
op_set_reg n reg m = (on_regs (λ r. set_reg reg (do_set (bit_mask n) (get_reg reg r)) r) m, 2)

unfoldable pub op_set_ind_hl : ℕ → Machine → Executed
op_set_ind_hl n m =
    let load = do_set (bit_mask n) (monitor_rd_mem m (reg_hl m)) in
    (monitor_wr_mem m (reg_hl m) load, 4)
