-- ===== src/Cpu/Load.antt =====
-- The load instructions of emu/cpu/cpu_ops.c. One function stands for the functions that a macro
-- makes for each register.
use realboy.Prelude.{◌+◌, bit_and, bit_or, u16, sub16}
use realboy.Machine.{Reg8, reg_a, reg_b, get_reg, set_reg, Reg16, get_reg16, set_reg16, Machine}
use realboy.Monitor.{monitor_rd_mem, monitor_wr_mem}
use realboy.Cpu.Arith.{ld_hl_sp}
use realboy.Cpu.Bus.{Executed, reg_pc, reg_sp, reg_hl, rd_word, wr_word, advance_pc, on_regs}

-- OP_LD_REG_REG
unfoldable pub op_ld_reg_reg : Reg8 → Reg8 → Machine → Executed
op_ld_reg_reg dst src m = (on_regs (λ r. set_reg dst (get_reg src r) r) m, 1)

unfoldable pub op_ld_b_ind_hl : Machine → Executed
op_ld_b_ind_hl m = let load = monitor_rd_mem m (reg_hl m) in (on_regs (set_reg reg_b load) m, 2)

-- op_ld_c_ind_hl() and its four neighbours
unfoldable pub op_ld_reg_ind_hl : Reg8 → Machine → Executed
op_ld_reg_ind_hl dst m = let load = monitor_rd_mem m (reg_hl m) in (on_regs (set_reg dst load) m, 1)

-- OP_LD_REG16_MEM at REG_PC
unfoldable pub op_ld_reg16_n16 : Reg16 → Machine → Executed
op_ld_reg16_n16 dst m =
    let load = rd_word m (reg_pc m) in (on_regs (λ r. advance_pc 2 (set_reg16 dst load r)) m, 3)

-- OP_LD_MEM_REG through BC and DE, and through HL
unfoldable pub op_ld_ind_reg16_a : Reg16 → Machine → Executed
op_ld_ind_reg16_a addr m = let r = m.cpu.regs in (monitor_wr_mem m (get_reg16 addr r) r.a, 2)

unfoldable pub op_ld_ind_hl_reg : Reg8 → Machine → Executed
op_ld_ind_hl_reg src m = (monitor_wr_mem m (reg_hl m) (get_reg src m.cpu.regs), 2)

-- OP_LD_REG_MEM at REG_PC
unfoldable pub op_ld_reg_n8 : Reg8 → Machine → Executed
op_ld_reg_n8 dst m =
    let load = monitor_rd_mem m (reg_pc m) in
    (on_regs (λ r. advance_pc 1 (set_reg dst load r)) m, 2)

-- OP_LD_A_IND_REG
unfoldable pub op_ld_a_ind_reg16 : Reg16 → Machine → Executed
op_ld_a_ind_reg16 addr m =
    let load = monitor_rd_mem m (get_reg16 addr m.cpu.regs) in (on_regs (set_reg reg_a load) m, 2)

unfoldable pub op_ld_a_ind_a16 : Machine → Executed
op_ld_a_ind_a16 m =
    let load = monitor_rd_mem m (rd_word m (reg_pc m)) in
    (on_regs (λ r. advance_pc 2 (set_reg reg_a load r)) m, 4)

unfoldable pub op_ld_sp_hl : Machine → Executed
op_ld_sp_hl m = (on_regs (set_reg16 Reg16.reg_sp (reg_hl m)) m, 1)

unfoldable pub op_ldi_ind_hl_a : Machine → Executed
op_ldi_ind_hl_a m =
    let m1 = monitor_wr_mem m (reg_hl m) m.cpu.regs.a in
    (on_regs (set_reg16 Reg16.reg_hl (u16 (reg_hl m1 + 1))) m1, 2)

unfoldable pub op_ldi_a_ind_hl : Machine → Executed
op_ldi_a_ind_hl m =
    let m1 = on_regs (set_reg reg_a (monitor_rd_mem m (reg_hl m))) m in
    (on_regs (set_reg16 Reg16.reg_hl (u16 (reg_hl m1 + 1))) m1, 2)

unfoldable pub op_ldd_ind_hl_a : Machine → Executed
op_ldd_ind_hl_a m =
    let m1 = monitor_wr_mem m (reg_hl m) m.cpu.regs.a in
    (on_regs (set_reg16 Reg16.reg_hl (sub16 (reg_hl m1) 1)) m1, 2)

unfoldable pub op_ldd_a_ind_hl : Machine → Executed
op_ldd_a_ind_hl m =
    let m1 = on_regs (set_reg reg_a (monitor_rd_mem m (reg_hl m))) m in
    (on_regs (set_reg16 Reg16.reg_hl (sub16 (reg_hl m1) 1)) m1, 2)

-- The address is read anew for the second byte.
unfoldable pub op_ld_ind_a16_sp : Machine → Executed
op_ld_ind_a16_sp m = (on_regs (advance_pc 2) (wr_word (λ n. rd_word n (reg_pc n)) reg_sp m), 5)

unfoldable pub op_ld_ind_hl_n8 : Machine → Executed
op_ld_ind_hl_n8 m =
    let load = monitor_rd_mem m (reg_pc m) in
    (on_regs (advance_pc 1) (monitor_wr_mem m (reg_hl m) load), 3)

unfoldable pub op_ld_ind_a16_a : Machine → Executed
op_ld_ind_a16_a m =
    (on_regs (advance_pc 2) (monitor_wr_mem m (rd_word m (reg_pc m)) m.cpu.regs.a), 4)

unfoldable pub op_ld_hl_sp_e8 : Machine → Executed
op_ld_hl_sp_e8 m =
    let load = monitor_rd_mem m (reg_pc m) in (on_regs (λ r. advance_pc 1 (ld_hl_sp load r)) m, 3)

unfoldable pub op_ldh_ind_a8_a : Machine → Executed
op_ldh_ind_a8_a m =
    let addr = bit_or (monitor_rd_mem m (reg_pc m)) 0xff00 in
    (on_regs (advance_pc 1) (monitor_wr_mem m addr m.cpu.regs.a), 2)

unfoldable pub op_ldh_ind_c_a : Machine → Executed
op_ldh_ind_c_a m = let r = m.cpu.regs in (monitor_wr_mem m (0xff00 + r.c) r.a, 2)

unfoldable pub op_ldh_a_ind_a8 : Machine → Executed
op_ldh_a_ind_a8 m =
    let load = monitor_rd_mem m (0xff00 + monitor_rd_mem m (reg_pc m)) in
    (on_regs (λ r. advance_pc 1 (set_reg reg_a load r)) m, 3)

unfoldable pub op_ldh_a_ind_c : Machine → Executed
op_ldh_a_ind_c m =
    let load = monitor_rd_mem m (0xff00 + m.cpu.regs.c) in (on_regs (set_reg reg_a load) m, 2)

-- OP_POP_REG, for BC, DE and HL: op_pop_af() is written out.
unfoldable pub op_pop_reg16 : Reg16 → Machine → Executed
op_pop_reg16 dst m =
    let load = rd_word m (reg_sp m) in
    let m1 = on_regs (set_reg16 dst load) m in
    (on_regs (λ r. record r { sp = u16 (r.sp + 2) }) m1, 3)

unfoldable pub op_pop_af : Machine → Executed
op_pop_af m =
    let load = rd_word m (reg_sp m) in
    let m1 = on_regs (set_reg16 Reg16.reg_af load) m in
    let m2 = on_regs (λ r. record r { sp = u16 (r.sp + 2) }) m1 in
    (on_regs (λ r. record r { f = bit_and r.f 0xf0 }) m2, 3)

-- OP_PUSH_REG, for BC, DE, HL and AF
unfoldable pub op_push_reg16 : Reg16 → Machine → Executed
op_push_reg16 src m =
    let m1 = on_regs (λ r. record r { sp = sub16 r.sp 2 }) m in
    (wr_word reg_sp (λ n. get_reg16 src n.cpu.regs) m1, 3)
