-- ===== src/Cpu/Valid/Load.antt =====
-- Well-formedness: the load instructions of emu/cpu/cpu_ops.c.
use realboy.Prelude.{ℕ, ◌+◌, ◌/◌, ◌%◌, ◌<◌, ◌≢◌, arith, bit_and, bit_or, u16, refl}
use realboy.Prelude.Bits.{bit_and-le, bit_and_mask-low_clear}
use realboy.Machine.{Registers, Reg8, reg_a, reg_b, Reg16, reg_af, get_reg16, Machine}
use realboy.Machine.Hash.{Objects}
use realboy.Machine.Valid.{RegistersValid, MachineValidFrom}
use realboy.Monitor.{monitor_rd_mem}
use realboy.Monitor.Valid.{monitor_rd_mem-lt, monitor_wr_mem-Valid}
use realboy.Cpu.Bus.{reg_pc, reg_sp, reg_hl, rd_word}
use realboy.Cpu.Valid.Bus.{regs_of, with_regs-Valid, rd_word-lt, wr_word-Valid}
use realboy.Cpu.Valid.Flags.{
  get_reg-lt, set_reg-Valid, get_reg16-lt, set_reg16-Valid, with_hl-Valid, with_sp-Valid,
  advance_pc-Valid,
}
use realboy.Cpu.Load.{
  op_ld_reg_reg, op_ld_b_ind_hl, op_ld_reg_ind_hl, op_ld_reg16_n16, op_ld_ind_reg16_a,
  op_ld_ind_hl_reg, op_ld_reg_n8, op_ld_a_ind_reg16, op_ld_a_ind_a16, op_ld_sp_hl, op_ldi_ind_hl_a,
  op_ldi_a_ind_hl, op_ldd_ind_hl_a, op_ldd_a_ind_hl, op_ld_ind_a16_sp, op_ld_ind_hl_n8,
  op_ld_ind_a16_a, op_ld_hl_sp_e8, op_ldh_ind_a8_a, op_ldh_ind_c_a, op_ldh_a_ind_a8, op_ldh_a_ind_c,
  op_pop_reg16, op_pop_af, op_push_reg16,
}
use realboy.Cpu.Valid.Arith.{ld_hl_sp-Valid}

-- The mask of op_pop_af() clears the bits that F does not have.
pop_af_regs-Valid :
    (r : Registers) (x : ℕ)
    → RegistersValid r
    → x < 65536
    → RegistersValid (record r { a = x / 256; sp = u16 (r.sp + 2); f = bit_and (x % 256) 0xf0 })
pop_af_regs-Valid r x v h =
    omega (arith, bit_and-le (x % 256) 0xf0, bit_and_mask-low_clear (x % 256) 0xf0 refl)

module _ {base : Objects} (m : Machine) (v : MachineValidFrom base m) where
  regs_ok : RegistersValid m.cpu.regs
  regs_ok = regs_of m v

  byte_at : (addr : ℕ) → monitor_rd_mem m addr < 256
  byte_at addr = monitor_rd_mem-lt m addr v

  pub op_ld_reg_reg-Valid :
      (dst : Reg8) (src : Reg8) → MachineValidFrom base (op_ld_reg_reg dst src m).0
  unfolding op_ld_reg_reg
  op_ld_reg_reg-Valid dst src =
      with_regs-Valid m _ v (set_reg-Valid dst _ _ regs_ok (get_reg-lt src _ regs_ok))

  pub op_ld_b_ind_hl-Valid : MachineValidFrom base (op_ld_b_ind_hl m).0
  unfolding op_ld_b_ind_hl
  op_ld_b_ind_hl-Valid =
      with_regs-Valid m _ v (set_reg-Valid reg_b _ _ regs_ok (byte_at (reg_hl m)))

  pub op_ld_reg_ind_hl-Valid : (dst : Reg8) → MachineValidFrom base (op_ld_reg_ind_hl dst m).0
  unfolding op_ld_reg_ind_hl
  op_ld_reg_ind_hl-Valid dst =
      with_regs-Valid m _ v (set_reg-Valid dst _ _ regs_ok (byte_at (reg_hl m)))

  pub op_ld_reg16_n16-Valid :
      (wreg : Reg16) → wreg ≢ reg_af → MachineValidFrom base (op_ld_reg16_n16 wreg m).0
  unfolding op_ld_reg16_n16
  op_ld_reg16_n16-Valid wreg ne =
      with_regs-Valid m _ v
        (advance_pc-Valid 2 _ (set_reg16-Valid wreg _ _ ne regs_ok (rd_word-lt m (reg_pc m) v)))

  pub op_ld_ind_reg16_a-Valid : (wreg : Reg16) → MachineValidFrom base (op_ld_ind_reg16_a wreg m).0
  unfolding op_ld_ind_reg16_a
  op_ld_ind_reg16_a-Valid wreg = monitor_wr_mem-Valid m _ _ v regs_ok.a_fits

  pub op_ld_ind_hl_reg-Valid : (src : Reg8) → MachineValidFrom base (op_ld_ind_hl_reg src m).0
  unfolding op_ld_ind_hl_reg
  op_ld_ind_hl_reg-Valid src = monitor_wr_mem-Valid m _ _ v (get_reg-lt src _ regs_ok)

  pub op_ld_reg_n8-Valid : (dst : Reg8) → MachineValidFrom base (op_ld_reg_n8 dst m).0
  unfolding op_ld_reg_n8
  op_ld_reg_n8-Valid dst =
      with_regs-Valid m _ v
        (advance_pc-Valid 1 _ (set_reg-Valid dst _ _ regs_ok (byte_at (reg_pc m))))

  pub op_ld_a_ind_reg16-Valid : (wreg : Reg16) → MachineValidFrom base (op_ld_a_ind_reg16 wreg m).0
  unfolding op_ld_a_ind_reg16
  op_ld_a_ind_reg16-Valid wreg = with_regs-Valid m _ v (set_reg-Valid reg_a _ _ regs_ok (byte_at _))

  pub op_ld_a_ind_a16-Valid : MachineValidFrom base (op_ld_a_ind_a16 m).0
  unfolding op_ld_a_ind_a16
  op_ld_a_ind_a16-Valid =
      with_regs-Valid m _ v (advance_pc-Valid 2 _ (set_reg-Valid reg_a _ _ regs_ok (byte_at _)))

  pub op_ld_sp_hl-Valid : MachineValidFrom base (op_ld_sp_hl m).0
  unfolding op_ld_sp_hl
  op_ld_sp_hl-Valid =
      with_regs-Valid m _ v (with_sp-Valid _ _ regs_ok (get_reg16-lt Reg16.reg_hl _ regs_ok))

  pub op_ldi_ind_hl_a-Valid : MachineValidFrom base (op_ldi_ind_hl_a m).0
  unfolding op_ldi_ind_hl_a
  op_ldi_ind_hl_a-Valid =
      let after = monitor_wr_mem-Valid m (reg_hl m) _ v regs_ok.a_fits in
      with_regs-Valid _ _ after (with_hl-Valid _ _ (regs_of _ after) (omega arith))

  pub op_ldi_a_ind_hl-Valid : MachineValidFrom base (op_ldi_a_ind_hl m).0
  unfolding op_ldi_a_ind_hl
  op_ldi_a_ind_hl-Valid =
      with_regs-Valid m _ v
        (with_hl-Valid _ _ (set_reg-Valid reg_a _ _ regs_ok (byte_at (reg_hl m))) (omega arith))

  pub op_ldd_ind_hl_a-Valid : MachineValidFrom base (op_ldd_ind_hl_a m).0
  unfolding op_ldd_ind_hl_a
  op_ldd_ind_hl_a-Valid =
      let after = monitor_wr_mem-Valid m (reg_hl m) _ v regs_ok.a_fits in
      with_regs-Valid _ _ after (with_hl-Valid _ _ (regs_of _ after) (omega arith))

  pub op_ldd_a_ind_hl-Valid : MachineValidFrom base (op_ldd_a_ind_hl m).0
  unfolding op_ldd_a_ind_hl
  op_ldd_a_ind_hl-Valid =
      with_regs-Valid m _ v
        (with_hl-Valid _ _ (set_reg-Valid reg_a _ _ regs_ok (byte_at (reg_hl m))) (omega arith))

  pub op_ld_ind_a16_sp-Valid : MachineValidFrom base (op_ld_ind_a16_sp m).0
  unfolding op_ld_ind_a16_sp
  op_ld_ind_a16_sp-Valid =
      let after = wr_word-Valid (λ n. rd_word n (reg_pc n)) reg_sp m v in
      with_regs-Valid _ _ after (advance_pc-Valid 2 _ (regs_of _ after))

  pub op_ld_ind_hl_n8-Valid : MachineValidFrom base (op_ld_ind_hl_n8 m).0
  unfolding op_ld_ind_hl_n8
  op_ld_ind_hl_n8-Valid =
      let after = monitor_wr_mem-Valid m (reg_hl m) _ v (byte_at (reg_pc m)) in
      with_regs-Valid _ _ after (advance_pc-Valid 1 _ (regs_of _ after))

  pub op_ld_ind_a16_a-Valid : MachineValidFrom base (op_ld_ind_a16_a m).0
  unfolding op_ld_ind_a16_a
  op_ld_ind_a16_a-Valid =
      let after = monitor_wr_mem-Valid m (rd_word m (reg_pc m)) _ v regs_ok.a_fits in
      with_regs-Valid _ _ after (advance_pc-Valid 2 _ (regs_of _ after))

  pub op_ld_hl_sp_e8-Valid : MachineValidFrom base (op_ld_hl_sp_e8 m).0
  unfolding op_ld_hl_sp_e8
  op_ld_hl_sp_e8-Valid = with_regs-Valid m _ v (advance_pc-Valid 1 _ (ld_hl_sp-Valid _ _ regs_ok))

  pub op_ldh_ind_a8_a-Valid : MachineValidFrom base (op_ldh_ind_a8_a m).0
  unfolding op_ldh_ind_a8_a
  op_ldh_ind_a8_a-Valid =
      let after =
        monitor_wr_mem-Valid m (bit_or (monitor_rd_mem m (reg_pc m)) 0xff00) _ v regs_ok.a_fits in
      with_regs-Valid _ _ after (advance_pc-Valid 1 _ (regs_of _ after))

  pub op_ldh_ind_c_a-Valid : MachineValidFrom base (op_ldh_ind_c_a m).0
  unfolding op_ldh_ind_c_a
  op_ldh_ind_c_a-Valid = monitor_wr_mem-Valid m _ _ v regs_ok.a_fits

  pub op_ldh_a_ind_a8-Valid : MachineValidFrom base (op_ldh_a_ind_a8 m).0
  unfolding op_ldh_a_ind_a8
  op_ldh_a_ind_a8-Valid =
      with_regs-Valid m _ v (advance_pc-Valid 1 _ (set_reg-Valid reg_a _ _ regs_ok (byte_at _)))

  pub op_ldh_a_ind_c-Valid : MachineValidFrom base (op_ldh_a_ind_c m).0
  unfolding op_ldh_a_ind_c
  op_ldh_a_ind_c-Valid = with_regs-Valid m _ v (set_reg-Valid reg_a _ _ regs_ok (byte_at _))

  pub op_pop_reg16-Valid :
      (wreg : Reg16) → wreg ≢ reg_af → MachineValidFrom base (op_pop_reg16 wreg m).0
  unfolding op_pop_reg16
  op_pop_reg16-Valid wreg ne = with_regs-Valid m _ v (
      with_sp-Valid _ _ (set_reg16-Valid wreg _ _ ne regs_ok (rd_word-lt m (reg_sp m) v))
        (omega arith))

  pub op_pop_af-Valid : MachineValidFrom base (op_pop_af m).0
  unfolding op_pop_af
  op_pop_af-Valid =
      let load_lt = rd_word-lt m (reg_sp m) v in
      with_regs-Valid m _ v (pop_af_regs-Valid m.cpu.regs (rd_word m (reg_sp m)) regs_ok load_lt)

  pub op_push_reg16-Valid : (wreg : Reg16) → MachineValidFrom base (op_push_reg16 wreg m).0
  unfolding op_push_reg16
  op_push_reg16-Valid wreg =
      wr_word-Valid reg_sp (λ n. get_reg16 wreg n.cpu.regs) _
        (with_regs-Valid m _ v (with_sp-Valid _ _ regs_ok (omega arith)))
