-- ===== src/Cpu/Valid/Flow.antt =====
-- Well-formedness: the control flow instructions of emu/cpu/cpu_ops.c.
use realboy.Prelude.{ℕ, ◌<◌, arith, if-holds}
use realboy.Machine.{Reg16, Machine}
use realboy.Machine.Hash.{Objects}
use realboy.Machine.Valid.{RegistersValid, MachineValidFrom}
use realboy.Monitor.{monitor_rd_mem}
use realboy.Monitor.Valid.{monitor_rd_mem-lt}
use realboy.Cpu.Bus.{reg_pc, reg_sp}
use realboy.Cpu.Valid.Bus.{regs_of, with_cpu-Valid, with_regs-Valid, rd_word-lt, wr_word-Valid}
use realboy.Cpu.Valid.Flags.{get_reg16-lt, with_sp-Valid, with_pc-Valid, advance_pc-Valid}
use realboy.Prelude.{Bool, true, false}
use realboy.Cpu.Bus.{Executed}
use realboy.Cpu.Flow.{
  Cond, holds, push_pc, do_ret, op_jmp_a16, op_jmp_cond, op_jmp_hl, op_jr_e8, op_jr_cond,
  op_call_a16, op_call_cond, op_ret, op_ret_cond, op_reti, op_restart, op_halt, op_stop_n8,
  op_dis_ints, op_ena_ints,
}

-- The two switches of the cpu.
pub with_ime-Valid :
    {base : Objects}
    → (m : Machine) (b : Bool) → MachineValidFrom base m
    → MachineValidFrom base (record m { cpu = record m.cpu { ime_enabled = b } })
with_ime-Valid m b v = with_cpu-Valid m _ v (record {
  regs_valid = v.cpu_valid.regs_valid;
  div_fits = v.cpu_valid.div_fits;
  if_fits = v.cpu_valid.if_fits;
  ie_fits = v.cpu_valid.ie_fits;
  cycles_fit = v.cpu_valid.cycles_fit;
  div_counter_fits = v.cpu_valid.div_counter_fits;
  tima_fits = v.cpu_valid.tima_fits;
  tma_fits = v.cpu_valid.tma_fits;
  tac_fits = v.cpu_valid.tac_fits;
  tac_counter_fits = v.cpu_valid.tac_counter_fits;
  divider_fits = v.cpu_valid.divider_fits;
  timer_runs = v.cpu_valid.timer_runs;
  wram_bytes = v.cpu_valid.wram_bytes;
  hram_bytes = v.cpu_valid.hram_bytes;
})

pub with_halt-Valid :
    {base : Objects}
    → (m : Machine) (b : Bool) → MachineValidFrom base m
    → MachineValidFrom base (record m { cpu = record m.cpu { is_halted = b } })
with_halt-Valid m b v = with_cpu-Valid m _ v (record {
  regs_valid = v.cpu_valid.regs_valid;
  div_fits = v.cpu_valid.div_fits;
  if_fits = v.cpu_valid.if_fits;
  ie_fits = v.cpu_valid.ie_fits;
  cycles_fit = v.cpu_valid.cycles_fit;
  div_counter_fits = v.cpu_valid.div_counter_fits;
  tima_fits = v.cpu_valid.tima_fits;
  tma_fits = v.cpu_valid.tma_fits;
  tac_fits = v.cpu_valid.tac_fits;
  tac_counter_fits = v.cpu_valid.tac_counter_fits;
  divider_fits = v.cpu_valid.divider_fits;
  timer_runs = v.cpu_valid.timer_runs;
  wram_bytes = v.cpu_valid.wram_bytes;
  hram_bytes = v.cpu_valid.hram_bytes;
})

pub push_pc-Valid :
    {base : Objects} → (m : Machine) → MachineValidFrom base m → MachineValidFrom base (push_pc m)
unfolding push_pc
push_pc-Valid m v =
    wr_word-Valid reg_sp reg_pc _
      (with_regs-Valid m _ v (with_sp-Valid _ _ (regs_of m v) (omega arith)))

module _ {base : Objects} (m : Machine) (v : MachineValidFrom base m) where
  regs_ok : RegistersValid m.cpu.regs
  regs_ok = regs_of m v

  byte_at : (addr : ℕ) → monitor_rd_mem m addr < 256
  byte_at addr = monitor_rd_mem-lt m addr v

  pub op_jmp_a16-Valid : MachineValidFrom base (op_jmp_a16 m).0
  unfolding op_jmp_a16
  op_jmp_a16-Valid = with_regs-Valid m _ v (with_pc-Valid _ _ regs_ok (rd_word-lt m (reg_pc m) v))

  pub op_jmp_cond-Valid : (cond : Cond) → MachineValidFrom base (op_jmp_cond cond m).0
  unfolding op_jmp_cond
  op_jmp_cond-Valid cond =
      if-holds (λ (e : Executed). (MachineValidFrom base) e.0) (holds cond m.cpu.regs) _ _
        op_jmp_a16-Valid (with_regs-Valid m _ v (advance_pc-Valid 2 _ regs_ok))

  pub op_jmp_hl-Valid : MachineValidFrom base (op_jmp_hl m).0
  unfolding op_jmp_hl
  op_jmp_hl-Valid =
      with_regs-Valid m _ v (with_pc-Valid _ _ regs_ok (get_reg16-lt Reg16.reg_hl _ regs_ok))

  pub op_jr_e8-Valid : MachineValidFrom base (op_jr_e8 m).0
  unfolding op_jr_e8
  op_jr_e8-Valid =
      with_regs-Valid m _ v (with_pc-Valid _ _ (advance_pc-Valid 1 _ regs_ok) (omega arith))

  pub op_jr_cond-Valid : (cond : Cond) → MachineValidFrom base (op_jr_cond cond m).0
  unfolding op_jr_cond
  op_jr_cond-Valid cond =
      if-holds (λ (e : Executed). (MachineValidFrom base) e.0) (holds cond m.cpu.regs) _ _
        op_jr_e8-Valid (with_regs-Valid m _ v (advance_pc-Valid 1 _ regs_ok))

  pub op_call_a16-Valid : MachineValidFrom base (op_call_a16 m).0
  unfolding op_call_a16
  op_call_a16-Valid =
      let before = push_pc-Valid _ (with_regs-Valid m _ v (advance_pc-Valid 2 _ regs_ok)) in
      with_regs-Valid _ _ before (with_pc-Valid _ _ (regs_of _ before) (rd_word-lt m (reg_pc m) v))

  pub op_call_cond-Valid : (cond : Cond) → MachineValidFrom base (op_call_cond cond m).0
  unfolding op_call_cond
  op_call_cond-Valid cond =
      if-holds (λ (e : Executed). (MachineValidFrom base) e.0) (holds cond m.cpu.regs) _ _
        op_call_a16-Valid (with_regs-Valid m _ v (advance_pc-Valid 2 _ regs_ok))

  do_ret-Valid : MachineValidFrom base (do_ret m)
  unfolding do_ret
  do_ret-Valid =
      with_regs-Valid m _ v
        (with_sp-Valid _ _ (with_pc-Valid _ _ regs_ok (rd_word-lt m (reg_sp m) v)) (omega arith))

  pub op_ret-Valid : MachineValidFrom base (op_ret m).0
  unfolding op_ret
  op_ret-Valid = do_ret-Valid

  pub op_ret_cond-Valid : (cond : Cond) → MachineValidFrom base (op_ret_cond cond m).0
  unfolding op_ret_cond
  op_ret_cond-Valid cond =
      if-holds (λ (e : Executed). (MachineValidFrom base) e.0) (holds cond m.cpu.regs) _ _
        do_ret-Valid v

  pub op_reti-Valid : MachineValidFrom base (op_reti m).0
  unfolding op_reti
  op_reti-Valid = with_ime-Valid (do_ret m) true do_ret-Valid

  pub op_restart-Valid : (addr : ℕ) → addr < 65536 → MachineValidFrom base (op_restart addr m).0
  unfolding op_restart
  op_restart-Valid addr ne =
      let before = push_pc-Valid m v in
      with_regs-Valid _ _ before (with_pc-Valid _ _ (regs_of _ before) ne)

  pub op_halt-Valid : MachineValidFrom base (op_halt m).0
  unfolding op_halt
  op_halt-Valid = with_halt-Valid m true v

  pub op_stop_n8-Valid : MachineValidFrom base (op_stop_n8 m).0
  unfolding op_stop_n8
  op_stop_n8-Valid = with_regs-Valid m _ v (advance_pc-Valid 1 _ regs_ok)

  pub op_dis_ints-Valid : MachineValidFrom base (op_dis_ints m).0
  unfolding op_dis_ints
  op_dis_ints-Valid = with_ime-Valid m false v

  pub op_ena_ints-Valid : MachineValidFrom base (op_ena_ints m).0
  unfolding op_ena_ints
  op_ena_ints-Valid = with_ime-Valid m true v
