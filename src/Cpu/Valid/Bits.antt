-- ===== src/Cpu/Valid/Bits.antt =====
-- Well-formedness: the instructions on single bits of emu/cpu/cpu_ops.c.
use realboy.Prelude.{ℕ, ◌-◌, ◌^◌, ◌<◌, arith}
use realboy.Prelude.Bits.{bit_and-le}
use realboy.Machine.{Reg8, get_reg, Machine}
use realboy.Machine.Hash.{Objects}
use realboy.Machine.Valid.{RegistersValid, MachineValidFrom}
use realboy.Monitor.{monitor_rd_mem}
use realboy.Monitor.Valid.{monitor_rd_mem-lt, monitor_wr_mem-Valid}
use realboy.Cpu.Bus.{reg_hl}
use realboy.Cpu.Valid.Bus.{regs_of, with_regs-Valid}
use realboy.Cpu.Valid.Flags.{get_reg-lt, set_reg-Valid}
use realboy.Prelude.Bits.{bit_or-lt}
use realboy.Cpu.Shift.{
  op_bit_reg, op_bit_ind_hl, op_rst_reg, op_rst_ind_hl, op_set_reg, op_set_ind_hl,
}
use realboy.Cpu.Logic.{bit_mask, do_rst, do_set}
use realboy.Cpu.Valid.Logic.{do_bit-Valid}

do_rst-lt : (bit x : ℕ) → x < 256 → do_rst bit x < 256
unfolding do_rst
do_rst-lt bit x h = omega (arith, bit_and-le x (255 - bit))

do_set-lt : (bit x : ℕ) → x < 256 → bit < 256 → do_set bit x < 256
unfolding do_set
do_set-lt bit x h k = bit_or-lt x bit h k

module _ {base : Objects} (m : Machine) (v : MachineValidFrom base m) where
  regs_ok : RegistersValid m.cpu.regs
  regs_ok = regs_of m v

  byte_at : (addr : ℕ) → monitor_rd_mem m addr < 256
  byte_at addr = monitor_rd_mem-lt m addr v

  pub op_bit_reg-Valid : (n : ℕ) (reg : Reg8) → MachineValidFrom base (op_bit_reg n reg m).0
  unfolding op_bit_reg
  op_bit_reg-Valid n reg =
      with_regs-Valid m _ v (do_bit-Valid (get_reg reg m.cpu.regs) m.cpu.regs regs_ok (bit_mask n))

  pub op_bit_ind_hl-Valid : (n : ℕ) → MachineValidFrom base (op_bit_ind_hl n m).0
  unfolding op_bit_ind_hl
  op_bit_ind_hl-Valid n =
      with_regs-Valid m _ v
        (do_bit-Valid (monitor_rd_mem m (reg_hl m)) m.cpu.regs regs_ok (bit_mask n))

  pub op_rst_reg-Valid : (n : ℕ) (reg : Reg8) → MachineValidFrom base (op_rst_reg n reg m).0
  unfolding op_rst_reg
  op_rst_reg-Valid n reg =
      with_regs-Valid m _ v
        (set_reg-Valid reg _ _ regs_ok (do_rst-lt (bit_mask n) _ (get_reg-lt reg _ regs_ok)))

  pub op_rst_ind_hl-Valid : (n : ℕ) → MachineValidFrom base (op_rst_ind_hl n m).0
  unfolding op_rst_ind_hl
  op_rst_ind_hl-Valid n =
      monitor_wr_mem-Valid m _ _ v (do_rst-lt (bit_mask n) _ (byte_at (reg_hl m)))

  pub op_set_reg-Valid :
      (n : ℕ) (reg : Reg8) → 2 ^ n < 256 → MachineValidFrom base (op_set_reg n reg m).0
  unfolding op_set_reg
  op_set_reg-Valid n reg ne =
      with_regs-Valid m _ v
        (set_reg-Valid reg _ _ regs_ok (do_set-lt (bit_mask n) _ (get_reg-lt reg _ regs_ok) ne))

  pub op_set_ind_hl-Valid : (n : ℕ) → 2 ^ n < 256 → MachineValidFrom base (op_set_ind_hl n m).0
  unfolding op_set_ind_hl
  op_set_ind_hl-Valid n ne =
      monitor_wr_mem-Valid m _ _ v (do_set-lt (bit_mask n) _ (byte_at (reg_hl m)) ne)
