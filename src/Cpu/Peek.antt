-- ===== src/Cpu/Peek.antt =====
-- cpu_peek() of emu/cpu/cpu.c, which reads the cpu for the debugger, and the table op_len of
-- emu/cpu/cpu_ops.c.
use realboy.Prelude.{
  ℕ, zero, suc, ◌+◌, ◌-◌, List, [], ◌∷◌, ◌++◌, Option, none, some, get_elem?, u16, ◌==◌,
  if◌then◌else◌,
}
use mathlib.Core.Option.{map}
use realboy.Machine.{Registers, Machine, get_reg16, reg_af, reg_bc, reg_de, reg_hl}
use realboy.Monitor.{monitor_rd_mem}

-- `enum cpu_reg`, and a number that is none of them.
pub data CpuReg : Type 0 where
  cpu_reg_af cpu_reg_bc cpu_reg_de cpu_reg_hl cpu_reg_sp cpu_reg_pc cpu_reg_other : CpuReg

unfoldable pub peek_get_cpu_reg : CpuReg → Registers → ℕ
peek_get_cpu_reg cpu_reg_af r = get_reg16 reg_af r
peek_get_cpu_reg cpu_reg_bc r = get_reg16 reg_bc r
peek_get_cpu_reg cpu_reg_de r = get_reg16 reg_de r
peek_get_cpu_reg cpu_reg_hl r = get_reg16 reg_hl r
peek_get_cpu_reg cpu_reg_sp r = r.sp
peek_get_cpu_reg cpu_reg_pc r = r.pc
peek_get_cpu_reg cpu_reg_other r = 0xffff

unfoldable pub op_lens : List ℕ
op_lens =
    (1 ∷ 3 ∷ 1 ∷ 1 ∷ 1 ∷ 1 ∷ 2 ∷ 1 ∷ 3 ∷ 1 ∷ 1 ∷ 1 ∷ 1 ∷ 1 ∷ 2 ∷ 1 ∷ [])
    ++ (2 ∷ 3 ∷ 1 ∷ 1 ∷ 1 ∷ 1 ∷ 2 ∷ 1 ∷ 2 ∷ 1 ∷ 1 ∷ 1 ∷ 1 ∷ 1 ∷ 2 ∷ 1 ∷ [])
    ++ (2 ∷ 3 ∷ 1 ∷ 1 ∷ 1 ∷ 1 ∷ 2 ∷ 1 ∷ 2 ∷ 1 ∷ 1 ∷ 1 ∷ 1 ∷ 1 ∷ 2 ∷ 1 ∷ [])
    ++ (2 ∷ 3 ∷ 1 ∷ 1 ∷ 1 ∷ 1 ∷ 2 ∷ 1 ∷ 2 ∷ 1 ∷ 1 ∷ 1 ∷ 1 ∷ 1 ∷ 2 ∷ 1 ∷ [])
    ++ (1 ∷ 1 ∷ 1 ∷ 1 ∷ 1 ∷ 1 ∷ 1 ∷ 1 ∷ 1 ∷ 1 ∷ 1 ∷ 1 ∷ 1 ∷ 1 ∷ 1 ∷ 1 ∷ [])
    ++ (1 ∷ 1 ∷ 1 ∷ 1 ∷ 1 ∷ 1 ∷ 1 ∷ 1 ∷ 1 ∷ 1 ∷ 1 ∷ 1 ∷ 1 ∷ 1 ∷ 1 ∷ 1 ∷ [])
    ++ (1 ∷ 1 ∷ 1 ∷ 1 ∷ 1 ∷ 1 ∷ 1 ∷ 1 ∷ 1 ∷ 1 ∷ 1 ∷ 1 ∷ 1 ∷ 1 ∷ 1 ∷ 1 ∷ [])
    ++ (1 ∷ 1 ∷ 1 ∷ 1 ∷ 1 ∷ 1 ∷ 1 ∷ 1 ∷ 1 ∷ 1 ∷ 1 ∷ 1 ∷ 1 ∷ 1 ∷ 1 ∷ 1 ∷ [])
    ++ (1 ∷ 1 ∷ 1 ∷ 1 ∷ 1 ∷ 1 ∷ 1 ∷ 1 ∷ 1 ∷ 1 ∷ 1 ∷ 1 ∷ 1 ∷ 1 ∷ 1 ∷ 1 ∷ [])
    ++ (1 ∷ 1 ∷ 1 ∷ 1 ∷ 1 ∷ 1 ∷ 1 ∷ 1 ∷ 1 ∷ 1 ∷ 1 ∷ 1 ∷ 1 ∷ 1 ∷ 1 ∷ 1 ∷ [])
    ++ (1 ∷ 1 ∷ 1 ∷ 1 ∷ 1 ∷ 1 ∷ 1 ∷ 1 ∷ 1 ∷ 1 ∷ 1 ∷ 1 ∷ 1 ∷ 1 ∷ 1 ∷ 1 ∷ [])
    ++ (1 ∷ 1 ∷ 1 ∷ 1 ∷ 1 ∷ 1 ∷ 1 ∷ 1 ∷ 1 ∷ 1 ∷ 1 ∷ 1 ∷ 1 ∷ 1 ∷ 1 ∷ 1 ∷ [])
    ++ (1 ∷ 1 ∷ 3 ∷ 3 ∷ 3 ∷ 1 ∷ 2 ∷ 1 ∷ 1 ∷ 1 ∷ 3 ∷ 2 ∷ 3 ∷ 3 ∷ 2 ∷ 1 ∷ [])
    ++ (1 ∷ 1 ∷ 3 ∷ 3 ∷ 3 ∷ 1 ∷ 2 ∷ 1 ∷ 1 ∷ 1 ∷ 3 ∷ 1 ∷ 3 ∷ 3 ∷ 2 ∷ 1 ∷ [])
    ++ (2 ∷ 1 ∷ 1 ∷ 3 ∷ 3 ∷ 1 ∷ 2 ∷ 1 ∷ 2 ∷ 1 ∷ 3 ∷ 1 ∷ 3 ∷ 3 ∷ 2 ∷ 1 ∷ [])
    ++ (2 ∷ 1 ∷ 1 ∷ 1 ∷ 3 ∷ 1 ∷ 2 ∷ 1 ∷ 2 ∷ 1 ∷ 3 ∷ 1 ∷ 3 ∷ 3 ∷ 2 ∷ 1 ∷ [])

-- `none` is an index out of the table.
unfoldable pub op_len : ℕ → Option ℕ
unfolding op_lens
op_len op = get_elem? op_lens op

-- The subtypes of a request, with its `req`.
pub data CpuPeek : Type 0 where
  cpu_peek_reg : CpuReg → CpuPeek
  cpu_peek_addr cpu_peek_instr_at_addr cpu_peek_op_len : ℕ → CpuPeek
  cpu_peek_other : CpuPeek

-- The words of memory from `req + i` on, `n` of them.
unfoldable pub peek_words : ℕ → Machine → ℕ → ℕ → List ℕ
peek_words zero m req i = []
peek_words (suc n) m req i = monitor_rd_mem m (u16 (req + i)) ∷ peek_words n m req (i + 1)

-- The payload, as words of 32 bits; `none` where the code reads what is not there, or leaves the
-- reply as it is.
unfoldable pub cpu_peek : Machine → CpuPeek → Option (List ℕ)
unfolding peek_get_cpu_reg op_len peek_words
cpu_peek m (cpu_peek_reg reg) = some (peek_get_cpu_reg reg m.cpu.regs ∷ [])
cpu_peek m (cpu_peek_addr req) = some (monitor_rd_mem m (u16 req) ∷ [])
cpu_peek m (cpu_peek_instr_at_addr req) =
    let opcode = monitor_rd_mem m (u16 req) in
    let size = if opcode == 0xcb then some 2 else op_len opcode in
    map (λ n. opcode ∷ peek_words (n - 1) m req 1) size
cpu_peek m (cpu_peek_op_len req) = map (λ n. n ∷ []) (op_len req)
cpu_peek m cpu_peek_other = none
