-- ===== src/Cpu/Length/Lens.antt =====
-- The table op_len of emu/cpu/cpu_ops.c against the instructions of table_ops.
use realboy.Prelude.{
  ℕ, zero, suc, ◌+◌, ◌-◌, ◌%◌, ◌<◌, ◌≡◌, refl, ap, ◌∙◌, bit_or, sym, subst, arith, Bool, true,
  false, ◌&&◌, ◌==◌, Option, some, none, Bool-cases, inl, inr,
}
use realboy.Prelude.Masks.{bit_or-zero}
use realboy.Machine.{Machine}
use realboy.Cpu.Ops.{Op, run_op}
use realboy.Cpu.Table.{table_ops, entry, ops_table_dispatch}
use realboy.Cpu.Peek.{op_lens, op_len}
use realboy.Cpu.Length.{operands, Advances, run_op-pc}

-- An instruction that does not jump, is no prefix, and is not undefined.
abbrev pub goes_on : Op → Bool
goes_on op = elim (operands op) [ none ↦ false | some k ↦ true ]

abbrev agrees : Option ℕ → Option ℕ → Bool
agrees none len = true
agrees (some k) none = false
agrees (some k) (some len) = len == k + 1

abbrev all_below : (ℕ → Bool) → ℕ → Bool
all_below test zero = true
all_below test (suc n) = test n && all_below test n

below-holds : (test : ℕ → Bool) (n i : ℕ) → i < n → all_below test n ≡ true → test i ≡ true
below-holds test zero i h e = absurd (omega arith)
below-holds test (suc n) i h e = elim (Bool-cases (test n)) [
  | inl last ↦ elim (Bool-cases (i == n)) [
    | inl same ↦ let at : n ≡ i = ground arith in subst (λ j. test j ≡ true) at last
    | inr other ↦
        below-holds test n i (ground arith) (subst (λ b. b && all_below test n ≡ true) last e)
  ]
  | inr fails ↦
      let no : false ≡ true = subst (λ b. b && all_below test n ≡ true) fails e in absurd cc
]

abbrev entry_agrees : ℕ → Bool
entry_agrees op = agrees (operands (entry table_ops op)) (op_len op)

all_agree : all_below entry_agrees 256 ≡ true
unfolding op_len op_lens
all_agree = refl

-- The length that the table has, and the program counter behind the instruction.
abbrev pub HasLength : ℕ → Machine → Type 0
HasLength op m =
    (len : ℕ) × (op_len op ≡ some len)
    × ((ops_table_dispatch op false m).0.cpu.regs.pc ≡ (m.cpu.regs.pc + len - 1) % 65536)

settle :
    (operand len : Option ℕ) (m n : Machine)
    → elim operand [ none ↦ false | some k ↦ true ] ≡ true
    → agrees operand len ≡ true
    → Advances operand m n
    → (l : ℕ) × (len ≡ some l) × (n.cpu.regs.pc ≡ (m.cpu.regs.pc + l - 1) % 65536)
settle none len m n on e a = absurd cc
settle (some k) none m n on e a = absurd cc
settle (some k) (some l) m n on e a =
    let same : l ≡ k + 1 = ground arith in
    let ends : m.cpu.regs.pc + k ≡ m.cpu.regs.pc + l - 1 = omega arith in
    (l, refl, a ∙ ap (λ x. x % 65536) ends)

-- For an opcode without a prefix whose entry of table_ops does not jump and is neither the prefix
-- nor undefined, op_len has a length, and the instruction leaves the program counter, which is
-- behind the opcode, that length less one further, modulo 65536.
pub ops_table_dispatch-op_len :
    (op : ℕ) (m : Machine)
    → op < 256
    → m.cpu.regs.pc < 65536
    → goes_on (entry table_ops op) ≡ true
    → HasLength op m
unfolding ops_table_dispatch
ops_table_dispatch-op_len op m h fits on =
    let o = entry table_ops op in
    let index : bit_or op 0 ≡ op = bit_or-zero op in
    let advances = run_op-pc m fits o in
    settle (operands o) (op_len op) m (ops_table_dispatch op false m).0 on
      (below-holds entry_agrees 256 op h all_agree)
      (subst (λ i. Advances (operands o) m (run_op (entry table_ops i) m).0) (sym index) advances)
