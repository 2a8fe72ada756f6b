-- ===== src/Cpu/Table.antt =====
-- `table_ops` of emu/cpu/cpu_ops.c, put together from its parts, and ops_table_dispatch().
pub mod Low
pub mod High
pub mod Shifts
pub mod Bits
use realboy.Prelude.{ℕ, zero, suc, ◌*◌, List, [], ◌∷◌, ◌++◌, Bool, to_int, bit_or}
use realboy.Machine.{Machine}
use realboy.Cpu.Bus.{Executed}
use realboy.Cpu.Ops.{Op, inval, run_op}
use Low.{ops_000, ops_040}
use High.{ops_080, ops_0c0}
use Shifts.{ops_100, ops_140}
use Bits.{ops_180, ops_1c0}

abbrev pub table_ops : List Op
table_ops =
    ops_000
    ++ (ops_040 ++ (ops_080 ++ (ops_0c0 ++ (ops_100 ++ (ops_140 ++ (ops_180 ++ (ops_1c0)))))))

-- The entry at an index; the index of a dispatch is always below 512.
abbrev pub entry : List Op → ℕ → Op
entry [] i = inval
entry (x ∷ xs) zero = x
entry (x ∷ xs) (suc i) = entry xs i

unfoldable pub ops_table_dispatch : ℕ → Bool → Machine → Executed
ops_table_dispatch op prefixed = run_op (entry table_ops (bit_or op (to_int prefixed * 256)))
