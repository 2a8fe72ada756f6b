-- ===== src/Cpu/Valid.antt =====
-- About the well-formedness of the machine behind the functions of emu/cpu.
pub mod Flags
pub mod Bus
pub mod Arith
pub mod Logic
pub mod Rotate
pub mod Load
pub mod Alu
pub mod Shift
pub mod Bits
pub mod Flow
pub mod Ops
pub mod Exec
