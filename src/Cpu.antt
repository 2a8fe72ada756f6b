-- ===== src/Cpu.antt =====
-- The cpu of emu/cpu: its memory-mapped registers, its instructions, and the execution of one.
pub mod Port
pub mod Flags
pub mod Arith
pub mod Logic
pub mod Rotate
pub mod Bus
pub mod Load
pub mod Flow
pub mod Alu
pub mod Shift
pub mod Ops
pub mod Table
pub mod Exec
pub mod Interrupts
pub mod Timer
pub mod Valid
pub mod Cycles
pub mod Stack
pub mod Peek
pub mod Length
