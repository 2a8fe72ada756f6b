-- ===== src/Tests.antt =====
-- A machine to try the theorems on, and the theorems at it.
pub mod Data
mod CpuRuns
mod PpuRuns
mod ServerRuns
mod MemoryRuns
mod ListRuns
mod MainRuns
