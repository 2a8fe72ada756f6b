-- ===== src/Ppu.antt =====
-- The ppu of emu/ppu.c: its memory and registers, its phases, and the lines that it draws.
pub mod Oam
pub mod Port
pub mod Peek
pub mod Tile
pub mod Objects
pub mod Render
pub mod Phase
