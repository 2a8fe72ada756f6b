-- ===== src/Ppu/Peek.antt =====
-- ppu_peek() of emu/ppu.c, which reads the ppu for the debugger.
use realboy.Prelude.{ℕ, List, [], ◌∷◌, Option, none, some}
use realboy.Machine.{Ppu}
use realboy.Ppu.Port.{ppu_rd}

-- `enum ppu_reg`, of which the code knows LY alone.
pub data PpuReg : Type 0 where
  ppu_reg_ly ppu_reg_other : PpuReg

unfoldable pub peek_get_ppu_reg : PpuReg → Ppu → ℕ
unfolding ppu_rd
peek_get_ppu_reg ppu_reg_ly s = ppu_rd s 0xff44
peek_get_ppu_reg ppu_reg_other s = 0xffff

pub data PpuPeek : Type 0 where
  ppu_peek_reg : PpuReg → PpuPeek
  ppu_peek_other : PpuPeek

-- The payload, a word of 32 bits.
unfoldable pub ppu_peek : Ppu → PpuPeek → Option (List ℕ)
unfolding peek_get_ppu_reg
ppu_peek s (ppu_peek_reg reg) = some (peek_get_ppu_reg reg s ∷ [])
ppu_peek s ppu_peek_other = none
