-- ===== src/Machine/RegState.antt =====
-- `struct registers` of emu/cpu/cpu.h. A union of two bytes and a word is its two bytes; the
-- word is read and written through them, low byte first (the byte order of the host).
use realboy.Prelude.{ℕ, ◌+◌, ◌*◌, ◌/◌, ◌%◌}

pub record Registers : Type 0 where
  pub f : ℕ
  pub a : ℕ
  pub c : ℕ
  pub b : ℕ
  pub e : ℕ
  pub d : ℕ
  pub l : ℕ
  pub h : ℕ
  pub sp : ℕ
  pub pc : ℕ

-- The word of a union.
abbrev pub word : ℕ → ℕ → ℕ
word hi lo = hi * 256 + lo

-- REG_A, REG_B, REG_C, REG_D, REG_E, REG_H and REG_L as lvalues.
pub data Reg8 : Type 0 where
  reg_a reg_b reg_c reg_d reg_e reg_h reg_l : Reg8

abbrev pub get_reg : Reg8 → Registers → ℕ
get_reg reg_a r = r.a
get_reg reg_b r = r.b
get_reg reg_c r = r.c
get_reg reg_d r = r.d
get_reg reg_e r = r.e
get_reg reg_h r = r.h
get_reg reg_l r = r.l

abbrev pub set_reg : Reg8 → ℕ → Registers → Registers
set_reg reg_a v r = record r { a = v }
set_reg reg_b v r = record r { b = v }
set_reg reg_c v r = record r { c = v }
set_reg reg_d v r = record r { d = v }
set_reg reg_e v r = record r { e = v }
set_reg reg_h v r = record r { h = v }
set_reg reg_l v r = record r { l = v }

-- REG_AF, REG_BC, REG_DE, REG_HL and REG_SP as lvalues.
pub data Reg16 : Type 0 where
  reg_af reg_bc reg_de reg_hl reg_sp : Reg16

abbrev pub get_reg16 : Reg16 → Registers → ℕ
get_reg16 reg_af r = word r.a r.f
get_reg16 reg_bc r = word r.b r.c
get_reg16 reg_de r = word r.d r.e
get_reg16 reg_hl r = word r.h r.l
get_reg16 reg_sp r = r.sp

abbrev pub set_reg16 : Reg16 → ℕ → Registers → Registers
set_reg16 reg_af v r = record r { a = v / 256; f = v % 256 }
set_reg16 reg_bc v r = record r { b = v / 256; c = v % 256 }
set_reg16 reg_de v r = record r { d = v / 256; e = v % 256 }
set_reg16 reg_hl v r = record r { h = v / 256; l = v % 256 }
set_reg16 reg_sp v r = record r { sp = v }

abbrev pub reg_hl_of : Registers → ℕ
reg_hl_of r = word r.h r.l
