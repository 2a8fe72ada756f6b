-- ===== src/Cpu/Valid/Flags.antt =====
-- Which bytes F can hold, and the registers when F, and one register, are replaced.
use realboy.Prelude.{◌≢◌, refl, ℕ, ◌<◌, Bool, true, false, arith, bit_and, bit_or}
use realboy.Prelude.Bits.{bit_and-le, bit_or-lt, bit_and-low_clear, bit_or-low_clear}
use realboy.Machine.{
  Registers, Reg8, reg_a, reg_b, get_reg, set_reg, Reg16, reg_af, get_reg16, set_reg16, reg_hl,
  reg_bc,
}
use realboy.Cpu.Flags.{bool_to_zero_flag, bool_to_half_carry_flag, bool_to_carry_flag, or_if}
use realboy.Cpu.Bus.{advance_pc}
use realboy.Machine.Valid.{FlagByte, RegistersValid}

pub and-FlagByte : (f x : ℕ) → FlagByte f → FlagByte (bit_and f x)
and-FlagByte f x v = omega (arith, bit_and-le f x, bit_and-low_clear f x v.low_clear)

pub or-FlagByte : (f x : ℕ) → FlagByte f → FlagByte x → FlagByte (bit_or f x)
or-FlagByte f x v w =
    omega (arith, bit_or-lt f x v.fits w.fits, bit_or-low_clear f x v.low_clear w.low_clear)

pub zero-FlagByte : (x : Bool) → FlagByte (bool_to_zero_flag x)
unfolding bool_to_zero_flag
zero-FlagByte true = omega arith
zero-FlagByte false = omega arith

pub half-FlagByte : (x : Bool) → FlagByte (bool_to_half_carry_flag x)
unfolding bool_to_half_carry_flag
half-FlagByte true = omega arith
half-FlagByte false = omega arith

pub carry-FlagByte : (x : Bool) → FlagByte (bool_to_carry_flag x)
unfolding bool_to_carry_flag
carry-FlagByte true = omega arith
carry-FlagByte false = omega arith

pub or_if-FlagByte : (b : Bool) (f x : ℕ) → FlagByte f → FlagByte x → FlagByte (or_if b f x)
unfolding or_if
or_if-FlagByte true f x v w = or-FlagByte f x v w
or_if-FlagByte false f x v w = v

pub flag_128 : FlagByte 128
flag_128 = omega arith

pub flag_96 : FlagByte 96
flag_96 = omega arith

pub flag_64 : FlagByte 64
flag_64 = omega arith

pub flag_32 : FlagByte 32
flag_32 = omega arith

pub flag_16 : FlagByte 16
flag_16 = omega arith

-- F alone, or F and A.
pub with_f-Valid :
    (r : Registers) (f : ℕ) → RegistersValid r → FlagByte f → RegistersValid (record r { f = f })
with_f-Valid r f v w = omega arith

pub with_fa-Valid :
    (r : Registers) (f a : ℕ)
    → RegistersValid r
    → FlagByte f
    → a < 256
    → RegistersValid (record r { f = f; a = a })
with_fa-Valid r f a v w h = omega arith

pub get_reg-lt : (reg : Reg8) (r : Registers) → RegistersValid r → get_reg reg r < 256
get_reg-lt reg_a r v = v.a_fits
get_reg-lt reg_b r v = v.b_fits
get_reg-lt _ r v = omega arith

pub set_reg-Valid :
    (reg : Reg8) (x : ℕ) (r : Registers)
    → RegistersValid r
    → x < 256
    → RegistersValid (set_reg reg x r)
set_reg-Valid reg_a x r v h = omega arith
set_reg-Valid _ x r v h = omega arith

pub get_reg16-lt : (reg : Reg16) (r : Registers) → RegistersValid r → get_reg16 reg r < 65536
get_reg16-lt reg_af r v = omega arith
get_reg16-lt _ r v = omega arith

pub with_hl-Valid :
    (r : Registers) (x : ℕ) → RegistersValid r → x < 65536 → RegistersValid (set_reg16 reg_hl x r)
with_hl-Valid r x v h = omega arith

pub with_sp-Valid :
    (r : Registers) (x : ℕ) → RegistersValid r → x < 65536 → RegistersValid (record r { sp = x })
with_sp-Valid r x v h = omega arith

pub set_reg16-Valid :
    (reg : Reg16) (x : ℕ) (r : Registers)
    → reg ≢ reg_af
    → RegistersValid r
    → x < 65536
    → RegistersValid (set_reg16 reg x r)
set_reg16-Valid reg_af x r ne v h = absurd (ne refl)
set_reg16-Valid reg_bc x r ne v h = omega arith
set_reg16-Valid _ x r ne v h = omega arith

pub advance_pc-Valid : (x : ℕ) (r : Registers) → RegistersValid r → RegistersValid (advance_pc x r)
advance_pc-Valid x r v = omega arith

pub with_pc-Valid :
    (r : Registers) (x : ℕ) → RegistersValid r → x < 65536 → RegistersValid (record r { pc = x })
with_pc-Valid r x v h = omega arith
