-- ===== src/Cpu/Flags.antt =====
-- The flag macros of emu/cpu/cpu_ops.c. An operand that the code computes as an `int` is given as
-- its 32-bit pattern.
pub mod Laws
use realboy.Prelude.{
  ℕ, ◌+◌, ◌*◌, ◌%◌, Bool, bit_and, bit_or, bit_xor, ltb, ◌==◌, if◌then◌else◌, to_bool, to_int, not8,
  u8, u16, u32, sub32,
}
use realboy.Machine.{Registers}

abbrev pub flag_zero : ℕ
flag_zero = 0b10000000

abbrev pub flag_sub : ℕ
flag_sub = 0b01000000

abbrev pub flag_hcarry : ℕ
flag_hcarry = 0b00100000

abbrev pub flag_carry : ℕ
flag_carry = 0b00010000

-- UNSET_FLAG, SET_FLAG and UNSET_FLAGS_ALL
abbrev pub unset_flag : ℕ → Registers → Registers
unset_flag flag r = record r { f = bit_and r.f (not8 flag) }

abbrev pub set_flag : ℕ → Registers → Registers
set_flag flag r = record r { f = bit_or r.f flag }

abbrev pub unset_flags_all : Registers → Registers
unset_flags_all = unset_flag 0b11110000

-- `if (cond) SET_FLAG(flag);`
unfoldable pub or_if : Bool → ℕ → ℕ → ℕ
or_if cond f flag = if cond then bit_or f flag else f

abbrev pub set_flag_if : Bool → ℕ → Registers → Registers
set_flag_if cond flag r = record r { f = or_if cond r.f flag }

unfoldable pub bool_to_zero_flag : Bool → ℕ
bool_to_zero_flag x = to_int x * 128

unfoldable pub bool_to_half_carry_flag : Bool → ℕ
bool_to_half_carry_flag x = to_int x * 32

unfoldable pub bool_to_carry_flag : Bool → ℕ
bool_to_carry_flag x = to_int x * 16

abbrev pub is_add_zero : ℕ → ℕ → Bool
is_add_zero op1 op2 = u8 (op1 + op2) == 0

unfoldable pub is_add_half_carry : ℕ → ℕ → Bool
is_add_half_carry op1 op2 = to_bool (bit_and (bit_xor (bit_xor op1 op2) (u32 (op1 + op2))) 0x10)

abbrev pub is_add_carry : ℕ → ℕ → Bool
is_add_carry op1 op2 = ltb (u8 (op1 + op2)) op1

unfoldable pub is_add16_half_carry : ℕ → ℕ → Bool
is_add16_half_carry op1 op2 = to_bool (bit_and (bit_xor (bit_xor op1 op2) (u32 (op1 + op2))) 0x1000)

abbrev pub is_add16_carry : ℕ → ℕ → Bool
is_add16_carry op1 op2 = ltb (u16 (op1 + op2)) op1

abbrev pub is_sub_zero : ℕ → ℕ → Bool
is_sub_zero op1 op2 = u8 (sub32 op1 op2) == 0

unfoldable pub is_sub_half_carry : ℕ → ℕ → Bool
is_sub_half_carry op1 op2 = to_bool (bit_and (bit_xor (bit_xor op1 op2) (sub32 op1 op2)) 0x10)

abbrev pub is_sub_carry : ℕ → ℕ → Bool
is_sub_carry op1 op2 = ltb op1 (u8 (sub32 op1 op2))

-- A test of one flag, `REG_F & flag`.
abbrev pub test_flag : ℕ → Registers → Bool
test_flag flag r = to_bool (bit_and r.f flag)

-- The flags of a result, as a byte: the description that the instructions are held to.
abbrev pub flags : Bool → Bool → Bool → Bool → ℕ
flags z n h c = to_int z * 128 + to_int n * 64 + to_int h * 32 + to_int c * 16
