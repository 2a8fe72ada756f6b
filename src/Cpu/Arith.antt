-- ===== src/Cpu/Arith.antt =====
-- The arithmetic macros of emu/cpu/cpu_ops.c: addition and subtraction with and without carry,
-- comparison, increment and decrement, and the sums of words.
pub mod Sums
pub mod Differences
pub mod Steps
pub mod Together
use realboy.Prelude.{
  ℕ, ◌+◌, ◌%◌, Bool, false, ◌||◌, bit_and, bit_xor, ltb, ◌==◌, if◌then◌else◌, to_bool, to_int, u8,
  u16, u32, sub8, sub32, int8,
}
use realboy.Machine.{Registers, reg_hl_of, set_reg16, reg_hl}
use realboy.Cpu.Flags.{
  flag_zero, flag_sub, flag_hcarry, flag_carry, unset_flag, set_flag, set_flag_if, unset_flags_all,
  bool_to_zero_flag, bool_to_half_carry_flag, bool_to_carry_flag, is_add_zero, is_add_half_carry,
  is_add_carry, is_add16_half_carry, is_add16_carry, is_sub_zero, is_sub_half_carry, is_sub_carry,
  test_flag,
}

-- DO_ADD, where `reg` is a byte or the pattern of an int8_t
unfoldable pub do_add : ℕ → ℕ → Registers → Registers
do_add reg carry r =
    let op2 = u32 (reg + carry) in
    let r1 = unset_flags_all r in
    let r2 = set_flag (bool_to_carry_flag (is_add_carry r.a op2)) r1 in
    let r3 = set_flag (bool_to_half_carry_flag (is_add_half_carry r.a op2)) r2 in
    let r4 = set_flag (bool_to_zero_flag (is_add_zero r.a op2)) r3 in
    record r4 { a = u8 (r.a + op2) }

-- DO_ADC
unfoldable pub do_adc : ℕ → Registers → Registers
do_adc reg r =
    let carry = to_int (test_flag flag_carry r) in
    let sum = r.a + reg + carry in
    let r1 = unset_flags_all r in
    let r2 = set_flag_if (to_bool (bit_and (bit_xor (bit_xor reg r.a) sum) 0x10)) flag_hcarry r1 in
    let r3 = set_flag (bool_to_zero_flag (is_add_zero r.a (reg + carry))) r2 in
    let r4 = set_flag_if (to_bool (bit_and sum 0xff00)) flag_carry r3 in
    record r4 { a = u8 (r.a + (reg + carry)) }

-- The bodies of op_adc_a_ind_hl() and op_adc_a_n8(), which do not use the macro.
unfoldable pub adc_word : ℕ → Registers → Registers
adc_word word r =
    let carry = to_int (test_flag flag_carry r) in
    let sum = u16 (r.a + word + carry) in
    let r1 = unset_flags_all r in
    let r2 = set_flag_if (to_bool (bit_and (bit_xor (bit_xor word sum) r.a) 0x10)) flag_hcarry r1 in
    let r3 = record r2 { a = u8 (r.a + (word + carry)) } in
    let r4 = set_flag_if (to_bool (bit_and sum 0xff00)) flag_carry r3 in
    set_flag_if (r4.a == 0) flag_zero r4

-- DO_SUB
unfoldable pub do_sub : ℕ → ℕ → Registers → Registers
do_sub reg carry r =
    let op2 = u32 (reg + carry) in
    let r1 = unset_flags_all r in
    let r2 = set_flag (bool_to_carry_flag (is_sub_carry r.a op2)) r1 in
    let r3 = set_flag (bool_to_half_carry_flag (is_sub_half_carry r.a op2)) r2 in
    let r4 = set_flag (bool_to_zero_flag (is_sub_zero r.a op2)) r3 in
    let r5 = set_flag flag_sub r4 in record r5 { a = u8 (sub32 r.a op2) }

-- DO_SBC
unfoldable pub do_sbc : ℕ → Registers → Registers
do_sbc reg r =
    let carry = to_int (test_flag flag_carry r) in
    let r1 = unset_flags_all r in
    let sum = u16 (sub32 r.a (reg + carry)) in
    let r2 = set_flag_if (to_bool (bit_and (bit_xor (bit_xor reg r.a) sum) 0x10)) flag_hcarry r1 in
    let r3 = set_flag_if (to_bool (bit_and sum 0xff00)) flag_carry r2 in
    let r4 = record r3 { a = u8 (sub32 r.a (reg + carry)) } in
    let r5 = set_flag flag_sub r4 in set_flag_if (r5.a == 0) flag_zero r5

-- The bodies of op_sbc_a_ind_hl() and op_sbc_a_n8(), which do not use the macro.
unfoldable pub sbc_word : ℕ → Registers → Registers
sbc_word word r =
    let carry = to_int (test_flag flag_carry r) in
    let sum = u16 (sub32 r.a (word + carry)) in
    let r1 = unset_flags_all r in
    let r2 = set_flag_if (to_bool (bit_and (bit_xor (bit_xor word sum) r.a) 0x10)) flag_hcarry r1 in
    let r3 = record r2 { a = u8 (sub32 r.a (word + carry)) } in
    let r4 = set_flag_if (to_bool (bit_and sum 0xff00)) flag_carry r3 in
    let r5 = set_flag_if (r4.a == 0) flag_zero r4 in set_flag flag_sub r5

-- DO_CP
unfoldable pub do_cp : ℕ → Registers → Registers
do_cp value r =
    let r1 = unset_flags_all r in
    let r2 = set_flag (bool_to_zero_flag (is_sub_zero r.a value)) r1 in
    let r3 = set_flag (bool_to_carry_flag (is_sub_carry r.a value)) r2 in
    let r4 = set_flag (bool_to_half_carry_flag (is_sub_half_carry r.a value)) r3 in
    set_flag flag_sub r4

-- The flags of OP_INC_REG, and the byte that it leaves.
unfoldable pub do_inc : ℕ → Registers → ℕ × Registers
do_inc reg r =
    let r1 = unset_flag 0b11100000 r in
    let r2 = set_flag (bool_to_zero_flag (is_add_zero reg 1)) r1 in
    (u8 (reg + 1), set_flag (bool_to_half_carry_flag (is_add_half_carry reg 1)) r2)

-- op_inc_ind_hl() between its load and its store
unfoldable pub inc_load : ℕ → Registers → ℕ × Registers
inc_load load r =
    let r1 = unset_flag 0b11100000 r in
    (u8 (load + 1), set_flag (bool_to_half_carry_flag (is_add_half_carry load 1)) r1)

-- The flags of OP_DEC_REG, and the byte that it leaves.
unfoldable pub do_dec : ℕ → Registers → ℕ × Registers
do_dec reg r =
    let r1 = unset_flag 0b10100000 r in
    let r2 = set_flag (bool_to_zero_flag (is_sub_zero reg 1)) r1 in
    let r3 = set_flag (bool_to_half_carry_flag (is_sub_half_carry reg 1)) r2 in
    (sub8 reg 1, set_flag flag_sub r3)

-- op_dec_ind_hl() between its load and its store
unfoldable pub dec_load : ℕ → Registers → ℕ × Registers
dec_load load r =
    let r1 = unset_flag 0b10100000 r in
    let r2 = set_flag (bool_to_half_carry_flag (is_sub_half_carry load 1)) r1 in
    (sub8 load 1, set_flag flag_sub r2)

-- OP_ADD_REG16
unfoldable pub do_add16 : ℕ → Registers → Registers
do_add16 reg r =
    let hl = reg_hl_of r in
    let r1 = unset_flag 0b01110000 r in
    let r2 = set_flag (bool_to_carry_flag (is_add16_carry hl reg)) r1 in
    let r3 = set_flag (bool_to_half_carry_flag (is_add16_half_carry hl reg)) r2 in
    set_reg16 reg_hl (u16 (hl + reg)) r3

-- The carry that op_ld_hl_sp_e8() and op_add_sp_e8() find from the sum `res` and the byte `load`:
-- `res < load` compares `int`s, so it fails at a negative `load`.
abbrev pub sp_carry : ℕ → ℕ → Bool
sp_carry res load = (if ltb load 128 then ltb res load else false) || ltb (res % 256) load

-- op_add_sp_e8() after its load
unfoldable pub add_sp : ℕ → Registers → Registers
add_sp load r =
    let r1 = unset_flags_all r in
    let r2 = set_flag (bool_to_half_carry_flag (is_add_half_carry r.sp (int8 load))) r1 in
    let r3 = record r2 { sp = u16 (r.sp + int8 load) } in
    set_flag_if (sp_carry r3.sp load) flag_carry r3

-- op_ld_hl_sp_e8() after its load
unfoldable pub ld_hl_sp : ℕ → Registers → Registers
ld_hl_sp load r =
    let r1 = unset_flags_all r in
    let r2 = set_flag (bool_to_half_carry_flag (is_add_half_carry r.sp (int8 load))) r1 in
    let r3 = set_reg16 reg_hl (u16 (r.sp + int8 load)) r2 in
    set_flag_if (sp_carry (reg_hl_of r3) load) flag_carry r3
