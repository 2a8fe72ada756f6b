-- ===== src/Cpu/Rotate.antt =====
-- The rotates and shifts of emu/cpu/cpu_ops.c. A macro changes its operand and F: the function
-- returns both.
pub mod Laws
pub mod Inverses
pub mod Together
use realboy.Prelude.{ℕ, ◌*◌, ◌/◌, bit_and, bit_or, ◌==◌, if◌then◌else◌, to_bool, to_int, not8, u8}
use realboy.Machine.{Registers}
use realboy.Cpu.Flags.{
  flag_carry, set_flag, unset_flags_all, bool_to_zero_flag, bool_to_carry_flag, test_flag,
}

unfoldable pub do_rlc : ℕ → Registers → ℕ × Registers
do_rlc value r =
    let carry = to_bool (bit_and value 0x80) in
    let r1 = set_flag (bool_to_carry_flag carry) (unset_flags_all r) in
    let v1 = u8 (value * 2) in
    let v2 = bit_and v1 (not8 1) in
    let v3 = bit_or v2 (to_int carry) in (v3, set_flag (bool_to_zero_flag (v3 == 0)) r1)

unfoldable pub do_rl : ℕ → Registers → ℕ × Registers
do_rl value r =
    let carry = test_flag flag_carry r in
    let bit7 = to_bool (bit_and value 0x80) in
    let r1 = set_flag (bool_to_carry_flag bit7) (unset_flags_all r) in
    let v1 = u8 (value * 2) in
    let v2 = bit_or v1 (to_int carry) in (v2, set_flag (bool_to_zero_flag (v2 == 0)) r1)

unfoldable pub do_rrc : ℕ → Registers → ℕ × Registers
do_rrc value r =
    let r1 = set_flag (bool_to_carry_flag (to_bool (bit_and value 0x1))) (unset_flags_all r) in
    let carry = if to_bool (bit_and value 0x1) then 128 else 0 in
    let v1 = value / 2 in
    let v2 = bit_and v1 (not8 0x80) in
    let v3 = bit_or v2 carry in (v3, set_flag (bool_to_zero_flag (v3 == 0)) r1)

unfoldable pub do_rr : ℕ → Registers → ℕ × Registers
do_rr value r =
    let carry = bit_and r.f flag_carry in
    let bit0 = to_bool (bit_and value 0x01) in
    let r1 = set_flag (bool_to_carry_flag bit0) (unset_flags_all r) in
    let v1 = value / 2 in
    let v2 = bit_and v1 (not8 0x80) in
    let v3 = bit_or v2 (to_int (to_bool carry) * 128) in
    (v3, set_flag (bool_to_zero_flag (v3 == 0)) r1)

unfoldable pub do_sla : ℕ → Registers → ℕ × Registers
do_sla value r =
    let r1 = unset_flags_all r in
    let carry = to_bool (bit_and value 0x80) in
    let v1 = u8 (value * 2) in
    let r2 = set_flag (bool_to_carry_flag carry) r1 in
    (v1, set_flag (bool_to_zero_flag (v1 == 0)) r2)

unfoldable pub do_sra : ℕ → Registers → ℕ × Registers
do_sra value r =
    let r1 = unset_flags_all r in
    let bit7 = bit_and value 0x80 in
    let carry = bit_and value 0x01 in
    let v1 = value / 2 in
    let v2 = bit_and v1 (not8 bit7) in
    let v3 = bit_or v2 bit7 in
    let r2 = set_flag (carry * 16) r1 in (v3, set_flag (bool_to_zero_flag (v3 == 0)) r2)

unfoldable pub do_srl : ℕ → Registers → ℕ × Registers
do_srl value r =
    let carry_flag = bit_and value 0x01 * 16 in
    let v1 = value / 2 in
    let zero_flag = bool_to_zero_flag (v1 == 0) in
    let r1 = unset_flags_all r in (v1, set_flag (bit_or zero_flag carry_flag) r1)

unfoldable pub do_swp : ℕ → Registers → ℕ × Registers
do_swp value r =
    let low_nibble = bit_and value 0x0f in
    let v1 = value / 16 in
    let v2 = bit_or v1 (low_nibble * 16) in
    let r1 = unset_flags_all r in (v2, set_flag (bool_to_zero_flag (v2 == 0)) r1)
