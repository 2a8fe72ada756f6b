-- ===== src/Cpu/Logic.antt =====
-- The logical macros of emu/cpu/cpu_ops.c, those on single bits, and the adjustments of the
-- accumulator and of the carry.
pub mod Decimal
use realboy.Prelude.{
  ℕ, ◌+◌, ◌^◌, not, bit_and, bit_or, bit_xor, ltb, ◌==◌, if◌then◌else◌, to_bool, not8, sub16, u16,
}
use realboy.Machine.{Registers}
use realboy.Cpu.Flags.{
  flag_zero, flag_sub, flag_hcarry, flag_carry, unset_flag, set_flag, set_flag_if, unset_flags_all,
  bool_to_zero_flag, bool_to_carry_flag, test_flag,
}

-- DO_AND, DO_XOR and DO_OR
unfoldable pub do_and : ℕ → Registers → Registers
do_and value r =
    let r1 = record r { a = bit_and r.a value } in
    let r2 = set_flag flag_hcarry (unset_flags_all r1) in
    set_flag (bool_to_zero_flag (r2.a == 0)) r2

unfoldable pub do_xor : ℕ → Registers → Registers
do_xor value r =
    let r1 = unset_flags_all (record r { a = bit_xor r.a value }) in
    set_flag (bool_to_zero_flag (r1.a == 0)) r1

unfoldable pub do_or : ℕ → Registers → Registers
do_or value r =
    let r1 = unset_flags_all (record r { a = bit_or r.a value }) in
    set_flag (bool_to_zero_flag (r1.a == 0)) r1

-- `enum bits`: BIT0 to BIT7
abbrev pub bit_mask : ℕ → ℕ
bit_mask n = 2 ^ n

-- DO_BIT, DO_RST and DO_SET
unfoldable pub do_bit : ℕ → ℕ → Registers → Registers
do_bit bit value r =
    let r1 = set_flag flag_hcarry (unset_flag 0b11000000 r) in
    set_flag (bool_to_zero_flag (not (to_bool (bit_and value bit)))) r1

unfoldable pub do_rst : ℕ → ℕ → ℕ
do_rst bit value = bit_and value (not8 bit)

unfoldable pub do_set : ℕ → ℕ → ℕ
do_set bit value = bit_or value bit

-- op_daa() up to its flags: `acc`, a uint16_t.
unfoldable pub daa_acc : Registers → ℕ
daa_acc r =
    if test_flag flag_sub r
    then (let acc = if test_flag flag_hcarry r then bit_and (sub16 r.a 6) 0xff else r.a in
        if test_flag flag_carry r then sub16 acc 60 else acc)
    else (let acc =
          if not (test_flag flag_hcarry r)
          then (if ltb 9 (bit_and r.a 0xf) then u16 (r.a + 6) else r.a)
          else u16 (r.a + 6) in
        if not (test_flag flag_carry r)
        then (if ltb 0x9f acc then u16 (acc + 0x60) else acc)
        else u16 (acc + 0x60))

unfoldable pub do_daa : Registers → Registers
unfolding daa_acc
do_daa r =
    let acc = daa_acc r in
    let r1 = unset_flag flag_hcarry r in
    let r2 = record r1 { a = bit_and acc 0xff } in
    let r3 = set_flag_if (bit_and acc 0x100 == 0x100) flag_carry r2 in
    if r3.a == 0 then set_flag flag_zero r3 else unset_flag flag_zero r3

-- op_cpl(), op_scf() and op_ccf()
unfoldable pub do_cpl : Registers → Registers
do_cpl r = set_flag 0b01100000 (record r { a = not8 r.a })

unfoldable pub do_scf : Registers → Registers
do_scf r = unset_flag 0b01100000 (set_flag flag_carry r)

unfoldable pub do_ccf : Registers → Registers
do_ccf r =
    let carry = not (test_flag flag_carry r) in
    let r1 = set_flag (bool_to_carry_flag carry) (unset_flag flag_carry r) in
    unset_flag 0b01100000 r1
