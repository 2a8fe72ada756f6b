-- ===== src/Cpu/Arith/Differences.antt =====
-- The subtractions and the comparison of emu/cpu/cpu_ops.c against one description of a
-- difference and its flags.
use realboy.Prelude.{
  ℕ, ◌+◌, ◌-◌, ◌%◌, ◌^◌, ◌<◌, ◌≡◌, refl, arith, Bool, true, false, bit_and, bit_or, bit_xor, ltb,
  ◌==◌, u16, u32, sub32, to_bool,
}
use realboy.Prelude.Bits.{bit4_of_xor3}
use realboy.Prelude.Masks.{bit_and-high_byte}
use realboy.Machine.{Registers}
use realboy.Machine.Valid.{RegistersValid}
use realboy.Cpu.Flags.{flags, or_if, bool_to_zero_flag, bool_to_half_carry_flag, bool_to_carry_flag}
use realboy.Cpu.Flags.Laws.{is_sub_half_carry_lem, is_sub_carry_lem}
use realboy.Cpu.Arith.{do_sub, do_sbc, sbc_word, do_cp}
use realboy.Cpu.Arith.Sums.{carry_of, no_flags, carry-test_flag}

-- A - v - borrow, and the four flags of that difference.
abbrev pub subtracted : ℕ → ℕ → Registers → Registers
subtracted v borrow r = record r {
  a = (r.a + 512 - (v + borrow)) % 256;
  f =
      flags ((r.a + 512 - (v + borrow)) % 256 == 0) true (ltb (r.a % 16) (v % 16 + borrow))
        (ltb r.a (v + borrow));
}

or_chzn :
    (c h z : Bool)
    → bit_or
        (bit_or
          (bit_or (bit_or 0 (bool_to_carry_flag c)) (bool_to_half_carry_flag h))
          (bool_to_zero_flag z))
        64
      ≡ flags z true h c
unfolding bool_to_carry_flag bool_to_half_carry_flag bool_to_zero_flag
or_chzn true true true = refl
or_chzn true true false = refl
or_chzn true false true = refl
or_chzn true false false = refl
or_chzn false true true = refl
or_chzn false true false = refl
or_chzn false false true = refl
or_chzn false false false = refl

or_zchn :
    (z c h : Bool)
    → bit_or
        (bit_or
          (bit_or (bit_or 0 (bool_to_zero_flag z)) (bool_to_carry_flag c))
          (bool_to_half_carry_flag h))
        64
      ≡ flags z true h c
unfolding bool_to_carry_flag bool_to_half_carry_flag bool_to_zero_flag
or_zchn true true true = refl
or_zchn true true false = refl
or_zchn true false true = refl
or_zchn true false false = refl
or_zchn false true true = refl
or_zchn false true false = refl
or_zchn false false true = refl
or_zchn false false false = refl

or_hcnz : (z c h : Bool) → or_if z (bit_or (or_if c (or_if h 0 32) 16) 64) 128 ≡ flags z true h c
unfolding or_if
or_hcnz true true true = refl
or_hcnz true true false = refl
or_hcnz true false true = refl
or_hcnz true false false = refl
or_hcnz false true true = refl
or_hcnz false true false = refl
or_hcnz false false true = refl
or_hcnz false false false = refl

or_hczn : (z c h : Bool) → bit_or (or_if z (or_if c (or_if h 0 32) 16) 128) 64 ≡ flags z true h c
unfolding or_if
or_hczn true true true = refl
or_hczn true true false = refl
or_hczn true false true = refl
or_hczn true false false = refl
or_hczn false true true = refl
or_hczn false true false = refl
or_hczn false false true = refl
or_hczn false false false = refl

-- An operand is a byte, or the pattern of a byte that was read as signed: its low byte counts.
module _ (v : ℕ) (r : Registers) (fits : v < 2 ^ 32) (valid : RegistersValid r) where
  operand : u32 (v + 0) ≡ v
  operand = omega arith

  -- For a byte operand, or the 32-bit pattern of one that was read as signed, the macro DO_SUB
  -- leaves the difference modulo 256 in A, and Z, N, H and C as the difference and its borrows out
  -- of the low nibble and of the byte have them.
  pub do_sub-subtracted : do_sub v 0 r ≡ subtracted (v % 256) 0 r
  unfolding do_sub
  do_sub-subtracted =
      let a_fits = valid.a_fits in
      rw
        (
          operand,
          no_flags r.f valid.f_flags,
          is_sub_half_carry_lem r.a v a_fits fits,
          is_sub_carry_lem r.a v a_fits fits,
          or_chzn,
        )
        ground arith

module _ (v : ℕ) (r : Registers) (fits : v < 256) (valid : RegistersValid r) where
  -- For a byte operand, a comparison sets the flags of the subtraction and leaves A alone.
  pub do_cp-subtracted : do_cp v r ≡ record (subtracted v 0 r) { a = r.a }
  unfolding do_cp
  do_cp-subtracted =
      let a_fits = valid.a_fits in
      rw
        (
          no_flags r.f valid.f_flags,
          is_sub_half_carry_lem r.a v valid.a_fits (omega arith),
          is_sub_carry_lem r.a v valid.a_fits (omega arith),
          or_zchn,
        )
        ground arith

  half_borrow :
      to_bool (bit_and (bit_xor (bit_xor v r.a) (u16 (sub32 r.a (v + carry_of r)))) 0x10)
      ≡ ltb (r.a % 16) (v % 16 + carry_of r)
  half_borrow =
      let a_fits = valid.a_fits in
      ground (arith, bit4_of_xor3 v r.a (u16 (sub32 r.a (v + carry_of r))))

  half_borrow' :
      to_bool (bit_and (bit_xor (bit_xor v (u16 (sub32 r.a (v + carry_of r)))) r.a) 0x10)
      ≡ ltb (r.a % 16) (v % 16 + carry_of r)
  half_borrow' =
      let a_fits = valid.a_fits in
      ground (arith, bit4_of_xor3 v (u16 (sub32 r.a (v + carry_of r))) r.a)

  borrow : to_bool (bit_and (u16 (sub32 r.a (v + carry_of r))) 0xff00) ≡ ltb r.a (v + carry_of r)
  borrow =
      let a_fits = valid.a_fits in
      ground (arith, bit_and-high_byte (u16 (sub32 r.a (v + carry_of r))))

  -- For a byte operand, the macro DO_SBC leaves the difference with borrow and its four flags.
  pub do_sbc-subtracted : do_sbc v r ≡ subtracted v (carry_of r) r
  unfolding do_sbc
  do_sbc-subtracted =
      let a_fits = valid.a_fits in
      rw (no_flags r.f valid.f_flags, carry-test_flag r, half_borrow, borrow, or_hcnz) ground arith

  -- For a byte operand, the separate code of the SBC instructions on memory leaves the same
  -- difference and flags as the macro is held to.
  pub sbc_word-subtracted : sbc_word v r ≡ subtracted v (carry_of r) r
  unfolding sbc_word
  sbc_word-subtracted =
      let a_fits = valid.a_fits in
      rw (no_flags r.f valid.f_flags, carry-test_flag r, half_borrow', borrow, or_hczn) ground arith
