-- ===== src/Cpu/Arith/Sums.antt =====
-- The additions of emu/cpu/cpu_ops.c against one description of a sum and its flags.
use realboy.Prelude.{
  ℕ, ◌+◌, ◌/◌, ◌%◌, ◌^◌, ◌<◌, ◌≡◌, refl, arith, Bool, true, false, bit_and, bit_or, bit_xor, leb,
  ◌==◌, u16, u32, to_bool, to_int,
}
use realboy.Prelude.Bits.{bit4_of_xor3, bit_and-sixteen}
use realboy.Prelude.Masks.{bit_and-nibble, bit_and-high_byte}
use realboy.Machine.{Registers}
use realboy.Machine.Valid.{FlagByte, RegistersValid}
use realboy.Cpu.Flags.{flags, or_if, test_flag, flag_carry, bool_to_zero_flag}
use realboy.Cpu.Flags.Laws.{is_add_half_carry_lem, is_add_carry_lem, or_zhc}
use realboy.Cpu.Arith.{do_add, do_adc, adc_word}

-- The carry flag as a number.
abbrev pub carry_of : Registers → ℕ
carry_of r = r.f / 16 % 2

-- A + v + carry, and the four flags of that sum.
abbrev pub added : ℕ → ℕ → Registers → Registers
added v carry r = record r {
  a = (r.a + v + carry) % 256;
  f =
      flags ((r.a + v + carry) % 256 == 0) false (leb 16 (r.a % 16 + v % 16 + carry))
        (leb 256 (r.a + v + carry));
}

pub no_flags : (f : ℕ) → FlagByte f → bit_and f 15 ≡ 0
no_flags f v = omega (arith, bit_and-nibble f)

pub carry-test_flag : (r : Registers) → to_int (test_flag flag_carry r) ≡ carry_of r
carry-test_flag r = ground (arith, bit_and-sixteen r.f)

or_hzc :
    (c h z : Bool) → or_if c (bit_or (or_if h 0 32) (bool_to_zero_flag z)) 16 ≡ flags z false h c
unfolding bool_to_zero_flag or_if
or_hzc true true true = refl
or_hzc true true false = refl
or_hzc true false true = refl
or_hzc true false false = refl
or_hzc false true true = refl
or_hzc false true false = refl
or_hzc false false true = refl
or_hzc false false false = refl

or_hcz : (c h z : Bool) → or_if z (or_if c (or_if h 0 32) 16) 128 ≡ flags z false h c
unfolding or_if
or_hcz true true true = refl
or_hcz true true false = refl
or_hcz true false true = refl
or_hcz true false false = refl
or_hcz false true true = refl
or_hcz false true false = refl
or_hcz false false true = refl
or_hcz false false false = refl

-- An operand is a byte, or the pattern of a byte that was read as signed: its low byte counts.
module _ (v : ℕ) (r : Registers) (fits : v < 2 ^ 32) (valid : RegistersValid r) where
  operand : u32 (v + 0) ≡ v
  operand = omega arith

  -- For a byte operand, or the 32-bit pattern of one that was read as signed, the macro DO_ADD
  -- leaves the sum modulo 256 in A, and Z, N, H and C as the sum and its carries out of the low
  -- nibble and of the byte have them.
  pub do_add-added : do_add v 0 r ≡ added (v % 256) 0 r
  unfolding do_add
  do_add-added =
      let a_fits = valid.a_fits in
      rw
        (
          operand,
          no_flags r.f valid.f_flags,
          is_add_half_carry_lem r.a v a_fits fits,
          is_add_carry_lem r.a v a_fits fits,
          or_zhc,
        )
        ground arith

module _ (v : ℕ) (r : Registers) (fits : v < 256) (valid : RegistersValid r) where
  half_carry :
      (s : ℕ)
      → s ≡ r.a + v + carry_of r
      → to_bool (bit_and (bit_xor (bit_xor v r.a) s) 0x10) ≡ leb 16 (r.a % 16 + v % 16 + carry_of r)
  half_carry s e = let a_fits = valid.a_fits in ground (arith, bit4_of_xor3 v r.a s)

  half_carry' :
      (s : ℕ)
      → s ≡ r.a + v + carry_of r
      → to_bool (bit_and (bit_xor (bit_xor v s) r.a) 0x10) ≡ leb 16 (r.a % 16 + v % 16 + carry_of r)
  half_carry' s e = let a_fits = valid.a_fits in ground (arith, bit4_of_xor3 v s r.a)

  high_byte :
      (s : ℕ)
      → s ≡ r.a + v + carry_of r
      → to_bool (bit_and s 0xff00) ≡ leb 256 (r.a + v + carry_of r)
  high_byte s e = let a_fits = valid.a_fits in ground (arith, bit_and-high_byte s)

  -- For a byte operand, the macro DO_ADC leaves the sum with carry and its four flags.
  pub do_adc-added : do_adc v r ≡ added v (carry_of r) r
  unfolding do_adc
  do_adc-added =
      rw
        (
          no_flags r.f valid.f_flags,
          carry-test_flag r,
          half_carry (r.a + v + carry_of r) refl,
          high_byte (r.a + v + carry_of r) refl,
          or_hzc,
        )
        ground arith

  sum_fits : u16 (r.a + v + carry_of r) ≡ r.a + v + carry_of r
  sum_fits = let a_fits = valid.a_fits in omega arith

  -- For a byte operand, the separate code of the ADC instructions on memory leaves the same sum and
  -- flags as the macro is held to.
  pub adc_word-added : adc_word v r ≡ added v (carry_of r) r
  unfolding adc_word
  adc_word-added =
      rw
        (
          no_flags r.f valid.f_flags,
          carry-test_flag r,
          sum_fits,
          half_carry' (r.a + v + carry_of r) refl,
          high_byte (r.a + v + carry_of r) refl,
          or_hcz,
        )
        ground arith
