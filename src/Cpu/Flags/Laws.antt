-- ===== src/Cpu/Flags/Laws.antt =====
-- What the flag macros compute: carries of the low nibble, of a byte and of a word.
use realboy.Prelude.{
  ℕ, ◌+◌, ◌%◌, ◌^◌, ◌<◌, ◌≡◌, refl, arith, Bool, true, false, bit_or, ltb, leb, sub32,
}
use realboy.Prelude.Bits.{bit4_of_xor3, bit12_of_xor3}
use realboy.Cpu.Flags.{
  bool_to_zero_flag, bool_to_half_carry_flag, bool_to_carry_flag, flags, is_add_half_carry,
  is_add_carry, is_add16_half_carry, is_add16_carry, is_sub_half_carry, is_sub_carry,
}

-- The first operand is a byte; the second may be any pattern of 32 bits, of which the low byte
-- counts.
module _ (a w : ℕ) (ha : a < 256) (hw : w < 2 ^ 32) where
  pub is_add_half_carry_lem : is_add_half_carry a w ≡ leb 16 (a % 16 + w % 16)
  unfolding is_add_half_carry
  is_add_half_carry_lem = ground (arith, bit4_of_xor3 a w ((a + w) % 2 ^ 32))

  pub is_add_carry_lem : is_add_carry a w ≡ leb 256 (a + w % 256)
  is_add_carry_lem = ground arith

  pub is_sub_half_carry_lem : is_sub_half_carry a w ≡ ltb (a % 16) (w % 16)
  unfolding is_sub_half_carry
  is_sub_half_carry_lem = ground (arith, bit4_of_xor3 a w (sub32 a w))

  pub is_sub_carry_lem : is_sub_carry a w ≡ ltb a (w % 256)
  is_sub_carry_lem = ground arith

module _ (a b : ℕ) (ha : a < 65536) (hb : b < 65536) where
  pub is_add16_half_carry_lem : is_add16_half_carry a b ≡ leb 4096 (a % 4096 + b % 4096)
  unfolding is_add16_half_carry
  is_add16_half_carry_lem = ground (arith, bit12_of_xor3 a b ((a + b) % 2 ^ 32))

  pub is_add16_carry_lem : is_add16_carry a b ≡ leb 65536 (a + b)
  is_add16_carry_lem = ground arith

-- The bits that the macros set one after another are those of `flags`.
pub or_zhc :
    (c h z : Bool)
    → bit_or
        (bit_or (bit_or 0 (bool_to_carry_flag c)) (bool_to_half_carry_flag h))
        (bool_to_zero_flag z)
      ≡ flags z false h c
unfolding bool_to_carry_flag bool_to_half_carry_flag bool_to_zero_flag
or_zhc true true true = refl
or_zhc true true false = refl
or_zhc true false true = refl
or_zhc true false false = refl
or_zhc false true true = refl
or_zhc false true false = refl
or_zhc false false true = refl
or_zhc false false false = refl
