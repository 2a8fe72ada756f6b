-- ===== src/Cpu/Arith/Steps.antt =====
-- Increments, decrements and the sums of words of emu/cpu/cpu_ops.c: the results, the flags that
-- they set, and those that they keep.
use realboy.Prelude.{
  ℕ, ◌+◌, ◌*◌, ◌/◌, ◌%◌, ◌<◌, ◌≡◌, refl, ap, ◌∙◌, arith, Bool, true, false, bit_and, bit_or, ltb,
  leb, ◌==◌, if◌then◌else◌, int8, u16, u32,
}
use realboy.Prelude.Bits.{bit_and_step, bit_and-zero, bit4_of_xor3}
use realboy.Machine.{Registers, reg_hl_of, set_reg16, reg_hl}
use realboy.Machine.Valid.{FlagByte, RegistersValid}
use realboy.Cpu.Flags.{
  flags, or_if, is_add_half_carry, bool_to_zero_flag, bool_to_half_carry_flag, bool_to_carry_flag,
}
use realboy.Cpu.Flags.Laws.{
  is_add_half_carry_lem, is_sub_half_carry_lem, is_add16_half_carry_lem, is_add16_carry_lem,
}
use realboy.Cpu.Arith.{do_inc, do_dec, do_add16, sp_carry, add_sp, ld_hl_sp}
use realboy.Cpu.Arith.Sums.{no_flags}

-- The flags of F.
abbrev pub is_zero : Registers → Bool
is_zero r = leb 128 r.f

abbrev pub is_subtract : Registers → Bool
is_subtract r = r.f / 64 % 2 == 1

abbrev pub is_half_carry : Registers → Bool
is_half_carry r = r.f / 32 % 2 == 1

abbrev pub is_carry : Registers → Bool
is_carry r = r.f / 16 % 2 == 1

-- The masks that drop some of the flags and keep the others.
module _ (f : ℕ) (v : FlagByte f) where
  keep_zero : bit_and f 143 ≡ bool_to_zero_flag (leb 128 f)
  unfolding bool_to_zero_flag
  keep_zero = let top = v.fits in let low = v.low_clear in ground (arith, keep_zero_digits)
    where
      keep_zero_digits : bit_and f 143 ≡ f / 128 * 128
      keep_zero_digits = omega (
        arith,
        bit_and_step f 143,
        bit_and_step (f / 2) 71,
        bit_and_step (f / 2 / 2) 35,
        bit_and_step (f / 2 / 2 / 2) 17,
        bit_and_step (f / 2 / 2 / 2 / 2) 8,
        bit_and_step (f / 2 / 2 / 2 / 2 / 2) 4,
        bit_and_step (f / 2 / 2 / 2 / 2 / 2 / 2) 2,
        bit_and_step (f / 2 / 2 / 2 / 2 / 2 / 2 / 2) 1,
        bit_and-zero (f / 2 / 2 / 2 / 2 / 2 / 2 / 2 / 2),
      )

  keep_carry : bit_and f 31 ≡ bool_to_carry_flag (f / 16 % 2 == 1)
  unfolding bool_to_carry_flag
  keep_carry = let top = v.fits in let low = v.low_clear in ground (arith, keep_carry_digits)
    where
      keep_carry_digits : bit_and f 31 ≡ f / 16 % 2 * 16
      keep_carry_digits = omega (
        arith,
        bit_and_step f 31,
        bit_and_step (f / 2) 15,
        bit_and_step (f / 2 / 2) 7,
        bit_and_step (f / 2 / 2 / 2) 3,
        bit_and_step (f / 2 / 2 / 2 / 2) 1,
        bit_and-zero (f / 2 / 2 / 2 / 2 / 2),
      )

  keep_subtract_carry : bit_and f 95 ≡ flags false (f / 64 % 2 == 1) false (f / 16 % 2 == 1)
  keep_subtract_carry =
      let top = v.fits in let low = v.low_clear in ground (arith, keep_subtract_carry_digits)
    where
      keep_subtract_carry_digits : bit_and f 95 ≡ f / 64 % 2 * 64 + f / 16 % 2 * 16
      keep_subtract_carry_digits = omega (
        arith,
        bit_and_step f 95,
        bit_and_step (f / 2) 47,
        bit_and_step (f / 2 / 2) 23,
        bit_and_step (f / 2 / 2 / 2) 11,
        bit_and_step (f / 2 / 2 / 2 / 2) 5,
        bit_and_step (f / 2 / 2 / 2 / 2 / 2) 2,
        bit_and_step (f / 2 / 2 / 2 / 2 / 2 / 2) 1,
        bit_and-zero (f / 2 / 2 / 2 / 2 / 2 / 2 / 2),
      )

or_czh :
    (c z h : Bool)
    → bit_or (bit_or (bool_to_carry_flag c) (bool_to_zero_flag z)) (bool_to_half_carry_flag h)
      ≡ flags z false h c
unfolding bool_to_carry_flag bool_to_half_carry_flag bool_to_zero_flag
or_czh true true true = refl
or_czh true true false = refl
or_czh true false true = refl
or_czh true false false = refl
or_czh false true true = refl
or_czh false true false = refl
or_czh false false true = refl
or_czh false false false = refl

or_ncz :
    (n c z h : Bool)
    → bit_or
        (bit_or (bit_or (flags false n false c) (bool_to_zero_flag z)) (bool_to_half_carry_flag h))
        64
      ≡ flags z true h c
unfolding bool_to_half_carry_flag bool_to_zero_flag
or_ncz true true true true = refl
or_ncz true true true false = refl
or_ncz true true false true = refl
or_ncz true true false false = refl
or_ncz true false true true = refl
or_ncz true false true false = refl
or_ncz true false false true = refl
or_ncz true false false false = refl
or_ncz false true true true = refl
or_ncz false true true false = refl
or_ncz false true false true = refl
or_ncz false true false false = refl
or_ncz false false true true = refl
or_ncz false false true false = refl
or_ncz false false false true = refl
or_ncz false false false false = refl

or_zch :
    (z c h : Bool)
    → bit_or (bit_or (bool_to_zero_flag z) (bool_to_carry_flag c)) (bool_to_half_carry_flag h)
      ≡ flags z false h c
unfolding bool_to_carry_flag bool_to_half_carry_flag bool_to_zero_flag
or_zch true true true = refl
or_zch true true false = refl
or_zch true false true = refl
or_zch true false false = refl
or_zch false true true = refl
or_zch false true false = refl
or_zch false false true = refl
or_zch false false false = refl

or_hc : (h c : Bool) → or_if c (bit_or 0 (bool_to_half_carry_flag h)) 16 ≡ flags false false h c
unfolding or_if bool_to_half_carry_flag
or_hc true true = refl
or_hc true false = refl
or_hc false true = refl
or_hc false false = refl

module _ (r : Registers) (valid : RegistersValid r) where
  -- An increment of a byte wraps at 256, sets Z and H by the result, clears N and keeps C.
  pub do_inc_lem :
      (reg : ℕ)
      → reg < 256
      → do_inc reg r ≡ (
        (reg + 1) % 256,
        record r { f = flags ((reg + 1) % 256 == 0) false (leb 16 (reg % 16 + 1)) (is_carry r) },
      )
  unfolding do_inc
  do_inc_lem reg fits =
      rw (keep_carry r.f valid.f_flags, is_add_half_carry_lem reg 1 fits (omega arith), or_czh) refl

  -- A decrement of a byte wraps below 0, sets Z and H by the result, sets N and keeps C.
  pub do_dec_lem :
      (reg : ℕ)
      → reg < 256
      → do_dec reg r ≡ (
        (reg + 255) % 256,
        record r { f = flags ((reg + 255) % 256 == 0) true (reg % 16 == 0) (is_carry r) },
      )
  unfolding do_dec
  do_dec_lem reg fits =
      rw
        (
          keep_subtract_carry r.f valid.f_flags,
          is_sub_half_carry_lem reg 1 fits (omega arith),
          or_ncz,
        )
        ground arith

  pub do_add16_lem :
      (reg : ℕ)
      → reg < 65536
      → do_add16 reg r
        ≡ set_reg16 reg_hl ((reg_hl_of r + reg) % 65536) (record r {
          f =
              flags
                (is_zero r)
                false
                (leb 4096 (reg_hl_of r % 4096 + reg % 4096))
                (leb 65536 (reg_hl_of r + reg));
        })
  unfolding do_add16
  do_add16_lem reg fits =
      rw
        (
          keep_zero r.f valid.f_flags,
          is_add16_half_carry_lem (reg_hl_of r) reg (omega arith) fits,
          is_add16_carry_lem (reg_hl_of r) reg (omega arith) fits,
          or_zch,
        )
        refl

  half_carry-sp :
      (load : ℕ) → load < 256 → is_add_half_carry r.sp (int8 load) ≡ leb 16 (r.sp % 16 + load % 16)
  unfolding is_add_half_carry
  half_carry-sp load fits =
      let sp_fits = valid.sp_fits in
      ground (arith, bit4_of_xor3 r.sp (int8 load) (u32 (r.sp + int8 load)))

  carry-sp :
      (load : ℕ) → load < 256 → sp_carry (u16 (r.sp + int8 load)) load ≡ leb 256 (r.sp % 256 + load)
  carry-sp load fits = let sp_fits = valid.sp_fits in ground arith

  pub add_sp_lem :
      (load : ℕ)
      → load < 256
      → add_sp load r ≡ record r {
        sp = (r.sp + load + (if ltb load 128 then 0 else 65280)) % 65536;
        f = flags false false (leb 16 (r.sp % 16 + load % 16)) (leb 256 (r.sp % 256 + load));
      }
  unfolding add_sp
  add_sp_lem load fits =
      rw (no_flags r.f valid.f_flags, half_carry-sp load fits, carry-sp load fits, or_hc) ground
        arith

  hl_carry-sp :
      (load : ℕ)
      → load < 256
      → (let w = u16 (r.sp + int8 load) in sp_carry (w / 256 * 256 + w % 256) load)
        ≡ leb 256 (r.sp % 256 + load)
  hl_carry-sp load fits =
      let w = u16 (r.sp + int8 load) in
      let whole : w / 256 * 256 + w % 256 ≡ w = omega arith in
      ap (λ x. sp_carry x load) whole ∙ carry-sp load fits

  pub ld_hl_sp_lem :
      (load : ℕ)
      → load < 256
      → ld_hl_sp load r
        ≡ set_reg16 reg_hl ((r.sp + load + (if ltb load 128 then 0 else 65280)) % 65536) (record r {
          f = flags false false (leb 16 (r.sp % 16 + load % 16)) (leb 256 (r.sp % 256 + load));
        })
  unfolding ld_hl_sp
  ld_hl_sp_lem load fits =
      rw (no_flags r.f valid.f_flags, half_carry-sp load fits, hl_carry-sp load fits, or_hc) ground
        arith
