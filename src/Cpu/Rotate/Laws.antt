-- ===== src/Cpu/Rotate/Laws.antt =====
-- About the rotates and shifts of emu/cpu/cpu_ops.c: the byte and the carry that each leaves.
use realboy.Prelude.{
  ℕ, ◌+◌, ◌*◌, ◌/◌, ◌%◌, ◌<◌, ◌≡◌, refl, ap, arith, Bool, true, false, bit_and, bit_or, leb, ◌==◌,
  if◌then◌else◌, to_bool, to_int, not8,
}
use realboy.Prelude.Bits.{bit_and_step, bit_and-zero, bit_and-above, bit_or_step}
use realboy.Prelude.Masks.{
  bit_and-ones, bit_and-nibble, bit_or-zero, bit_or-zero_left, bit_or-low_bit, bit_or-above,
}
use realboy.Machine.{Registers}
use realboy.Machine.Valid.{RegistersValid}
use realboy.Cpu.Flags.{flags, test_flag, flag_carry, bool_to_zero_flag, bool_to_carry_flag}
use realboy.Cpu.Arith.Sums.{no_flags, carry_of, carry-test_flag}
use realboy.Cpu.Rotate.{do_rlc, do_rl, do_rrc, do_rr, do_sla, do_sra, do_srl, do_swp}

-- A byte, the flag Z by it, and a carry.
abbrev pub shifted : ℕ → Bool → Registers → ℕ × Registers
shifted x c r = (x, record r { f = flags (x == 0) false false c })

or_cz :
    (c z : Bool)
    → bit_or (bit_or 0 (bool_to_carry_flag c)) (bool_to_zero_flag z) ≡ flags z false false c
unfolding bool_to_carry_flag bool_to_zero_flag
or_cz true true = refl
or_cz true false = refl
or_cz false true = refl
or_cz false false = refl

bit_and-one : (v : ℕ) → bit_and v 1 ≡ v % 2
bit_and-one v = omega (arith, bit_and_step v 1, bit_and-zero (v / 2))

bit_and-eight : (w : ℕ) → bit_and w 8 ≡ w / 8 % 2 * 8
bit_and-eight w = omega (
  arith,
  bit_and_step w 8,
  bit_and_step (w / 2) 4,
  bit_and_step (w / 2 / 2) 2,
  bit_and_step (w / 2 / 2 / 2) 1,
  bit_and-zero (w / 2 / 2 / 2 / 2),
)

bit_or-eight : (w : ℕ) → w < 8 → bit_or w 8 ≡ w + 8
bit_or-eight w h = omega (
  arith,
  bit_or_step w 8,
  bit_or_step (w / 2) 4,
  bit_or_step (w / 2 / 2) 2,
  bit_or_step (w / 2 / 2 / 2) 1,
  bit_or-zero (w / 2 / 2 / 2 / 2),
)

bit_or-top : (c : Bool) (x : ℕ) → x < 128 → bit_or x (to_int c * 128) ≡ x + to_int c * 128
bit_or-top true x h = omega (arith, bit_or-above x 8, bit_or-eight (x / 16) (omega arith))
bit_or-top false x h = omega (arith, bit_or-zero x)

top_bit : (v : ℕ) → v < 256 → to_bool (bit_and v 0x80) ≡ leb 128 v
top_bit v h = ground (arith, bit_and-above v 8, bit_and-eight (v / 16))

low_bit : (v : ℕ) → to_bool (bit_and v 1) ≡ (v % 2 == 1)
low_bit v = ground (arith, bit_and-one v)

bit_and-even : (v : ℕ) → v < 128 → bit_and (v * 2 % 256) 254 ≡ v * 2
bit_and-even v h =
    omega (
      arith,
      bit_and_step (v * 2 % 256) 254,
      ap (λ (x : ℕ). bit_and x 127) half,
      bit_and-ones 7 v h,
    )
  where
    half : v * 2 % 256 / 2 ≡ v
    half = omega arith

module _ (v : ℕ) (r : Registers) (fits : v < 256) (valid : RegistersValid r) where
  pub do_sla_lem : do_sla v r ≡ shifted (v * 2 % 256) (leb 128 v) r
  unfolding do_sla
  do_sla_lem = rw (no_flags r.f valid.f_flags, top_bit v fits, or_cz) refl

  rotated_in : (c : Bool) → bit_or (v * 2 % 256) (to_int c) ≡ v * 2 % 256 + to_int c
  rotated_in true = bit_or-low_bit (v * 2 % 256) 1 (omega arith) (omega arith)
  rotated_in false = bit_or-low_bit (v * 2 % 256) 0 (omega arith) (omega arith)

  pub do_rl_lem : do_rl v r ≡ shifted (v * 2 % 256 + carry_of r) (leb 128 v) r
  unfolding do_rl
  do_rl_lem =
      rw
        (
          no_flags r.f valid.f_flags,
          top_bit v fits,
          rotated_in (test_flag flag_carry r),
          carry-test_flag r,
          or_cz,
        )
        refl

  even : bit_and (v * 2 % 256) 254 ≡ v * 2 % 256
  even =
      omega (arith, bit_and_step (v * 2 % 256) 254, bit_and-ones 7 (v * 2 % 256 / 2) (omega arith))

  pub do_rlc_lem : do_rlc v r ≡ shifted (v * 2 % 256 + v / 128) (leb 128 v) r
  unfolding do_rlc
  do_rlc_lem =
      rw (no_flags r.f valid.f_flags, top_bit v fits, even, rotated_in (leb 128 v), or_cz, top_int)
        refl
    where
      top_int : to_int (leb 128 v) ≡ v / 128
      top_int = ground arith

  halved : bit_and (v / 2) 127 ≡ v / 2
  halved = bit_and-ones 7 (v / 2) (omega arith)

  low_top : (if v % 2 == 1 then 128 else 0) ≡ to_int (v % 2 == 1) * 128
  low_top = ground arith

  low_int : to_int (v % 2 == 1) ≡ v % 2
  low_int = ground arith

  pub do_rrc_lem : do_rrc v r ≡ shifted (v / 2 + v % 2 * 128) (v % 2 == 1) r
  unfolding do_rrc
  do_rrc_lem =
      rw
        (
          no_flags r.f valid.f_flags,
          low_bit v,
          halved,
          low_top,
          bit_or-top (v % 2 == 1) (v / 2) (omega arith),
          or_cz,
          low_int,
        )
        refl

  pub do_rr_lem : do_rr v r ≡ shifted (v / 2 + carry_of r * 128) (v % 2 == 1) r
  unfolding do_rr
  do_rr_lem =
      rw
        (
          no_flags r.f valid.f_flags,
          low_bit v,
          halved,
          bit_or-top (test_flag flag_carry r) (v / 2) (omega arith),
          carry-test_flag r,
          or_cz,
        )
        refl

  nibbles : bit_or (v / 16) (v % 16 * 16) ≡ v / 16 + v % 16 * 16
  nibbles = omega (
    arith,
    bit_or-above (v / 16) (v % 16),
    ap (λ (x : ℕ). bit_or x (v % 16)) none,
    bit_or-zero_left (v % 16),
  )
    where
      none : v / 16 / 16 ≡ 0
      none = omega arith

  or_z : (z : Bool) → bit_or 0 (bool_to_zero_flag z) ≡ flags z false false false
  unfolding bool_to_zero_flag
  or_z true = refl
  or_z false = refl

  pub do_swp_lem : do_swp v r ≡ shifted (v / 16 + v % 16 * 16) false r
  unfolding do_swp
  do_swp_lem = rw (no_flags r.f valid.f_flags, bit_and-nibble v, nibbles, or_z) refl

  or_sra :
      (c : Bool) (z : Bool)
      → bit_or (bit_or 0 (to_int c * 16)) (bool_to_zero_flag z) ≡ flags z false false c
  unfolding bool_to_zero_flag
  or_sra true true = refl
  or_sra true false = refl
  or_sra false true = refl
  or_sra false false = refl

  or_srl :
      (c : Bool) (z : Bool)
      → bit_or 0 (bit_or (bool_to_zero_flag z) (to_int c * 16)) ≡ flags z false false c
  unfolding bool_to_zero_flag
  or_srl true true = refl
  or_srl true false = refl
  or_srl false true = refl
  or_srl false false = refl

  low_carry : bit_and v 1 ≡ to_int (v % 2 == 1)
  low_carry = ground (arith, bit_and-one v)

  pub do_srl_lem : do_srl v r ≡ shifted (v / 2) (v % 2 == 1) r
  unfolding do_srl
  do_srl_lem = rw (no_flags r.f valid.f_flags, low_carry, or_srl) refl

  top_kept : bit_and v 128 ≡ to_int (leb 128 v) * 128
  top_kept = ground (arith, bit_and-above v 8, bit_and-eight (v / 16))

  signed :
      (b : Bool)
      → bit_or (bit_and (v / 2) (not8 (to_int b * 128))) (to_int b * 128) ≡ v / 2 + to_int b * 128
  signed true = rw halved (bit_or-top true (v / 2) (omega arith))
  signed false = rw (bit_and-ones 8 (v / 2) (omega arith)) (bit_or-top false (v / 2) (omega arith))

  -- SRA halves a byte and keeps its bit 7, with the bit that falls out as the carry.
  pub do_sra_lem : do_sra v r ≡ shifted (v / 2 + v / 128 * 128) (v % 2 == 1) r
  unfolding do_sra
  do_sra_lem =
      rw (no_flags r.f valid.f_flags, low_carry, top_kept, signed (leb 128 v), or_sra, top_int) refl
    where
      top_int : to_int (leb 128 v) ≡ v / 128
      top_int = ground arith
