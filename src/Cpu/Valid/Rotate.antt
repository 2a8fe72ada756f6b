-- ===== src/Cpu/Valid/Rotate.antt =====
-- Well-formedness: the rotate and shift macros of emu/cpu/cpu_ops.c.
use realboy.Prelude.{ℕ, ◌*◌, ◌/◌, ◌<◌, arith, Bool, true, false, bit_and, to_int, to_bool, not8, u8}
use realboy.Prelude.Bits.{bit_and-le, bit_and-le_mask, bit_or-lt}
use realboy.Machine.{Registers}
use realboy.Machine.Valid.{FlagByte, RegistersValid}
use realboy.Cpu.Rotate.{do_rlc, do_rl, do_rrc, do_rr, do_sla, do_sra, do_srl, do_swp}
use realboy.Cpu.Valid.Flags.{and-FlagByte, or-FlagByte, zero-FlagByte, carry-FlagByte, with_f-Valid}

bool-lt : (b : Bool) → to_int b < 256
bool-lt true = omega arith
bool-lt false = omega arith

bool-lt-two : (b : Bool) → to_int b < 2
bool-lt-two true = omega arith
bool-lt-two false = omega arith

-- A carry that is computed as `value & 0x01`, moved to its place.
low_bit-FlagByte : (x : ℕ) → FlagByte (bit_and x 1 * 16)
low_bit-FlagByte x = omega (arith, bit_and-le_mask x 1)

module _ (x : ℕ) (r : Registers) (v : RegistersValid r) (h : x < 256) where
  pub do_rlc-Valid : RegistersValid (do_rlc x r).1 × ((do_rlc x r).0 < 256)
  unfolding do_rlc
  do_rlc-Valid = (
    with_f-Valid r _ v (
        or-FlagByte _ _ (or-FlagByte _ _ (and-FlagByte _ _ v.f_flags) (carry-FlagByte _))
          (zero-FlagByte _)),
    bit_or-lt _ _ (omega (arith, bit_and-le (u8 (x * 2)) 254)) (bool-lt _),
  )

  pub do_rl-Valid : RegistersValid (do_rl x r).1 × ((do_rl x r).0 < 256)
  unfolding do_rl
  do_rl-Valid = (
    with_f-Valid r _ v (
        or-FlagByte _ _ (or-FlagByte _ _ (and-FlagByte _ _ v.f_flags) (carry-FlagByte _))
          (zero-FlagByte _)),
    bit_or-lt _ _ (omega arith) (bool-lt _),
  )

  pub do_rrc-Valid : RegistersValid (do_rrc x r).1 × ((do_rrc x r).0 < 256)
  unfolding do_rrc
  do_rrc-Valid = (
    with_f-Valid r _ v (
        or-FlagByte _ _ (or-FlagByte _ _ (and-FlagByte _ _ v.f_flags) (carry-FlagByte _))
          (zero-FlagByte _)),
    bit_or-lt _ _ (omega (arith, bit_and-le (x / 2) 127)) (ground arith),
  )

  pub do_rr-Valid : RegistersValid (do_rr x r).1 × ((do_rr x r).0 < 256)
  unfolding do_rr
  do_rr-Valid = (
    with_f-Valid r _ v (
        or-FlagByte _ _ (or-FlagByte _ _ (and-FlagByte _ _ v.f_flags) (carry-FlagByte _))
          (zero-FlagByte _)),
    bit_or-lt _ _ (omega (arith, bit_and-le (x / 2) 127))
        (omega (arith, bool-lt-two (to_bool (bit_and r.f 16)))),
  )

  pub do_sla-Valid : RegistersValid (do_sla x r).1 × ((do_sla x r).0 < 256)
  unfolding do_sla
  do_sla-Valid = (
    with_f-Valid r _ v (
        or-FlagByte _ _ (or-FlagByte _ _ (and-FlagByte _ _ v.f_flags) (carry-FlagByte _))
          (zero-FlagByte _)),
    omega arith,
  )

  pub do_sra-Valid : RegistersValid (do_sra x r).1 × ((do_sra x r).0 < 256)
  unfolding do_sra
  do_sra-Valid = (
    with_f-Valid r _ v (
        or-FlagByte _ _ (or-FlagByte _ _ (and-FlagByte _ _ v.f_flags) (low_bit-FlagByte x))
          (zero-FlagByte _)),
    bit_or-lt _ _ (omega (arith, bit_and-le (x / 2) (not8 (bit_and x 128))))
        (omega (arith, bit_and-le x 128)),
  )

  pub do_srl-Valid : RegistersValid (do_srl x r).1 × ((do_srl x r).0 < 256)
  unfolding do_srl
  do_srl-Valid = (
    with_f-Valid r _ v (
        or-FlagByte _ _ (and-FlagByte _ _ v.f_flags)
          (or-FlagByte _ _ (zero-FlagByte _) (low_bit-FlagByte x))),
    omega arith,
  )

  pub do_swp-Valid : RegistersValid (do_swp x r).1 × ((do_swp x r).0 < 256)
  unfolding do_swp
  do_swp-Valid = (
    with_f-Valid r _ v (or-FlagByte _ _ (and-FlagByte _ _ v.f_flags) (zero-FlagByte _)),
    bit_or-lt _ _ (omega arith) (omega (arith, bit_and-le_mask x 15)),
  )
