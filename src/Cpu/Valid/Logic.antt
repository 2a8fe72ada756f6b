-- ===== src/Cpu/Valid/Logic.antt =====
-- Well-formedness: the logical macros of emu/cpu/cpu_ops.c, and those on single bits.
use realboy.Prelude.{ℕ, ◌<◌, ◌==◌, arith, bit_and, if-holds}
use realboy.Prelude.Bits.{bit_and-le, bit_and-le_mask, bit_or-lt, bit_xor-lt}
use realboy.Machine.{Registers}
use realboy.Machine.Valid.{RegistersValid}
use realboy.Cpu.Logic.{do_and, do_xor, do_or, do_bit, daa_acc, do_daa, do_cpl, do_scf, do_ccf}
use realboy.Cpu.Valid.Flags.{
  and-FlagByte, or-FlagByte, or_if-FlagByte, zero-FlagByte, carry-FlagByte, flag_128, flag_96,
  flag_32, flag_16, with_f-Valid, with_fa-Valid,
}

module _ (x : ℕ) (r : Registers) (v : RegistersValid r) where
  pub do_and-Valid : RegistersValid (do_and x r)
  unfolding do_and
  do_and-Valid =
      with_fa-Valid r _ _ v
        (or-FlagByte _ _ (or-FlagByte _ _ (and-FlagByte _ _ v.f_flags) flag_32) (zero-FlagByte _))
        (omega (arith, bit_and-le r.a x))

  module _ (h : x < 256) where
    pub do_xor-Valid : RegistersValid (do_xor x r)
    unfolding do_xor
    do_xor-Valid =
        with_fa-Valid r _ _ v (or-FlagByte _ _ (and-FlagByte _ _ v.f_flags) (zero-FlagByte _))
          (bit_xor-lt r.a x v.a_fits h)

    pub do_or-Valid : RegistersValid (do_or x r)
    unfolding do_or
    do_or-Valid =
        with_fa-Valid r _ _ v (or-FlagByte _ _ (and-FlagByte _ _ v.f_flags) (zero-FlagByte _))
          (bit_or-lt r.a x v.a_fits h)

  pub do_bit-Valid : (k : ℕ) → RegistersValid (do_bit k x r)
  unfolding do_bit
  do_bit-Valid k =
      with_f-Valid r _ v
        (or-FlagByte _ _ (or-FlagByte _ _ (and-FlagByte _ _ v.f_flags) flag_32) (zero-FlagByte _))

module _ (r : Registers) (v : RegistersValid r) where
  pub do_daa-Valid : RegistersValid (do_daa r)
  unfolding do_daa
  do_daa-Valid =
      let acc_lt : bit_and (daa_acc r) 0xff < 256 =
        omega (arith, bit_and-le_mask (daa_acc r) 255) in
      if-holds RegistersValid (bit_and (daa_acc r) 0xff == 0) _ _
        (with_fa-Valid r _ _ v
          (or-FlagByte _ _ (or_if-FlagByte _ _ _ (and-FlagByte _ _ v.f_flags) flag_16) flag_128)
          acc_lt)
        (with_fa-Valid r _ _ v
          (and-FlagByte _ _ (or_if-FlagByte _ _ _ (and-FlagByte _ _ v.f_flags) flag_16)) acc_lt)

  pub do_cpl-Valid : RegistersValid (do_cpl r)
  unfolding do_cpl
  do_cpl-Valid = with_fa-Valid r _ _ v (or-FlagByte _ _ v.f_flags flag_96) (omega arith)

  pub do_scf-Valid : RegistersValid (do_scf r)
  unfolding do_scf
  do_scf-Valid = with_f-Valid r _ v (and-FlagByte _ _ (or-FlagByte _ _ v.f_flags flag_16))

  pub do_ccf-Valid : RegistersValid (do_ccf r)
  unfolding do_ccf
  do_ccf-Valid =
      with_f-Valid r _ v
        (and-FlagByte _ _ (or-FlagByte _ _ (and-FlagByte _ _ v.f_flags) (carry-FlagByte _)))
