-- ===== src/Cpu/Valid/Arith.antt =====
-- Well-formedness: the arithmetic macros of emu/cpu/cpu_ops.c.
use realboy.Prelude.{ℕ, ◌<◌, arith}
use realboy.Machine.{Registers}
use realboy.Machine.Valid.{RegistersValid}
use realboy.Cpu.Arith.{
  do_add, do_adc, adc_word, do_sub, do_sbc, sbc_word, do_cp, do_inc, inc_load, do_dec, dec_load,
  do_add16, add_sp, ld_hl_sp,
}
use realboy.Cpu.Valid.Flags.{
  and-FlagByte, or-FlagByte, or_if-FlagByte, zero-FlagByte, half-FlagByte, carry-FlagByte, flag_128,
  flag_64, flag_32, flag_16, with_f-Valid, with_fa-Valid, with_hl-Valid, with_sp-Valid,
}

module _ (x : ℕ) (r : Registers) (v : RegistersValid r) where
  pub do_add-Valid : RegistersValid (do_add x 0 r)
  unfolding do_add
  do_add-Valid =
      with_fa-Valid r _ _ v
        (or-FlagByte _ _
          (or-FlagByte _ _ (or-FlagByte _ _ (and-FlagByte _ _ v.f_flags) (carry-FlagByte _))
            (half-FlagByte _))
          (zero-FlagByte _))
        (omega arith)

  pub do_adc-Valid : RegistersValid (do_adc x r)
  unfolding do_adc
  do_adc-Valid =
      with_fa-Valid r _ _ v
        (or_if-FlagByte _ _ _
          (or-FlagByte _ _ (or_if-FlagByte _ _ _ (and-FlagByte _ _ v.f_flags) flag_32)
            (zero-FlagByte _))
          flag_16)
        (omega arith)

  pub adc_word-Valid : RegistersValid (adc_word x r)
  unfolding adc_word
  adc_word-Valid =
      with_fa-Valid r _ _ v
        (or_if-FlagByte _ _ _
          (or_if-FlagByte _ _ _ (or_if-FlagByte _ _ _ (and-FlagByte _ _ v.f_flags) flag_32) flag_16)
          flag_128)
        (omega arith)

  pub do_sub-Valid : RegistersValid (do_sub x 0 r)
  unfolding do_sub
  do_sub-Valid =
      with_fa-Valid r _ _ v
        (or-FlagByte _ _
          (or-FlagByte _ _
            (or-FlagByte _ _ (or-FlagByte _ _ (and-FlagByte _ _ v.f_flags) (carry-FlagByte _))
              (half-FlagByte _))
            (zero-FlagByte _))
          flag_64)
        (omega arith)

  pub do_sbc-Valid : RegistersValid (do_sbc x r)
  unfolding do_sbc
  do_sbc-Valid =
      with_fa-Valid r _ _ v
        (or_if-FlagByte _ _ _
          (or-FlagByte _ _
            (or_if-FlagByte _ _ _ (or_if-FlagByte _ _ _ (and-FlagByte _ _ v.f_flags) flag_32)
              flag_16)
            flag_64)
          flag_128)
        (omega arith)

  pub sbc_word-Valid : RegistersValid (sbc_word x r)
  unfolding sbc_word
  sbc_word-Valid =
      with_fa-Valid r _ _ v
        (or-FlagByte _ _
          (or_if-FlagByte _ _ _
            (or_if-FlagByte _ _ _ (or_if-FlagByte _ _ _ (and-FlagByte _ _ v.f_flags) flag_32)
              flag_16)
            flag_128)
          flag_64)
        (omega arith)

  pub do_cp-Valid : RegistersValid (do_cp x r)
  unfolding do_cp
  do_cp-Valid = with_f-Valid r _ v (
      or-FlagByte _ _
        (or-FlagByte _ _
          (or-FlagByte _ _ (or-FlagByte _ _ (and-FlagByte _ _ v.f_flags) (zero-FlagByte _))
            (carry-FlagByte _))
          (half-FlagByte _))
        flag_64)

  pub do_inc-Valid : RegistersValid (do_inc x r).1 × ((do_inc x r).0 < 256)
  unfolding do_inc
  do_inc-Valid = (
    with_f-Valid r _ v (
        or-FlagByte _ _ (or-FlagByte _ _ (and-FlagByte _ _ v.f_flags) (zero-FlagByte _))
          (half-FlagByte _)),
    omega arith,
  )

  pub inc_load-Valid : RegistersValid (inc_load x r).1 × ((inc_load x r).0 < 256)
  unfolding inc_load
  inc_load-Valid = (
    with_f-Valid r _ v (or-FlagByte _ _ (and-FlagByte _ _ v.f_flags) (half-FlagByte _)),
    omega arith,
  )

  pub do_dec-Valid : RegistersValid (do_dec x r).1 × ((do_dec x r).0 < 256)
  unfolding do_dec
  do_dec-Valid = (
    with_f-Valid r _ v (
        or-FlagByte _ _
          (or-FlagByte _ _ (or-FlagByte _ _ (and-FlagByte _ _ v.f_flags) (zero-FlagByte _))
            (half-FlagByte _))
          flag_64),
    omega arith,
  )

  pub dec_load-Valid : RegistersValid (dec_load x r).1 × ((dec_load x r).0 < 256)
  unfolding dec_load
  dec_load-Valid = (
    with_f-Valid r _ v
        (or-FlagByte _ _ (or-FlagByte _ _ (and-FlagByte _ _ v.f_flags) (half-FlagByte _)) flag_64),
    omega arith,
  )

  pub do_add16-Valid : RegistersValid (do_add16 x r)
  unfolding do_add16
  do_add16-Valid =
      with_hl-Valid _ _
        (with_f-Valid r _ v (
          or-FlagByte _ _ (or-FlagByte _ _ (and-FlagByte _ _ v.f_flags) (carry-FlagByte _))
            (half-FlagByte _)))
        (omega arith)

  pub add_sp-Valid : RegistersValid (add_sp x r)
  unfolding add_sp
  add_sp-Valid =
      with_sp-Valid _ _
        (with_f-Valid r _ v (
          or_if-FlagByte _ _ _ (or-FlagByte _ _ (and-FlagByte _ _ v.f_flags) (half-FlagByte _))
            flag_16))
        (omega arith)

  pub ld_hl_sp-Valid : RegistersValid (ld_hl_sp x r)
  unfolding ld_hl_sp
  ld_hl_sp-Valid =
      with_hl-Valid _ _
        (with_f-Valid r _ v (
          or_if-FlagByte _ _ _ (or-FlagByte _ _ (and-FlagByte _ _ v.f_flags) (half-FlagByte _))
            flag_16))
        (omega arith)
