-- ===== src/Cpu/Arith/Together.antt =====
-- The arithmetic macros of emu/cpu/cpu_ops.c side by side.
use realboy.Prelude.{ℕ, ◌+◌, ◌%◌, ◌^◌, ◌<◌, ◌≡◌, true, false, ltb, leb, ◌==◌, if◌then◌else◌}
use realboy.Machine.{Registers, reg_hl_of, set_reg16, reg_hl}
use realboy.Machine.Valid.{RegistersValid}
use realboy.Cpu.Flags.{flags}
use realboy.Cpu.Arith.{
  do_add, do_adc, adc_word, do_sub, do_sbc, sbc_word, do_cp, do_inc, do_dec, do_add16, add_sp,
  ld_hl_sp,
}
use realboy.Cpu.Arith.Sums.{carry_of, added, do_add-added, do_adc-added, adc_word-added}
use realboy.Cpu.Arith.Differences.{
  subtracted, do_sub-subtracted, do_sbc-subtracted, sbc_word-subtracted, do_cp-subtracted,
}
use realboy.Cpu.Arith.Steps.{
  is_carry, is_zero, do_inc_lem, do_dec_lem, do_add16_lem, add_sp_lem, ld_hl_sp_lem,
}

module _ (r : Registers) (valid : RegistersValid r) where
  -- For a valid cpu, the macros DO_ADD and DO_ADC and the separate code of ADC on memory leave the
  -- sum modulo 256, with carry for ADC, and Z, N, H and C as the sum and its carries out of the low
  -- nibble and of the byte have them. The operand is a byte, for DO_ADD any 32-bit pattern, of
  -- which the low byte counts.
  pub sums_lem :
      (v w : ℕ)
      → v < 256
      → w < 2 ^ 32
      → (do_add w 0 r ≡ added (w % 256) 0 r)
        × (do_adc v r ≡ added v (carry_of r) r)
        × (adc_word v r ≡ added v (carry_of r) r)
  sums_lem v w h k =
      (do_add-added w r k valid, do_adc-added v r h valid, adc_word-added v r h valid)

  -- For a valid cpu, the macros DO_SUB, DO_SBC and DO_CP and the separate code of SBC on memory
  -- leave the difference modulo 256, with borrow for SBC, and Z, N, H and C as the difference and
  -- its borrows out of the low nibble and of the byte have them; DO_CP leaves A alone. The operand
  -- is a byte, for DO_SUB any 32-bit pattern, of which the low byte counts.
  pub differences_lem :
      (v w : ℕ)
      → v < 256
      → w < 2 ^ 32
      → (do_sub w 0 r ≡ subtracted (w % 256) 0 r)
        × (do_sbc v r ≡ subtracted v (carry_of r) r)
        × (sbc_word v r ≡ subtracted v (carry_of r) r)
        × (do_cp v r ≡ record (subtracted v 0 r) { a = r.a })
  differences_lem v w h k = (
    do_sub-subtracted w r k valid,
    do_sbc-subtracted v r h valid,
    sbc_word-subtracted v r h valid,
    do_cp-subtracted v r h valid,
  )

  -- For a valid cpu, an increment of a byte wraps at 256 and a decrement below 0; both set Z and H
  -- by the result and keep C, the one clears N and the other sets it.
  pub steps_lem :
      (reg : ℕ)
      → reg < 256
      → (do_inc reg r ≡ (
        (reg + 1) % 256,
        record r { f = flags ((reg + 1) % 256 == 0) false (leb 16 (reg % 16 + 1)) (is_carry r) },
      ))
        × (do_dec reg r ≡ (
          (reg + 255) % 256,
          record r { f = flags ((reg + 255) % 256 == 0) true (reg % 16 == 0) (is_carry r) },
        ))
  steps_lem reg h = (do_inc_lem r valid reg h, do_dec_lem r valid reg h)

  -- For a valid cpu, ADD HL with a word leaves the sum modulo 65536 and keeps Z, with H and C as
  -- its carries out of the bits 11 and 15. ADD SP and LD HL,SP with a signed byte leave its sum
  -- with SP modulo 65536, with H and C as the carries of the low byte of SP and the byte as
  -- unsigned. N is clear.
  pub words_lem :
      (reg load : ℕ)
      → reg < 65536
      → load < 256
      → (do_add16 reg r
          ≡ set_reg16 reg_hl ((reg_hl_of r + reg) % 65536) (record r {
            f =
                flags
                  (is_zero r)
                  false
                  (leb 4096 (reg_hl_of r % 4096 + reg % 4096))
                  (leb 65536 (reg_hl_of r + reg));
          }))
        × (add_sp load r ≡ record r {
          sp = (r.sp + load + (if ltb load 128 then 0 else 65280)) % 65536;
          f = flags false false (leb 16 (r.sp % 16 + load % 16)) (leb 256 (r.sp % 256 + load));
        })
        × (ld_hl_sp load r
            ≡ set_reg16 reg_hl
                ((r.sp + load + (if ltb load 128 then 0 else 65280)) % 65536)
                (record r {
                  f =
                      flags false false
                        (leb 16 (r.sp % 16 + load % 16))
                        (leb 256 (r.sp % 256 + load));
                }))
  words_lem reg load h k =
      (do_add16_lem r valid reg h, add_sp_lem r valid load k, ld_hl_sp_lem r valid load k)
