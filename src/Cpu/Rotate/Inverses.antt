-- ===== src/Cpu/Rotate/Inverses.antt =====
-- About the rotates of emu/cpu/cpu_ops.c, one behind another.
use realboy.Prelude.{
  ℕ, ◌+◌, ◌*◌, ◌/◌, ◌%◌, ◌<◌, ◌≡◌, refl, ap, ◌∙◌, arith, Bool, true, false, leb, ◌==◌, to_int,
}
use realboy.Machine.{Registers}
use realboy.Machine.Valid.{FlagByte, RegistersValid}
use realboy.Cpu.Flags.{flags}
use realboy.Cpu.Arith.Sums.{carry_of}
use realboy.Cpu.Valid.Flags.{with_f-Valid}
use realboy.Cpu.Rotate.{do_rlc, do_rl, do_rrc, do_rr, do_swp}
use realboy.Cpu.Rotate.Laws.{shifted, do_rlc_lem, do_rl_lem, do_rrc_lem, do_rr_lem, do_swp_lem}

flags-FlagByte : (z n h c : Bool) → FlagByte (flags z n h c)
flags-FlagByte true true true true = omega arith
flags-FlagByte true true true false = omega arith
flags-FlagByte true true false true = omega arith
flags-FlagByte true true false false = omega arith
flags-FlagByte true false true true = omega arith
flags-FlagByte true false true false = omega arith
flags-FlagByte true false false true = omega arith
flags-FlagByte true false false false = omega arith
flags-FlagByte false true true true = omega arith
flags-FlagByte false true true false = omega arith
flags-FlagByte false true false true = omega arith
flags-FlagByte false true false false = omega arith
flags-FlagByte false false true true = omega arith
flags-FlagByte false false true false = omega arith
flags-FlagByte false false false true = omega arith
flags-FlagByte false false false false = omega arith

flags-carry : (z c : Bool) → flags z false false c / 16 % 2 ≡ to_int c
flags-carry true true = refl
flags-carry true false = refl
flags-carry false true = refl
flags-carry false false = refl

module _ (v : ℕ) (r : Registers) (fits : v < 256) (valid : RegistersValid r) where
  behind : (z c : Bool) → RegistersValid (record r { f = flags z false false c })
  behind z c = with_f-Valid r _ valid (flags-FlagByte z false false c)

  -- F does not matter to what is shifted.
  by_parts :
      (x y g : ℕ) (c d : Bool) → x ≡ y → c ≡ d → shifted x c (record r { f = g }) ≡ shifted y d r
  by_parts x y g c d e k = ap (λ (n : ℕ). shifted n c r) e ∙ ap (λ (b : Bool). shifted y b r) k

  -- RR undoes RL on a byte: the byte is back, and so is the carry.
  pub do_rr-do_rl : (let (x, s) = do_rl v r in do_rr x s) ≡ shifted v (carry_of r == 1) r
  do_rr-do_rl = rw (do_rl_lem v r fits valid) (
      do_rr_lem (v * 2 % 256 + carry_of r) _ (omega arith)
        (behind (v * 2 % 256 + carry_of r == 0) (leb 128 v))
      ∙ by_parts _ _ (flags (v * 2 % 256 + carry_of r == 0) false false (leb 128 v)) _ _
          (rw (flags-carry (v * 2 % 256 + carry_of r == 0) (leb 128 v)) ground arith)
          (ground arith))

  -- RRC undoes RLC on a byte; the carry is the bit that went around.
  pub do_rrc-do_rlc : (let (x, s) = do_rlc v r in do_rrc x s) ≡ shifted v (leb 128 v) r
  do_rrc-do_rlc = rw (do_rlc_lem v r fits valid) (
      do_rrc_lem (v * 2 % 256 + v / 128) _ (omega arith)
        (behind (v * 2 % 256 + v / 128 == 0) (leb 128 v))
      ∙ by_parts _ _ (flags (v * 2 % 256 + v / 128 == 0) false false (leb 128 v)) _ _ (omega arith)
          (ground arith))

  -- SWAP undoes itself on a byte.
  pub do_swp-do_swp : (let (x, s) = do_swp v r in do_swp x s) ≡ shifted v false r
  do_swp-do_swp = rw (do_swp_lem v r fits valid) (
      do_swp_lem (v / 16 + v % 16 * 16) _ (omega arith) (behind (v / 16 + v % 16 * 16 == 0) false)
      ∙ by_parts _ _ (flags (v / 16 + v % 16 * 16 == 0) false false false) false false (omega arith)
          refl)
