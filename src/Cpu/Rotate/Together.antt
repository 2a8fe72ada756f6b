-- ===== src/Cpu/Rotate/Together.antt =====
-- The rotates and shifts of emu/cpu/cpu_ops.c side by side.
use realboy.Prelude.{ℕ, ◌+◌, ◌*◌, ◌/◌, ◌%◌, ◌<◌, ◌≡◌, false, leb, ◌==◌}
use realboy.Machine.{Registers}
use realboy.Machine.Valid.{RegistersValid}
use realboy.Cpu.Arith.Sums.{carry_of}
use realboy.Cpu.Rotate.{do_sla, do_rl, do_rlc, do_rrc, do_rr, do_swp, do_srl, do_sra}
use realboy.Cpu.Rotate.Laws.{
  shifted, do_sla_lem, do_rl_lem, do_rlc_lem, do_rrc_lem, do_rr_lem, do_swp_lem, do_srl_lem,
  do_sra_lem,
}
use realboy.Cpu.Rotate.Inverses.{do_rr-do_rl, do_rrc-do_rlc, do_swp-do_swp}

module _ (v : ℕ) (r : Registers) (fits : v < 256) (valid : RegistersValid r) where
  -- For a valid cpu and a byte, the eight rotates, shifts and SWAP leave the byte and the carry
  -- that their description by quotients and remainders has, Z by the result, and N and H clear.
  pub rotates_lem :
      (do_sla v r ≡ shifted (v * 2 % 256) (leb 128 v) r)
      × (do_rl v r ≡ shifted (v * 2 % 256 + carry_of r) (leb 128 v) r)
      × (do_rlc v r ≡ shifted (v * 2 % 256 + v / 128) (leb 128 v) r)
      × (do_rrc v r ≡ shifted (v / 2 + v % 2 * 128) (v % 2 == 1) r)
      × (do_rr v r ≡ shifted (v / 2 + carry_of r * 128) (v % 2 == 1) r)
      × (do_swp v r ≡ shifted (v / 16 + v % 16 * 16) false r)
      × (do_srl v r ≡ shifted (v / 2) (v % 2 == 1) r)
      × (do_sra v r ≡ shifted (v / 2 + v / 128 * 128) (v % 2 == 1) r)
  rotates_lem = (
    do_sla_lem v r fits valid,
    do_rl_lem v r fits valid,
    do_rlc_lem v r fits valid,
    do_rrc_lem v r fits valid,
    do_rr_lem v r fits valid,
    do_swp_lem v r fits valid,
    do_srl_lem v r fits valid,
    do_sra_lem v r fits valid,
  )

  -- For a valid cpu and a byte, RR undoes RL, carry included, RRC undoes RLC, whose carry is the
  -- bit that went around, and SWAP undoes itself.
  pub rotates_undone :
      ((let (x, s) = do_rl v r in do_rr x s) ≡ shifted v (carry_of r == 1) r)
      × ((let (x, s) = do_rlc v r in do_rrc x s) ≡ shifted v (leb 128 v) r)
      × ((let (x, s) = do_swp v r in do_swp x s) ≡ shifted v false r)
  rotates_undone =
      (do_rr-do_rl v r fits valid, do_rrc-do_rlc v r fits valid, do_swp-do_swp v r fits valid)
