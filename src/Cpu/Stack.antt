-- ===== src/Cpu/Stack.antt =====
-- About the words that the cpu keeps on its stack: pushes and pops, calls and returns.
use realboy.Prelude.{
  ℕ, ◌+◌, ◌*◌, ◌/◌, ◌%◌, ◌<◌, ◌≡◌, ◌≢◌, refl, ap, ◌∙◌, arith, bit_and, u16, sub16,
}
use realboy.Prelude.Bits.{bit_and-above}
use realboy.Prelude.Masks.{bit_and-nibble, bit_and-low_byte, bit_and-high_byte, bit_or-bytes}
use realboy.Machine.{
  Registers, Reg16, reg_af, reg_bc, reg_de, reg_hl, get_reg16, set_reg16, Machine,
}
use realboy.Machine.Valid.{RegistersValid, MachineValid}
use realboy.Monitor.{monitor_rd_mem, monitor_wr_mem}
use realboy.Monitor.Depth.{regs-monitor_wr_mem}
use realboy.Monitor.Ram.{InRam, rd_mem-wr_mem_same, rd_mem-wr_mem_other}
use realboy.Cpu.Bus.{reg_pc, reg_sp, rd_word, wr_word, on_regs}
use realboy.Cpu.Flow.{push_pc, do_ret}
use realboy.Cpu.Load.{op_push_reg16, op_pop_reg16, op_pop_af}
use realboy.Cpu.Valid.Flags.{get_reg16-lt}
use realboy.Cpu.Valid.Bus.{regs_of, regs-wr_word}

-- A stack pointer with room in the ram for the word below it.
abbrev pub StackInRam : ℕ → Type 0
StackInRam sp = InRam (sub16 sp 2) × InRam (sub16 sp 2 + 1)

-- A word whose two bytes are stored at addresses of the ram is read back from there.
module _ (m : Machine) (addr v : ℕ) (ram : InRam addr) (ram1 : InRam (addr + 1)) where
  rd_word-stored :
      (next lo hi : ℕ)
      → next ≡ addr + 1
      → lo ≡ v % 256
      → hi ≡ v / 256
      → rd_word (monitor_wr_mem (monitor_wr_mem m addr lo) next hi) addr ≡ v
  unfolding rd_word
  rd_word-stored next lo hi e k l =
      let behind : monitor_rd_mem (monitor_wr_mem (monitor_wr_mem m addr lo) next hi) addr ≡ lo =
        rd_mem-wr_mem_other (monitor_wr_mem m addr lo) next hi (rw e ram1) addr
          (λ same. absurd (omega arith))
        ∙ rd_mem-wr_mem_same m addr lo ram in
      let ahead : monitor_rd_mem (monitor_wr_mem (monitor_wr_mem m addr lo) next hi)
            (u16 (addr + 1))
          ≡ hi =
        ap (monitor_rd_mem (monitor_wr_mem (monitor_wr_mem m addr lo) next hi)) next_addr
        ∙ rd_mem-wr_mem_same (monitor_wr_mem m addr lo) next hi (rw e ram1) in
      rw (behind, ahead) (bit_or-bytes lo hi (omega arith) ∙ omega arith)
    where
      next_addr : u16 (addr + 1) ≡ next
      next_addr = omega arith

-- A word of the registers that is stored at an address of theirs.
pub rd_word-wr_word :
    (f g : Registers → ℕ) (m : Machine)
    → InRam (f m.cpu.regs)
    → InRam (f m.cpu.regs + 1)
    → g m.cpu.regs < 65536
    → rd_word (wr_word (λ n. f n.cpu.regs) (λ n. g n.cpu.regs) m) (f m.cpu.regs) ≡ g m.cpu.regs
unfolding wr_word
rd_word-wr_word f g m ram ram1 fits =
    let kept = regs-monitor_wr_mem m (f m.cpu.regs) (bit_and (g m.cpu.regs) 0xff) in
    rd_word-stored m (f m.cpu.regs) (g m.cpu.regs) ram ram1 _ _ _
      (ap (λ (r : Registers). u16 (f r + 1)) kept ∙ omega arith) (bit_and-low_byte (g m.cpu.regs))
      (ap (λ (r : Registers). bit_and (g r) 0xff00 / 256) kept
        ∙ omega (arith, bit_and-high_byte (g m.cpu.regs) fits))

-- What a return and a pop leave in the registers, by the word that they read.
module _ (n : Machine) (r : Registers) (word : ℕ) (kept : n.cpu.regs ≡ r)
    (popped : rd_word n r.sp ≡ word) where
  regs-do_ret : (do_ret n).cpu.regs ≡ record r { pc = word; sp = u16 (r.sp + 2) }
  unfolding do_ret
  regs-do_ret =
      ap (λ (q : Registers). record q { pc = rd_word n q.sp; sp = u16 (q.sp + 2) }) kept
      ∙ ap (λ (w : ℕ). record r { pc = w; sp = u16 (r.sp + 2) }) popped

  regs-op_pop_reg16 :
      (dst : Reg16)
      → (op_pop_reg16 dst n).0.cpu.regs
        ≡ (let q = set_reg16 dst word r in record q { sp = u16 (q.sp + 2) })
  unfolding op_pop_reg16
  regs-op_pop_reg16 dst =
      ap
        (λ (q : Registers).
          let t = set_reg16 dst (rd_word n q.sp) q in record t { sp = u16 (t.sp + 2) })
        kept
      ∙ ap (λ (w : ℕ). let t = set_reg16 dst w r in record t { sp = u16 (t.sp + 2) }) popped

-- The mask of op_pop_af().
masked_flags : (x : ℕ) → x < 256 → bit_and x 0xf0 ≡ x / 16 * 16
masked_flags x fits = omega (arith, bit_and-above x 15, bit_and-nibble (x / 16))

raised : (sp : ℕ) → sp < 65536 → u16 (sub16 sp 2 + 2) ≡ sp
raised sp fits = omega arith

get_reg16-lowered :
    (src : Reg16) (r : Registers) (x : ℕ)
    → src ≢ Reg16.reg_sp
    → get_reg16 src (record r { sp = x }) ≡ get_reg16 src r
get_reg16-lowered reg_af r x ne = refl
get_reg16-lowered reg_bc r x ne = refl
get_reg16-lowered reg_de r x ne = refl
get_reg16-lowered reg_hl r x ne = refl
get_reg16-lowered Reg16.reg_sp r x ne = absurd (ne refl)

set_reg16-raised :
    (dst : Reg16) (r : Registers) (w x : ℕ)
    → dst ≢ Reg16.reg_sp
    → u16 (x + 2) ≡ r.sp
    → (let q = set_reg16 dst w (record r { sp = x }) in record q { sp = u16 (q.sp + 2) })
      ≡ set_reg16 dst w r
set_reg16-raised reg_af r w x ne e = ap (λ (y : ℕ). record (set_reg16 reg_af w r) { sp = y }) e
set_reg16-raised reg_bc r w x ne e = ap (λ (y : ℕ). record (set_reg16 reg_bc w r) { sp = y }) e
set_reg16-raised reg_de r w x ne e = ap (λ (y : ℕ). record (set_reg16 reg_de w r) { sp = y }) e
set_reg16-raised reg_hl r w x ne e = ap (λ (y : ℕ). record (set_reg16 reg_hl w r) { sp = y }) e
set_reg16-raised Reg16.reg_sp r w x ne e = absurd (ne refl)

module _ (m : Machine) (valid : MachineValid m) (room : StackInRam m.cpu.regs.sp) where
  regs_ok : RegistersValid m.cpu.regs
  regs_ok = regs_of m valid

  -- With the stack in the ram and a valid machine, a return behind a push of the program counter
  -- restores all registers.
  pub do_ret-push_pc : (do_ret (push_pc m)).cpu.regs ≡ m.cpu.regs
  unfolding push_pc
  do_ret-push_pc =
      regs-do_ret (push_pc m) (record m.cpu.regs { sp = sub16 m.cpu.regs.sp 2 }) m.cpu.regs.pc
        (regs-wr_word reg_sp reg_pc (on_regs (λ r. record r { sp = sub16 r.sp 2 }) m))
        (rd_word-wr_word (λ r. r.sp) (λ r. r.pc) (on_regs (λ r. record r { sp = sub16 r.sp 2 }) m)
          room.0 room.1 regs_ok.pc_fits)
      ∙ ap (λ (x : ℕ). record m.cpu.regs { sp = x }) (raised m.cpu.regs.sp regs_ok.sp_fits)

  -- The machine behind a push of a register pair.
  abbrev pushed : Reg16 → Machine
  pushed src = (op_push_reg16 src m).0

  regs-pushed :
      (src : Reg16) → (pushed src).cpu.regs ≡ record m.cpu.regs { sp = sub16 m.cpu.regs.sp 2 }
  unfolding op_push_reg16
  regs-pushed src =
      regs-wr_word reg_sp (λ n. get_reg16 src n.cpu.regs)
        (on_regs (λ r. record r { sp = sub16 r.sp 2 }) m)

  rd_word-pushed :
      (src : Reg16)
      → src ≢ Reg16.reg_sp
      → rd_word (pushed src) (sub16 m.cpu.regs.sp 2) ≡ get_reg16 src m.cpu.regs
  unfolding op_push_reg16
  rd_word-pushed src from =
      rd_word-wr_word (λ r. r.sp) (get_reg16 src) (on_regs (λ r. record r { sp = sub16 r.sp 2 }) m)
        room.0 room.1
        (rw (get_reg16-lowered src m.cpu.regs (sub16 m.cpu.regs.sp 2) from)
          (get_reg16-lt src m.cpu.regs regs_ok))
      ∙ get_reg16-lowered src m.cpu.regs (sub16 m.cpu.regs.sp 2) from

  pop_reg16-push :
      (dst src : Reg16)
      → src ≢ Reg16.reg_sp
      → dst ≢ Reg16.reg_sp
      → (op_pop_reg16 dst (pushed src)).0.cpu.regs
        ≡ set_reg16 dst (get_reg16 src m.cpu.regs) m.cpu.regs
  pop_reg16-push dst src from to =
      regs-op_pop_reg16 (pushed src) (record m.cpu.regs { sp = sub16 m.cpu.regs.sp 2 })
        (get_reg16 src m.cpu.regs) (regs-pushed src) (rd_word-pushed src from) dst
      ∙ set_reg16-raised dst m.cpu.regs (get_reg16 src m.cpu.regs) (sub16 m.cpu.regs.sp 2) to
          (raised m.cpu.regs.sp regs_ok.sp_fits)

  pop_af-push :
      (src : Reg16)
      → src ≢ Reg16.reg_sp
      → (op_pop_af (pushed src)).0.cpu.regs ≡ record m.cpu.regs {
        a = get_reg16 src m.cpu.regs / 256;
        f = get_reg16 src m.cpu.regs % 256 / 16 * 16;
      }
  unfolding op_pop_af op_pop_reg16
  pop_af-push src from =
      ap (λ (r : Registers). record r { f = bit_and r.f 0xf0 })
        (pop_reg16-push reg_af src from (λ e. absurd cc))
      ∙ ap (λ (x : ℕ). record m.cpu.regs { a = get_reg16 src m.cpu.regs / 256; f = x })
          (masked_flags (get_reg16 src m.cpu.regs % 256) (omega arith))

  -- With the stack in the ram and a valid machine, behind a push of BC, DE, HL or AF, a pop of BC,
  -- DE or HL loads it with the word that was pushed, and a pop of AF loads A with the high byte and
  -- F with the low one, of which the low nibble is cleared. No other register changes.
  pub pops-op_push_reg16 :
      (dst src : Reg16)
      → src ≢ Reg16.reg_sp
      → dst ≢ Reg16.reg_sp
      → dst ≢ reg_af
      → ((op_pop_reg16 dst (op_push_reg16 src m).0).0.cpu.regs
          ≡ set_reg16 dst (get_reg16 src m.cpu.regs) m.cpu.regs)
        × ((op_pop_af (op_push_reg16 src m).0).0.cpu.regs ≡ record m.cpu.regs {
          a = get_reg16 src m.cpu.regs / 256;
          f = get_reg16 src m.cpu.regs % 256 / 16 * 16;
        })
  pops-op_push_reg16 dst src from to masked = (pop_reg16-push dst src from to, pop_af-push src from)
