-- ===== src/Monitor/Ram.antt =====
-- The two memories that the cpu owns, as the rest of the program reads and writes them through
-- monitor_rd_mem() and monitor_wr_mem().
use realboy.Prelude.{
  ℕ, ◌-◌, ◌≤◌, ◌≡◌, ◌≢◌, ◌⊎◌, inl, inr, refl, arith, Bool, true, false, ◌&&◌, leb, ◌==◌, Bytes,
  update, Bool-cases, if-holds, if-cases,
}
use realboy.Machine.{Cpu, Machine}
use realboy.Cpu.Port.{cpu_rd, cpu_wr}
use realboy.Monitor.{in_ppu, monitor_rd_mem, wr_mem_body, wr_mem_depth, monitor_wr_mem, with_cpu_wr}

abbrev in_wram : ℕ → Bool
in_wram addr = leb 0xc000 addr && leb addr 0xdfff

abbrev in_hram : ℕ → Bool
in_hram addr = leb 0xff80 addr && leb addr 0xfffe

-- An address of the work ram or of the high ram.
abbrev pub InRam : ℕ → Type 0
InRam addr = ((0xc000 ≤ addr) × (addr ≤ 0xdfff)) ⊎ ((0xff80 ≤ addr) × (addr ≤ 0xfffe))

-- What the cpu reads once the byte at an address of its arrays is replaced.
module _ (s : Cpu) (addr value : ℕ) where
  cpu_wr-wram :
      0xc000 ≤ addr
      → addr ≤ 0xdfff
      → cpu_wr s addr value ≡ record s { wram = update s.wram (addr - 0xc000) value }
  unfolding cpu_wr
  cpu_wr-wram p q = rw (in_range) refl
    where
      in_range : in_wram addr ≡ true
      in_range = ground arith

  cpu_wr-hram :
      0xff80 ≤ addr
      → addr ≤ 0xfffe
      → cpu_wr s addr value ≡ record s { hram = update s.hram (addr - 0xff80) value }
  unfolding cpu_wr
  cpu_wr-hram p q = rw (outside, in_range) refl
    where
      outside : in_wram addr ≡ false
      outside = ground arith

      in_range : in_hram addr ≡ true
      in_range = ground arith

cpu_rd-wram :
    (s : Cpu) (f : Bytes) (b : ℕ)
    → (in_wram b ≡ true → f (b - 0xc000) ≡ s.wram (b - 0xc000))
    → cpu_rd (record s { wram = f }) b ≡ cpu_rd s b
unfolding cpu_rd
cpu_rd-wram s f b h = elim (Bool-cases (in_wram b)) [ inl t ↦ rw (t, h t) refl | inr t ↦ rw t refl ]

cpu_rd-hram :
    (s : Cpu) (f : Bytes) (b : ℕ)
    → (in_hram b ≡ true → f (b - 0xff80) ≡ s.hram (b - 0xff80))
    → cpu_rd (record s { hram = f }) b ≡ cpu_rd s b
unfolding cpu_rd
cpu_rd-hram s f b h = elim (Bool-cases (in_hram b)) [ inl t ↦ rw (t, h t) refl | inr t ↦ rw t refl ]

cpu_rd-other :
    (s : Cpu) (addr value b : ℕ)
    → InRam addr
    → b ≢ addr
    → cpu_rd (cpu_wr s addr value) b ≡ cpu_rd s b
cpu_rd-other s addr value b (inl (p, q)) ne =
    rw (cpu_wr-wram s addr value p q) (cpu_rd-wram s _ b (λ t. ground arith))
cpu_rd-other s addr value b (inr (p, q)) ne =
    rw (cpu_wr-hram s addr value p q) (cpu_rd-hram s _ b (λ t. ground arith))

cpu_rd-same : (s : Cpu) (addr value : ℕ) → InRam addr → cpu_rd (cpu_wr s addr value) addr ≡ value
unfolding cpu_rd
cpu_rd-same s addr value (inl (p, q)) = rw (cpu_wr-wram s addr value p q, in_range) (ground arith)
  where
    in_range : in_wram addr ≡ true
    in_range = ground arith
cpu_rd-same s addr value (inr (p, q)) =
    rw (cpu_wr-hram s addr value p q, outside, in_range) (ground arith)
  where
    outside : in_wram addr ≡ false
    outside = ground arith

    in_range : in_hram addr ≡ true
    in_range = ground arith

-- The routes of the addresses of the ram.
in_ppu-ram : (addr : ℕ) → InRam addr → in_ppu addr ≡ false
in_ppu-ram addr ram = ground arith

monitor_rd_mem-ram :
    (m : Machine) (addr : ℕ) → InRam addr → monitor_rd_mem m addr ≡ cpu_rd m.cpu addr
unfolding monitor_rd_mem
monitor_rd_mem-ram m addr (inl (p, q)) = rw (in_ppu-ram addr (inl (p, q)), in_range) refl
  where
    in_range : in_wram addr ≡ true
    in_range = ground arith
monitor_rd_mem-ram m addr (inr (p, q)) = rw (in_ppu-ram addr (inr (p, q)), outside, in_range) refl
  where
    outside : in_wram addr ≡ false
    outside = ground arith

    in_range : in_hram addr ≡ true
    in_range = ground arith

monitor_rd_mem-cpu :
    (m : Machine) (s : Cpu) (b : ℕ)
    → cpu_rd s b ≡ cpu_rd m.cpu b
    → monitor_rd_mem (record m { cpu = s }) b ≡ monitor_rd_mem m b
unfolding monitor_rd_mem
monitor_rd_mem-cpu m s b e = rw e refl

pub monitor_wr_mem-ram :
    (m : Machine) (addr value : ℕ)
    → InRam addr
    → monitor_wr_mem m addr value ≡ with_cpu_wr m addr value
unfolding monitor_wr_mem wr_mem_depth wr_mem_body
monitor_wr_mem-ram m addr value ram =
    let rule = if-holds (λ (n : Machine). n ≡ with_cpu_wr m addr value) in
    let split = if-cases (λ (n : Machine). n ≡ with_cpu_wr m addr value) in
    rule (addr == 0xffff) _ _ refl (
      rule (addr == 0xff0f) _ _ refl (
        rule (addr == 0xff04) _ _ refl (
          rule (addr == 0xff05) _ _ refl (
            rule (addr == 0xff06) _ _ refl (
              rule (addr == 0xff07) _ _ refl (
                split (addr == 0xff50) _ _ (λ t. absurd (ground arith))
                  (λ _.
                    split (in_ppu addr) _ _ (λ t. absurd (ground arith))
                      (λ _.
                        split (in_wram addr) _ _ (λ _. refl)
                          (λ not_wram.
                            split (in_hram addr) _ _ (λ _. refl)
                              (λ not_hram. absurd (ground arith)))))))))))

module _ (m : Machine) (addr value : ℕ) (ram : InRam addr) where
  -- A byte that monitor_wr_mem() stores in the work ram or the high ram is what monitor_rd_mem()
  -- reads from there.
  pub rd_mem-wr_mem_same : monitor_rd_mem (monitor_wr_mem m addr value) addr ≡ value
  rd_mem-wr_mem_same =
      rw
        (
          monitor_wr_mem-ram m addr value ram,
          monitor_rd_mem-ram (with_cpu_wr m addr value) addr ram,
        )
        (cpu_rd-same m.cpu addr value ram)

  -- A store to the work ram or the high ram leaves what monitor_rd_mem() reads at every other
  -- address.
  pub rd_mem-wr_mem_other :
      (b : ℕ) → b ≢ addr → monitor_rd_mem (monitor_wr_mem m addr value) b ≡ monitor_rd_mem m b
  rd_mem-wr_mem_other b ne =
      rw (monitor_wr_mem-ram m addr value ram)
        (monitor_rd_mem-cpu m (cpu_wr m.cpu addr value) b (cpu_rd-other m.cpu addr value b ram ne))
