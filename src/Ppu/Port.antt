-- ===== src/Ppu/Port.antt =====
-- ppu_rd(), ppu_wr() and the functions below them of emu/ppu.c.
pub mod ObjectMemory
pub mod Valid
pub mod Keeps
use realboy.Prelude.{
  ℕ, zero, suc, ◌+◌, ◌-◌, ◌*◌, ◌/◌, Bool, not, ◌&&◌, bit_and, leb, ◌==◌, if◌then◌else◌, not8,
  to_bool, update,
}
use realboy.Machine.{Ppu, PpuRegs, oam_scan, Machine}
use realboy.Ppu.Oam.{oam_rehash}

unfoldable pub rd_reg : PpuRegs → ℕ → ℕ
rd_reg regs addr =
    if addr == 0xff40
    then regs.lcdc
    else (if addr == 0xff41
        then regs.stat
        else (if addr == 0xff42
            then regs.scy
            else (if addr == 0xff43
                then regs.scx
                else (if addr == 0xff44
                    then regs.ly
                    else (if addr == 0xff45
                        then regs.lyc
                        else (if addr == 0xff46
                            then regs.dma
                            else (if addr == 0xff47
                                then regs.bgp
                                else (if addr == 0xff48
                                    then regs.obp0
                                    else (if addr == 0xff49
                                        then regs.obp1
                                        else (if addr == 0xff4a
                                            then regs.wy
                                            else (if addr == 0xff4b then regs.wx else 0)))))))))))

unfoldable pub ppu_rd : Ppu → ℕ → ℕ
unfolding rd_reg
ppu_rd s addr =
    if leb 0xff40 addr
    then rd_reg s.regs addr
    else (if leb 0x8000 addr && leb addr 0x97ff
        then s.tile_data (addr - 0x8000)
        else (if leb 0x9800 addr && leb addr 0x9bff
            then s.tile_map1 (addr - 0x9800)
            else (if leb 0x9c00 addr && leb addr 0x9fff
                then s.tile_map2 (addr - 0x9c00)
                else (if leb 0xfe00 addr && leb addr 0xfe9f then s.oam (addr - 0xfe00) else 0))))

abbrev pub dots_oam : ℕ
dots_oam = 80

unfoldable pub ppu_reset : Ppu → Ppu
ppu_reset s = record s {
  dots_remaining = dots_oam;
  mode = oam_scan;
  regs = record s.regs { ly = 0 };
}

-- The case 0xff40: a change of bit 7 resets the ppu, and turning it off clears the mode bits.
unfoldable pub wr_lcdc : Ppu → ℕ → Ppu
unfolding ppu_reset
wr_lcdc s value =
    let s' =
      if bit_and s.regs.lcdc 0x80 == bit_and value 0x80
      then s
      else (let t = ppu_reset s in
          if to_bool (bit_and value 0x80)
          then t
          else record t { regs = record t.regs { stat = bit_and t.regs.stat (not8 3) } }) in
    record s' { regs = record s'.regs { lcdc = value } }

abbrev pub with_ppu : Machine → Ppu → Machine
with_ppu m s = record m { ppu = s }

abbrev pub with_ppu_regs : Ppu → PpuRegs → Ppu
with_ppu_regs s regs = record s { regs = regs }

-- The first byte of an object is its row: whether a write to `addr` moves it to another row of
-- the hash.
abbrev pub rehashes : Ppu → ℕ → ℕ → Bool
rehashes s addr value = bit_and addr 3 == 0 && not (s.oam (addr - 0xfe00) / 16 == value / 16)

-- The case 0xff46 copies 0xa0 bytes to the object memory through the monitor, whose two
-- functions the ppu is given: `n` of them are left.
module _ (rd_mem : Machine → ℕ → ℕ) (wr_mem : Machine → ℕ → ℕ → Machine) where
  unfoldable pub oam_dma : ℕ → Machine → ℕ → ℕ → Machine
  oam_dma zero m addr i = m
  oam_dma (suc n) m addr i = oam_dma n (wr_mem m (0xfe00 + i) (rd_mem m (addr + i))) addr (i + 1)

  unfoldable pub wr_reg : Machine → ℕ → ℕ → Machine
  unfolding wr_lcdc oam_dma
  wr_reg m addr value =
      let s = m.ppu in
      let regs = s.regs in
      let put = λ (r : PpuRegs). with_ppu m (with_ppu_regs s r) in
      if addr == 0xff40
      then with_ppu m (wr_lcdc s value)
      else (if addr == 0xff41
          then put (record regs { stat = value })
          else (if addr == 0xff42
              then put (record regs { scy = value })
              else (if addr == 0xff43
                  then put (record regs { scx = value })
                  else (if addr == 0xff44
                      then put (record regs { ly = value })
                      else (if addr == 0xff45
                          then put (record regs { lyc = value })
                          else (if addr == 0xff46
                              then oam_dma 0xa0 m (value * 0x100) 0
                              else (if addr == 0xff47
                                  then put (record regs { bgp = value })
                                  else (if addr == 0xff48
                                      then put (record regs { obp0 = value })
                                      else (if addr == 0xff49
                                          then put (record regs { obp1 = value })
                                          else (if addr == 0xff4a
                                              then put (record regs { wy = value })
                                              else (if addr == 0xff4b
                                                  then put (record regs { wx = value })
                                                  else m)))))))))))

  unfoldable pub ppu_wr : Machine → ℕ → ℕ → Machine
  unfolding wr_reg oam_rehash
  ppu_wr m addr value =
      let s = m.ppu in
      if leb 0xff40 addr
      then wr_reg m addr value
      else (if leb 0x8000 addr && leb addr 0x97ff
          then with_ppu m (record s { tile_data = update s.tile_data (addr - 0x8000) value })
          else (if leb 0x9800 addr && leb addr 0x9bff
              then with_ppu m (record s { tile_map1 = update s.tile_map1 (addr - 0x9800) value })
              else (if leb 0x9c00 addr && leb addr 0x9fff
                  then with_ppu m
                      (record s { tile_map2 = update s.tile_map2 (addr - 0x9c00) value })
                  else (if leb 0xfe00 addr && leb addr 0xfe9f
                      then (let i = addr - 0xfe00 in
                          let s' = if rehashes s addr value then oam_rehash s i value else s in
                          with_ppu m (record s' { oam = update s'.oam i value }))
                      else m))))
