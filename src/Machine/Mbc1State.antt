-- ===== src/Machine/Mbc1State.antt =====
-- The arrays of emu/mem/mbc1.c, and the file of the cartridge behind them.
use realboy.Prelude.{ℕ, ◌+◌, ◌-◌, Bytes, ◌&&◌, ltb, leb, if◌then◌else◌}

-- A file that is open for reading: its size and its bytes.
pub record File : Type 0 where
  pub size : ℕ
  pub byte : ℕ → ℕ

-- `fread(dst + at, 1, n, file)` with the file at `pos`: as many bytes as there are, `n` at most.
abbrev pub fread : Bytes → ℕ → ℕ → File → ℕ → Bytes
fread dst at n file pos i =
    if leb at i && (ltb i (at + n) && ltb (pos + (i - at)) file.size)
    then file.byte (pos + (i - at))
    else dst i

pub record Mbc1 : Type 0 where
  pub mbc1_rom : Bytes
  pub mbc1_ram : Bytes
  pub rom : File
