-- ===== src/Ppu/Tile/Pixels.antt =====
-- About get_tile_line() of emu/ppu.c and the pixels of a tile line: two bits, one of each byte.
use realboy.Prelude.{
  ℕ, zero, suc, ◌+◌, ◌-◌, ◌*◌, ◌/◌, ◌%◌, ◌^◌, ◌<◌, ◌≡◌, ap, ◌∙◌, arith, bit_and, ltb, ◌==◌,
  if◌then◌else◌, to_bool, to_int, IsBytes,
}
use realboy.Prelude.Bits.{bit_and_step, bit_and-zero}
use realboy.Prelude.Masks.{bit_or-low_bit, pow_pos}
use realboy.Machine.{Ppu}
use realboy.Ppu.Tile.{tile_at, get_tile_line, pixel_in_tile}

-- The digit `k` of a number.
abbrev pub bit : ℕ → ℕ → ℕ
bit zero n = n % 2
bit (suc k) n = bit k (n / 2)

pub bit_and-7 : (a : ℕ) → bit_and a 7 ≡ a % 8
bit_and-7 a = omega (
  arith,
  bit_and_step a 7,
  bit_and_step (a / 2) 3,
  bit_and_step (a / 2 / 2) 1,
  bit_and-zero (a / 2 / 2 / 2),
)

pub bit-lt : (k n : ℕ) → bit k n < 2
bit-lt zero n = omega arith
bit-lt (suc k) n = bit-lt k (n / 2)

-- A mask of one bit.
pub bit_and-pow : (k n : ℕ) → bit_and n (2 ^ k) ≡ bit k n * 2 ^ k
bit_and-pow zero n = omega (arith, bit_and_step n 1, bit_and-zero (n / 2))
bit_and-pow (suc k) n = omega (
  arith,
  bit_and_step n (2 ^ suc k),
  ap (bit_and (n / 2)) half,
  bit_and-pow k (n / 2),
  ap (λ (t : ℕ). bit k (n / 2) * t) double,
)
  where
    half : 2 ^ suc k / 2 ≡ 2 ^ k
    half = omega arith

    double : 2 ^ suc k ≡ 2 ^ k * 2
    double = omega arith

to_int-flag : (b p : ℕ) → b < 2 → 0 < p → to_int (to_bool (b * p)) ≡ b
to_int-flag zero p h q = ground arith
to_int-flag (suc zero) p h q = ground arith
to_int-flag (suc (suc b)) p h q = absurd (omega arith)

tested : (k n : ℕ) → to_int (to_bool (bit_and n (2 ^ k))) ≡ bit k n
tested k n = rw (bit_and-pow k n) (to_int-flag (bit k n) (2 ^ k) (bit-lt k n) (pow_pos k))

-- The two masks of a column pick the same bit of the two bytes.
bits_at :
    (r lo hi : ℕ)
    → r < 8
    → lo < 256
    → hi < 256
    → (to_int (to_bool (bit_and (lo + hi * 256) (0x8000 / 2 ^ r))) ≡ bit (7 - r) hi)
      × (to_int (to_bool (bit_and (lo + hi * 256) (0x80 / 2 ^ r))) ≡ bit (7 - r) lo)
bits_at zero lo hi h p q =
    (tested 15 (lo + hi * 256) ∙ omega arith, tested 7 (lo + hi * 256) ∙ omega arith)
bits_at (suc zero) lo hi h p q =
    (tested 14 (lo + hi * 256) ∙ omega arith, tested 6 (lo + hi * 256) ∙ omega arith)
bits_at (suc (suc zero)) lo hi h p q =
    (tested 13 (lo + hi * 256) ∙ omega arith, tested 5 (lo + hi * 256) ∙ omega arith)
bits_at (suc (suc (suc zero))) lo hi h p q =
    (tested 12 (lo + hi * 256) ∙ omega arith, tested 4 (lo + hi * 256) ∙ omega arith)
bits_at (suc (suc (suc (suc zero)))) lo hi h p q =
    (tested 11 (lo + hi * 256) ∙ omega arith, tested 3 (lo + hi * 256) ∙ omega arith)
bits_at (suc (suc (suc (suc (suc zero))))) lo hi h p q =
    (tested 10 (lo + hi * 256) ∙ omega arith, tested 2 (lo + hi * 256) ∙ omega arith)
bits_at (suc (suc (suc (suc (suc (suc zero)))))) lo hi h p q =
    (tested 9 (lo + hi * 256) ∙ omega arith, tested 1 (lo + hi * 256) ∙ omega arith)
bits_at (suc (suc (suc (suc (suc (suc (suc zero))))))) lo hi h p q =
    (tested 8 (lo + hi * 256) ∙ omega arith, tested 0 (lo + hi * 256) ∙ omega arith)
bits_at (suc (suc (suc (suc (suc (suc (suc (suc r)))))))) lo hi h p q = absurd (omega arith)

-- The pixel in the column `at % 8` of a line with the bytes `lo` and `hi`.
unfoldable pub texel : ℕ → ℕ → ℕ → ℕ
texel lo hi at = bit (7 - at % 8) hi * 2 + bit (7 - at % 8) lo

pub pixel_in_tile_lem :
    (lo hi at : ℕ) → lo < 256 → hi < 256 → pixel_in_tile (lo + hi * 256) at ≡ texel lo hi at
unfolding pixel_in_tile texel
pixel_in_tile_lem lo hi at p q =
    let bits = bits_at (at % 8) lo hi (omega arith) p q in
    rw (bit_and-7 at, bits.0, bits.1)
      (bit_or-low_bit (bit (7 - at % 8) hi * 2) (bit (7 - at % 8) lo) (omega arith)
        (bit-lt (7 - at % 8) lo))

pub texel-lt : (lo hi at : ℕ) → texel lo hi at < 4
unfolding texel
texel-lt lo hi at = omega (arith, bit-lt (7 - at % 8) lo, bit-lt (7 - at % 8) hi)

pub flag_bit : (k n : ℕ) → to_bool (bit_and n (2 ^ k)) ≡ (bit k n == 1)
flag_bit k n =
    rw (bit_and-pow k n) (ground (arith, to_int-flag (bit k n) (2 ^ k), bit-lt k n, pow_pos k))

-- Where a tile's 16 bytes start: from the start of the tile data, or with the tiles 0 to 127 at the
-- offset 0x1000 and those from 128 on below it.
abbrev pub tile_start : Ppu → ℕ → ℕ
tile_start s tile =
    if bit 4 s.regs.lcdc == 1
    then tile * 16
    else (if ltb tile 128 then 0x1000 + tile * 16 else tile * 16)

pub tile_at_lem :
    (s : Ppu) (tile line : ℕ) → tile < 256 → tile_at s tile line ≡ tile_start s tile + line * 2
unfolding tile_at
tile_at_lem s tile line h =
    let b = bit_and-pow 4 s.regs.lcdc in ground (arith, b, bit-lt 4 s.regs.lcdc)

pub tile_at-lt :
    (s : Ppu) (tile line : ℕ) → tile < 256 → line < 8 → tile_at s tile line + 1 < 0x1800
tile_at-lt s tile line h k = rw (tile_at_lem s tile line h) (ground arith)

-- The two bytes of a line of a tile hold its pixels.
pub pixel-get_tile_line :
    (s : Ppu) (tile line at : ℕ)
    → IsBytes s.tile_data
    → tile < 256
    → pixel_in_tile (get_tile_line s tile line) at
      ≡ texel
          (s.tile_data (tile_start s tile + line * 2))
          (s.tile_data (tile_start s tile + line * 2 + 1))
          at
unfolding get_tile_line
pixel-get_tile_line s tile line at bytes h = rw (tile_at_lem s tile line h) (
    pixel_in_tile_lem _ _ at (bytes (tile_start s tile + line * 2))
      (bytes (tile_start s tile + line * 2 + 1)))
