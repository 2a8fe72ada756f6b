-- ===== src/Ppu/Tile.antt =====
-- get_tile_line() of emu/ppu.c, and how its callers read pixels and colours from such a line.
pub mod Pixels
use realboy.Prelude.{
  ℕ, ◌+◌, ◌-◌, ◌*◌, ◌/◌, ◌^◌, bit_and, bit_or, leb, ◌==◌, if◌then◌else◌, to_bool, to_int,
}
use realboy.Machine.{Ppu}

-- `*(uint16_t *)` at an offset of `ppu.tile_data`, low byte first.
abbrev pub tile_word : Ppu → ℕ → ℕ
tile_word s at = s.tile_data at + s.tile_data (at + 1) * 256

-- The offset that get_tile_line() points to: from the start of the tile data by an unsigned index,
-- or from its offset 0x1000 by a signed one.
unfoldable pub tile_at : Ppu → ℕ → ℕ → ℕ
tile_at s tile_indx line =
    (if to_bool (bit_and s.regs.lcdc 0x10)
      then 16 * tile_indx
      else 0x1000 + tile_indx * 16 - (if leb 128 tile_indx then 0x1000 else 0))
    + line * 2

unfoldable pub get_tile_line : Ppu → ℕ → ℕ → ℕ
unfolding tile_at
get_tile_line s tile_indx line = tile_word s (tile_at s tile_indx line)

-- The index of the pixel `at & 7` of a tile line: a bit of the high byte, and one of the low byte.
unfoldable pub pixel_in_tile : ℕ → ℕ → ℕ
pixel_in_tile tileline at =
    bit_or (to_int (to_bool (bit_and tileline (0x8000 / 2 ^ bit_and at 7))) * 2)
      (to_int (to_bool (bit_and tileline (0x80 / 2 ^ bit_and at 7))))

abbrev pub color_pal : ℕ → ℕ
color_pal n =
    if n == 0
    then 0xe8_fccc
    else (if n == 1 then 0xac_d490 else (if n == 2 then 0x54_8c70 else 0x14_2c38))

-- `color_pal[(palette & (3 << (indx << 1))) >> (indx << 1)]`
unfoldable pub color : ℕ → ℕ → ℕ
color palette indx = color_pal (bit_and palette (3 * 2 ^ (indx * 2)) / 2 ^ (indx * 2))
