-- ===== src/Ppu/Render.antt =====
-- ppu_render_line() of emu/ppu.c, and render_draw_pixel() of render.c. A pixel is `none` where the
-- code hands over a `final_pixel` that it never assigned.
pub mod Layers
pub mod Line
use realboy.Prelude.{
  ℕ, zero, suc, ◌+◌, ◌-◌, ◌*◌, ◌/◌, Bool, true, ◌&&◌, bit_and, ltb, leb, ◌==◌, if◌then◌else◌,
  to_bool, List, [], ◌∷◌, Option, none, some,
}
use realboy.Machine.{Ppu, Screen}
use realboy.Ppu.Tile.{get_tile_line, pixel_in_tile, color}
use realboy.Ppu.Objects.{get_objs_at_xy, get_pixel_priority_from_objs}

-- The two tile maps, by the bit of LCDC that chooses between them.
abbrev pub tile_map : Ppu → ℕ → ℕ → ℕ
tile_map s flag i = if to_bool (bit_and s.regs.lcdc flag) then s.tile_map2 i else s.tile_map1 i

-- What the objects leave at a pixel: `obj_pixel` and `obj_prio[3]`, where there is an object whose
-- index is not 0.
unfoldable pub obj_pixel_of : Ppu → ℕ → List ℕ → Option (ℕ × ℕ)
unfolding color get_pixel_priority_from_objs
obj_pixel_of s x [] = none
obj_pixel_of s x (obj ∷ objs) =
    let (obj_indx, obj_prio) = get_pixel_priority_from_objs s x obj objs in
    let attr = s.oam (obj_prio + 3) in
    let obj_palette = if to_bool (bit_and attr 0x10) then s.regs.obp1 else s.regs.obp0 in
    if obj_indx == 0 then none else some (color obj_palette obj_indx, attr)

unfoldable pub obj_layer : Ppu → ℕ → Option (ℕ × ℕ)
unfolding get_objs_at_xy obj_pixel_of
obj_layer s x =
    if to_bool (bit_and s.regs.lcdc 2)
    then obj_pixel_of s x (get_objs_at_xy s x s.regs.ly)
    else none

-- `bg_indx` at the column `i + j`.
unfoldable pub bg_indx : Ppu → ℕ → ℕ → ℕ
unfolding get_tile_line pixel_in_tile
bg_indx s i j =
    let regs = s.regs in
    let bg_tilemap_row_beg = bit_and ((regs.ly + regs.scy) / 8 * 32) 0x3ff in
    let bg_tile = tile_map s 8 (bg_tilemap_row_beg + bit_and (i + j + regs.scx) 0xff / 8) in
    let bg_tileline = get_tile_line s bg_tile (bit_and (regs.ly + regs.scy) 7) in
    pixel_in_tile bg_tileline (j + bit_and regs.scx 7)

-- The window covers a pixel.
unfoldable pub in_window : Ppu → ℕ → Bool
in_window s x =
    let regs = s.regs in
    leb regs.wy regs.ly && (leb regs.wx (x + 7) && (ltb regs.wx 166 && ltb regs.wy 143))

unfoldable pub win_indx : Ppu → ℕ → ℕ
unfolding get_tile_line pixel_in_tile
win_indx s x =
    let regs = s.regs in
    let win_tilemap_row_beg = bit_and ((regs.ly - regs.wy) / 8 * 32) 0x3ff in
    let win_tile = tile_map s 0x40 (win_tilemap_row_beg + (x + 7 - regs.wx) / 8) in
    let win_tileline = get_tile_line s win_tile (bit_and (regs.ly - regs.wy) 7) in
    pixel_in_tile win_tileline (x + 7 - regs.wx)

-- `!obj_pixel || obj_prio[3] & 0x80`
abbrev pub lets_through : Option (ℕ × ℕ) → Bool
lets_through none = true
lets_through (some (obj_pixel, attr)) = to_bool (bit_and attr 0x80)

-- `if (!obj_pixel || (indx != 0)) final_pixel = pixel;`
abbrev pub over : Option (ℕ × ℕ) → ℕ → ℕ → Option ℕ → Option ℕ
over none indx pixel final_pixel = some pixel
over (some o) indx pixel final_pixel = if indx == 0 then final_pixel else some pixel

abbrev pub pixel_of : Option (ℕ × ℕ) → Option ℕ
pixel_of none = none
pixel_of (some (obj_pixel, attr)) = some obj_pixel

-- `final_pixel` at the column `i + j`.
unfoldable pub final_pixel : Ppu → ℕ → ℕ → Option ℕ
unfolding obj_layer bg_indx in_window win_indx color
final_pixel s i j =
    let obj = obj_layer s (i + j) in
    let first = pixel_of obj in
    let second =
      if to_bool (bit_and s.regs.lcdc 1) && lets_through obj
      then over obj (bg_indx s i j) (color s.regs.bgp (bg_indx s i j)) first
      else first in
    if to_bool (bit_and s.regs.lcdc 0x20) && (lets_through obj && in_window s (i + j))
    then over obj (win_indx s (i + j)) (color s.regs.bgp (win_indx s (i + j))) second
    else second

-- `assert(x <= 160 && y <= 144)`, and the cell of `dmg_buf`.
unfoldable pub render_draw_pixel : Screen → ℕ → ℕ → Option ℕ → Screen
render_draw_pixel p x y pixel =
    if leb x 160 && leb y 144
    then record p { dmg_buf = λ k. if y * 160 + x == k then pixel else p.dmg_buf k }
    else record p { aborted = true }

-- The loop over `j`, with `n` rounds left.
unfoldable pub render_tile : ℕ → Ppu → ℕ → ℕ → Screen → Screen
render_tile zero s i j p = p
render_tile (suc n) s i j p =
    render_tile n s i (j + 1) (render_draw_pixel p (i + j) s.regs.ly (final_pixel s i j))

-- The loop over `i`, by 8 up to SCANLINE.
unfoldable pub render_tiles : ℕ → Ppu → ℕ → Screen → Screen
render_tiles zero s i p = p
render_tiles (suc n) s i p = render_tiles n s (i + 8) (render_tile 8 s i 0 p)

unfoldable pub ppu_render_line : Ppu → Screen → Screen
ppu_render_line s p = render_tiles 20 s 0 p
