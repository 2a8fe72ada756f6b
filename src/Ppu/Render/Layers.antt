-- ===== src/Ppu/Render/Layers.antt =====
-- About the background and the window of ppu_render_line() of emu/ppu.c: the picture of 256 by 256
-- pixels that a tile map makes, and how the layers lie on one another.
use realboy.Prelude.{
  ℕ, ◌+◌, ◌-◌, ◌*◌, ◌/◌, ◌%◌, ◌<◌, ◌≡◌, refl, ◌∙◌, arith, bit_and, ◌==◌, if◌then◌else◌, if-holds,
  to_bool, Bool, ◌&&◌, Option, some, none,
}
use realboy.Prelude.Bits.{bit_and_step}
use realboy.Prelude.Masks.{bit_and-low_byte}
use realboy.Machine.{Ppu}
use realboy.Machine.Valid.{PpuValid}
use realboy.Ppu.Tile.{color, get_tile_line, pixel_in_tile}
use realboy.Ppu.Tile.Pixels.{texel, tile_start, pixel-get_tile_line, bit_and-7, bit, flag_bit}
use realboy.Ppu.Render.{
  tile_map, pixel_of, lets_through, over, bg_indx, win_indx, in_window, obj_layer, final_pixel,
}

-- The pixel in the column `x` and the row `y` of the picture that a map of 32 by 32 tiles makes.
abbrev pub map_texel : Ppu → ℕ → ℕ → ℕ → ℕ
map_texel s flag x y =
    let at = tile_start s (tile_map s flag (y / 8 * 32 + x / 8)) + y % 8 * 2 in
    texel (s.tile_data at) (s.tile_data (at + 1)) x

texel_mod : (lo hi a b : ℕ) → a % 8 ≡ b % 8 → texel lo hi a ≡ texel lo hi b
unfolding texel
texel_mod lo hi a b e = rw e refl

bit_and-1023 : (a : ℕ) → bit_and a 0x3ff ≡ a % 1024
bit_and-1023 a =
    omega (arith, bit_and_step a 1023, bit_and_step (a / 2) 511, bit_and-low_byte (a / 2 / 2))

module _ (s : Ppu) (v : PpuValid s) where
  tile_map-lt : (flag i : ℕ) → tile_map s flag i < 256
  tile_map-lt flag i =
      if-holds (λ (t : ℕ). t < 256) (to_bool (bit_and s.regs.lcdc flag)) (s.tile_map2 i)
        (s.tile_map1 i) (v.map2_bytes i) (v.map1_bytes i)

  -- A pixel of a layer, where the code finds the tile at `i`, its line and the column.
  layer_pixel :
      (flag i line at x y : ℕ)
      → i ≡ y / 8 * 32 + x / 8
      → line ≡ y % 8
      → at % 8 ≡ x % 8
      → pixel_in_tile (get_tile_line s (tile_map s flag i) line) at ≡ map_texel s flag x y
  layer_pixel flag i line at x y e f g =
      rw (e, f)
        (pixel-get_tile_line s (tile_map s flag (y / 8 * 32 + x / 8)) (y % 8) at v.tile_bytes
            (tile_map-lt flag (y / 8 * 32 + x / 8))
          ∙ texel_mod _ _ at x g)

  pub bg_indx_lem :
      (c j : ℕ)
      → c < 20
      → j < 8
      → bg_indx s (c * 8) j
        ≡ map_texel s 8 ((c * 8 + j + s.regs.scx) % 256) ((s.regs.ly + s.regs.scy) % 256)
  unfolding bg_indx
  bg_indx_lem c j h k =
      let regs = s.regs in
      layer_pixel 8 _ _ _ ((c * 8 + j + regs.scx) % 256) ((regs.ly + regs.scy) % 256)
        (omega (
          arith,
          bit_and-1023 ((regs.ly + regs.scy) / 8 * 32),
          bit_and-low_byte (c * 8 + j + regs.scx),
        ))
        (omega (arith, bit_and-7 (regs.ly + regs.scy))) (omega (arith, bit_and-7 regs.scx))

  pub win_indx_lem :
      (x : ℕ) → win_indx s x ≡ map_texel s 0x40 (x + 7 - s.regs.wx) (s.regs.ly - s.regs.wy)
  unfolding win_indx
  win_indx_lem x =
      let regs = s.regs in
      let ly = v.regs_valid.ly_fits in
      layer_pixel 0x40 _ _ _ (x + 7 - regs.wx) (regs.ly - regs.wy)
        (omega (arith, bit_and-1023 ((regs.ly - regs.wy) / 8 * 32)))
        (omega (arith, bit_and-7 (regs.ly - regs.wy))) refl

-- A layer shows through where its index is 0.
abbrev pub opaque : Option ℕ → ℕ → Option ℕ → Option ℕ
opaque none palette below = below
opaque (some indx) palette below = if indx == 0 then below else some (color palette indx)

-- What is seen of an object, the window and the background, each of which may be missing. An object
-- is a colour and its attributes.
pub stacked : Option (ℕ × ℕ) → Option ℕ → Option ℕ → ℕ → Option ℕ
stacked none none none palette = none
stacked none none (some bg) palette = some (color palette bg)
stacked none (some win) bg palette = some (color palette win)
stacked (some (pixel, attr)) win bg palette =
    if bit 7 attr == 1 then opaque win palette (opaque bg palette (some pixel)) else some pixel

abbrev pub when : Bool → ℕ → Option ℕ
when b n = if b then some n else none

layered :
    (obj : Option (ℕ × ℕ)) (bg_on win_on inside : Bool) (bg win palette : ℕ)
    → (let first = pixel_of obj in
        let second =
          if bg_on && lets_through obj then over obj bg (color palette bg) first else first in
        if win_on && (lets_through obj && inside)
        then over obj win (color palette win) second
        else second)
      ≡ stacked obj (when (win_on && inside) win) (when bg_on bg) palette
unfolding stacked
layered none bg_on win_on inside bg win palette = ground arith
layered (some (pixel, attr)) bg_on win_on inside bg win palette = ground (arith, flag_bit 7 attr)

-- In a valid ppu, each of the 160 pixels of a line is what is seen of the object layer, the window
-- and the background there. These two, where they are on (the window where it covers the pixel),
-- are pixels of the pictures that their tile maps make: the background at the pixel moved by SCX
-- and SCY modulo 256, the window at its distance from WX and WY. An object that is not behind hides
-- both; behind one that is, the window where its index is not 0, else the background where its
-- index is not 0, hides it.
pub final_pixel-stacked :
    (s : Ppu) (c j : ℕ)
    → PpuValid s
    → c < 20
    → j < 8
    → final_pixel s (c * 8) j
      ≡ stacked
          (obj_layer s (c * 8 + j))
          (when
            (bit 5 s.regs.lcdc == 1 && in_window s (c * 8 + j))
            (map_texel s 0x40 (c * 8 + j + 7 - s.regs.wx) (s.regs.ly - s.regs.wy)))
          (when
            (bit 0 s.regs.lcdc == 1)
            (map_texel s 8 ((c * 8 + j + s.regs.scx) % 256) ((s.regs.ly + s.regs.scy) % 256)))
          s.regs.bgp
unfolding final_pixel
final_pixel-stacked s c j v h k =
    rw
      (
        bg_indx_lem s v c j h k,
        win_indx_lem s v (c * 8 + j),
        flag_bit 0 s.regs.lcdc,
        flag_bit 5 s.regs.lcdc,
      )
      (layered (obj_layer s (c * 8 + j)) (bit 0 s.regs.lcdc == 1) (bit 5 s.regs.lcdc == 1)
        (in_window s (c * 8 + j)) _ _ s.regs.bgp)
